-- ===== src/Util/Words.antt =====
-- Which words name which command.
use ifellsofuckinggood.Prelude.{
  ◌≡◌, ◌↔◌, refl, ap, ◌∙◌, sym, subst, Bytes, codes, bytes_eq, bytes_eq_sound, Bool, true, false,
  ◌||◌, ◌&&◌, some, List, [], ◌∷◌, All, Bool-cases, inl, inr, arith,
}
use ifellsofuckinggood.Util.{
  InputHandler, communication_cmd_table, find_cmd, handle_input_of_login, handle_input_of_logout,
  handle_input_of_regin, handle_input_of_ask_for_friend, handle_input_of_chose_talker,
  handle_input_of_show_friends, handle_input_of_show_requests, handle_input_of_acc_request,
  handle_input_of_show_my_self,
}

-- The spellings of a command.
abbrev pub words : InputHandler → List Bytes
words handle_input_of_login = codes "LOGIN" ∷ codes "Login" ∷ codes "li" ∷ codes "login" ∷ []
words handle_input_of_logout = codes "LOGOUT" ∷ codes "Logout" ∷ codes "lo" ∷ codes "logout" ∷ []
words handle_input_of_regin = codes "REGIN" ∷ codes "Regin" ∷ codes "regin" ∷ codes "rg" ∷ []
words handle_input_of_ask_for_friend = codes "Add" ∷ codes "ad" ∷ codes "add" ∷ []
words handle_input_of_chose_talker = codes "CHOSE" ∷ codes "Chose" ∷ codes "ch" ∷ codes "chose" ∷ []
words handle_input_of_show_friends =
    codes "ShowFriends" ∷ codes "sf" ∷ codes "showFriends" ∷ codes "showfriends" ∷ []
words handle_input_of_show_requests =
    codes "SHOWREQUESTS"
    ∷ codes "ShowRequests"
    ∷ codes "showRequests"
    ∷ codes "showrequests"
    ∷ codes "sr"
    ∷ []
words handle_input_of_acc_request =
    codes "ACCEPTREQUEST"
    ∷ codes "Acceptrequest"
    ∷ codes "acceptRequest"
    ∷ codes "acceptrequest"
    ∷ codes "ar"
    ∷ []
words handle_input_of_show_my_self = codes "Me" ∷ codes "me" ∷ []

unfoldable pub listed : Bytes → List Bytes → Bool
listed word [] = false
listed word (w ∷ ws) = bytes_eq word w || listed word ws

all_listed : List (Bytes × InputHandler) → Bool
all_listed [] = true
all_listed ((w, h) ∷ rest) = listed w (words h) && all_listed rest

table_listed : all_listed communication_cmd_table ≡ true
unfolding all_listed listed bytes_eq
table_listed = refl

listed-find_cmd :
    (word : Bytes) (h : InputHandler) (table : List (Bytes × InputHandler))
    → all_listed table ≡ true
    → find_cmd word table ≡ some h
    → listed word (words h) ≡ true
unfolding all_listed find_cmd
listed-find_cmd word h [] ok found = cc
listed-find_cmd word h ((w, g) ∷ rest) ok found = elim (Bool-cases (bytes_eq word w)) [
  | inl e ↦
      let a = bytes_eq_sound word w e in
      let b : g ≡ h = ground arith in
      let k : listed w (words g) ≡ true = ground arith in
      subst (λ x. listed x (words h) ≡ true) (sym a) (subst (λ x. listed w (words x) ≡ true) b k)
  | inr e ↦ listed-find_cmd word h rest (ground arith) (ground arith)
]

words_found : (h : InputHandler) → All (λ w. find_cmd w communication_cmd_table ≡ some h) (words h)
unfolding find_cmd bytes_eq
words_found handle_input_of_login = (refl, (refl, (refl, (refl, tt))))
words_found handle_input_of_logout = (refl, (refl, (refl, (refl, tt))))
words_found handle_input_of_regin = (refl, (refl, (refl, (refl, tt))))
words_found handle_input_of_ask_for_friend = (refl, (refl, (refl, tt)))
words_found handle_input_of_chose_talker = (refl, (refl, (refl, (refl, tt))))
words_found handle_input_of_show_friends = (refl, (refl, (refl, (refl, tt))))
words_found handle_input_of_show_requests = (refl, (refl, (refl, (refl, (refl, tt)))))
words_found handle_input_of_acc_request = (refl, (refl, (refl, (refl, (refl, tt)))))
words_found handle_input_of_show_my_self = (refl, (refl, tt))

find_cmd-listed :
    (word : Bytes) (h : InputHandler) (ws : List Bytes)
    → All (λ w. find_cmd w communication_cmd_table ≡ some h) ws
    → listed word ws ≡ true
    → find_cmd word communication_cmd_table ≡ some h
unfolding listed
find_cmd-listed word h [] a l = cc
find_cmd-listed word h (w ∷ ws) a l = elim (Bool-cases (bytes_eq word w)) [
  | inl e ↦ ap (λ x. find_cmd x communication_cmd_table) (bytes_eq_sound word w e) ∙ a.0
  | inr e ↦ find_cmd-listed word h ws a.1 (ground arith)
]

-- The scan of the table gives a command for exactly its spellings.
pub find_cmd-words :
    (word : Bytes) (h : InputHandler)
    → (find_cmd word communication_cmd_table ≡ some h) ↔ (listed word (words h) ≡ true)
find_cmd-words word h = (
  listed-find_cmd word h communication_cmd_table table_listed,
  find_cmd-listed word h (words h) (words_found h),
)
