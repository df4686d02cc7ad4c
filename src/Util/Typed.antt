-- ===== src/Util/Typed.antt =====
-- What typed commands send.
use ifellsofuckinggood.Prelude.{
  ℕ, ◌≡◌, ◌≢◌, ◌<◌, refl, ap, ◌∙◌, pos, minus_one, Bytes, codes, to_string, atoi, atoi-to_string,
  NulFree-to_string, before_nul, before_nul-NulFree, NulFree, PercentFree, true, Option, none, some,
  List, [], ◌∷◌, ◌++◌, All, le→ltb, get_elem?, length, returned, arith,
}
use ifellsofuckinggood.MyEnum.{MsgType, msg_code, msg_reg, msg_login, msg_ask_for_friend_accept}
use ifellsofuckinggood.TransObj.{
  TransObj, IsSized, max_trans_msg_len, name_max_len, password_max_len, new_full, get_name,
  get_passwd, get_msg,
}
use ifellsofuckinggood.TransObj.Text.{set_name_passwd-reads}
use ifellsofuckinggood.ConcList.{get_one_request, get_size, element_at}
use ifellsofuckinggood.ConcList.Size.{IsCounted, get_one_request-IsCounted}
use ifellsofuckinggood.Player.{Archive, max_friends_num, find, save_player_data}
use ifellsofuckinggood.Player.Map.{add_friend-found}
use ifellsofuckinggood.HandleMsg.Client.{Client, put_output}
use ifellsofuckinggood.SysManger.{contains_req_idx}
use ifellsofuckinggood.Util.{
  InputHandler, handle_input_of_login, handle_input_of_regin, handle_input_of_acc_request,
  name_and_pwd, get_msg_from_input, from_parts, on_cmd, handle_input, login_input, regin_input,
  credentials_msg, with_credentials, acc_request_input, logined_only, request_found, accepting,
  befriending,
}
use ifellsofuckinggood.Util.Words.{words, listed, find_cmd-words}

-- A text without the byte.
abbrev pub Free : ℕ → Bytes → Type 0
Free c = All (λ b. b ≢ c)

-- boost::split at one separator: a text without it is one part, and a part ends at the first.
pub record Splits (split : Bytes → Bytes → List Bytes) : Type 0 where
  pub whole : (c : ℕ) (t : Bytes) → Free c t → split t (c ∷ []) ≡ t ∷ []
  pub first :
      (c : ℕ) (t rest : Bytes) → Free c t → split (t ++ c ∷ rest) (c ∷ []) ≡ t ∷ split rest (c ∷ [])

-- A name or a password that can be typed, sent and stored: below the limit and without `@`, `|`, a
-- percent sign or a NUL.
pub record IsTypeable (limit : ℕ) (t : Bytes) : Type 0 where
  pub short : length t < limit
  pub at_free : Free b'@' t
  pub bar_free : Free b'|' t
  pub percent_free : PercentFree t
  pub nul_free : NulFree t

-- The two commands with a name and a password.
abbrev pub credentials_type : InputHandler → Option MsgType
credentials_type handle_input_of_login = some msg_login
credentials_type handle_input_of_regin = some msg_reg
credentials_type _ = none

All-append : (c : ℕ) (s t : Bytes) → Free c s → Free c t → Free c (s ++ t)
All-append c [] t h k = k
All-append c (x ∷ s) t h k = (h.0, All-append c s t h.1 k)

module _ {F : Type 0} (arc : Archive F) (split : Bytes → Bytes → List Bytes) (splits : Splits split)
    (junk : TransObj) where
  -- A command word that is followed by its argument.
  pub get_msg_from_input-typed :
      (word cmd : Bytes) (h : InputHandler) (c : Client F)
      → listed word (words h) ≡ true
      → Free b'@' word
      → Free b'@' cmd
      → get_msg_from_input arc split junk (word ++ b'@' ∷ cmd) c
        ≡ handle_input arc split junk h cmd c
  unfolding get_msg_from_input from_parts on_cmd
  get_msg_from_input-typed word cmd h c l f g =
      rw (splits.first b'@' word cmd f, splits.whole b'@' cmd g, (find_cmd-words word h).1 l)

  split_credentials :
      (name passwd : Bytes)
      → IsTypeable name_max_len name
      → IsTypeable password_max_len passwd
      → name_and_pwd (split (name ++ b'|' ∷ passwd) (codes "|")) ≡ some (name, passwd)
  unfolding name_and_pwd
  split_credentials name passwd n p =
      rw
        (
          splits.first b'|' name passwd n.bar_free,
          splits.whole b'|' passwd p.bar_free,
          le→ltb (length name) 23 (omega (arith, n.short)),
          le→ltb (length passwd) 39 (omega (arith, p.short)),
        )
        refl

  credentials_msg-sent :
      (t : ℕ) (name passwd : Bytes) (c : Client F)
      → IsSized junk
      → IsTypeable name_max_len name
      → IsTypeable password_max_len passwd
      → let blank = new_full junk minus_one minus_one t max_trans_msg_len minus_one in
        (o : TransObj) × (credentials_msg arc split junk t (some (name, passwd)) c
          ≡ returned (some o, c))
        × (get_name o ≡ some name)
        × (get_passwd o ≡ some passwd)
        × IsSized o
        × (record blank { msg = o.msg } ≡ o)
  unfolding credentials_msg with_credentials new_full
  credentials_msg-sent t name passwd c sized n p =
      let blank = new_full junk minus_one minus_one t max_trans_msg_len minus_one in
      let r =
        set_name_passwd-reads name passwd blank sized n.short p.short n.percent_free p.percent_free
          n.nul_free p.nul_free in
      (
        r.0,
        rw (before_nul-NulFree name n.nul_free, before_nul-NulFree passwd p.nul_free, r.1) refl,
        r.2,
        r.3,
        r.4,
        r.5,
      )

  handle_input-credentials :
      (h : InputHandler) (t : MsgType) (name passwd : Bytes) (c : Client F)
      → credentials_type h ≡ some t
      → IsTypeable name_max_len name
      → IsTypeable password_max_len passwd
      → handle_input arc split junk h (name ++ b'|' ∷ passwd) c
        ≡ credentials_msg arc split junk (msg_code t) (some (name, passwd)) c
  unfolding handle_input login_input regin_input
  handle_input-credentials handle_input_of_login t name passwd c e n p =
      rw (split_credentials name passwd n p) (
        let q : msg_login ≡ t = ground arith in
        ap (λ u. credentials_msg arc split junk (msg_code u) (some (name, passwd)) c) q)
  handle_input-credentials handle_input_of_regin t name passwd c e n p =
      rw (split_credentials name passwd n p) (
        let q : msg_reg ≡ t = ground arith in
        ap (λ u. credentials_msg arc split junk (msg_code u) (some (name, passwd)) c) q)
  handle_input-credentials _ t name passwd c e n p = cc

  -- A login or a registration that is typed in any spelling of its word, with a name below 24 and a
  -- password below 40 bytes that hold neither of the separators, a percent sign nor a NUL, makes a
  -- message of its type that reads back as that name and that password, with no identity and no
  -- address; the client is unchanged.
  pub credentials-typed :
      (h : InputHandler) (t : MsgType) (word name passwd : Bytes) (c : Client F)
      → credentials_type h ≡ some t
      → listed word (words h) ≡ true
      → Free b'@' word
      → IsTypeable name_max_len name
      → IsTypeable password_max_len passwd
      → IsSized junk
      → (o : TransObj) × (get_msg_from_input arc split junk
            (word ++ b'@' ∷ (name ++ b'|' ∷ passwd))
            c
          ≡ returned (some o, c))
        × (get_name o ≡ some name)
        × (get_passwd o ≡ some passwd)
        × IsSized o
        × (record (new_full junk minus_one minus_one (msg_code t) max_trans_msg_len minus_one) {
          msg = o.msg;
        }
            ≡ o)
  credentials-typed h t word name passwd c e l f n p sized =
      let r = credentials_msg-sent (msg_code t) name passwd c sized n p in
      (
        r.0,
        get_msg_from_input-typed word (name ++ b'|' ∷ passwd) h c l f
              (All-append b'@' name (b'|' ∷ passwd) n.at_free (ground arith, p.at_free))
            ∙ handle_input-credentials h t name passwd c e n p
            ∙ r.1,
        r.2,
        r.3,
        r.4,
        r.5,
      )

  -- A logged-in user who types the number of a stored request, with its text not yet a friend's name
  -- and room for another friend, sends an acceptance from the own identity to that of the request, and
  -- has that identity under that name from then on. The request stays in the list.
  pub acc_request-typed :
      (i : ℕ) (req : TransObj) (c : Client F) {name : Bytes}
      → c.player.logined ≡ true
      → IsCounted c.req_buff
      → get_elem? c.req_buff.elems i ≡ some req
      → i < length c.req_buff.elems
      → get_msg req ≡ some name
      → find name c.player.friends ≡ none
      → length c.player.friends < max_friends_num
      → (c' : Client F) × (handle_input arc split junk handle_input_of_acc_request
            (to_string (pos i))
            c
          ≡ returned (
            some (
                new_full junk c.player.data'.id req.id
                  (msg_code msg_ask_for_friend_accept)
                  max_trans_msg_len
                  minus_one),
            c',
          ))
        × (find name c'.player.friends ≡ some (some req.id))
        × (c'.req_buff ≡ c.req_buff)
  unfolding handle_input acc_request_input logined_only request_found accepting befriending
      put_output
  acc_request-typed i req c {name} login counted at below text fresh room =
      let f = add_friend-found arc name c.player c.disk req.id name fresh room in
      let known : contains_req_idx (pos i) c.req_buff ≡ true =
        unfold contains_req_idx get_size in ground arith in
      let got : get_one_request (pos i) c.req_buff ≡ some (some req) =
        get_one_request-IsCounted c.req_buff (pos i) counted ∙ (unfold element_at in ap some at) in
      let index : atoi (before_nul (to_string (pos i))) ≡ pos i =
        ap atoi (before_nul-NulFree (to_string (pos i)) (NulFree-to_string i))
        ∙ atoi-to_string (pos i) in
      (
        record (put_output arc (codes "Your command of accept the request have been send \n") c) {
          player = f.0;
          disk = (save_player_data arc f.0 c.disk).1;
        },
        simp (login, index, known, got, text, f.1),
        f.2,
        refl,
      )
