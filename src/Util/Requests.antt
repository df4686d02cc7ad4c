-- ===== src/Util/Requests.antt =====
-- Typed friend requests and talks.
use ifellsofuckinggood.Prelude.{
  ◌≡◌, ap, ◌∙◌, minus_one, pos, Bytes, before_nul, before_nul-NulFree, true, some, List, ◌∷◌, ◌++◌,
  length, lt→leb, returned, arith, inl, inr,
}
use ifellsofuckinggood.MyEnum.{msg_code, msg_ask_for_friend, msg_talk}
use ifellsofuckinggood.TransObj.{
  TransObj, IsSized, max_trans_msg_len, name_max_len, new_full, set_msg, get_msg,
}
use ifellsofuckinggood.TransObj.Text.{set_msg-reads, set_msg-IsSized}
use ifellsofuckinggood.Player.{Archive}
use ifellsofuckinggood.HandleMsg.Client.{Client}
use ifellsofuckinggood.IoManger.{try_login_first}
use ifellsofuckinggood.Util.{
  handle_input_of_ask_for_friend, get_msg_from_input, handle_input, ask_for_friend_input,
  logined_only, friend_msg, from_parts, talk_input,
}
use ifellsofuckinggood.Util.Words.{words, listed}
use ifellsofuckinggood.Util.Typed.{Free, Splits, IsTypeable, get_msg_from_input-typed}

-- A friend request, but for its text.
abbrev pub request_header : TransObj → TransObj
request_header junk =
    new_full junk minus_one minus_one (msg_code msg_ask_for_friend) max_trans_msg_len minus_one

-- A talk, but for its text, and with the text of a line.
abbrev pub talk_header : TransObj → TransObj
talk_header junk = new_full junk (pos 1) (pos 1) (msg_code msg_talk) 1 (pos 1)

abbrev pub talk_of : TransObj → Bytes → TransObj
talk_of junk line = (set_msg (before_nul line) (talk_header junk)).1

module _ {F : Type 0} (arc : Archive F) (split : Bytes → Bytes → List Bytes) (splits : Splits split)
    (junk : TransObj) where
  -- A logged-in user who types a friend request sends the name that is asked for, without an identity.
  pub friend_request-typed :
      (word name : Bytes) (c : Client F)
      → c.player.logined ≡ true
      → listed word (words handle_input_of_ask_for_friend) ≡ true
      → Free b'@' word
      → IsTypeable name_max_len name
      → IsSized junk
      → (o : TransObj) × (get_msg_from_input arc split junk (word ++ b'@' ∷ name) c
          ≡ returned (some o, c))
        × (get_msg o ≡ some name)
        × IsSized o
        × (record (request_header junk) { msg = o.msg } ≡ o)
  unfolding handle_input ask_for_friend_input logined_only try_login_first friend_msg new_full
  friend_request-typed word name c login l f n sized =
      let r = set_msg-reads name (request_header junk) sized n.nul_free in
      let typed =
        get_msg_from_input-typed arc split splits junk word name handle_input_of_ask_for_friend c l
          f n.at_free in
      (
        (set_msg name (request_header junk)).1,
        typed
            ∙ simp (login, lt→leb (length name) name_max_len n.short)
                (ap (λ t. returned (some (set_msg t (request_header junk)).1, c))
                  (before_nul-NulFree name n.nul_free)),
        elim r.0 [ inl h ↦ h.2 | inr h ↦ absurd (omega (arith, h.0, n.short)) ],
        set_msg-IsSized name (request_header junk) sized,
        r.1,
      )

  -- A line without the separator is a talk.
  pub talk-typed :
      (line : Bytes) (c : Client F)
      → c.player.logined ≡ true
      → Free b'@' line
      → get_msg_from_input arc split junk line c ≡ returned (some (talk_of junk line), c)
  unfolding get_msg_from_input from_parts talk_input logined_only try_login_first
  talk-typed line c login f = simp (splits.whole b'@' line f, login)
