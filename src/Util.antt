-- ===== src/Util.antt =====
-- smer/Util/src/Util.cpp and smer/Util/inc/Util.h: the commands that the user types, as in
-- `login@name|password`. boost::split is a parameter, `split`; a new message takes from `junk`, what
-- the memory held before, the fields that its constructor leaves. A null message is `none`.
pub mod Words
pub mod Typed
pub mod Refused
pub mod Requests
pub mod Split
mod Tests
use ifellsofuckinggood.Prelude.{
  ℕ, ◌-◌, ℤ, pos, minus_one, Bytes, codes, to_string, atoi, bytes_eq, before_nul, Bool, true, false,
  Option, none, some, List, [], ◌∷◌, ◌++◌, ltb, leb, ◌||◌, if◌then◌else◌, length, Outcome, returned,
  thrown, undefined,
}
use ifellsofuckinggood.MyEnum.{
  msg_code, msg_talk, msg_reg, msg_login, msg_logout, msg_ask_for_friend, msg_ask_for_friend_accept,
  sys_msg_code, sys_show_friends_msg, sys_show_ask_for_friend_req,
}
use ifellsofuckinggood.TransObj.{
  TransObj, max_trans_msg_len, name_max_len, password_max_len, new_full, set_msg_type, set_msg,
  set_name_passwd, get_msg,
}
use ifellsofuckinggood.ConcList.{get_one_request}
use ifellsofuckinggood.Player.{Player, Archive, Disk, set_talker_name, add_friend}
use ifellsofuckinggood.HandleMsg.Client.{SystemMsgObj, Client, put_sys_msg, put_output}
use ifellsofuckinggood.SysManger.{contains_req_idx}
use ifellsofuckinggood.IoManger.{try_login_first}

pub data InputHandler : Type 0 where
  handle_input_of_login handle_input_of_logout handle_input_of_regin : InputHandler
  handle_input_of_ask_for_friend handle_input_of_chose_talker handle_input_of_show_friends :
      InputHandler
  handle_input_of_show_requests handle_input_of_acc_request handle_input_of_show_my_self :
      InputHandler

abbrev pub communication_cmd_table : List (Bytes × InputHandler)
communication_cmd_table =
    (codes "li", handle_input_of_login)
    ∷ (codes "login", handle_input_of_login)
    ∷ (codes "Login", handle_input_of_login)
    ∷ (codes "LOGIN", handle_input_of_login)
    ∷ (codes "lo", handle_input_of_logout)
    ∷ (codes "logout", handle_input_of_logout)
    ∷ (codes "Logout", handle_input_of_logout)
    ∷ (codes "LOGOUT", handle_input_of_logout)
    ∷ (codes "rg", handle_input_of_regin)
    ∷ (codes "regin", handle_input_of_regin)
    ∷ (codes "Regin", handle_input_of_regin)
    ∷ (codes "REGIN", handle_input_of_regin)
    ∷ (codes "ad", handle_input_of_ask_for_friend)
    ∷ (codes "add", handle_input_of_ask_for_friend)
    ∷ (codes "Add", handle_input_of_ask_for_friend)
    ∷ (codes "ch", handle_input_of_chose_talker)
    ∷ (codes "chose", handle_input_of_chose_talker)
    ∷ (codes "Chose", handle_input_of_chose_talker)
    ∷ (codes "CHOSE", handle_input_of_chose_talker)
    ∷ (codes "sf", handle_input_of_show_friends)
    ∷ (codes "showfriends", handle_input_of_show_friends)
    ∷ (codes "showFriends", handle_input_of_show_friends)
    ∷ (codes "ShowFriends", handle_input_of_show_friends)
    ∷ (codes "sr", handle_input_of_show_requests)
    ∷ (codes "showrequests", handle_input_of_show_requests)
    ∷ (codes "showRequests", handle_input_of_show_requests)
    ∷ (codes "ShowRequests", handle_input_of_show_requests)
    ∷ (codes "SHOWREQUESTS", handle_input_of_show_requests)
    ∷ (codes "ar", handle_input_of_acc_request)
    ∷ (codes "acceptrequest", handle_input_of_acc_request)
    ∷ (codes "acceptRequest", handle_input_of_acc_request)
    ∷ (codes "Acceptrequest", handle_input_of_acc_request)
    ∷ (codes "ACCEPTREQUEST", handle_input_of_acc_request)
    ∷ (codes "Me", handle_input_of_show_my_self)
    ∷ (codes "me", handle_input_of_show_my_self)
    ∷ []

-- The loop over the table, up to the first entry of the word.
unfoldable pub find_cmd : Bytes → List (Bytes × InputHandler) → Option InputHandler
find_cmd word [] = none
find_cmd word ((w, h) ∷ rest) = if bytes_eq word w then some h else find_cmd word rest

-- The parts of a name with its password, where there are two and both fit.
unfoldable pub name_and_pwd : List Bytes → Option (Bytes × Bytes)
name_and_pwd (name ∷ passwd ∷ []) =
    if ltb (name_max_len - 1) (length name) || ltb (password_max_len - 1) (length passwd)
    then none
    else some (name, passwd)
name_and_pwd _ = none

-- A call's message and what it leaves of the client.
abbrev pub InputResult : Type 0 → Type 0
InputResult F = Outcome (Option TransObj × Client F)

module _ {F : Type 0} (arc : Archive F) (split : Bytes → Bytes → List Bytes) (junk : TransObj) where
  -- What follows tryLoginFirst.
  logined_only : Client F → (Client F → InputResult F) → InputResult F
  unfolding try_login_first
  logined_only c k =
      let (refused, c') = try_login_first arc c in if refused then returned (none, c') else k c'

  pub with_credentials : Option (Bool × TransObj) → Client F → InputResult F
  with_credentials none c = undefined
  with_credentials (some (true, o)) c = returned (some o, c)
  with_credentials (some (false, o)) c = returned (none, c)

  pub credentials_msg : ℕ → Option (Bytes × Bytes) → Client F → InputResult F
  unfolding with_credentials
  credentials_msg msg_type none c = returned (none, c)
  credentials_msg msg_type (some (name, passwd)) c =
      with_credentials
        (set_name_passwd (before_nul name) (before_nul passwd)
          (new_full junk minus_one minus_one msg_type max_trans_msg_len minus_one))
        c

  login_input : Bytes → Client F → InputResult F
  unfolding credentials_msg
  login_input input c =
      credentials_msg (msg_code msg_login) (name_and_pwd (split input (codes "|"))) c

  regin_input : Bytes → Client F → InputResult F
  unfolding credentials_msg
  regin_input input c =
      credentials_msg (msg_code msg_reg) (name_and_pwd (split input (codes "|"))) c

  logout_input : Bytes → Client F → InputResult F
  unfolding logined_only
  logout_input input c = logined_only c λ c'. returned (
    some (
        set_msg_type (msg_code msg_logout)
          (new_full junk minus_one minus_one (msg_code msg_logout) 4294967295 minus_one)),
    c',
  )

  friend_msg : Bytes → TransObj
  friend_msg input =
      (set_msg (before_nul input) (
        new_full junk minus_one minus_one (msg_code msg_ask_for_friend) max_trans_msg_len
          minus_one)).1

  ask_for_friend_input : Bytes → Client F → InputResult F
  unfolding logined_only friend_msg
  ask_for_friend_input input c = logined_only c λ c'.
      if leb name_max_len (length input)
      then returned (none, c')
      else returned (some (friend_msg input), c')

  chose_talker_input : Bytes → Client F → InputResult F
  unfolding logined_only friend_msg
  chose_talker_input input c = logined_only c λ c'.
      if leb name_max_len (length input)
      then returned (none, c')
      else returned
          (some (friend_msg input), record c' { player = set_talker_name input c'.player })

  put_notice : ℕ → Client F → Client F
  put_notice t c = put_sys_msg (record { msg_type = t; sys_msg = none }) c

  show_friends_input : Bytes → Client F → InputResult F
  unfolding logined_only put_notice
  show_friends_input input c =
      logined_only c λ c'. returned (none, put_notice (sys_msg_code sys_show_friends_msg) c')

  show_requests_input : Bytes → Client F → InputResult F
  unfolding logined_only put_notice
  show_requests_input input c =
      logined_only c λ c'. returned (none, put_notice (sys_msg_code sys_show_ask_for_friend_req) c')

  -- What addFriend returns is not read.
  befriending : TransObj → Client F → Outcome (Bool × Player × Disk F) → InputResult F
  befriending obj c (returned (ok, p, d)) = returned (some obj, record c { player = p; disk = d })
  befriending obj c thrown = thrown
  befriending obj c undefined = undefined

  accepting : TransObj → Option Bytes → Client F → InputResult F
  unfolding befriending
  accepting req none c = undefined
  accepting req (some name) c =
      let obj =
        new_full junk c.player.data'.id req.id (msg_code msg_ask_for_friend_accept)
          max_trans_msg_len minus_one in
      let c' = put_output arc (codes "Your command of accept the request have been send \n") c in
      befriending obj c' (add_friend arc name req.id c'.player c'.disk)

  request_found : Option (Option TransObj) → Client F → InputResult F
  unfolding accepting
  request_found none c = undefined
  request_found (some none) c =
      returned (none, put_output arc (codes "Your command of accept the request send err \n") c)
  request_found (some (some req)) c = accepting req (get_msg req) c

  acc_request_input : Bytes → Client F → InputResult F
  unfolding logined_only request_found
  acc_request_input input c = logined_only c λ c'.
      if contains_req_idx (atoi (before_nul input)) c'.req_buff
      then request_found (get_one_request (atoi (before_nul input)) c'.req_buff) c'
      else returned (
        none,
        put_output arc
            (codes "Your input number of accepted request id not exists ==> "
              ++ (input ++ codes " \n"))
            c',
      )

  show_my_self_input : Bytes → Client F → InputResult F
  show_my_self_input input c =
      let me = c.player.data' in
      returned (
        none,
        put_output arc
            (codes "Your info:  \n"
              ++ (codes "id: "
                  ++ (to_string me.id
                      ++ (codes " \nname: "
                          ++ (me.name ++ (codes " \npasswd: " ++ (me.password ++ codes " \n")))))))
            c,
      )

  unfoldable pub handle_input : InputHandler → Bytes → Client F → InputResult F
  unfolding login_input logout_input regin_input ask_for_friend_input chose_talker_input
      show_friends_input show_requests_input acc_request_input show_my_self_input
  handle_input handle_input_of_login input c = login_input input c
  handle_input handle_input_of_logout input c = logout_input input c
  handle_input handle_input_of_regin input c = regin_input input c
  handle_input handle_input_of_ask_for_friend input c = ask_for_friend_input input c
  handle_input handle_input_of_chose_talker input c = chose_talker_input input c
  handle_input handle_input_of_show_friends input c = show_friends_input input c
  handle_input handle_input_of_show_requests input c = show_requests_input input c
  handle_input handle_input_of_acc_request input c = acc_request_input input c
  handle_input handle_input_of_show_my_self input c = show_my_self_input input c

  -- A length out of range is only logged.
  talk_input : Bytes → Client F → InputResult F
  unfolding logined_only
  talk_input input c = logined_only c λ c'. returned (
    some
        (set_msg (before_nul input)
          (new_full junk (pos 1) (pos 1) (msg_code msg_talk) 1 (pos 1))).1,
    c',
  )

  on_cmd : Option InputHandler → Bytes → Client F → InputResult F
  unfolding handle_input
  on_cmd none cmd c = returned (none, c)
  on_cmd (some h) cmd c = handle_input h cmd c

  from_parts : Bytes → List Bytes → Client F → InputResult F
  unfolding talk_input on_cmd find_cmd
  from_parts input [] c = returned (none, c)
  from_parts input (text ∷ []) c = talk_input input c
  from_parts input (word ∷ cmd ∷ []) c = on_cmd (find_cmd word communication_cmd_table) cmd c
  from_parts input (word ∷ cmd ∷ more ∷ rest) c = returned (none, c)

  -- Util::getMsgFromInput
  unfoldable pub get_msg_from_input : Bytes → Client F → InputResult F
  unfolding from_parts
  get_msg_from_input input c = from_parts input (split input (codes "@")) c
