-- ===== src/HandleMsg/Client.antt =====
-- The client's side of smer/HandleMsg/src/HandleMsg.cpp: what each message does to the player, to the
-- list of requests and to the queue of system messages.
use ifellsofuckinggood.Prelude.{
  ℕ, Bytes, codes, to_string, Bool, true, false, Option, none, some, List, [], ◌∷◌, ◌++◌, leb,
  length, if◌then◌else◌, Outcome, returned, thrown, undefined,
}
use ifellsofuckinggood.MyEnum.{sys_msg_code, sys_output_msg}
use ifellsofuckinggood.TransObj.{TransObj, name_max_len, get_name, get_passwd, get_msg}
use ifellsofuckinggood.ConcList.{ConcList, push_back}
use ifellsofuckinggood.Player.{
  Player, Archive, Disk, set_player_login, save_player_data, add_friend,
}
use ifellsofuckinggood.HandleMsg.{
  Handler, handle_user_send_msg, handle_user_reg_refused_msg, handle_user_reg_accepted_msg,
  handle_user_log_refused_msg, handle_user_log_accepted_msg, handle_ask_for_friend_msg,
  handle_ask_for_friend_not_found_msg, handle_ask_for_friend_accept_msg, msg_handle, find_handler,
}

pub record SystemMsgObj : Type 0 where
  pub msg_type : ℕ
  pub sys_msg : Option Bytes

pub record Client (F : Type 0) : Type 0 where
  pub player : Player
  pub disk : Disk F
  pub sys_buff : List SystemMsgObj
  pub rcv_buff : List TransObj
  pub req_buff : ConcList TransObj
  pub output_msg : List Bytes

-- SeqToBin::putSysMsg
abbrev pub put_sys_msg : {F : Type 0} → SystemMsgObj → Client F → Client F
put_sys_msg m c = record c { sys_buff = c.sys_buff ++ m ∷ [] }

module _ {F : Type 0} (arc : Archive F) where
  -- A system message with a text to show.
  unfoldable pub put_output : Bytes → Client F → Client F
  put_output text c =
      put_sys_msg (record { msg_type = sys_msg_code sys_output_msg; sys_msg = some text }) c

  -- A text of the object that is read, and what follows.
  reading : Option Bytes → (Bytes → Outcome (Client F)) → Outcome (Client F)
  reading none k = undefined
  reading (some t) k = k t

  logged_in : TransObj → Bytes → Bytes → Client F → Client F
  logged_in obj name passwd c =
      let p = set_player_login obj.id name passwd c.player in
      put_output (codes "you have login in success!\n")
        (record c { player = p; disk = (save_player_data arc p c.disk).1 })

  accepted_by : Bytes → Client F → Outcome (Bool × Player × Disk F) → Outcome (Client F)
  accepted_by name c (returned (true, p, d)) = returned (
      put_output (codes "Your ask friend request had been accepted from " ++ (name ++ codes "\n"))
        (record c { player = p; disk = d }))
  accepted_by name c (returned (false, p, d)) = returned (record c { player = p; disk = d })
  accepted_by name c thrown = thrown
  accepted_by name c undefined = undefined

  befriended : TransObj → Client F → Bytes → Outcome (Client F)
  unfolding accepted_by
  befriended obj c name =
      if leb name_max_len (length name)
      then returned c
      else accepted_by name c (add_friend arc name obj.id c.player c.disk)

  show_talk : TransObj → Client F → Outcome (Client F)
  unfolding reading
  show_talk obj c = reading (get_msg obj) λ msg. returned (
      put_output
        (codes "You just got message from "
          ++ (to_string obj.id ++ (codes " :\n" ++ (msg ++ codes " \n"))))
        c)

  show_reg_refused : TransObj → Client F → Outcome (Client F)
  unfolding reading
  show_reg_refused obj c = reading (get_msg obj) λ msg. returned (put_output msg c)

  set_registered : TransObj → Client F → Outcome (Client F)
  set_registered obj c = returned (
      put_output (codes "Regin success!\n")
        (record c { player = record c.player { data' = record c.player.data' { id = obj.id } } }))

  show_log_refused : TransObj → Client F → Outcome (Client F)
  unfolding reading
  show_log_refused obj c = reading (get_msg obj) λ msg. returned (put_output msg c)

  set_logged_in : TransObj → Client F → Outcome (Client F)
  unfolding reading logged_in
  set_logged_in obj c =
      reading (get_name obj)
        λ name. reading (get_passwd obj) λ passwd. returned (logged_in obj name passwd c)

  store_request : TransObj → Client F → Outcome (Client F)
  unfolding reading
  store_request obj c = reading (get_msg obj) λ name.
      returned (record (put_output (codes "You have a request from " ++ name) c) {
        req_buff = push_back obj c.req_buff;
      })

  show_not_found : TransObj → Client F → Outcome (Client F)
  unfolding reading
  show_not_found obj c = reading (get_msg obj) λ name.
      returned (put_output (codes "the friend you asked " ++ (name ++ codes " do not exists!\n")) c)

  add_accepted : TransObj → Client F → Outcome (Client F)
  unfolding reading befriended
  add_accepted obj c = reading (get_name obj) (befriended obj c)

  unfoldable pub client_handler : Handler → TransObj → Client F → Outcome (Client F)
  unfolding show_talk show_reg_refused set_registered show_log_refused set_logged_in store_request
      show_not_found add_accepted
  client_handler handle_user_send_msg obj c = show_talk obj c
  client_handler handle_user_reg_refused_msg obj c = show_reg_refused obj c
  client_handler handle_user_reg_accepted_msg obj c = set_registered obj c
  client_handler handle_user_log_refused_msg obj c = show_log_refused obj c
  client_handler handle_user_log_accepted_msg obj c = set_logged_in obj c
  client_handler handle_ask_for_friend_msg obj c = store_request obj c
  client_handler handle_ask_for_friend_not_found_msg obj c = show_not_found obj c
  client_handler handle_ask_for_friend_accept_msg obj c = add_accepted obj c
  client_handler _ obj c = returned c

  -- MsgHandler::handle on the client.
  unfoldable pub client_handle : TransObj → Client F → Outcome (Client F)
  unfolding find_handler client_handler
  client_handle obj c = elim (find_handler obj.msg_type msg_handle) [
    | none ↦ returned c
    | some h ↦ client_handler h obj c
  ]
