-- ===== src/HandleMsg.antt =====
-- smer/HandleMsg/src/HandleMsg.cpp: what follows when a message has come in. This file has the table
-- and the server's side up to the tasks that the handlers give to the thread pool; `Server` has the
-- tasks. Log lines are left out.
pub mod Server
pub mod Client
pub mod Ends
pub mod Keeps
pub mod Backend
pub mod Register
pub mod Login
pub mod Friends
mod Tests
use ifellsofuckinggood.Prelude.{
  ℕ, ◌+◌, ◌≡◌, ℤ, Bytes, Bool, true, false, Option, none, some, List, [], ◌∷◌, ltb, ◌==◌,
  if◌then◌else◌, ◌>>=◌,
}
use ifellsofuckinggood.MyEnum.{
  msg_code, msg_cmd, msg_talk, msg_reg, msg_reg_refuse, msg_reg_accept, msg_login, msg_login_refuse,
  msg_login_accept, msg_ask_for_friend, msg_ask_for_friend_not_found, msg_ask_for_friend_accept,
}
use ifellsofuckinggood.TransObj.{TransObj, name_max_len, password_max_len}

pub data Handler : Type 0 where
  handle_msg_cmd handle_user_send_msg handle_user_reg_msg handle_user_reg_refused_msg : Handler
  handle_user_reg_accepted_msg handle_user_log_msg handle_user_log_refused_msg : Handler
  handle_user_log_accepted_msg handle_ask_for_friend_msg handle_ask_for_friend_not_found_msg :
      Handler
  handle_ask_for_friend_accept_msg : Handler

abbrev pub msg_handle : List (ℕ × Handler)
msg_handle =
    (msg_code msg_cmd, handle_msg_cmd)
    ∷ (msg_code msg_talk, handle_user_send_msg)
    ∷ (msg_code msg_reg, handle_user_reg_msg)
    ∷ (msg_code msg_reg_refuse, handle_user_reg_refused_msg)
    ∷ (msg_code msg_reg_accept, handle_user_reg_accepted_msg)
    ∷ (msg_code msg_login, handle_user_log_msg)
    ∷ (msg_code msg_login_refuse, handle_user_log_refused_msg)
    ∷ (msg_code msg_login_accept, handle_user_log_accepted_msg)
    ∷ (msg_code msg_ask_for_friend, handle_ask_for_friend_msg)
    ∷ (msg_code msg_ask_for_friend_not_found, handle_ask_for_friend_not_found_msg)
    ∷ (msg_code msg_ask_for_friend_accept, handle_ask_for_friend_accept_msg)
    ∷ []

-- The loop over the table, up to the first entry of the type.
unfoldable pub find_handler : ℕ → List (ℕ × Handler) → Option Handler
find_handler t [] = none
find_handler t ((u, h) ∷ rest) = if u == t then some h else find_handler t rest

-- What a handler of the server gives to the thread pool, with the values that it captures.
pub data Task : Type 0 where
  talk_task : TransObj → Task
  reg_task : TransObj → ℤ → Task
  login_task : TransObj → ℤ → Task
  log_out_task : TransObj → Task
  ask_task : TransObj → ℤ → Task
  accept_task : TransObj → Task

-- The part of a handler that runs at once; most handlers do nothing on the server.
unfoldable pub server_handler : Handler → TransObj → ℤ → Option Task
server_handler handle_user_send_msg obj fd = some (talk_task obj)
server_handler handle_user_reg_msg obj fd =
    if ltb (name_max_len + password_max_len) obj.len then none else some (reg_task obj fd)
server_handler handle_user_log_msg obj fd = some (login_task obj fd)
server_handler handle_ask_for_friend_msg obj fd = some (ask_task obj fd)
server_handler handle_ask_for_friend_accept_msg obj fd = some (accept_task obj)
server_handler _ obj fd = none

-- It is in no table.
unfoldable pub handle_user_log_out_msg : TransObj → Task
handle_user_log_out_msg obj = log_out_task obj

-- MsgHandler::handle on the server.
unfoldable pub server_handle : Option TransObj → ℤ → Option Task
unfolding find_handler server_handler
server_handle none fd = none
server_handle (some obj) fd = find_handler obj.msg_type msg_handle >>= λ h. server_handler h obj fd
