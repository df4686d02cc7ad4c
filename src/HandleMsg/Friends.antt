-- ===== src/HandleMsg/Friends.antt =====
-- The tasks about friends and talk, and what the server does with each message that comes in.
use ifellsofuckinggood.Prelude.{
  before_nul, ◌+◌, ◌≡◌, ◌≤◌, ◌<◌, Bool-cases, ◌⊎◌, inl, inr, ℤ, pos, minus_one, Bytes, codes, str,
  true, Option, none, some, List, [], ◌∷◌, ◌++◌, arith, leb, if◌then◌else◌, length, returned,
}
use ifellsofuckinggood.MyEnum.{
  MsgType, msg_code, msg_cmd, msg_talk, msg_ack, msg_reg, msg_reg_accept, msg_reg_refuse, msg_login,
  msg_login_accept, msg_login_refuse, msg_logout, msg_ask_for_friend, msg_ask_for_friend_not_found,
  msg_ask_for_friend_accept, msg_ask_for_friend_refuse, msg_button,
}
use ifellsofuckinggood.TransObj.{
  TransObj, name_max_len, password_max_len, set_msg, set_msg_type, set_fd, set_recver_id, get_msg,
}
use ifellsofuckinggood.HandleMsg.{
  Task, talk_task, reg_task, login_task, ask_task, accept_task, server_handle, server_handler,
  find_handler,
}
use ifellsofuckinggood.HandleMsg.Server.{
  Row, Services, Server, send, ask, ask_row, ask_online, accept, accept_online, accept_named,
  run_task, friend_query, next_row,
}

module _ {W : Type 0} (svc : Services W) (obj : TransObj) (fd : ℤ) (s : Server W) where
  -- A friend request for a name that the database has, and whose talker is online, goes to the
  -- socket of that talker's session, with the text and the sender's identity as they came; nothing
  -- goes back to the requester.
  pub ask-delivered :
      {name : Bytes} {row : Row} {rest : List Row} {w w1 w2 : W} {id talker_fd : ℤ}
      → get_msg obj ≡ some name
      → svc.exec_query friend_query (str name ∷ []) s.world ≡ (returned (some (row ∷ rest)), w)
      → row.get_int (codes "userid") ≡ returned id
      → svc.is_talker_online id w ≡ (returned true, w1)
      → svc.get_talker_fd id w1 ≡ (returned talker_fd, w2)
      → run_task svc (ask_task obj fd) s ≡ (
        returned (pos 1),
        record { world = w2; buff = s.buff ++ set_fd talker_fd (set_recver_id id obj) ∷ [] },
      )
  unfolding run_task ask ask_row ask_online next_row send
  ask-delivered named found has_id online talker = rw (named, found, has_id, online, talker)

  -- A friend request for a name that the database does not have is answered to the requester's own
  -- socket, and only there.
  pub ask_unknown_name :
      {name : Bytes} {w : W}
      → get_msg obj ≡ some name
      → svc.exec_query friend_query (str name ∷ []) s.world ≡ (returned (some []), w)
      → run_task svc (ask_task obj fd) s ≡ (
        returned (pos 0),
        record {
          world = w;
          buff =
              s.buff ++ set_fd fd (set_msg_type (msg_code msg_ask_for_friend_not_found) obj) ∷ [];
        },
      )
  unfolding run_task ask ask_row next_row send
  ask_unknown_name named found = rw (named, found)

  -- An acceptance of a friend request whose receiver is online and whose sender has a name in the
  -- sessions: with a name below 24 bytes it goes to the socket of the receiver's session, with
  -- that name as its text; with a longer name nothing is sent and the task returns -1.
  pub accept-delivered :
      {name : Bytes} {w w1 w2 : W} {talker_fd : ℤ}
      → svc.is_talker_online obj.recver_id s.world ≡ (returned true, w)
      → svc.get_talker_fd obj.recver_id w ≡ (returned talker_fd, w1)
      → svc.get_talker_name obj.id w1 ≡ (returned (some name), w2)
      → ((length name < name_max_len)
          × (run_task svc (accept_task obj) s ≡ (
            returned (pos 1),
            record {
              world = w2;
              buff = s.buff ++ (set_msg (before_nul name) (set_fd talker_fd obj)).1 ∷ [];
            },
          )))
        ⊎ ((name_max_len ≤ length name)
            × (run_task svc (accept_task obj) s
                ≡ (returned minus_one, record { world = w2; buff = s.buff })))
  unfolding run_task accept accept_online accept_named send
  accept-delivered {name} online talker named = elim (Bool-cases (leb name_max_len (length name))) [
    | inl h ↦ inr (ground arith, rw (online, talker, named, h))
    | inr h ↦ inl (ground arith, rw (online, talker, named, h))
  ]

-- What the server does with a message of each type.
abbrev pub served : MsgType → TransObj → ℤ → Option Task
served msg_talk obj fd = some (talk_task obj)
served msg_reg obj fd =
    if leb obj.len (name_max_len + password_max_len) then some (reg_task obj fd) else none
served msg_login obj fd = some (login_task obj fd)
served msg_ask_for_friend obj fd = some (ask_task obj fd)
served msg_ask_for_friend_accept obj fd = some (accept_task obj)
served _ obj fd = none

-- The server gives a task to the thread pool for a talk, a login, a friend request and an
-- acceptance, and for a registration whose `len` is at most 64. It does nothing with the other types
-- of the enumeration, the log-out message included.
pub server_handle-served :
    (obj : TransObj) (fd : ℤ) (t : MsgType)
    → obj.msg_type ≡ msg_code t
    → server_handle (some obj) fd ≡ served t obj fd
unfolding server_handle find_handler server_handler
server_handle-served obj fd msg_cmd e = rw e
server_handle-served obj fd msg_talk e = rw e
server_handle-served obj fd msg_ack e = rw e
server_handle-served obj fd msg_reg e = ground arith
server_handle-served obj fd msg_reg_accept e = rw e
server_handle-served obj fd msg_reg_refuse e = rw e
server_handle-served obj fd msg_login e = rw e
server_handle-served obj fd msg_login_accept e = rw e
server_handle-served obj fd msg_login_refuse e = rw e
server_handle-served obj fd msg_logout e = rw e
server_handle-served obj fd msg_ask_for_friend e = rw e
server_handle-served obj fd msg_ask_for_friend_not_found e = rw e
server_handle-served obj fd msg_ask_for_friend_accept e = rw e
server_handle-served obj fd msg_ask_for_friend_refuse e = rw e
server_handle-served obj fd msg_button e = rw e
