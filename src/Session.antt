-- ===== src/Session.antt =====
-- All the way of a login: from the line that is typed on the client through the loops of both programs, the
-- server's task and back, to the client that is logged in.
pub mod Hops
pub mod Requests
pub mod Registration
pub mod Talk
mod Tests
use ifellsofuckinggood.Prelude.{
  ℕ, ◌≡◌, ◌<◌, ◌≤◌, refl, sym, ap, ◌∙◌, subst, ℤ, pos, IsInt32, Bytes, codes, str, before_nul, Bool,
  true, false, Option, none, some, List, [], ◌∷◌, ◌++◌, All, map, replicate, length, Outcome,
  returned, thrown, undefined, arith,
}
use ifellsofuckinggood.MyEnum.{msg_code, msg_login, msg_login_accept}
use ifellsofuckinggood.TransObj.{
  TransObj, IsSized, max_trans_msg_len, name_max_len, password_max_len, set_msg_type, set_id,
  set_fd, get_name, get_passwd,
}
use ifellsofuckinggood.ConcQueue.{try_and_pop}
use ifellsofuckinggood.Player.{Archive, set_player_login, save_player_data}
use ifellsofuckinggood.HandleMsg.{login_task}
use ifellsofuckinggood.HandleMsg.Server.{Row, Services, Server, run_task, login_query}
use ifellsofuckinggood.HandleMsg.Client.{Client, put_output, client_handle}
use ifellsofuckinggood.HandleMsg.Login.{login_right_password}
use ifellsofuckinggood.SysManger.{handle_recv_msg}
use ifellsofuckinggood.IoManger.{IoManger}
use ifellsofuckinggood.IoManger.Talk.{handle_talk}
use ifellsofuckinggood.Util.{handle_input_of_login}
use ifellsofuckinggood.Util.Words.{words, listed}
use ifellsofuckinggood.Util.Typed.{Free, Splits, IsTypeable}
use ifellsofuckinggood.Client.{
  Frame, server_side, client_side, frame_of, run, waits, is_button, recv_msg,
}
use ifellsofuckinggood.Client.Loop.{run_waits}
use ifellsofuckinggood.Client.Received.{IsSendable, without_len, recv_msg-run}
use ifellsofuckinggood.Zepoll.{Echo, echo_handler, IoLoop, dispatch}
use ifellsofuckinggood.Zepoll.Serving.{buffer_size}
use ifellsofuckinggood.Zepoll.Session.{arrives, credentials-served}
use ifellsofuckinggood.Session.Hops.{message_received}

-- What an accepted login does on the client, which takes it from the queue of received messages.
accepted-logs_in :
    {F : Type 0} (arc : Archive F) (o : TransObj) (c : Client F) {name passwd : Bytes}
    → o.msg_type ≡ msg_code msg_login_accept
    → get_name o ≡ some name
    → get_passwd o ≡ some passwd
    → (c' : Client F) × (handle_recv_msg arc (record c { rcv_buff = o ∷ [] }) ≡ returned c')
      × (c'.player.logined ≡ true)
      × (c'.player.data' ≡ record { id = o.id; name = name; password = passwd })
unfolding handle_recv_msg try_and_pop client_handle set_player_login put_output get_name
    save_player_data get_passwd
accepted-logs_in arc o c {name} {passwd} t n p =
    let player = set_player_login o.id name passwd c.player in
    (
      put_output arc (codes "you have login in success!\n") (record c {
        rcv_buff = [];
        player = player;
        disk = (save_player_data arc player c.disk).1;
      }),
      rw (t, n, p) refl,
      refl,
      refl,
    )

-- The answer of an accepted login.
abbrev answer_of : ℤ → ℤ → TransObj → TransObj
answer_of id fd o = set_msg_type (msg_code msg_login_accept) (set_fd fd (set_id id o))

answer-IsSendable :
    (id fd : ℤ) (o : TransObj)
    → IsInt32 id
    → IsInt32 fd
    → IsSendable o
    → IsSendable (answer_of id fd o)
answer-IsSendable id fd o i f ok = record {
  sized = ok.sized;
  in_range = record { msg_type = omega arith; id = i; recver_id = ok.in_range.recver_id; fd = f };
}

module _ {F W : Type 0} (arc : Archive F) (split : Bytes → Bytes → List Bytes)
    (splits : Splits split) (svc : Services W) where
  -- A login that is typed in any spelling of its word, on a line below 64 bytes, with a name and a password
  -- that can be typed, where the database has the name with that password and an identity, the sessions
  -- answer, the connection has its handler, the identity and the descriptor are in the range of an int,
  -- nothing else waits to be sent on either side, and each frame arrives in one piece: the client sends
  -- one frame, the server's loop makes one task of it, that task answers with one message, which goes to
  -- the connection that the frame came from, and the client that takes it from its queue, where nothing
  -- else waits, is logged in with that identity, name and password.
  pub login_round_trip :
      (junk : TransObj) (stale : ℕ) (junk_buffer : Bytes) (word name passwd : Bytes)
      (s : IoManger F) (client own : ℤ) (fd : ℕ) (echo : Echo) (l : IoLoop) (srv : Server W)
      {row : Row} {rest : List Row} {rel_passwd : Bytes} {id : ℤ} {w w' : W} {added : Bool}
      → IsSized junk
      → listed word (words handle_input_of_login) ≡ true
      → Free b'@' word
      → IsTypeable name_max_len name
      → IsTypeable password_max_len passwd
      → length (word ++ b'@' ∷ (name ++ b'|' ∷ passwd)) < max_trans_msg_len
      → s.buff ≡ []
      → l.handlers fd ≡ some (echo_handler echo)
      → length echo.buffer ≡ buffer_size
      → IsInt32 (pos fd)
      → srv.buff ≡ []
      → svc.exec_query login_query (str name ∷ []) srv.world ≡ (returned (some (row ∷ rest)), w)
      → row.get_string (codes "password") ≡ returned rel_passwd
      → passwd ≡ before_nul rel_passwd
      → row.get_int (codes "userid") ≡ returned id
      → IsInt32 id
      → svc.add_session_talker id name (pos fd) w ≡ (returned added, w')
      → (o : TransObj) × (frame answer : Frame) × (s' : IoManger F) × (l' : IoLoop) × (srv' : Server
          W)
        × (got : TransObj) × (c' : Client F) × (handle_talk arc split junk
              (word ++ b'@' ∷ (name ++ b'|' ∷ passwd))
              s
            ≡ returned s')
        × (run client_side client s'.buff ≡ (frame ∷ [], waits, []))
        × (dispatch stale junk_buffer (arrives fd frame.bytes) l ≡ returned l')
        × (l'.tasks ≡ l.tasks ++ login_task o (pos fd) ∷ [])
        × (run_task svc (login_task o (pos fd)) srv ≡ (returned (pos 1), srv'))
        × (run server_side own srv'.buff ≡ (answer ∷ [], waits, []))
        × (answer.fd ≡ pos fd)
        × (recv_msg (answer.bytes ∷ []) (replicate 512 0) ≡ returned (got ∷ []))
        × (handle_recv_msg arc (record s'.client { rcv_buff = got ∷ [] }) ≡ returned c')
        × (c'.player.logined ≡ true)
        × (c'.player.data' ≡ record { id = id; name = name; password = passwd })
  unfolding get_name get_passwd
  login_round_trip junk stale junk_buffer word name passwd s client own fd echo l srv {row} {rest}
        {rel_passwd} {id} {w} {w'} sized at f n p short empty on size range idle found stored same
        has_id id_range adds =
      let r =
        credentials-served arc split splits junk stale junk_buffer handle_input_of_login msg_login
          word name passwd s client fd echo l sized refl at f n p short empty on size in
      let o = r.0 in
      let a = answer_of id (pos fd) o in
      let ok : IsSendable a = answer-IsSendable id (pos fd) o id_range range r.10 in
      let got = without_len a in
      let down = message_received own a refl ok in
      let c = accepted-logs_in arc got r.2.client {name = name} {passwd = passwd} refl r.8 r.9 in
      (
        o,
        r.1,
        down.0,
        r.2,
        r.3,
        record { world = w'; buff = srv.buff ++ a ∷ [] },
        got,
        c.0,
        r.4,
        r.5,
        r.6,
        r.7,
        login_right_password svc o (pos fd) srv (omega (arith, r.11)) r.8 r.9 found stored same
            has_id adds,
        rw idle down.1,
        down.2,
        down.3,
        c.1,
        c.2,
        c.3,
      )
