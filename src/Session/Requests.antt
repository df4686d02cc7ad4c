-- ===== src/Session/Requests.antt =====
-- The way of a friend request, from the line that is typed to the list of the user who is asked, and the
-- way back of the acceptance.
use ifellsofuckinggood.Prelude.{
  ℕ, ◌≡◌, ◌<◌, refl, sym, ap, ◌∙◌, subst, ℤ, pos, minus_one, IsInt32, Bytes, codes, str, to_string,
  to_string-All, true, false, none, some, List, [], ◌∷◌, ◌++◌, get_elem?, replicate, length,
  returned, arith, inr,
}
use ifellsofuckinggood.MyEnum.{msg_code, msg_ask_for_friend, msg_ask_for_friend_accept}
use ifellsofuckinggood.TransObj.{
  TransObj, IsSized, max_trans_msg_len, name_max_len, set_fd, set_recver_id, get_msg, new_full,
}
use ifellsofuckinggood.TransObj.Wire.{InRange}
use ifellsofuckinggood.ConcQueue.{try_and_pop}
use ifellsofuckinggood.ConcList.{get_one_request}
use ifellsofuckinggood.ConcList.Size.{IsCounted}
use ifellsofuckinggood.Player.{Archive, max_friends_num, find}
use ifellsofuckinggood.HandleMsg.{ask_task, accept_task}
use ifellsofuckinggood.HandleMsg.Server.{
  Row, Services, Server, run_task, friend_query, accept, accept_online,
}
use ifellsofuckinggood.HandleMsg.Client.{Client}
use ifellsofuckinggood.HandleMsg.Friends.{ask-delivered, server_handle-served}
use ifellsofuckinggood.SysManger.{handle_recv_msg}
use ifellsofuckinggood.SysManger.Requests.{ask-stored}
use ifellsofuckinggood.IoManger.{IoManger}
use ifellsofuckinggood.IoManger.Talk.{handle_talk}
use ifellsofuckinggood.Util.{handle_input_of_ask_for_friend, handle_input_of_acc_request}
use ifellsofuckinggood.Util.Words.{words, listed}
use ifellsofuckinggood.Util.Typed.{
  Free, Splits, IsTypeable, get_msg_from_input-typed, acc_request-typed,
}
use ifellsofuckinggood.Util.Requests.{request_header, friend_request-typed}
use ifellsofuckinggood.Client.{Frame, server_side, client_side, run, waits, recv_msg}
use ifellsofuckinggood.Client.Received.{IsSendable, without_len}
use ifellsofuckinggood.Zepoll.{Echo, echo_handler, IoLoop, dispatch}
use ifellsofuckinggood.Zepoll.Serving.{buffer_size}
use ifellsofuckinggood.Zepoll.Session.{arrives}
use ifellsofuckinggood.Session.Hops.{line_queued, task_made, message_received}

header-InRange :
    (junk : TransObj) (msg : Bytes) → InRange (record (request_header junk) { msg = msg })
unfolding new_full
header-InRange junk msg = record {
  msg_type = omega arith;
  id = omega arith;
  recver_id = omega arith;
  fd = omega arith;
}

-- A request as the server passes it on.
abbrev passed_on : ℤ → ℤ → TransObj → TransObj
passed_on id talker_fd o = set_fd talker_fd (set_recver_id id (without_len o))

passed_on-IsSendable :
    (id talker_fd : ℤ) (o : TransObj)
    → IsInt32 id
    → IsInt32 talker_fd
    → IsSendable o
    → IsSendable (passed_on id talker_fd o)
passed_on-IsSendable id talker_fd o i f ok = record {
  sized = ok.sized;
  in_range = record { msg_type = ok.in_range.msg_type; id = ok.in_range.id; recver_id = i; fd = f };
}

module _ {F W : Type 0} (arc : Archive F) (split : Bytes → Bytes → List Bytes)
    (splits : Splits split) (svc : Services W) where
  -- A logged-in user types a friend request with a name that can be typed, on a line below 64 bytes, for a
  -- user whom the database knows under that name and who is online; nothing else waits on the way, and each
  -- frame arrives in one piece. Then one message goes to the connection of the asked user's session, whose
  -- client stores it behind the other requests. But what that client has stored is the name of the asked
  -- user itself, and the identity -1: neither the name nor the identity of the one who asks.
  pub request_round_trip :
      (junk : TransObj) (stale : ℕ) (junk_buffer : Bytes) (word name : Bytes) (s : IoManger F)
      (client own : ℤ) (fd : ℕ) (echo : Echo) (l : IoLoop) (srv : Server W) (asked : Client F)
      {row : Row} {rest : List Row} {w w1 w2 : W} {id talker_fd : ℤ}
      → IsSized junk
      → s.client.player.logined ≡ true
      → listed word (words handle_input_of_ask_for_friend) ≡ true
      → Free b'@' word
      → IsTypeable name_max_len name
      → length (word ++ b'@' ∷ name) < max_trans_msg_len
      → s.buff ≡ []
      → l.handlers fd ≡ some (echo_handler echo)
      → length echo.buffer ≡ buffer_size
      → srv.buff ≡ []
      → svc.exec_query friend_query (str name ∷ []) srv.world ≡ (returned (some (row ∷ rest)), w)
      → row.get_int (codes "userid") ≡ returned id
      → IsInt32 id
      → svc.is_talker_online id w ≡ (returned true, w1)
      → svc.get_talker_fd id w1 ≡ (returned talker_fd, w2)
      → IsInt32 talker_fd
      → IsCounted asked.req_buff
      → (o : TransObj) × (frame passed : Frame) × (s' : IoManger F) × (l' : IoLoop) × (srv' : Server
          W)
        × (got : TransObj) × (asked' : Client F) × (handle_talk arc split junk
              (word ++ b'@' ∷ name)
              s
            ≡ returned s')
        × (run client_side client s'.buff ≡ (frame ∷ [], waits, []))
        × (dispatch stale junk_buffer (arrives fd frame.bytes) l ≡ returned l')
        × (l'.tasks ≡ l.tasks ++ ask_task o (pos fd) ∷ [])
        × (run_task svc (ask_task o (pos fd)) srv ≡ (returned (pos 1), srv'))
        × (run server_side own srv'.buff ≡ (passed ∷ [], waits, []))
        × (passed.fd ≡ talker_fd)
        × (recv_msg (passed.bytes ∷ []) (replicate 512 0) ≡ returned (got ∷ []))
        × (handle_recv_msg arc (record asked { rcv_buff = got ∷ [] }) ≡ returned asked')
        × IsCounted asked'.req_buff
        × (get_one_request (pos (length asked.req_buff.elems)) asked'.req_buff ≡ some (some got))
        × (get_msg got ≡ some name)
        × (got.id ≡ minus_one)
  unfolding handle_recv_msg try_and_pop get_msg new_full
  request_round_trip junk stale junk_buffer word name s client own fd echo l srv asked {row} {rest}
        {w} {w1} {w2} {id} {talker_fd} sized login at f n short empty on size idle found has_id
        id_range online talker fd_range counted =
      let r = friend_request-typed arc split splits junk word name s.client login at f n sized in
      let o = r.0 in
      let asks : o.msg_type ≡ msg_code msg_ask_for_friend =
        ap (λ (x : TransObj). x.msg_type) (sym r.4) in
      let nobody : o.id ≡ minus_one = ap (λ (x : TransObj). x.id) (sym r.4) in
      let ok : IsSendable o = record {
        sized = r.3;
        in_range = subst InRange r.4 (header-InRange junk o.msg);
      } in
      let up =
        task_made stale junk_buffer o client fd echo l (rw asks refl) ok on size
          (server_handle-served (without_len o) (pos fd) msg_ask_for_friend asks) in
      let p = passed_on id talker_fd o in
      let down =
        message_received own p (rw asks refl)
          (passed_on-IsSendable id talker_fd o id_range fd_range ok) in
      let stored =
        ask-stored arc (without_len p) (record asked { rcv_buff = [] }) {name = name} asks r.2
          counted in
      (
        without_len o,
        up.0,
        down.0,
        record s { client = s.client; talking = false; buff = s.buff ++ o ∷ [] },
        up.1,
        record { world = w2; buff = srv.buff ++ p ∷ [] },
        without_len p,
        stored.0,
        line_queued arc split junk (word ++ b'@' ∷ name) s short r.1,
        rw empty up.2,
        up.3,
        up.4,
        ask-delivered svc (without_len o) (pos fd) srv r.2 found has_id online talker,
        rw idle down.1,
        down.2,
        down.3,
        stored.1,
        stored.2,
        stored.3,
        r.2,
        nobody,
      )

  -- The asked user accepts such a request by its number, which is stored with the identity -1, while nobody
  -- has a session of that identity: the acceptance reaches the server, whose task sends nothing and returns
  -- -1. The accepting user has from then on a friend under the text of the request, with the identity -1,
  -- and the request is still in the list.
  pub acceptance_lost :
      (junk : TransObj) (stale : ℕ) (junk_buffer : Bytes) (word : Bytes) (i : ℕ) (req : TransObj)
      (s : IoManger F) (client : ℤ) (fd : ℕ) (echo : Echo) (l : IoLoop) (srv : Server W)
      {name : Bytes} {w : W}
      → IsSized junk
      → s.client.player.logined ≡ true
      → IsInt32 s.client.player.data'.id
      → listed word (words handle_input_of_acc_request) ≡ true
      → Free b'@' word
      → length (word ++ b'@' ∷ to_string (pos i)) < max_trans_msg_len
      → IsCounted s.client.req_buff
      → get_elem? s.client.req_buff.elems i ≡ some req
      → i < length s.client.req_buff.elems
      → get_msg req ≡ some name
      → req.id ≡ minus_one
      → find name s.client.player.friends ≡ none
      → length s.client.player.friends < max_friends_num
      → s.buff ≡ []
      → l.handlers fd ≡ some (echo_handler echo)
      → length echo.buffer ≡ buffer_size
      → svc.is_talker_online minus_one srv.world ≡ (returned false, w)
      → (o : TransObj) × (frame : Frame) × (s' : IoManger F) × (l' : IoLoop) × (handle_talk arc
            split junk
            (word ++ b'@' ∷ to_string (pos i))
            s
          ≡ returned s')
        × (run client_side client s'.buff ≡ (frame ∷ [], waits, []))
        × (dispatch stale junk_buffer (arrives fd frame.bytes) l ≡ returned l')
        × (l'.tasks ≡ l.tasks ++ accept_task o ∷ [])
        × (run_task svc (accept_task o) srv ≡ (returned minus_one, record srv { world = w }))
        × (find name s'.client.player.friends ≡ some (some minus_one))
        × (s'.client.req_buff ≡ s.client.req_buff)
  unfolding new_full run_task accept accept_online
  acceptance_lost junk stale junk_buffer word i req s client fd echo l srv {name} sized login my_id
        at f short counted elem below text nobody fresh room empty on size offline =
      let r =
        acc_request-typed arc split splits junk i req s.client {name = name} login counted elem
          below text fresh room in
      let typed =
        get_msg_from_input-typed arc split splits junk word (to_string (pos i))
          handle_input_of_acc_request s.client at f (to_string-All b'@' i (inr (omega arith)))
        ∙ r.1 in
      let o =
        new_full junk s.client.player.data'.id req.id (msg_code msg_ask_for_friend_accept)
          max_trans_msg_len minus_one in
      let in_range : IsInt32 req.id = subst IsInt32 (sym nobody) (omega arith) in
      let ok : IsSendable o = record {
        sized = sized;
        in_range = record {
          msg_type = omega arith;
          id = my_id;
          recver_id = in_range;
          fd = omega arith;
        };
      } in
      let up =
        task_made stale junk_buffer o client fd echo l refl ok on size
          (server_handle-served (without_len o) (pos fd) msg_ask_for_friend_accept refl) in
      (
        without_len o,
        up.0,
        record s { client = r.0; talking = false; buff = s.buff ++ o ∷ [] },
        up.1,
        line_queued arc split junk (word ++ b'@' ∷ to_string (pos i)) s short typed,
        rw empty up.2,
        up.3,
        up.4,
        simp (nobody, offline),
        r.2 ∙ ap (λ z. some (some z)) nobody,
        r.3,
      )
