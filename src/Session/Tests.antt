-- ===== src/Session/Tests.antt =====
-- A login, a registration, a friend request and its acceptance.
use ifellsofuckinggood.Prelude.{
  List, All, ◌++◌, minus_one, c_string, to_string, if◌then◌else◌, ℕ, ◌≡◌, ◌+◌, refl, pos, Bytes,
  codes, bytes_eq, before_nul, replicate, true, false, none, some, [], ◌∷◌, returned, arith,
}
use ifellsofuckinggood.TransObj.{TransObj, new_default, get_msg}
use ifellsofuckinggood.Player.{Saved, Archive, find}
use ifellsofuckinggood.HandleMsg.{login_task, reg_task, ask_task, accept_task, talk_task}
use ifellsofuckinggood.HandleMsg.Server.{Row, Services, Server, run_task, max_id_query}
use ifellsofuckinggood.HandleMsg.Client.{Client}
use ifellsofuckinggood.SysManger.{handle_recv_msg}
use ifellsofuckinggood.IoManger.{IoManger}
use ifellsofuckinggood.IoManger.Talk.{handle_talk}
use ifellsofuckinggood.Util.Words.{listed}
use ifellsofuckinggood.Util.Split.{
  split_text, split_text-Splits, name-IsTypeable, passwd-IsTypeable,
}
use ifellsofuckinggood.Client.{Frame, client_side, server_side, run, waits, recv_msg}
use ifellsofuckinggood.Zepoll.{IoLoop, echo_handler, add_handler, dispatch, listening}
use ifellsofuckinggood.Zepoll.Session.{arrives}
use ifellsofuckinggood.Session.Talk.{talk_lost}
use ifellsofuckinggood.Session.{login_round_trip}
use ifellsofuckinggood.Session.Registration.{registration_round_trip}
use ifellsofuckinggood.Session.Requests.{request_round_trip, acceptance_lost}
use ifellsofuckinggood.ConcList.{get_one_request}
use ifellsofuckinggood.ConcList.Size.{IsCounted}

abbrev zlh_row : Row
zlh_row = record {
  get_string = λ column. returned (codes "123");
  get_int = λ column. returned (pos 5);
}

-- The state counts the sessions that were added.
abbrev svc : Services ℕ
svc = record {
  exec_query = λ q args w. (returned (some (zlh_row ∷ [])), w);
  exec_insert = λ q args w. (returned true, w);
  add_session_talker = λ id name fd w. (returned true, 1 + w);
  is_talker_online = λ id w. (returned true, w);
  remove_session_talker = λ id w. (returned true, w);
  get_talker_fd = λ id w. (returned (pos 8), w);
  get_talker_name = λ id w. (returned (some (codes "lys")), w);
}

-- A file that holds the player itself.
abbrev arc : Archive Saved
arc = record { write = λ x. x; read = λ p x. returned x; file_size = λ x. 1 }

abbrev terminal : IoManger Saved
terminal = record {
  client = record {
    player = record {
      logined = false;
      data' = record { id = pos 0; name = []; password = [] };
      is_friends_changed = false;
      talker_name = [];
      friends = [];
    };
    disk = record { can_write = true; file = none };
    sys_buff = [];
    rcv_buff = [];
    req_buff = record { size = pos 0; elems = [] };
    output_msg = [];
  };
  buff = [];
  talking = true;
  printed = [];
}

abbrev blank : Bytes
blank = replicate 512 0

abbrev connected : IoLoop
connected = add_handler 7 (echo_handler (record { received = 0; buffer = blank })) (listening 3)

abbrev server : Server ℕ
server = record { world = 0; buff = [] }

login_round_trip_example :
    (o : TransObj) × (frame answer : Frame) × (s' : IoManger Saved) × (l' : IoLoop) × (srv' : Server
      ℕ)
    × (got : TransObj) × (c' : Client Saved) × (handle_talk arc split_text new_default
          (codes "Login@zlh|123")
          terminal
        ≡ returned s')
    × (run client_side (pos 4) s'.buff ≡ (frame ∷ [], waits, []))
    × (dispatch 0 blank (arrives 7 frame.bytes) connected ≡ returned l')
    × (l'.tasks ≡ login_task o (pos 7) ∷ [])
    × (run_task svc (login_task o (pos 7)) server ≡ (returned (pos 1), srv'))
    × (run server_side (pos 0) srv'.buff ≡ (answer ∷ [], waits, []))
    × (answer.fd ≡ pos 7)
    × (recv_msg (answer.bytes ∷ []) (replicate 512 0) ≡ returned (got ∷ []))
    × (handle_recv_msg arc (record s'.client { rcv_buff = got ∷ [] }) ≡ returned c')
    × (c'.player.logined ≡ true)
    × (c'.player.data' ≡ record { id = pos 5; name = codes "zlh"; password = codes "123" })
unfolding listed bytes_eq new_default add_handler listening before_nul
login_round_trip_example =
    login_round_trip arc split_text split_text-Splits svc new_default 0 blank (codes "Login")
      (codes "zlh") (codes "123") terminal (pos 4) (pos 0) 7
      (record { received = 0; buffer = blank }) connected server {row = zlh_row} {rest = []}
      {rel_passwd = codes "123"} {id = pos 5} {w = 0} {w' = 1} {added = true} refl refl
      (ground arith) name-IsTypeable passwd-IsTypeable (omega arith) refl refl refl (omega arith)
      refl refl refl refl refl (omega arith) refl

-- A database without users, which gives the identity 5 to the first.
abbrev empty_svc : Services ℕ
empty_svc = record svc {
  exec_query =
      λ q args w. (returned (if bytes_eq q max_id_query then some (zlh_row ∷ []) else some []), w);
}

registration_round_trip_example :
    (o : TransObj) × (frame answer : Frame) × (s' : IoManger Saved) × (l' : IoLoop) × (srv' : Server
      ℕ)
    × (got : TransObj) × (c' : Client Saved) × (handle_talk arc split_text new_default
          (codes "rg@zlh|123")
          terminal
        ≡ returned s')
    × (run client_side (pos 4) s'.buff ≡ (frame ∷ [], waits, []))
    × (dispatch 0 blank (arrives 7 frame.bytes) connected ≡ returned l')
    × (l'.tasks ≡ reg_task o (pos 7) ∷ [])
    × (run_task empty_svc (reg_task o (pos 7)) server ≡ (returned (pos 1), srv'))
    × (run server_side (pos 0) srv'.buff ≡ (answer ∷ [], waits, []))
    × (answer.fd ≡ pos 7)
    × (recv_msg (answer.bytes ∷ []) (replicate 512 0) ≡ returned (got ∷ []))
    × (handle_recv_msg arc (record s'.client { rcv_buff = got ∷ [] }) ≡ returned c')
    × (c'.player ≡ record s'.client.player { data' = record s'.client.player.data' { id = pos 5 } })
unfolding listed bytes_eq new_default add_handler listening
registration_round_trip_example =
    registration_round_trip arc split_text split_text-Splits empty_svc new_default 0 blank
      (codes "rg") (codes "zlh") (codes "123") terminal (pos 4) (pos 0) 7
      (record { received = 0; buffer = blank }) connected server {row = zlh_row} {rest = []}
      {id = pos 5} {w = 0} {w1 = 0} {w2 = 0} refl refl (ground arith) name-IsTypeable
      passwd-IsTypeable (omega arith) refl refl refl (omega arith) refl refl refl refl refl
      (omega arith)

abbrev logged_in : IoManger Saved
logged_in = record terminal {
  client = record terminal.client { player = record terminal.client.player { logined = true } };
}

request_round_trip_example :
    (o : TransObj) × (frame passed : Frame) × (s' : IoManger Saved) × (l' : IoLoop) × (srv' : Server
      ℕ)
    × (got : TransObj) × (asked' : Client Saved) × (handle_talk arc split_text new_default
          (codes "add@zlh")
          logged_in
        ≡ returned s')
    × (run client_side (pos 4) s'.buff ≡ (frame ∷ [], waits, []))
    × (dispatch 0 blank (arrives 7 frame.bytes) connected ≡ returned l')
    × (l'.tasks ≡ ask_task o (pos 7) ∷ [])
    × (run_task svc (ask_task o (pos 7)) server ≡ (returned (pos 1), srv'))
    × (run server_side (pos 0) srv'.buff ≡ (passed ∷ [], waits, []))
    × (passed.fd ≡ pos 8)
    × (recv_msg (passed.bytes ∷ []) (replicate 512 0) ≡ returned (got ∷ []))
    × (handle_recv_msg arc (record terminal.client { rcv_buff = got ∷ [] }) ≡ returned asked')
    × IsCounted asked'.req_buff
    × (get_one_request (pos 0) asked'.req_buff ≡ some (some got))
    × (get_msg got ≡ some (codes "zlh"))
    × (got.id ≡ minus_one)
unfolding listed bytes_eq new_default add_handler listening
request_round_trip_example =
    request_round_trip arc split_text split_text-Splits svc new_default 0 blank (codes "add")
      (codes "zlh") logged_in (pos 4) (pos 0) 7 (record { received = 0; buffer = blank }) connected
      server terminal.client {row = zlh_row} {rest = []} {w = 0} {w1 = 0} {w2 = 0} {id = pos 5}
      {talker_fd = pos 8} refl refl refl (ground arith) name-IsTypeable (omega arith) refl refl refl
      refl refl refl (omega arith) refl refl (omega arith) refl

-- A request as it comes in, with the name of the user who is asked.
abbrev request : TransObj
request = record {
  msg_type = 10;
  len = 0;
  id = minus_one;
  recver_id = pos 5;
  fd = pos 8;
  msg = codes "zlh" ++ replicate 61 0;
}

abbrev requested : IoManger Saved
requested = record logged_in {
  client = record logged_in.client { req_buff = record { size = pos 1; elems = request ∷ [] } };
}

-- Nobody is online.
abbrev offline_svc : Services ℕ
offline_svc = record svc { is_talker_online = λ id w. (returned false, w) }

acceptance_lost_example :
    (o : TransObj) × (frame : Frame) × (s' : IoManger Saved) × (l' : IoLoop) × (handle_talk arc
        split_text new_default
        (codes "ar@" ++ to_string (pos 0))
        requested
      ≡ returned s')
    × (run client_side (pos 4) s'.buff ≡ (frame ∷ [], waits, []))
    × (dispatch 0 blank (arrives 7 frame.bytes) connected ≡ returned l')
    × (l'.tasks ≡ accept_task o ∷ [])
    × (run_task offline_svc (accept_task o) server ≡ (returned minus_one, server))
    × (find (codes "zlh") s'.client.player.friends ≡ some (some minus_one))
    × (s'.client.req_buff ≡ requested.client.req_buff)
unfolding listed bytes_eq new_default add_handler listening get_msg c_string find to_string
acceptance_lost_example =
    acceptance_lost arc split_text split_text-Splits offline_svc new_default 0 blank (codes "ar") 0
      request requested (pos 4) 7 (record { received = 0; buffer = blank }) connected server
      {name = codes "zlh"} {w = 0} refl refl (omega arith) refl (ground arith) (omega arith) refl
      refl (omega arith) refl refl refl (omega arith) refl refl refl refl

talk_lost_example :
    (o : TransObj) × (frame : Frame) × (frames : List Frame) × (s' : IoManger Saved) × (l' : IoLoop)
    × (srv' : Server ℕ) × (handle_talk arc split_text new_default (codes "hi") logged_in
        ≡ returned s')
    × (run client_side (pos 4) s'.buff ≡ (frame ∷ [], waits, []))
    × (dispatch 0 blank (arrives 7 frame.bytes) connected ≡ returned l')
    × (l'.tasks ≡ talk_task o ∷ [])
    × (o.recver_id ≡ pos 1)
    × (run_task svc (talk_task o) server ≡ (returned (pos 0), srv'))
    × (srv'.buff ≡ o ∷ [])
    × (run server_side (pos 0) srv'.buff ≡ (frames, waits, []))
    × All (λ (f : Frame). f.fd ≡ pos 1) frames
unfolding new_default add_handler listening
talk_lost_example =
    talk_lost arc split_text split_text-Splits svc new_default 0 blank (codes "hi") logged_in
      (pos 4) (pos 0) 7 (record { received = 0; buffer = blank }) connected server {online = true}
      {w = 0} refl refl (ground arith) (omega arith) refl refl refl refl refl
