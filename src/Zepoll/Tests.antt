-- ===== src/Zepoll/Tests.antt =====
-- The server's loop, and the way of a typed line to it, at concrete inputs.
use ifellsofuckinggood.Prelude.{
  ℕ, ◌≡◌, ◌⊎◌, refl, pos, Bool, ltb, Bytes, replicate, true, false, none, some, [], ◌∷◌, returned,
  c_string,
}
use ifellsofuckinggood.Player.{Saved, Archive}
use ifellsofuckinggood.IoManger.{IoManger}
use ifellsofuckinggood.Zepoll.{
  Event, echo_handler, IoLoop, add_handler, handle_events, dispatch, listening,
}
use ifellsofuckinggood.Zepoll.Start.{
  Listener, running, ended, Fails, IsListening, make_server, make_server-total,
}
use ifellsofuckinggood.Zepoll.Serving.{IsServing, IsReported}
use ifellsofuckinggood.Zepoll.Reached.{Reach, start, round, Reach-progress}
use ifellsofuckinggood.Zepoll.Session.{arrives}

abbrev blank : Bytes
blank = replicate 512 0

-- A connection, the descriptor 7, comes in at the listening socket, the descriptor 3.
abbrev connects : Event
connects = record {
  fd = 3;
  hup = false;
  err = false;
  readable = true;
  writable = false;
  received = none;
  accepted = some 7;
}

abbrev connected : IoLoop
connected = add_handler 7 (echo_handler (record { received = 0; buffer = blank })) (listening 3)

connects-IsReported : IsReported (listening 3) connects
unfolding listening add_handler
connects-IsReported = record {
  place = 3;
  interest = record { report = 3; epollin = true; epollout = false };
  kept = refl;
  reported = refl;
  asked = refl;
  frame = tt;
}

connected-Reach : Reach 0 blank 3 connected
unfolding handle_events dispatch listening
connected-Reach = round (connects ∷ []) start (connects-IsReported, tt) (tt, tt) refl

arrives-IsReported : IsReported connected (arrives 7 blank)
unfolding listening add_handler c_string
arrives-IsReported = record {
  place = 7;
  interest = record { report = 7; epollin = true; epollout = false };
  kept = refl;
  reported = refl;
  asked = refl;
  frame = ([], refl, refl);
}

Reach-progress_example :
    (s' : IoLoop) × (handle_events 0 blank (arrives 7 blank ∷ []) connected ≡ returned s')
    × Reach 0 blank 3 s'
    × IsServing s'
Reach-progress_example =
    Reach-progress refl (arrives 7 blank ∷ []) connected-Reach (arrives-IsReported, tt) (tt, tt)

-- A file that holds the player itself.
abbrev arc : Archive Saved
arc = record { write = λ x. x; read = λ p x. returned x; file_size = λ x. 1 }

abbrev terminal : IoManger Saved
terminal = record {
  client = record {
    player = record {
      logined = false;
      data' = record { id = pos 0; name = []; password = [] };
      is_friends_changed = false;
      talker_name = [];
      friends = [];
    };
    disk = record { can_write = true; file = none };
    sys_buff = [];
    rcv_buff = [];
    req_buff = record { size = pos 0; elems = [] };
    output_msg = [];
  };
  buff = [];
  talking = true;
  printed = [];
}

-- Ports below 1024 are refused.
abbrev above_reserved : ℕ → Bool
above_reserved port = ltb 1023 port

abbrev any_backlog : ℕ → Bool
any_backlog n = true

serves_8877 :
    make_server (some 3) above_reserved any_backlog true 2 (pos 8877) none
    ≡ running (record { fd = 3; port = 8877; backlog = 1024; flags = 2050 }, listening 3)
unfolding make_server listening
serves_8877 = refl

make_server-total_example :
    ((make_server (some 3) above_reserved any_backlog true 2 (pos 65616) none ≡ ended 1)
      × Fails (some 3) above_reserved any_backlog true (pos 65616))
    ⊎ ((l : Listener) × (make_server (some 3) above_reserved any_backlog true 2 (pos 65616) none
          ≡ running (l, listening l.fd))
        × IsListening (some 3) above_reserved any_backlog 2 (pos 65616) l)
make_server-total_example = make_server-total (some 3) above_reserved any_backlog true 2 (pos 65616)
