-- ===== src/Session/Talk.antt =====
-- The way of a talk, from the line that is typed to the server's frame.
use ifellsofuckinggood.Prelude.{
  ℕ, ◌≡◌, ◌<◌, refl, ap, ◌∙◌, ℤ, pos, Bytes, Bool, true, false, some, List, [], ◌∷◌, ◌++◌, All,
  length, before_nul, if◌then◌else◌, returned, arith,
}
use ifellsofuckinggood.MyEnum.{msg_talk}
use ifellsofuckinggood.TransObj.{TransObj, IsSized, max_trans_msg_len, new_full}
use ifellsofuckinggood.TransObj.Text.{set_msg-IsSized}
use ifellsofuckinggood.Player.{Archive}
use ifellsofuckinggood.HandleMsg.{talk_task}
use ifellsofuckinggood.HandleMsg.Server.{Services, Server, run_task, send, talk_online}
use ifellsofuckinggood.HandleMsg.Ends.{set_msg-keeps}
use ifellsofuckinggood.HandleMsg.Friends.{server_handle-served}
use ifellsofuckinggood.IoManger.{IoManger}
use ifellsofuckinggood.IoManger.Talk.{handle_talk}
use ifellsofuckinggood.Util.Requests.{talk_header, talk_of, talk-typed}
use ifellsofuckinggood.Util.Typed.{Free, Splits}
use ifellsofuckinggood.Client.{Frame, server_side, client_side, run, waits, is_button}
use ifellsofuckinggood.Client.Received.{IsSendable, without_len}
use ifellsofuckinggood.Zepoll.{Echo, echo_handler, IoLoop, dispatch}
use ifellsofuckinggood.Zepoll.Serving.{buffer_size}
use ifellsofuckinggood.Zepoll.Session.{arrives}
use ifellsofuckinggood.Session.Hops.{line_queued, task_made, message_received}

talk_of-IsSendable :
    (junk : TransObj) (line : Bytes) → IsSized junk → IsSendable (talk_of junk line)
unfolding new_full
talk_of-IsSendable junk line sized =
    let k = set_msg-keeps (before_nul line) (talk_header junk) in
    record {
      sized = set_msg-IsSized (before_nul line) (talk_header junk) sized;
      in_range = record {
        msg_type = rw k.0 (omega arith);
        id = rw k.2 (omega arith);
        recver_id = rw k.3 (omega arith);
        fd = rw k.1 (omega arith);
      };
    }

without_len-IsSendable : (o : TransObj) → IsSendable o → IsSendable (without_len o)
without_len-IsSendable o ok = record {
  sized = ok.sized;
  in_range = record {
    msg_type = ok.in_range.msg_type;
    id = ok.in_range.id;
    recver_id = ok.in_range.recver_id;
    fd = ok.in_range.fd;
  };
}

module _ {F W : Type 0} (arc : Archive F) (split : Bytes → Bytes → List Bytes)
    (splits : Splits split) (svc : Services W) where
  talk_served :
      (o : TransObj) (own : ℤ) (srv : Server W) (online : Bool) {w : W}
      → srv.buff ≡ []
      → svc.is_talker_online o.recver_id srv.world ≡ (returned online, w)
      → (srv' : Server W) × (run_task svc (talk_task o) srv ≡ (returned (pos 0), srv'))
        × (srv'.buff ≡ (if online then o ∷ [] else []))
  unfolding run_task talk_online send
  talk_served o own srv false {w} idle e = (record srv { world = w }, rw e refl, idle)
  talk_served o own srv true {w} idle e =
      (record srv { world = w; buff = srv.buff ++ o ∷ [] }, rw e refl, rw idle refl)

  frames_sent :
      (own : ℤ) (o : TransObj) (online : Bool)
      → is_button o ≡ false
      → IsSendable o
      → o.fd ≡ pos 1
      → (frames : List Frame) × (run server_side own (if online then o ∷ [] else [])
          ≡ (frames, waits, []))
        × All (λ (f : Frame). f.fd ≡ pos 1) frames
  unfolding run
  frames_sent own o false b ok one = ([], refl, tt)
  frames_sent own o true b ok one =
      let r = message_received own o b ok in (r.0 ∷ [], r.1, (r.2 ∙ one, tt))

  -- What a logged-in user types, below 64 bytes and without an `@`, while nothing else waits on the way and
  -- the frame arrives in one piece, becomes a talk for the user with the identity 1, whatever talker has
  -- been chosen. The server's task passes it on where that user is online; but every frame that the server
  -- sends then goes to the descriptor 1, its standard output, and not to a connection.
  pub talk_lost :
      (junk : TransObj) (stale : ℕ) (junk_buffer line : Bytes) (s : IoManger F) (client own : ℤ)
      (fd : ℕ) (echo : Echo) (l : IoLoop) (srv : Server W) {online : Bool} {w : W}
      → IsSized junk
      → s.client.player.logined ≡ true
      → Free b'@' line
      → length line < max_trans_msg_len
      → s.buff ≡ []
      → l.handlers fd ≡ some (echo_handler echo)
      → length echo.buffer ≡ buffer_size
      → srv.buff ≡ []
      → svc.is_talker_online (pos 1) srv.world ≡ (returned online, w)
      → (o : TransObj) × (frame : Frame) × (frames : List Frame) × (s' : IoManger F) × (l' : IoLoop)
        × (srv' : Server W) × (handle_talk arc split junk line s ≡ returned s')
        × (run client_side client s'.buff ≡ (frame ∷ [], waits, []))
        × (dispatch stale junk_buffer (arrives fd frame.bytes) l ≡ returned l')
        × (l'.tasks ≡ l.tasks ++ talk_task o ∷ [])
        × (o.recver_id ≡ pos 1)
        × (run_task svc (talk_task o) srv ≡ (returned (pos 0), srv'))
        × (srv'.buff ≡ (if online then o ∷ [] else []))
        × (run server_side own srv'.buff ≡ (frames, waits, []))
        × All (λ (f : Frame). f.fd ≡ pos 1) frames
  unfolding new_full
  talk_lost junk stale junk_buffer line s client own fd echo l srv {online} {w} sized login free
        short empty on size idle e =
      let o = talk_of junk line in
      let k = set_msg-keeps (before_nul line) (talk_header junk) in
      let ok = talk_of-IsSendable junk line sized in
      let up =
        task_made stale junk_buffer o client fd echo l (rw k.0 refl) ok on size
          (server_handle-served (without_len o) (pos fd) msg_talk k.0) in
      let asked : svc.is_talker_online o.recver_id srv.world ≡ (returned online, w) = rw k.3 e in
      let task = talk_served (without_len o) own srv online {w = w} idle asked in
      let sent =
        frames_sent own (without_len o) online (rw k.0 refl) (without_len-IsSendable o ok) k.1 in
      (
        without_len o,
        up.0,
        sent.0,
        record s { client = s.client; talking = false; buff = s.buff ++ o ∷ [] },
        up.1,
        task.0,
        line_queued arc split junk line s short
            (talk-typed arc split splits junk line s.client login free),
        rw empty up.2,
        up.3,
        up.4,
        k.3,
        task.1,
        task.2,
        ap (run server_side own) task.2 ∙ sent.1,
        sent.2,
      )
