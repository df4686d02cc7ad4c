-- ===== src/Session/Hops.antt =====
-- The steps of which every way between the programs is made: a line that is typed, a message from a client
-- to a task of the server, and a message from the server to a client.
use ifellsofuckinggood.Prelude.{
  ℕ, ◌≡◌, ◌<◌, refl, sym, ap, ◌∙◌, ℤ, pos, Bytes, false, some, List, [], ◌∷◌, ◌++◌, map, replicate,
  length, lt→leb, returned,
}
use ifellsofuckinggood.TransObj.{TransObj, max_trans_msg_len}
use ifellsofuckinggood.Player.{Archive}
use ifellsofuckinggood.HandleMsg.{Task, server_handle}
use ifellsofuckinggood.HandleMsg.Client.{Client}
use ifellsofuckinggood.IoManger.{IoManger}
use ifellsofuckinggood.IoManger.Talk.{handle_talk}
use ifellsofuckinggood.Util.{get_msg_from_input}
use ifellsofuckinggood.Client.{
  Frame, server_side, client_side, frame_of, run, RunEnd, waits, is_button, recv_msg,
}
use ifellsofuckinggood.Client.Loop.{run_waits}
use ifellsofuckinggood.Client.Received.{IsSendable, without_len, recv_msg-run}
use ifellsofuckinggood.Zepoll.{Echo, echo_handler, IoLoop, update, tasks_of, dispatch}
use ifellsofuckinggood.Zepoll.Serving.{buffer_size}
use ifellsofuckinggood.Zepoll.Session.{arrives, dispatch-frame}

-- A line that makes a message puts it behind those to send.
pub line_queued :
    {F : Type 0} (arc : Archive F) (split : Bytes → Bytes → List Bytes) (junk : TransObj)
    (line : Bytes) (s : IoManger F) {o : TransObj} {c : Client F}
    → length line < max_trans_msg_len
    → get_msg_from_input arc split junk line s.client ≡ returned (some o, c)
    → handle_talk arc split junk line s
      ≡ returned (record s { client = c; talking = false; buff = s.buff ++ o ∷ [] })
unfolding handle_talk
line_queued arc split junk line s short e = rw (lt→leb (length line) 64 short, e) refl

-- The only message of a client's queue becomes one frame, and where that arrives in one piece on a
-- connection, the task that the server has for it.
pub task_made :
    (stale : ℕ) (junk_buffer : Bytes) (o : TransObj) (client : ℤ) (fd : ℕ) (echo : Echo)
    (l : IoLoop) {t : Task}
    → is_button o ≡ false
    → IsSendable o
    → l.handlers fd ≡ some (echo_handler echo)
    → length echo.buffer ≡ buffer_size
    → server_handle (some (without_len o)) (pos fd) ≡ some t
    → (frame : Frame) × (l' : IoLoop) × (run client_side client (o ∷ []) ≡ (frame ∷ [], waits, []))
      × (dispatch stale junk_buffer (arrives fd frame.bytes) l ≡ returned l')
      × (l'.tasks ≡ l.tasks ++ t ∷ [])
task_made stale junk_buffer o client fd echo l b ok on size made =
    let frame = frame_of client_side client o in
    (
      frame,
      record l {
        handlers =
            update fd
              (some (echo_handler (record { received = buffer_size; buffer = frame.bytes })))
              l.handlers;
        tasks = l.tasks ++ tasks_of (server_handle (some (without_len o)) (pos fd));
      },
      run_waits client_side client (o ∷ []) (b, tt),
      dispatch-frame stale junk_buffer o client fd echo l ok on size,
      ap (λ x. l.tasks ++ tasks_of x) made,
    )

-- The only message of the server's queue becomes one frame to the connection that it names, and the
-- client that receives it in one piece has the message, but for its `len`.
pub message_received :
    (own : ℤ) (o : TransObj)
    → is_button o ≡ false
    → IsSendable o
    → (frame : Frame) × (run server_side own (o ∷ []) ≡ (frame ∷ [], waits, []))
      × (frame.fd ≡ o.fd)
      × (recv_msg (frame.bytes ∷ []) (replicate 512 0) ≡ returned (without_len o ∷ []))
unfolding frame_of
message_received own o b ok =
    let sent = run_waits server_side own (o ∷ []) (b, tt) in
    (
      frame_of server_side own o,
      sent,
      refl,
      ap
            (λ (r : List Frame × RunEnd × List TransObj).
              recv_msg (map (λ (f : Frame). f.bytes) r.0) (replicate 512 0))
            (sym sent)
          ∙ recv_msg-run own (o ∷ []) (b, tt) (ok, tt),
    )
