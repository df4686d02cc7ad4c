-- ===== src/Client/Loop.antt =====
-- What the sending loop sends, and when it ends.
use ifellsofuckinggood.Prelude.{◌≡◌, refl, ℤ, true, false, List, [], ◌∷◌, ◌++◌, map, All}
use ifellsofuckinggood.TransObj.{TransObj}
use ifellsofuckinggood.ConcQueue.{Call, Run, Step, wait_pushes}
use ifellsofuckinggood.ConcQueue.Fifo.{puts, takes, wait_push_drained}
use ifellsofuckinggood.Client.{Side, frame_of, waits, closed, is_button, run}

-- Messages that do not end the loop.
abbrev pub AllSendable : List TransObj → Type 0
AllSendable = All (λ o. is_button o ≡ false)

module _ (side : Side) (client : ℤ) where
  -- The loop ends at the first MSG_BUTTON, whatever follows: it has sent the frames of the messages
  -- before it, each once and in order, and takes none of those behind it.
  pub run_ends :
      (os : List TransObj) (o : TransObj) (rest : List TransObj)
      → AllSendable os
      → is_button o ≡ true
      → run side client (os ++ o ∷ rest) ≡ (map (frame_of side client) os, closed, rest)
  unfolding run
  run_ends [] o rest h e = rw e refl
  run_ends (p ∷ os) o rest h e = rw (h.0, run_ends os o rest h.1 e) refl

  -- When the program's end, waitPushTillEmpty of a MSG_BUTTON, comes through after a history of the
  -- queue that began with it empty and in which only the loop took messages, the loop has sent a frame
  -- for each message that was ever put, in order, and ends with nothing left in the queue.
  pub shutdown_sends_all :
      {r s : List TransObj} {cs : List (Call TransObj)} {o : TransObj}
      → Run [] cs r
      → Step r (wait_pushes o) s
      → AllSendable (puts cs)
      → is_button o ≡ true
      → run side client (takes cs ++ s) ≡ (map (frame_of side client) (puts cs), closed, [])
  shutdown_sends_all {s} {cs} {o} history end h e =
      let d = wait_push_drained history end in rw (d.0, d.1) (run_ends (puts cs) o [] h e)

  -- Without a MSG_BUTTON everything is sent, and the loop waits.
  pub run_waits :
      (os : List TransObj)
      → AllSendable os
      → run side client os ≡ (map (frame_of side client) os, waits, [])
  unfolding run
  run_waits [] h = refl
  run_waits (o ∷ os) h = rw (h.0, run_waits os h.1) refl
