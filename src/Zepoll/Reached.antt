-- ===== src/Zepoll/Reached.antt =====
-- The states that the server's loop reaches from its start.
use ifellsofuckinggood.Prelude.{ℕ, ◌≡◌, subst, Bytes, List, All, length, returned}
use ifellsofuckinggood.Zepoll.{Event, IoLoop, handle_events, listening}
use ifellsofuckinggood.Zepoll.Serving.{IsServing, IsReported, IsDistinct, buffer_size}
use ifellsofuckinggood.Zepoll.Batch.{handle_events-IsServing, listening-IsServing}

-- From the new loop with its listening socket, by batches of events that epoll_wait may report.
pub data Reach (junk : ℕ) (junk_buffer : Bytes) (fd : ℕ) : IoLoop → Type 0 where
  start : Reach junk junk_buffer fd (listening fd)
  round :
      {s s' : IoLoop} (es : List Event)
      → Reach junk junk_buffer fd s
      → All (IsReported s) es
      → IsDistinct es
      → handle_events junk junk_buffer es s ≡ returned s'
      → Reach junk junk_buffer fd s'

module _ {junk : ℕ} {junk_buffer : Bytes} {fd : ℕ} (size : length junk_buffer ≡ buffer_size) where
  Reach-IsServing : {s : IoLoop} → Reach junk junk_buffer fd s → IsServing s
  Reach-IsServing start = listening-IsServing fd
  Reach-IsServing (round {s} {s'} es r p d h) =
      let q = handle_events-IsServing junk junk_buffer size es s (Reach-IsServing r) p d in
      let e : q.0 ≡ s' = cc (q.1, h) in subst IsServing e q.2

  -- In every state that the loop reaches, every batch of events that epoll_wait may report, with chunks
  -- that are whole frames, is handled to its end, so the loop goes on; and every descriptor of the
  -- kernel's set has a handler.
  pub Reach-progress :
      (es : List Event) {s : IoLoop}
      → Reach junk junk_buffer fd s
      → All (IsReported s) es
      → IsDistinct es
      → (s' : IoLoop) × (handle_events junk junk_buffer es s ≡ returned s')
        × Reach junk junk_buffer fd s'
        × IsServing s'
  Reach-progress es {s} r p d =
      let q = handle_events-IsServing junk junk_buffer size es s (Reach-IsServing r) p d in
      (q.0, q.1, round es r p d q.1, q.2)
