-- ===== src/ThreadPool/Tests.antt =====
-- A pool of one worker that is given two tasks and is then destroyed.
use ifellsofuckinggood.Prelude.{ℕ, ◌≡◌, refl, true, List, [], ◌∷◌, ◌++◌, length}
use ifellsofuckinggood.ThreadPool.{
  Pool, exited, new, init, enqueue, wake, finish, shut, joined, Event, enqueues, starts, exits,
  finishes, shuts, Run, done, next, enqueue_step, start_step, exit_step, finish_step, shut_step,
}
use ifellsofuckinggood.ThreadPool.Counts.{enqueued, started, finished}
use ifellsofuckinggood.ThreadPool.Drain.{Run-order, joined_drained}

abbrev history : List (Event ℕ)
history =
    enqueues 7
    ∷ starts 0 7
    ∷ enqueues 8
    ∷ shuts
    ∷ finishes 0
    ∷ starts 0 8
    ∷ finishes 0
    ∷ exits 0
    ∷ []

abbrev ended : Pool ℕ
ended = record { workers = exited ∷ []; tasks = []; stop = true }

life : Run (init 1 new) history ended
unfolding init new enqueue wake finish shut
life = next (enqueue_step refl) (
    next (start_step refl) (
      next (enqueue_step refl) (
        next (shut_step _) (
          next (finish_step refl)
            (next (start_step refl) (next (finish_step refl) (next (exit_step refl) done)))))))

joined_drained_example :
    (started history ≡ enqueued history) × (finished history ≡ length (enqueued history))
unfolding joined
joined_drained_example = joined_drained 0 life refl

Run-order_example : 7 ∷ 8 ∷ [] ≡ started history ++ ended.tasks
unfolding init new
Run-order_example = Run-order life

abbrev farewell : List (Event ℕ)
farewell = exits 0 ∷ []
