-- ===== src/ConcQueue/Tests.antt =====
-- A history of the queue, and its theorems at it.
use ifellsofuckinggood.Prelude.{ℕ, ◌≡◌, refl, none, some, List, [], ◌∷◌, ◌++◌}
use ifellsofuckinggood.ConcQueue.{
  Call, pushes, pops, tries, Run, done, next, push_step, pop_step, try_step, push, pop, try_and_pop,
}
use ifellsofuckinggood.ConcQueue.Fifo.{puts, takes, Run-fifo}

abbrev last_one : List ℕ
last_one = 3 ∷ []

abbrev history : List (Call ℕ)
history = pushes 1 ∷ pushes 2 ∷ pops 1 ∷ tries (some 2) ∷ tries none ∷ []

life : Run [] history []
unfolding push pop try_and_pop
life = next (push_step 1 []) (
    next (push_step 2 (1 ∷ []))
      (next (pop_step refl) (next (try_step refl) (next (try_step refl) done))))

Run-fifo_example : [] ++ puts history ≡ takes history ++ []
Run-fifo_example = Run-fifo life
