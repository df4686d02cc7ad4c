-- ===== src/ConcQueue.antt =====
-- smer/Util/inc/ConcQueue.h: a queue behind a mutex. Every method runs under the lock, so it is one
-- step on the elements, oldest first. A method that waits on a condition returns `none` where it
-- goes on waiting. `Step` and `Run` are the interleavings of any number of threads.
pub mod Fifo
mod Tests
use ifellsofuckinggood.Prelude.{◌≡◌, Bool, true, false, Option, none, some, List, [], ◌∷◌, ◌++◌}

module _ {ℓ} {A : Type ℓ} where
  unfoldable pub push : A → List A → List A
  push v data' = data' ++ v ∷ []

  unfoldable pub front : List A → Option A
  front [] = none
  front (v ∷ rest) = some v

  -- The test for emptiness behind the wait never holds.
  unfoldable pub pop : List A → Option (A × List A)
  pop [] = none
  pop (v ∷ rest) = some (v, rest)

  -- Returns a null pointer where there is nothing.
  unfoldable pub try_and_pop : List A → Option A × List A
  try_and_pop [] = (none, [])
  try_and_pop (v ∷ rest) = (some v, rest)

  unfoldable pub empty : List A → Bool
  empty [] = true
  empty (v ∷ rest) = false

  unfoldable pub wait_till_not_empty : List A → Option Bool
  wait_till_not_empty [] = none
  wait_till_not_empty (v ∷ rest) = some true

  unfoldable pub wait_push_till_empty : A → List A → Option (List A)
  wait_push_till_empty v [] = some (v ∷ [])
  wait_push_till_empty v (w ∷ rest) = none

-- A call, with what it returned.
pub data Call {ℓ} (A : Type ℓ) : Type ℓ where
  pushes : A → Call A
  pops : A → Call A
  tries : Option A → Call A
  wait_pushes : A → Call A

pub data Step {ℓ} {A : Type ℓ} : List A → Call A → List A → Type ℓ where
  push_step : (v : A) (q : List A) → Step q (pushes v) (push v q)
  pop_step : {v : A} {q q' : List A} → pop q ≡ some (v, q') → Step q (pops v) q'
  try_step : {r : Option A} {q q' : List A} → try_and_pop q ≡ (r, q') → Step q (tries r) q'
  wait_step :
      {v : A} {q q' : List A} → wait_push_till_empty v q ≡ some q' → Step q (wait_pushes v) q'

pub data Run {ℓ} {A : Type ℓ} : List A → List (Call A) → List A → Type ℓ where
  done : {q : List A} → Run q [] q
  next :
      {q r s : List A} {c : Call A} {cs : List (Call A)}
      → Step q c r
      → Run r cs s
      → Run q (c ∷ cs) s
