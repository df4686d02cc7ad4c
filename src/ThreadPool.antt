-- ===== src/ThreadPool.antt =====
-- smer/Util/inc/ThreadPool.h: the workers, the queue of tasks and the flag `stop`. A section under
-- `queue_mutex` is one step, a task runs between two steps of its worker, and `Run` is any
-- interleaving of producers, workers and the destructor.
pub mod Counts
pub mod Drain
mod Tests
use ifellsofuckinggood.Prelude.{
  ℕ, ◌≡◌, Bool, true, false, ◌||◌, ◌&&◌, not, Option, none, some, List, [], ◌∷◌, ◌++◌, get_elem?,
  set, replicate, if◌then◌else◌,
}

-- A worker waits for a task, runs one, or has returned.
pub data Worker {ℓ} (T : Type ℓ) : Type ℓ where
  idle : Worker T
  busy : T → Worker T
  exited : Worker T

pub record Pool {ℓ} (T : Type ℓ) : Type ℓ where
  pub workers : List (Worker T)
  pub tasks : List T
  pub stop : Bool

-- What a worker does once its wait is over.
pub data Woken {ℓ} (T : Type ℓ) : Type ℓ where
  runs : T → Pool T → Woken T
  returns : Pool T → Woken T

module _ {ℓ} {T : Type ℓ} where
  unfoldable pub new : Pool T
  new = record { workers = []; tasks = []; stop = false }

  unfoldable pub init : ℕ → Pool T → Pool T
  init threads p = record p { workers = p.workers ++ replicate threads idle }

  -- `none` is the exception on a stopped pool.
  unfoldable pub enqueue : T → Pool T → Option (Pool T)
  enqueue task p = if p.stop then none else some (record p { tasks = p.tasks ++ task ∷ [] })

  pub is_empty : List T → Bool
  is_empty [] = true
  is_empty (t ∷ ts) = false

  -- The section under the lock, once the wait's condition holds.
  pub take_task : ℕ → Pool T → List T → Option (Woken T)
  take_task i p [] =
      if p.stop then some (returns (record p { workers = set p.workers i exited })) else none
  take_task i p (t ∷ ts) =
      some (runs t (record p { workers = set p.workers i (busy t); tasks = ts }))

  pub wake_as : Option (Worker T) → ℕ → Pool T → Option (Woken T)
  unfolding take_task
  wake_as (some idle) i p = take_task i p p.tasks
  wake_as _ i p = none

  -- One round of worker i up to the call of its task; `none` is a worker that is not waiting, or
  -- that goes on waiting.
  unfoldable pub wake : ℕ → Pool T → Option (Woken T)
  unfolding wake_as
  wake i p = wake_as (get_elem? p.workers i) i p

  pub finish_as : Option (Worker T) → ℕ → Pool T → Option (Pool T)
  finish_as (some (busy t)) i p = some (record p { workers = set p.workers i idle })
  finish_as _ i p = none

  -- The task of worker i returns.
  unfoldable pub finish : ℕ → Pool T → Option (Pool T)
  unfolding finish_as
  finish i p = finish_as (get_elem? p.workers i) i p

  -- The destructor up to its joins.
  unfoldable pub shut : Pool T → Pool T
  shut p = record p { stop = true }

  all_exited : List (Worker T) → Bool
  all_exited [] = true
  all_exited (exited ∷ ws) = all_exited ws
  all_exited (_ ∷ ws) = false

  -- Every join of the destructor has returned.
  unfoldable pub joined : Pool T → Bool
  unfolding all_exited
  joined p = p.stop && all_exited p.workers

pub data Event {ℓ} (T : Type ℓ) : Type ℓ where
  enqueues : T → Event T
  starts : ℕ → T → Event T
  exits : ℕ → Event T
  finishes : ℕ → Event T
  shuts : Event T

pub data Step {ℓ} {T : Type ℓ} : Pool T → Event T → Pool T → Type ℓ where
  enqueue_step : {t : T} {p q : Pool T} → enqueue t p ≡ some q → Step p (enqueues t) q
  start_step : {i : ℕ} {t : T} {p q : Pool T} → wake i p ≡ some (runs t q) → Step p (starts i t) q
  exit_step : {i : ℕ} {p q : Pool T} → wake i p ≡ some (returns q) → Step p (exits i) q
  finish_step : {i : ℕ} {p q : Pool T} → finish i p ≡ some q → Step p (finishes i) q
  shut_step : (p : Pool T) → Step p shuts (shut p)

pub data Run {ℓ} {T : Type ℓ} : Pool T → List (Event T) → Pool T → Type ℓ where
  done : {p : Pool T} → Run p [] p
  next :
      {p q r : Pool T} {e : Event T} {es : List (Event T)}
      → Step p e q
      → Run q es r
      → Run p (e ∷ es) r
