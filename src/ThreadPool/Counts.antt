-- ===== src/ThreadPool/Counts.antt =====
-- What a history has done, how many tasks the workers run, and what each step does to them.
use ifellsofuckinggood.Prelude.{
  ℕ, zero, suc, ◌≡◌, refl, Bool, true, false, some, List, [], ◌∷◌, ◌++◌, get_elem?, set, replicate,
  arith, ◌≢◌,
}
use ifellsofuckinggood.ThreadPool.{
  Pool, Worker, idle, busy, exited, Woken, runs, returns, enqueue, take_task, wake_as, wake,
  finish_as, finish, Event, enqueues, starts, exits, finishes, shuts,
}

module _ {ℓ} {T : Type ℓ} where
  abbrev pub enqueued : List (Event T) → List T
  enqueued [] = []
  enqueued (enqueues t ∷ es) = t ∷ enqueued es
  enqueued (starts i t ∷ es) = enqueued es
  enqueued (exits i ∷ es) = enqueued es
  enqueued (finishes i ∷ es) = enqueued es
  enqueued (shuts ∷ es) = enqueued es

  abbrev pub started : List (Event T) → List T
  started [] = []
  started (enqueues t ∷ es) = started es
  started (starts i t ∷ es) = t ∷ started es
  started (exits i ∷ es) = started es
  started (finishes i ∷ es) = started es
  started (shuts ∷ es) = started es

  abbrev pub finished : List (Event T) → ℕ
  finished [] = 0
  finished (enqueues t ∷ es) = finished es
  finished (starts i t ∷ es) = finished es
  finished (exits i ∷ es) = finished es
  finished (finishes i ∷ es) = suc (finished es)
  finished (shuts ∷ es) = finished es

  abbrev pub working : List (Worker T) → ℕ
  working [] = 0
  working (idle ∷ ws) = working ws
  working (busy t ∷ ws) = suc (working ws)
  working (exited ∷ ws) = working ws

  abbrev pub has_exited : List (Worker T) → Bool
  has_exited [] = false
  has_exited (idle ∷ ws) = has_exited ws
  has_exited (busy t ∷ ws) = has_exited ws
  has_exited (exited ∷ ws) = true

pub working-replicate {ℓ} :
    (T : Type ℓ) (n : ℕ)
    → (working {T = T} (replicate n idle) ≡ 0) × (has_exited {T = T} (replicate n idle) ≡ false)
working-replicate T zero = (refl, refl)
working-replicate T (suc n) = working-replicate T n

module _ {ℓ} {T : Type ℓ} where
  -- A worker that wakes was waiting, and what it does is told by the queue.
  pub wake_cases :
      (i : ℕ) (p : Pool T) {w : Woken T}
      → wake i p ≡ some w
      → (get_elem? p.workers i ≡ some idle) × (take_task i p p.tasks ≡ some w)
  unfolding wake wake_as
  wake_cases i p h = ground arith

  -- A worker that waits takes the first task.
  pub wake-takes :
      (i : ℕ) (p : Pool T) {t : T} {ts : List T}
      → get_elem? p.workers i ≡ some idle
      → p.tasks ≡ t ∷ ts
      → wake i p ≡ some (runs t (record p { workers = set p.workers i (busy t); tasks = ts }))
  unfolding wake wake_as take_task
  wake-takes i p w e = simp (w, e)

  pub start_cases :
      (i : ℕ) (t : T) (p q : Pool T)
      → wake i p ≡ some (runs t q)
      → (get_elem? p.workers i ≡ some idle)
        × (p.tasks ≡ t ∷ q.tasks)
        × (q.workers ≡ set p.workers i (busy t))
        × (q.stop ≡ p.stop)
  unfolding take_task
  start_cases i t p q h = ground (arith, wake_cases i p {w = runs t q} h)

  pub exit_cases :
      (i : ℕ) (p q : Pool T)
      → wake i p ≡ some (returns q)
      → (get_elem? p.workers i ≡ some idle)
        × (p.tasks ≡ [])
        × (p.stop ≡ true)
        × (q ≡ record p { workers = set p.workers i exited })
  unfolding take_task
  exit_cases i p q h = ground (arith, wake_cases i p {w = returns q} h)

  pub finish_cases :
      (i : ℕ) (p q : Pool T)
      → finish i p ≡ some q
      → (t : T) × (get_elem? p.workers i ≡ some (busy t))
        × (q ≡ record p { workers = set p.workers i idle })
  unfolding finish finish_as
  finish_cases i p q h = ground arith

  pub enqueue_cases :
      (t : T) (p q : Pool T)
      → enqueue t p ≡ some q
      → (p.stop ≡ false) × (q ≡ record p { tasks = p.tasks ++ t ∷ [] })
  unfolding enqueue
  enqueue_cases t p q h = ground arith

  pub working-start :
      (ws : List (Worker T)) (i : ℕ) (t : T)
      → get_elem? ws i ≡ some idle
      → working (set ws i (busy t)) ≡ suc (working ws)
  working-start [] i t h = cc
  working-start (w ∷ ws) zero t h = ground arith
  working-start (w ∷ ws) (suc i) t h = ground (arith, working-start ws i t h)

  pub working-exit :
      (ws : List (Worker T)) (i : ℕ)
      → get_elem? ws i ≡ some idle
      → working (set ws i exited) ≡ working ws
  working-exit [] i h = cc
  working-exit (w ∷ ws) zero h = ground arith
  working-exit (w ∷ ws) (suc i) h = ground (arith, working-exit ws i h)

  pub working-finish :
      (ws : List (Worker T)) (i : ℕ) (t : T)
      → get_elem? ws i ≡ some (busy t)
      → suc (working (set ws i idle)) ≡ working ws
  working-finish [] i t h = cc
  working-finish (w ∷ ws) zero t h = ground arith
  working-finish (w ∷ ws) (suc i) t h = ground (arith, working-finish ws i t h)

  -- A worker that changes and has not exited hides no other that has.
  pub has_exited-set :
      (ws : List (Worker T)) (i : ℕ) (w : Worker T)
      → w ≢ exited
      → has_exited (set ws i w) ≡ true
      → has_exited ws ≡ true
  has_exited-set [] i w n h = h
  has_exited-set (v ∷ ws) zero w n h = ground arith
  has_exited-set (v ∷ ws) (suc i) w n h = ground (arith, has_exited-set ws i w n)
