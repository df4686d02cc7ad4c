-- ===== src/Startup/Spare.antt =====
-- The worker that is left for the handlers' tasks in a pool of three threads or more.
use ifellsofuckinggood.Prelude.{
  ℕ, zero, suc, ◌+◌, ◌≡◌, ◌≤◌, ◌<◌, ◌⊎◌, refl, sym, ap, ◌∙◌, subst, inl, inr, true, false, Option,
  some, List, [], ◌∷◌, ◌++◌, get_elem?, set, replicate, length, length-set, length-replicate, arith,
  returned,
}
use ifellsofuckinggood.ThreadPool.{
  Pool, Worker, idle, busy, exited, new, runs, wake, Event, enqueue_step, start_step, exit_step,
  finish_step, shut_step,
}
use ifellsofuckinggood.ThreadPool.Counts.{
  has_exited, working-replicate, wake-takes, start_cases, exit_cases, finish_cases, enqueue_cases,
}
use ifellsofuckinggood.HandleMsg.{Task}
use ifellsofuckinggood.RedisClient.{Env}
use ifellsofuckinggood.ComManger as ComManger
use ifellsofuckinggood.Startup.{Job, log_loop, send_loop, handles, Server, server_init}
use ifellsofuckinggood.Startup.Workers.{Going, here, goes, fresh, on_init-pool}

abbrev weight : Job → ℕ
weight log_loop = 1
weight send_loop = 1
weight (handles t) = 0

abbrev looping : List (Worker Job) → ℕ
looping [] = 0
looping (busy j ∷ ws) = weight j + looping ws
looping (_ ∷ ws) = looping ws

abbrev waiting : List Job → ℕ
waiting [] = 0
waiting (j ∷ js) = weight j + waiting js

record IsSpare (n : ℕ) (p : Pool Job) : Type 0 where
  not_stopped : p.stop ≡ false
  none_gone : has_exited p.workers ≡ false
  size : length p.workers ≡ n
  loops : looping p.workers + waiting p.tasks ≤ 2

looping-start :
    (ws : List (Worker Job)) (i : ℕ) (j : Job)
    → get_elem? ws i ≡ some idle
    → has_exited ws ≡ false
    → (looping (set ws i (busy j)) ≡ weight j + looping ws)
      × (has_exited (set ws i (busy j)) ≡ false)
looping-start [] i j h x = cc
looping-start (idle ∷ ws) zero j h x = (refl, x)
looping-start (busy k ∷ ws) zero j h x = cc
looping-start (exited ∷ ws) zero j h x = cc
looping-start (idle ∷ ws) (suc i) j h x = looping-start ws i j h x
looping-start (busy k ∷ ws) (suc i) j h x =
    let r = looping-start ws i j h x in (omega (arith, r.0), r.1)
looping-start (exited ∷ ws) (suc i) j h x = cc

looping-finish :
    (ws : List (Worker Job)) (i : ℕ) (t : Task)
    → get_elem? ws i ≡ some (busy (handles t))
    → has_exited ws ≡ false
    → (looping (set ws i idle) ≡ looping ws) × (has_exited (set ws i idle) ≡ false)
looping-finish [] i t h x = cc
looping-finish (idle ∷ ws) zero t h x = cc
looping-finish (busy (handles u) ∷ ws) zero t h x = (omega arith, x)
looping-finish (busy log_loop ∷ ws) zero t h x = cc
looping-finish (busy send_loop ∷ ws) zero t h x = cc
looping-finish (exited ∷ ws) zero t h x = cc
looping-finish (idle ∷ ws) (suc i) t h x = looping-finish ws i t h x
looping-finish (busy k ∷ ws) (suc i) t h x =
    let r = looping-finish ws i t h x in (omega (arith, r.0), r.1)
looping-finish (exited ∷ ws) (suc i) t h x = cc

waiting-append : (js : List Job) (t : Task) → waiting (js ++ handles t ∷ []) ≡ waiting js
waiting-append [] t = refl
waiting-append (j ∷ js) t = omega (arith, waiting-append js t)

-- Of more workers than two loops can hold, one waits or runs a task of a handler.
spare_worker :
    (ws : List (Worker Job))
    → has_exited ws ≡ false
    → looping ws < length ws
    → (i : ℕ) × ((get_elem? ws i ≡ some idle)
        ⊎ ((t : Task) × (get_elem? ws i ≡ some (busy (handles t)))))
spare_worker [] x h = absurd (omega arith)
spare_worker (idle ∷ ws) x h = (0, inl refl)
spare_worker (busy (handles t) ∷ ws) x h = (0, inr (t, refl))
spare_worker (busy log_loop ∷ ws) x h = let r = spare_worker ws x (omega arith) in (suc r.0, r.1)
spare_worker (busy send_loop ∷ ws) x h = let r = spare_worker ws x (omega arith) in (suc r.0, r.1)
spare_worker (exited ∷ ws) x h = cc

start-IsSpare :
    (n i : ℕ) (j : Job) (p q : Pool Job) → wake i p ≡ some (runs j q) → IsSpare n p → IsSpare n q
start-IsSpare n i j p q h v =
    let c = start_cases i j p q h in
    let l = looping-start p.workers i j c.0 v.none_gone in
    record {
      not_stopped = c.3 ∙ v.not_stopped;
      none_gone = ap has_exited c.2 ∙ l.1;
      size = ap length c.2 ∙ length-set p.workers i (busy j) ∙ v.size;
      loops = omega (arith, v.loops, ap looping c.2, ap waiting c.1, l.0);
    }

finish-IsSpare :
    (n i : ℕ) (t : Task) (p : Pool Job)
    → get_elem? p.workers i ≡ some (busy (handles t))
    → IsSpare n p
    → IsSpare n (record p { workers = set p.workers i idle })
finish-IsSpare n i t p h v =
    let l = looping-finish p.workers i t h v.none_gone in
    record {
      not_stopped = v.not_stopped;
      none_gone = l.1;
      size = length-set p.workers i idle ∙ v.size;
      loops = omega (arith, v.loops, l.0);
    }

enqueue-IsSpare :
    (n : ℕ) (t : Task) (p : Pool Job)
    → IsSpare n p
    → IsSpare n (record p { tasks = p.tasks ++ handles t ∷ [] })
enqueue-IsSpare n t p v = record {
  not_stopped = v.not_stopped;
  none_gone = v.none_gone;
  size = v.size;
  loops = omega (arith, v.loops, waiting-append p.tasks t);
}

Going-IsSpare :
    (n : ℕ) {p q : Pool Job} {es : List (Event Job)} → Going p es q → IsSpare n p → IsSpare n q
Going-IsSpare n here v = v
Going-IsSpare n (goes (enqueue_step {t = j} {p} {q} h) (t, e) run) v = Going-IsSpare n run (
    subst (IsSpare n) (sym (enqueue_cases j p q h).1) (
      subst (λ k. IsSpare n (record p { tasks = p.tasks ++ k ∷ [] })) (sym e)
        (enqueue-IsSpare n t p v)))
Going-IsSpare n (goes (start_step {i} {t = j} {p} {q} h) u run) v =
    Going-IsSpare n run (start-IsSpare n i j p q h v)
Going-IsSpare n (goes (exit_step {i} {p} {q} h) u run) v =
    let c = exit_cases i p q h in absurd (ground (arith, v.not_stopped))
Going-IsSpare n (goes (finish_step {i} {p} {q} h) (t, e) run) v =
    Going-IsSpare n run
      (subst (IsSpare n) (sym (finish_cases i p q h).2) (finish-IsSpare n i t p e v))
Going-IsSpare n (goes (shut_step p) u run) v = absurd u

looping-replicate : (n : ℕ) → looping (replicate n idle) ≡ 0
looping-replicate zero = refl
looping-replicate (suc n) = looping-replicate n

fresh-IsSpare : (n : ℕ) → IsSpare n (fresh n)
fresh-IsSpare n = record {
  not_stopped = refl;
  none_gone = (working-replicate Job n).1;
  size = length-replicate {A = Worker Job} n idle;
  loops = omega (arith, looping-replicate n);
}

-- Worker i runs a task of a handler, or waits and takes the next task that there is.
abbrev pub IsForHandlers : ℕ → Pool Job → Type 0
IsForHandlers i p =
    ((t : Task) × (get_elem? p.workers i ≡ some (busy (handles t))))
    ⊎ ((j : Job) (js : List Job)
        → p.tasks ≡ j ∷ js
        → (q : Pool Job) × (wake i p ≡ some (runs j q)) × (q.tasks ≡ js))

waits-IsForHandlers : (i : ℕ) (p : Pool Job) → get_elem? p.workers i ≡ some idle → IsForHandlers i p
waits-IsForHandlers i p w = inr λ j js e.
    (record p { workers = set p.workers i (busy j); tasks = js }, wake-takes i p w e, refl)

spare-IsForHandlers : (n : ℕ) (p : Pool Job) → 3 ≤ n → IsSpare n p → (i : ℕ) × IsForHandlers i p
spare-IsForHandlers n p k v =
    let r = spare_worker p.workers v.none_gone (omega (arith, v.loops, v.size, k)) in
    elim r.1 [ inl w ↦ (r.0, waits-IsForHandlers r.0 p w) | inr b ↦ (r.0, inl b) ]

module _ {X Y W C : Type 0} (env : Env X Y W) where
  -- Where the server is started with at least three threads and the first read of the users succeeds,
  -- then at every point of a usual run some worker is left for the handlers: it runs a task of a
  -- handler, or it waits, and as soon as there is a task in the queue it takes the first one.
  pub server_init-spare :
      (threads connections : ℕ) (created : ℕ → Option C) (s s' : Server X Y W C) {q : Pool Job}
      {es : List (Event Job)}
      → server_init env threads connections created (record s { pool = new }) ≡ returned s'
      → 3 ≤ threads
      → (ComManger.init env s.manger).0 ≡ returned true
      → Going s'.pool es q
      → (i : ℕ) × IsForHandlers i q
  unfolding server_init
  server_init-spare threads connections created s s' {q} h k ok run =
      elim (on_init-pool env threads connections created s (ComManger.init env s.manger) h) [
        | inr (f, e) ↦ absurd cc
        | inl (t, e) ↦
            spare-IsForHandlers threads q k
              (Going-IsSpare threads run (subst (IsSpare threads) (sym e) (fresh-IsSpare threads)))
      ]
