-- ===== src/Startup/Workers.antt =====
-- Which of the workers are left for the handlers' tasks once the server has started.
use ifellsofuckinggood.Prelude.{
  ℕ, zero, suc, ◌≡◌, ◌≢◌, ◌≤◌, ◌⊎◌, refl, sym, ap, subst, inl, inr, Bool, true, false, Option, some,
  List, [], ◌∷◌, ◌++◌, All, get_elem?, set, replicate, arith, Outcome, returned, thrown, undefined,
}
use ifellsofuckinggood.ThreadPool.{
  Pool, Worker, idle, busy, exited, new, runs, enqueue, wake, Event, enqueues, starts, exits,
  finishes, shuts, Step, enqueue_step, start_step, exit_step, finish_step, shut_step,
}
use ifellsofuckinggood.ThreadPool.Counts.{started, start_cases, exit_cases, enqueue_cases}
use ifellsofuckinggood.HandleMsg.{Task}
use ifellsofuckinggood.Startup.{
  Job, log_loop, send_loop, handles, Server, enqueued, after_log, on_init, server_init,
}
use ifellsofuckinggood.ThreadPool as ThreadPool
use ifellsofuckinggood.RedisClient.{Env}
use ifellsofuckinggood.ComManger.{Manger}
use ifellsofuckinggood.ComManger as ComManger

-- While the server runs, only tasks of handlers are enqueued, only those finish, and the pool is not
-- destroyed.
abbrev pub IsUsual : Pool Job → Event Job → Type 0
IsUsual p (enqueues job) = (t : Task) × (job ≡ handles t)
IsUsual p (starts i job) = Unit
IsUsual p (exits i) = Unit
IsUsual p (finishes i) = (t : Task) × (get_elem? p.workers i ≡ some (busy (handles t)))
IsUsual p shuts = ⊥

pub data Going : Pool Job → List (Event Job) → Pool Job → Type 0 where
  here : {p : Pool Job} → Going p [] p
  goes :
      {p q r : Pool Job} {e : Event Job} {es : List (Event Job)}
      → Step p e q
      → IsUsual p e
      → Going q es r
      → Going p (e ∷ es) r

abbrev pub IsLoop : Job → Type 0
IsLoop log_loop = Unit
IsLoop send_loop = Unit
IsLoop (handles t) = ⊥

abbrev pub free : List (Worker Job) → ℕ
free [] = 0
free (idle ∷ ws) = suc (free ws)
free (_ ∷ ws) = free ws

abbrev pub front_loops : List Job → ℕ
front_loops [] = 0
front_loops (handles t ∷ js) = 0
front_loops (_ ∷ js) = suc (front_loops js)

-- No worker that waits gets past the loops at the front of the queue.
record IsStarved (p : Pool Job) : Type 0 where
  none_left : free p.workers ≤ front_loops p.tasks
  none_handles : (i : ℕ) (t : Task) → get_elem? p.workers i ≢ some (busy (handles t))

front_loops-append : (js : List Job) (j : Job) → front_loops js ≤ front_loops (js ++ j ∷ [])
front_loops-append [] j = omega arith
front_loops-append (log_loop ∷ js) j = omega (arith, front_loops-append js j)
front_loops-append (send_loop ∷ js) j = omega (arith, front_loops-append js j)
front_loops-append (handles t ∷ js) j = omega arith

free-set :
    (ws : List (Worker Job)) (i : ℕ) (w : Worker Job)
    → get_elem? ws i ≡ some idle
    → free (w ∷ []) ≡ 0
    → suc (free (set ws i w)) ≡ free ws
free-set [] i w h n = cc
free-set (v ∷ ws) zero w h n = ground arith
free-set (v ∷ ws) (suc i) w h n = ground (arith, free-set ws i w)

get-set :
    (ws : List (Worker Job)) (i k : ℕ) (w v : Worker Job)
    → get_elem? (set ws i w) k ≡ some v
    → (w ≡ v) ⊎ (get_elem? ws k ≡ some v)
get-set [] i k w v h = cc
get-set (x ∷ ws) zero zero w v h = ground arith
get-set (x ∷ ws) zero (suc k) w v h = inr h
get-set (x ∷ ws) (suc i) zero w v h = inr h
get-set (x ∷ ws) (suc i) (suc k) w v h = get-set ws i k w v h

IsLoop-first :
    (j : Job) (js : List Job) (n : ℕ)
    → suc n ≤ front_loops (j ∷ js)
    → IsLoop j × (n ≤ front_loops js)
IsLoop-first log_loop js n h = (tt, omega arith)
IsLoop-first send_loop js n h = (tt, omega arith)
IsLoop-first (handles t) js n h = absurd (omega arith)

loop-handles : (j : Job) (t : Task) → IsLoop j → j ≢ handles t
loop-handles log_loop t l e = cc
loop-handles send_loop t l e = cc
loop-handles (handles u) t l e = l

start-IsStarved :
    (i : ℕ) (j : Job) (p q : Pool Job)
    → wake i p ≡ some (runs j q)
    → IsStarved p
    → IsLoop j × IsStarved q
start-IsStarved i j p q h v =
    let c = start_cases i j p q h in
    let fewer = free-set p.workers i (busy j) c.0 refl in
    let first =
      IsLoop-first j q.tasks (free q.workers)
        (omega (arith, v.none_left, fewer, ap free c.2, ap front_loops c.1)) in
    (
      first.0,
      record {
        none_left = first.1;
        none_handles = λ k t e.
            elim (get-set p.workers i k (busy j) (busy (handles t))
              (subst (λ ws. get_elem? ws k ≡ some (busy (handles t))) c.2 e)) [
                | inl b ↦ loop-handles j t first.0 (ground arith)
                | inr b ↦ v.none_handles k t b
              ];
      },
    )

exit-IsStarved :
    (i : ℕ) (p : Pool Job)
    → get_elem? p.workers i ≡ some idle
    → IsStarved p
    → IsStarved (record p { workers = set p.workers i exited })
exit-IsStarved i p w v = record {
  none_left = omega (arith, v.none_left, free-set p.workers i exited w refl);
  none_handles = λ k t e. elim (get-set p.workers i k exited (busy (handles t)) e) [
    | inl b ↦ cc
    | inr b ↦ v.none_handles k t b
  ];
}

enqueue-IsStarved :
    (j : Job) (p : Pool Job) → IsStarved p → IsStarved (record p { tasks = p.tasks ++ j ∷ [] })
enqueue-IsStarved j p v = record {
  none_left = omega (arith, v.none_left, front_loops-append p.tasks j);
  none_handles = λ k t e. v.none_handles k t e;
}

-- Over any usual run of a starved pool, only the loops are started.
Going-starved :
    {p q : Pool Job} {es : List (Event Job)} → Going p es q → IsStarved p → All IsLoop (started es)
Going-starved here v = tt
Going-starved (goes (enqueue_step {t = j} {p} {q} h) u run) v =
    Going-starved run (subst IsStarved (sym (enqueue_cases j p q h).1) (enqueue-IsStarved j p v))
Going-starved (goes (start_step {i} {t = j} {p} {q} h) u run) v =
    let r = start-IsStarved i j p q h v in (r.0, Going-starved run r.1)
Going-starved (goes (exit_step {i} {p} {q} h) u run) v =
    let c = exit_cases i p q h in
    Going-starved run (subst IsStarved (sym c.3) (exit-IsStarved i p c.0 v))
Going-starved (goes (finish_step {i} {p} {q} h) u run) v = absurd (v.none_handles i u.0 u.1)
Going-starved (goes (shut_step p) u run) v = absurd u

-- The pool that a started server has: with the two loops waiting, or without a worker.
abbrev pub fresh : ℕ → Pool Job
fresh threads = record {
  workers = replicate threads idle;
  tasks = log_loop ∷ send_loop ∷ [];
  stop = false;
}

pool_of : {X Y W C : Type 0} → Outcome (Server X Y W C) → Pool Job
pool_of (returned s) = s.pool
pool_of _ = new

module _ {X Y W C : Type 0} (env : Env X Y W) where
  pub on_init-pool :
      (threads connections : ℕ) (created : ℕ → Option C) (s : Server X Y W C)
      (r : Outcome Bool × Manger X Y W) {s' : Server X Y W C}
      → on_init threads connections created (record s { pool = new }) r ≡ returned s'
      → ((r.0 ≡ returned true) × (s'.pool ≡ fresh threads))
        ⊎ ((r.0 ≡ returned false) × (s'.pool ≡ new))
  unfolding on_init after_log enqueued enqueue ThreadPool.init new pool_of
  on_init-pool threads connections created s (returned true, m) h = inl (refl, sym (ap pool_of h))
  on_init-pool threads connections created s (returned false, m) h = inr (refl, sym (ap pool_of h))
  on_init-pool threads connections created s (thrown, m) h = cc
  on_init-pool threads connections created s (undefined, m) h = cc

free-replicate : (n : ℕ) → free (replicate n idle) ≡ n
free-replicate zero = refl
free-replicate (suc n) = ap suc (free-replicate n)

replicate-idle : (n i : ℕ) (j : Job) → get_elem? (replicate n idle) i ≢ some (busy j)
replicate-idle zero i j e = cc
replicate-idle (suc n) zero j e = cc
replicate-idle (suc n) (suc i) j e = replicate-idle n i j e

fresh-IsStarved : (threads : ℕ) → threads ≤ 2 → IsStarved (fresh threads)
fresh-IsStarved threads h = record {
  none_left = omega (arith, free-replicate threads);
  none_handles = λ i t e. replicate-idle threads i (handles t) e;
}

new-IsStarved : IsStarved new
unfolding new
new-IsStarved = record { none_left = omega arith; none_handles = λ i t e. cc }

module _ {X Y W C : Type 0} (env : Env X Y W) where
  -- Where the server is started with at most two threads, or where the first read of the users fails,
  -- which serverInit reports with the same 0, no task of a handler is ever started as long as the log's
  -- loop and the sending loop go on: whatever is enqueued, only those two are started.
  pub server_init-starved :
      (threads connections : ℕ) (created : ℕ → Option C) (s s' : Server X Y W C) {q : Pool Job}
      {es : List (Event Job)}
      → server_init env threads connections created (record s { pool = new }) ≡ returned s'
      → (threads ≤ 2) ⊎ ((ComManger.init env s.manger).0 ≡ returned false)
      → Going s'.pool es q
      → All IsLoop (started es)
  unfolding server_init
  server_init-starved threads connections created s s' h few run =
      elim (on_init-pool env threads connections created s (ComManger.init env s.manger) h) [
        | inr (f, e) ↦ Going-starved run (subst IsStarved (sym e) new-IsStarved)
        | inl (t, e) ↦ elim few [
          | inl k ↦ Going-starved run (subst IsStarved (sym e) (fresh-IsStarved threads k))
          | inr f ↦ absurd cc
        ]
      ]
