-- ===== src/ThreadPool/Drain.antt =====
-- The order of the tasks, and what the destructor waits for.
use ifellsofuckinggood.Prelude.{
  ℕ, suc, ◌+◌, ◌<◌, ◌≡◌, refl, sym, ap, ◌∙◌, subst, true, none, List, [], ◌∷◌, ◌++◌, append_assoc,
  append-nil, set, arith, length, length-set, length-replicate,
}
use mathlib.Core.Bool.{false≢true}
use ifellsofuckinggood.ThreadPool.{
  Pool, Worker, idle, busy, exited, new, init, enqueue, shut, all_exited, joined, Event, Step,
  enqueue_step, start_step, exit_step, finish_step, shut_step, Run, done, next,
}
use ifellsofuckinggood.ThreadPool.Counts.{
  enqueued, started, finished, working, has_exited, working-replicate, start_cases, exit_cases,
  finish_cases, enqueue_cases, working-start, working-exit, working-finish, has_exited-set,
}

module _ {ℓ} {T : Type ℓ} where
  abbrev pub IsDraining : Pool T → Type ℓ
  IsDraining p = has_exited p.workers ≡ true → (p.stop ≡ true) × (p.tasks ≡ [])

  Step-IsDraining : {p q : Pool T} {e : Event T} → Step p e q → IsDraining p → IsDraining q
  unfolding shut
  Step-IsDraining (enqueue_step {t} {p} {q} h) d = λ x. ground (arith, enqueue_cases t p q h, d)
  Step-IsDraining (start_step {i} {t} {p} {q} h) d = λ x.
      let c = start_cases i t p q h in
      let was =
        has_exited-set p.workers i (busy t) (λ e. cc) (subst (λ w. has_exited w ≡ true) c.2 x) in
      cc (c.1, (d was).1)
  Step-IsDraining (exit_step {i} {p} {q} h) d = λ x. ground (arith, exit_cases i p q h)
  Step-IsDraining (finish_step {i} {p} {q} h) d = λ x.
      let c = finish_cases i p q h in
      let e : q.workers ≡ set p.workers i idle = ground arith in
      let was = has_exited-set p.workers i idle (λ e'. cc) (subst (λ w. has_exited w ≡ true) e x) in
      ground (arith, d was)
  Step-IsDraining (shut_step p) d = λ x. (refl, (d x).1)

  Run-IsDraining : {p q : Pool T} {es : List (Event T)} → Run p es q → IsDraining p → IsDraining q
  Run-IsDraining done d = d
  Run-IsDraining (next st run) d = Run-IsDraining run (Step-IsDraining st d)

  -- Over any interleaving, the waiting tasks and those enqueued later are started in that order, but
  -- for those that still wait at the end.
  pub Run-order :
      {p q : Pool T} {es : List (Event T)}
      → Run p es q
      → p.tasks ++ enqueued es ≡ started es ++ q.tasks
  unfolding shut
  Run-order (done {p}) = append-nil p.tasks
  Run-order (next {es = l} (enqueue_step {t} {p} {q} h) run) =
      let e : q.tasks ≡ p.tasks ++ t ∷ [] = ground (arith, enqueue_cases t p q h) in
      sym (append_assoc p.tasks (t ∷ []) (enqueued l))
      ∙ ap (λ x. x ++ enqueued l) (sym e)
      ∙ Run-order run
  Run-order (next {es = l} (start_step {i} {t} {p} {q} h) run) =
      ap (λ x. x ++ enqueued l) (start_cases i t p q h).1 ∙ ap (◌∷◌ t) (Run-order run)
  Run-order (next {es = l} (exit_step {i} {p} {q} h) run) =
      let e : p.tasks ≡ q.tasks = ground (arith, exit_cases i p q h) in
      ap (λ x. x ++ enqueued l) e ∙ Run-order run
  Run-order (next {es = l} (finish_step {i} {p} {q} h) run) =
      let e : p.tasks ≡ q.tasks = ground (arith, finish_cases i p q h) in
      ap (λ x. x ++ enqueued l) e ∙ Run-order run
  Run-order (next {es = l} (shut_step p) run) = Run-order run

  -- Each started task is running or has finished.
  Run-work :
      {p q : Pool T} {es : List (Event T)}
      → Run p es q
      → working p.workers + length (started es) ≡ finished es + working q.workers
  unfolding shut
  Run-work done = omega arith
  Run-work (next (enqueue_step {t} {p} {q} h) run) =
      ground (arith, enqueue_cases t p q h, Run-work run)
  Run-work (next (start_step {i} {t} {p} {q} h) run) =
      let c = start_cases i t p q h in
      omega (arith, ap working c.2, working-start p.workers i t c.0, Run-work run)
  Run-work (next (exit_step {i} {p} {q} h) run) =
      let c = exit_cases i p q h in
      omega (
        arith,
        ap (λ (x : Pool T). working x.workers) c.3,
        working-exit p.workers i c.0,
        Run-work run,
      )
  Run-work (next (finish_step {i} {p} {q} h) run) =
      let c = finish_cases i p q h in
      omega (
        arith,
        ap (λ (x : Pool T). working x.workers) c.2,
        working-finish p.workers i c.0 c.1,
        Run-work run,
      )
  Run-work (next (shut_step p) run) = Run-work run

  length-workers :
      {p q : Pool T} {es : List (Event T)} → Run p es q → length q.workers ≡ length p.workers
  unfolding shut
  length-workers done = refl
  length-workers (next (enqueue_step {t} {p} {q} h) run) =
      ground (arith, enqueue_cases t p q h, length-workers run)
  length-workers (next (start_step {i} {t} {p} {q} h) run) =
      length-workers run ∙ ap length (start_cases i t p q h).2 ∙ length-set p.workers i (busy t)
  length-workers (next (exit_step {i} {p} {q} h) run) =
      length-workers run
      ∙ ap (λ (x : Pool T). length x.workers) (exit_cases i p q h).3
      ∙ length-set p.workers i exited
  length-workers (next (finish_step {i} {p} {q} h) run) =
      length-workers run
      ∙ ap (λ (x : Pool T). length x.workers) (finish_cases i p q h).2
      ∙ length-set p.workers i idle
  length-workers (next (shut_step p) run) = length-workers run

  exited_all :
      (ws : List (Worker T))
      → all_exited ws ≡ true
      → (working ws ≡ 0) × (0 < length ws → has_exited ws ≡ true)
  unfolding all_exited
  exited_all [] h = (refl, λ k. absurd (omega arith))
  exited_all (exited ∷ ws) h = ((exited_all ws h).0, λ k. refl)
  exited_all (idle ∷ ws) h = cc
  exited_all (busy t ∷ ws) h = cc

  -- When the destructor of a pool with at least one worker has joined them all, every task that was
  -- ever enqueued has been started, in the order of the enqueues, and every one has finished.
  pub joined_drained :
      (n : ℕ) {q : Pool T} {es : List (Event T)}
      → Run (init (suc n) new) es q
      → joined q ≡ true
      → (started es ≡ enqueued es) × (finished es ≡ length (enqueued es))
  unfolding init new joined
  joined_drained n {q} {es} run j =
      let all : all_exited q.workers ≡ true = ground arith in
      let fresh = working-replicate T (suc n) in
      let some_worker : 0 < length q.workers =
        omega (arith, length-workers run, length-replicate {A = Worker T} (suc n) idle) in
      let empty : q.tasks ≡ [] =
        (Run-IsDraining run (λ x. absurd (false≢true (sym fresh.1 ∙ x)))
          ((exited_all q.workers all).1 some_worker)).1 in
      let order : enqueued es ≡ started es =
        Run-order run ∙ ap (◌++◌ (started es)) empty ∙ append-nil (started es) in
      (
        sym order,
        omega (arith, Run-work run, fresh.0, (exited_all q.workers all).0, ap length order),
      )

  -- Once the pool has been stopped no enqueue succeeds, and the pool stays stopped.
  pub Run-stopped :
      {p q : Pool T} {es : List (Event T)}
      → Run p es q
      → p.stop ≡ true
      → (t : T) → (enqueued es ≡ []) × (q.stop ≡ true) × (enqueue t q ≡ none)
  unfolding shut
  Run-stopped {p} done s u = (refl, s, unfold enqueue in rw s)
  Run-stopped (next (enqueue_step {t} {p} {q} h) run) s u = ground (arith, enqueue_cases t p q h)
  Run-stopped (next (start_step {i} {t} {p} {q} h) run) s u =
      Run-stopped run ((start_cases i t p q h).3 ∙ s) u
  Run-stopped (next (exit_step {i} {p} {q} h) run) s u =
      Run-stopped run (ap (λ (x : Pool T). x.stop) (exit_cases i p q h).3 ∙ s) u
  Run-stopped (next (finish_step {i} {p} {q} h) run) s u =
      Run-stopped run (ap (λ (x : Pool T). x.stop) (finish_cases i p q h).2 ∙ s) u
  Run-stopped (next (shut_step p) run) s u = Run-stopped run refl u
