-- ===== src/ConcQueue/Fifo.antt =====
-- Elements come out in the order in which they went in.
use ifellsofuckinggood.Prelude.{
  ◌≡◌, refl, sym, ap, ◌∙◌, Option, none, some, List, [], ◌∷◌, ◌++◌, append_assoc, append-nil, arith,
}
use mathlib.Core.Path.{◌≡⟨◌⟩◌, ◌∎}
use ifellsofuckinggood.ConcQueue.{
  Call, pushes, pops, tries, wait_pushes, Step, push_step, pop_step, try_step, wait_step, Run, done,
  next, push, pop, try_and_pop, wait_push_till_empty,
}

module _ {ℓ} {A : Type ℓ} where
  abbrev pub put : Call A → List A
  put (pushes v) = v ∷ []
  put (pops v) = []
  put (tries r) = []
  put (wait_pushes v) = v ∷ []

  abbrev pub taken : Call A → List A
  taken (pushes v) = []
  taken (pops v) = v ∷ []
  taken (tries none) = []
  taken (tries (some v)) = v ∷ []
  taken (wait_pushes v) = []

  -- What a history puts in, and what it takes out, each in order.
  abbrev pub puts : List (Call A) → List A
  puts [] = []
  puts (c ∷ cs) = put c ++ puts cs

  abbrev pub takes : List (Call A) → List A
  takes [] = []
  takes (c ∷ cs) = taken c ++ takes cs

module _ {ℓ} {A : Type ℓ} where
  pop-cons : (q : List A) {v : A} {q' : List A} → pop q ≡ some (v, q') → q ≡ v ∷ q'
  unfolding pop
  pop-cons [] h = cc
  pop-cons (w ∷ q) h = ground arith

  try_and_pop-taken :
      (q : List A) (r : Option A) {q' : List A}
      → try_and_pop q ≡ (r, q')
      → q ≡ taken (tries r) ++ q'
  unfolding try_and_pop
  try_and_pop-taken [] none h = ground arith
  try_and_pop-taken [] (some v) h = ground arith
  try_and_pop-taken (w ∷ q) none h = ground arith
  try_and_pop-taken (w ∷ q) (some v) h = ground arith

  wait_push-cases :
      (v : A) (q : List A) {q' : List A}
      → wait_push_till_empty v q ≡ some q'
      → (q ≡ []) × (q' ≡ v ∷ [])
  unfolding wait_push_till_empty
  wait_push-cases v [] h = (refl, ground arith)
  wait_push-cases v (w ∷ q) h = cc

  Step-fifo : {q q' : List A} {c : Call A} → Step q c q' → q ++ put c ≡ taken c ++ q'
  unfolding push
  Step-fifo (push_step v q) = refl
  Step-fifo (pop_step {v} {q} {q'} h) = append-nil q ∙ pop-cons q h
  Step-fifo (try_step {r} {q} {q'} h) = append-nil q ∙ try_and_pop-taken q r h
  Step-fifo (wait_step {v} {q} {q'} h) = rw ((wait_push-cases v q h).0, (wait_push-cases v q h).1)

  -- Over any interleaving of calls, what was in the queue followed by all that was pushed is all
  -- that was popped followed by what is left.
  pub Run-fifo : {q q' : List A} {cs : List (Call A)} → Run q cs q' → q ++ puts cs ≡ takes cs ++ q'
  Run-fifo (done {q}) = append-nil q
  Run-fifo (next {q} {r} {s} {c} {cs} st run) =
      q ++ (put c ++ puts cs)
      ≡⟨ sym (append_assoc q (put c) (puts cs)) ⟩ (q ++ put c) ++ puts cs
      ≡⟨ ap (λ x. x ++ puts cs) (Step-fifo st) ⟩ (taken c ++ r) ++ puts cs
      ≡⟨ append_assoc (taken c) r (puts cs) ⟩ taken c ++ (r ++ puts cs)
      ≡⟨ ap (◌++◌ (taken c)) (Run-fifo run) ⟩ taken c ++ (takes cs ++ s)
      ≡⟨ sym (append_assoc (taken c) (takes cs) s) ⟩ (taken c ++ takes cs) ++ s ∎

  -- When a waitPushTillEmpty that follows a history returns, all that was put before has been
  -- taken, in order, and its element is alone in the queue.
  pub wait_push_drained :
      {q r s : List A} {cs : List (Call A)} {v : A}
      → Run q cs r
      → Step r (wait_pushes v) s
      → (takes cs ≡ q ++ puts cs) × (s ≡ v ∷ [])
  wait_push_drained {q} {r} {s} {cs} {v} run (wait_step h) = (
    sym (Run-fifo run ∙ ap (◌++◌ (takes cs)) (wait_push-cases v r h).0 ∙ append-nil (takes cs)),
    (wait_push-cases v r h).1,
  )
