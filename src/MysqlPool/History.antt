-- ===== src/MysqlPool/History.antt =====
-- Histories of calls on the pool.
use ifellsofuckinggood.Prelude.{
  ℕ, zero, suc, ◌+◌, ◌≡◌, Bytes, Arg, Bool, Option, none, some, List, [], ◌∷◌, arith, ◌>>=◌, inl,
  inr, Option-cases,
}
use ifellsofuckinggood.MysqlPool.{
  MysqlPool, get_connection, release_connection, command, exec_query, exec_insert,
}
use ifellsofuckinggood.MysqlPool.Invariant.{
  Inv, is_some, leaked, get_connection-Inv, release_connection-Inv, query_on-Inv, insert_on-Inv,
}

-- A call on the pool, with what its environment answers.
pub data Call {ℓ} (C R : Type ℓ) : Type ℓ where
  gets : (C → Bool) → Option C → Call C R
  releases : Option C → Call C R
  queries : (C → Bool) → Option C → Bool → (Bytes → Option R) → Bytes → List Arg → Call C R
  inserts : (C → Bool) → Option C → Bool → (Bytes → Option ℕ) → Bytes → List Arg → Call C R

-- A pool with the number of connections that are with callers.
pub record World {ℓ} (C : Type ℓ) : Type ℓ where
  pub pool : MysqlPool C
  pub lent : ℕ

module _ {ℓ} {C : Type ℓ} where
  pub give_back : C → ℕ → MysqlPool C → Option (World C)
  give_back c zero p = none
  give_back c (suc n) p = some (record { pool = release_connection (some c) p; lent = n })

  give_back-Inv :
      (c : C) (lent : ℕ) (p : MysqlPool C) (m : ℕ) {w' : World C}
      → give_back c lent p ≡ some w'
      → Inv p lent m
      → Inv w'.pool w'.lent m
  unfolding give_back
  give_back-Inv c zero p m h v = cc
  give_back-Inv c (suc n) p m h v = ground (arith, release_connection-Inv c p n m v)

module _ {ℓ} {C R : Type ℓ} where
  -- `none` is a release of a connection that no caller has.
  unfoldable pub step : Call C R → World C → Option (World C)
  unfolding give_back
  step (gets closed created) w =
      let r = get_connection closed created w.pool in
      some (record { pool = r.1; lent = w.lent + is_some r.0 })
  step (releases none) w = some (record w { pool = release_connection none w.pool })
  step (releases (some c)) w = give_back c w.lent w.pool
  step (queries closed created schema execute fmt args) w =
      let r = exec_query closed created schema execute fmt args w.pool in
      some (record { pool = r.1; lent = w.lent + leaked r.0 })
  step (inserts closed created schema execute fmt args) w =
      let r = exec_insert closed created schema execute fmt args w.pool in
      some (record { pool = r.1; lent = w.lent + leaked r.0 })

  -- Every call keeps the count of the open connections exact and within the limit: a query or an
  -- insert that returns gives its connection back, and one that throws keeps it lent.
  pub step-Inv :
      (c : Call C R) (w : World C) (m : ℕ) {w' : World C}
      → step c w ≡ some w'
      → Inv w.pool w.lent m
      → Inv w'.pool w'.lent m
  unfolding step exec_query exec_insert
  step-Inv (gets closed created) w m h v =
      ground (arith, get_connection-Inv closed created w.pool w.lent m v)
  step-Inv (releases none) w m h v = unfold release_connection in ground arith
  step-Inv (releases (some c)) w m h v = give_back-Inv c w.lent w.pool m h v
  step-Inv (queries closed created schema execute fmt args) w m h v = ground (
    arith,
    query_on-Inv schema execute (command fmt args) (get_connection closed created w.pool) w.lent m
        (get_connection-Inv closed created w.pool w.lent m v),
  )
  step-Inv (inserts closed created schema execute fmt args) w m h v = ground (
    arith,
    insert_on-Inv schema execute (command fmt args) (get_connection closed created w.pool) w.lent m
        (get_connection-Inv closed created w.pool w.lent m v),
  )

  unfoldable pub run : List (Call C R) → World C → Option (World C)
  run [] w = some w
  run (c ∷ cs) w = step c w >>= λ w'. run cs w'

  -- Over any history of calls that only gives back connections that callers have, a pool that
  -- starts within its limit has never more than its limit of connections open, and `cur_size` is
  -- their number, the leaked ones included.
  pub run-Inv :
      (cs : List (Call C R)) (w : World C) (m : ℕ) {w' : World C}
      → run cs w ≡ some w'
      → Inv w.pool w.lent m
      → Inv w'.pool w'.lent m
  unfolding run
  run-Inv [] w m h v = ground arith
  run-Inv (c ∷ cs) w m {w'} h v = elim (Option-cases (step c w)) [
    | inl e ↦ absurd (ground arith)
    | inr (w1, e) ↦ run-Inv cs w1 m (ground arith) (step-Inv c w m e v)
  ]
