-- ===== src/MysqlPool/Leaks.antt =====
-- Connections that are not given back.
use ifellsofuckinggood.Prelude.{
  returned, ℕ, zero, suc, ◌+◌, ◌≡◌, ◌<◌, Bytes, Arg, Bool, false, Option, none, some, List, arith,
  subst,
}
use ifellsofuckinggood.MysqlPool.{
  MysqlPool, create_connection, settle, grow, pick, get_connection, run_query, query_on, exec_query,
}
use ifellsofuckinggood.MysqlPool.Invariant.{Inv}

module _ {ℓ} {C R : Type ℓ} where
  -- A pool whose connections are all with callers opens none: a query gives a null pointer and the
  -- pool stays as it is.
  exhausted-exec_query :
      (closed : C → Bool) (created : Option C) (schema : Bool) (execute : Bytes → Option R)
      (fmt : Bytes) (args : List Arg) (p : MysqlPool C) (m : ℕ)
      → Inv p m m
      → exec_query closed created schema execute fmt args p ≡ (returned none, p)
  unfolding exec_query get_connection pick query_on
  exhausted-exec_query closed created schema execute fmt args p m v = ground arith

  -- n queries whose setSchema throws, over a driver that always connects.
  pub leaks : ℕ → (C → Bool) → C → (Bytes → Option R) → Bytes → List Arg → MysqlPool C → MysqlPool C
  leaks zero closed c execute fmt args p = p
  leaks (suc n) closed c execute fmt args p =
      leaks n closed c execute fmt args (exec_query closed (some c) false execute fmt args p).1

  leak-Inv :
      (closed : C → Bool) (c : C) (execute : Bytes → Option R) (fmt : Bytes) (args : List Arg)
      (p : MysqlPool C) (lent m : ℕ)
      → lent < m
      → Inv p lent m
      → Inv (exec_query closed (some c) false execute fmt args p).1 (suc lent) m
  unfolding exec_query get_connection pick settle grow create_connection query_on run_query
  leak-Inv closed c execute fmt args p lent m h v = ground arith

  leaks-Inv :
      (n : ℕ) (closed : C → Bool) (c : C) (execute : Bytes → Option R) (fmt : Bytes)
      (args : List Arg) (p : MysqlPool C) (lent m : ℕ)
      → lent + n ≡ m
      → Inv p lent m
      → Inv (leaks n closed c execute fmt args p) m m
  unfolding leaks
  leaks-Inv zero closed c execute fmt args p lent m h v =
      let e : lent ≡ m = omega arith in subst (λ k. Inv p k m) e v
  leaks-Inv (suc n) closed c execute fmt args p lent m h v =
      leaks-Inv n closed c execute fmt args _ (suc lent) m (omega arith)
        (leak-Inv closed c execute fmt args p lent m (omega arith) v)

  -- From a pool within its limit that has lent nothing, with a driver that always connects, each
  -- query whose setSchema throws keeps a connection for good: after as many of them as the pool's
  -- limit a later query gives a null pointer and leaves the pool as it is.
  pub leaks_exhaust :
      (closed closed' : C → Bool) (c : C) (created : Option C) (schema : Bool)
      (execute : Bytes → Option R) (fmt : Bytes) (args : List Arg) (p : MysqlPool C) (m : ℕ)
      → Inv p 0 m
      → let q = leaks m closed c execute fmt args p in
        exec_query closed' created schema execute fmt args q ≡ (returned none, q)
  leaks_exhaust closed closed' c created schema execute fmt args p m v =
      exhausted-exec_query closed' created schema execute fmt args _ m
        (leaks-Inv m closed c execute fmt args p 0 m (omega arith) v)
