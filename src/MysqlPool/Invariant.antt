-- ===== src/MysqlPool/Invariant.antt =====
-- How many connections the pool has open.
use ifellsofuckinggood.Prelude.{
  Outcome, returned, thrown, undefined, ℕ, zero, suc, ◌+◌, ◌/◌, ◌≡◌, ◌≤◌, ◌<◌, pos, Bytes, Bool,
  true, false, Option, none, some, [], ◌∷◌, arith, length, length-append, ap,
}
use ifellsofuckinggood.MysqlPool.{
  MysqlPool, add_created, init_connection, init_pool, create_connection, settle, grow, pick,
  get_connection, release_connection, finish_query, run_query, query_on, insert_on,
}

-- `lent` connections are with callers; `m` is the limit.
pub record Inv {ℓ} {C : Type ℓ} (p : MysqlPool C) (lent m : ℕ) : Type 0 where
  pub limit : p.max_size ≡ pos m
  pub counted : p.cur_size ≡ pos (length p.conn_list + lent)
  pub bounded : length p.conn_list + lent ≤ m

module _ {ℓ} {C : Type ℓ} where
  abbrev pub is_some : Option C → ℕ
  is_some none = 0
  is_some (some c) = 1

module _ {ℓ} {C : Type ℓ} where
  -- On a pool within its limit, a connection that is handed out is one more lent; the pool stays
  -- within its limit whether the call finds a connection, replaces a closed one, opens one or
  -- gives up.
  pub get_connection-Inv :
      (closed : C → Bool) (created : Option C) (p : MysqlPool C) (lent m : ℕ)
      → Inv p lent m
      → Inv
          (get_connection closed created p).1
          (lent + is_some (get_connection closed created p).0)
          m
  unfolding get_connection pick settle grow create_connection
  get_connection-Inv closed created p lent m v = ground arith

  pub release_connection-Inv :
      (c : C) (p : MysqlPool C) (lent m : ℕ)
      → Inv p (suc lent) m
      → Inv (release_connection (some c) p) lent m
  unfolding release_connection
  release_connection-Inv c p lent m v = ground (arith, length-append p.conn_list (c ∷ []))

  add_created-Inv :
      (o : Option C) (p : MysqlPool C) (m : ℕ)
      → Inv p 0 m
      → length p.conn_list < m
      → Inv (add_created o p) 0 m × (length (add_created o p).conn_list ≤ length p.conn_list + 1)
  unfolding add_created
  add_created-Inv none p m v h = (v, omega arith)
  add_created-Inv (some c) p m v h = (
    ground (arith, length-append p.conn_list (c ∷ [])),
    omega (arith, length-append p.conn_list (c ∷ [])),
  )

  init_connection-Inv :
      (rounds i : ℕ) (created : ℕ → Option C) (p : MysqlPool C) (m : ℕ)
      → Inv p 0 m
      → length p.conn_list + rounds ≤ m
      → Inv (init_connection rounds i created p) 0 m
        × (length (init_connection rounds i created p).conn_list ≤ length p.conn_list + rounds)
  unfolding init_connection
  init_connection-Inv zero i created p m v h = (v, omega arith)
  init_connection-Inv (suc rounds) i created p m v h =
      let one = add_created-Inv (created i) p m v (omega arith) in
      let r =
        init_connection-Inv rounds (i + 1) created (add_created (created i) p) m one.0
          (omega (arith, one.1)) in
      (r.0, omega (arith, r.1, one.1))

  -- A pool that is initialised with an empty list is within its limit, with at most half as many
  -- connections, whichever of the connects fail.
  pub init_pool-Inv :
      (url user password database_name : Bytes) (m : ℕ) (created : ℕ → Option C) (p : MysqlPool C)
      → p.conn_list ≡ []
      → Inv (init_pool url user password (pos m) database_name created p) 0 m
        × (length (init_pool url user password (pos m) database_name created p).conn_list ≤ m / 2)
  unfolding init_pool
  init_pool-Inv url user password database_name m created p e =
      let fresh : MysqlPool C = record p {
        user = user;
        password = password;
        url = url;
        max_size = pos m;
        cur_size = pos 0;
        database_name = database_name;
      } in
      let none_yet : length p.conn_list ≡ 0 = ap length e in
      let r =
        init_connection-Inv (m / 2) 0 created fresh m (ground (arith, none_yet))
          (omega (arith, none_yet)) in
      (r.0, omega (arith, r.1, none_yet))

-- The connections that a statement's call keeps from the pool.
abbrev pub leaked {κ} : {A : Type κ} → Outcome A → ℕ
leaked (returned r) = 0
leaked thrown = 1
leaked undefined = 1

module _ {ℓ} {C R : Type ℓ} where
  pub query_on-Inv :
      (schema : Bool) (execute : Bytes → Option R) (text : Option Bytes)
      (r : Option C × MysqlPool C) (lent m : ℕ)
      → Inv r.1 (lent + is_some r.0) m
      → Inv (query_on schema execute text r).1 (lent + leaked (query_on schema execute text r).0) m
  unfolding query_on run_query finish_query
  query_on-Inv schema execute text (none, p) lent m v = v
  query_on-Inv false execute text (some c, p) lent m v = v
  query_on-Inv true execute none (some c, p) lent m v = v
  query_on-Inv true execute (some text) (some c, p) lent m v =
      ground (arith, release_connection-Inv c p lent m)

module _ {ℓ} {C : Type ℓ} where
  pub insert_on-Inv :
      (schema : Bool) (execute : Bytes → Option ℕ) (text : Option Bytes)
      (r : Option C × MysqlPool C) (lent m : ℕ)
      → Inv r.1 (lent + is_some r.0) m
      → Inv
          (insert_on schema execute text r).1
          (lent + leaked (insert_on schema execute text r).0)
          m
  unfolding insert_on
  insert_on-Inv schema execute text (none, p) lent m v = ground arith
  insert_on-Inv false execute text (some c, p) lent m v = v
  insert_on-Inv true execute none (some c, p) lent m v = v
  insert_on-Inv true execute (some text) (some c, p) lent m v =
      ground (arith, release_connection-Inv c p lent m)
