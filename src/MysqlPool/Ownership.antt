-- ===== src/MysqlPool/Ownership.antt =====
-- Who has which connection.
use mathlib.Core.List.{Nodup, Mem, Nodup-cons, mem-cons_of_mem, Nodup-append, perm_middle}
use mathlib.Core.List.Perm
use ifellsofuckinggood.Prelude.{
  ◌≡◌, inl, inr, refl, sym, subst, Bytes, Arg, ℕ, Bool, true, false, Option, none, some, List, [],
  ◌∷◌, ◌++◌, append_assoc, ltℤ, if◌then◌else◌, Bool-cases,
}
use ifellsofuckinggood.MysqlPool.{
  MysqlPool, destory_conn_pool, create_connection, settle, grow, pick, get_connection,
  release_connection, command, finish_query, run_query, query_on, exec_query, insert_on,
  exec_insert,
}

-- A pool with the connections that are with callers.
pub record Holdings {ℓ} (C : Type ℓ) : Type ℓ where
  pub pool : MysqlPool C
  pub lent : List C

module _ {ℓ} {C : Type ℓ} where
  abbrev pub owned : Holdings C → List C
  owned w = w.pool.conn_list ++ w.lent

  abbrev pub hand : Option C × MysqlPool C → List C → Holdings C
  hand (none, p) lent = record { pool = p; lent = lent }
  hand (some c, p) lent = record { pool = p; lent = c ∷ lent }

  -- CreateConnection gives a connection that nobody has.
  abbrev pub IsFresh : Option C → List C → Type ℓ
  IsFresh created cs = (c : C) → created ≡ some c → ¬ Mem c cs

  pub to_front : (cs lent : List C) {c : C} → Nodup (c ∷ (cs ++ lent)) → Nodup (cs ++ c ∷ lent)
  to_front cs lent = Perm.nodup (Perm.symm (perm_middle cs lent))

  add_fresh :
      (cs lent : List C) {c : C}
      → ¬ Mem c (cs ++ lent)
      → Nodup (cs ++ lent)
      → Nodup (cs ++ c ∷ lent)
  add_fresh cs lent new d = to_front cs lent (Nodup-cons.1 (new, d))

  settle-Nodup :
      (o : Option C) (p : MysqlPool C) (lent : List C)
      → IsFresh o (p.conn_list ++ lent)
      → Nodup (p.conn_list ++ lent)
      → Nodup (owned (hand (settle o p) lent))
  unfolding settle
  settle-Nodup none p lent new d = d
  settle-Nodup (some c) p lent new d = add_fresh p.conn_list lent (new c refl) d

  grow-Nodup :
      (o : Option C) (p : MysqlPool C) (lent : List C)
      → IsFresh o (p.conn_list ++ lent)
      → Nodup (p.conn_list ++ lent)
      → Nodup (owned (hand (grow o p) lent))
  unfolding grow
  grow-Nodup none p lent new d = d
  grow-Nodup (some c) p lent new d = add_fresh p.conn_list lent (new c refl) d

  created_or_none : (o : Option C) → create_connection o ≡ o
  unfolding create_connection
  created_or_none none = refl
  created_or_none (some c) = refl

  -- What is taken from the list: the first connection, or in its place a fresh one where it is closed.
  first-Nodup :
      (closed : Bool) (created : Option C) (c : C) (p : MysqlPool C) (lent : List C)
      → IsFresh created (c ∷ (p.conn_list ++ lent))
      → Nodup (c ∷ (p.conn_list ++ lent))
      → Nodup (owned (hand (settle (if closed then create_connection created else some c) p) lent))
  unfolding settle
  first-Nodup true created c p lent new d =
      rw (created_or_none created)
        (settle-Nodup created p lent (λ x e m. new x e (mem-cons_of_mem c m)) (Nodup-cons.0 d).1)
  first-Nodup false created c p lent new d = to_front p.conn_list lent d

  pick-Nodup :
      (closed : C → Bool) (created : Option C) (cs : List C) (p : MysqlPool C) (lent : List C)
      → p.conn_list ≡ cs
      → IsFresh created (cs ++ lent)
      → Nodup (cs ++ lent)
      → Nodup (owned (hand (pick closed created cs p) lent))
  unfolding pick
  pick-Nodup closed created [] p lent e new d = elim (Bool-cases (ltℤ p.cur_size p.max_size)) [
    | inl t ↦
        rw (t, created_or_none created)
          (grow-Nodup created p lent (subst (λ l. IsFresh created (l ++ lent)) (sym e) new)
            (subst (λ l. Nodup (l ++ lent)) (sym e) d))
    | inr t ↦ rw t (subst (λ l. Nodup (l ++ lent)) (sym e) d)
  ]
  pick-Nodup closed created (c ∷ rest) p lent e new d =
      first-Nodup (closed c) created c (record p { conn_list = rest }) lent new d

  get_connection-Nodup :
      (closed : C → Bool) (created : Option C) (p : MysqlPool C) (lent : List C)
      → IsFresh created (p.conn_list ++ lent)
      → Nodup (p.conn_list ++ lent)
      → Nodup (owned (hand (get_connection closed created p) lent))
  unfolding get_connection
  get_connection-Nodup closed created p lent new d =
      pick-Nodup closed created p.conn_list p lent refl new d

  release_connection-Nodup :
      (c : C) (p : MysqlPool C) (lent : List C)
      → Nodup (p.conn_list ++ c ∷ lent)
      → Nodup ((release_connection (some c) p).conn_list ++ lent)
  unfolding release_connection
  release_connection-Nodup c p lent = subst Nodup (sym (append_assoc p.conn_list (c ∷ []) lent))

  -- A connection that nobody can give back any more.
  drop_first : (cs lent : List C) (c : C) → Nodup (cs ++ c ∷ lent) → Nodup (cs ++ lent)
  drop_first cs lent c d = (Nodup-cons.0 (Perm.nodup (perm_middle cs lent) d)).1

  -- A call on the pool by callers that give back only connections that they have.
  pub data Move (R : Type ℓ) (w : Holdings C) : Holdings C → Type ℓ where
    gets :
        (closed : C → Bool) (created : Option C)
        → IsFresh created (owned w)
        → Move R w (hand (get_connection closed created w.pool) w.lent)
    gives_back :
        (xs ys : List C) (c : C)
        → w.lent ≡ xs ++ c ∷ ys
        → Move R w (record { pool = release_connection (some c) w.pool; lent = xs ++ ys })
    gives_none : Move R w (record w { pool = release_connection none w.pool })
    queries :
        (closed : C → Bool) (created : Option C) (schema : Bool) (execute : Bytes → Option R)
        (fmt : Bytes) (args : List Arg)
        → IsFresh created (owned w)
        → Move R w
            (record w { pool = (exec_query closed created schema execute fmt args w.pool).1 })
    inserts :
        (closed : C → Bool) (created : Option C) (schema : Bool) (execute : Bytes → Option ℕ)
        (fmt : Bytes) (args : List Arg)
        → IsFresh created (owned w)
        → Move R w
            (record w { pool = (exec_insert closed created schema execute fmt args w.pool).1 })
    destroys : Move R w (record w { pool = destory_conn_pool w.pool })

module _ {ℓ} {C R : Type ℓ} where
  query_on-Nodup :
      (schema : Bool) (execute : Bytes → Option R) (text : Option Bytes)
      (r : Option C × MysqlPool C) (lent : List C)
      → Nodup (owned (hand r lent))
      → Nodup ((query_on schema execute text r).1.conn_list ++ lent)
  unfolding query_on run_query finish_query
  query_on-Nodup schema execute text (none, p) lent d = d
  query_on-Nodup false execute text (some c, p) lent d = drop_first p.conn_list lent c d
  query_on-Nodup true execute none (some c, p) lent d = drop_first p.conn_list lent c d
  query_on-Nodup true execute (some text) (some c, p) lent d = release_connection-Nodup c p lent d

module _ {ℓ} {C : Type ℓ} where
  insert_on-Nodup :
      (schema : Bool) (execute : Bytes → Option ℕ) (text : Option Bytes)
      (r : Option C × MysqlPool C) (lent : List C)
      → Nodup (owned (hand r lent))
      → Nodup ((insert_on schema execute text r).1.conn_list ++ lent)
  unfolding insert_on
  insert_on-Nodup schema execute text (none, p) lent d = d
  insert_on-Nodup false execute text (some c, p) lent d = drop_first p.conn_list lent c d
  insert_on-Nodup true execute none (some c, p) lent d = drop_first p.conn_list lent c d
  insert_on-Nodup true execute (some text) (some c, p) lent d = release_connection-Nodup c p lent d

  give_back-Nodup :
      (w : Holdings C) (xs ys : List C) (c : C)
      → w.lent ≡ xs ++ c ∷ ys
      → Nodup (owned w)
      → Nodup ((release_connection (some c) w.pool).conn_list ++ (xs ++ ys))
  give_back-Nodup w xs ys c e d = release_connection-Nodup c w.pool (xs ++ ys) (
      Perm.nodup (Perm.append_left w.pool.conn_list (perm_middle xs ys))
        (subst (λ l. Nodup (w.pool.conn_list ++ l)) e d))

  Move-Nodup : {R : Type ℓ} {w w' : Holdings C} → Move R w w' → Nodup (owned w) → Nodup (owned w')
  unfolding exec_query exec_insert release_connection destory_conn_pool
  Move-Nodup {w} (gets closed created new) d =
      get_connection-Nodup closed created w.pool w.lent new d
  Move-Nodup {w} (gives_back xs ys c e) d = give_back-Nodup w xs ys c e d
  Move-Nodup gives_none d = d
  Move-Nodup {w} (queries closed created schema execute fmt args new) d =
      query_on-Nodup schema execute (command fmt args) (get_connection closed created w.pool) w.lent
        (get_connection-Nodup closed created w.pool w.lent new d)
  Move-Nodup {w} (inserts closed created schema execute fmt args new) d =
      insert_on-Nodup schema execute (command fmt args) (get_connection closed created w.pool)
        w.lent (get_connection-Nodup closed created w.pool w.lent new d)
  Move-Nodup {w} destroys d = (Nodup-append.0 d).1

  pub data Moves (R : Type ℓ) (w : Holdings C) : Holdings C → Type ℓ where
    stays : Moves R w w
    moves : {w1 w2 : Holdings C} → Moves R w w1 → Move R w1 w2 → Moves R w w2

  -- Over any sequence of calls by callers that give back only what they have, with a driver whose
  -- new connections are always ones that nobody has: a connection is never with two callers, never
  -- in the pool twice, and never in the pool while it is with a caller.
  pub Moves-Nodup :
      {R : Type ℓ} {w w' : Holdings C} → Moves R w w' → Nodup (owned w) → Nodup (owned w')
  Moves-Nodup stays d = d
  Moves-Nodup (moves ms m) d = Move-Nodup m (Moves-Nodup ms d)
