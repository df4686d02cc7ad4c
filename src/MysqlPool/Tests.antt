-- ===== src/MysqlPool/Tests.antt =====
-- Runs of the pool, and its theorems at concrete inputs.
use ifellsofuckinggood.Prelude.{
  returned, ℕ, ◌≡◌, refl, pos, Bytes, format, Bool, true, false, Option, none, some, List, [], ◌∷◌,
  arith, codes,
}
use ifellsofuckinggood.MysqlPool.{
  MysqlPool, init_pool, get_connection, release_connection, exec_query, command,
}
use ifellsofuckinggood.MysqlPool.Invariant.{Inv}
use ifellsofuckinggood.MysqlPool.History.{World, Call, gets, releases, queries, step, run, run-Inv}
use ifellsofuckinggood.MysqlPool.Leaks.{leaks, leaks_exhaust}
use ifellsofuckinggood.MysqlPool.Ownership.{
  Holdings, owned, IsFresh, gets, gives_back, queries, Moves, stays, moves, Moves-Nodup,
}
use mathlib.Core.List.{Nodup, Nodup-cons, Nodup-nil, not-mem-nil, mem_of_ne_of_mem}

abbrev blank : MysqlPool ℕ
blank = record {
  user = [];
  password = [];
  url = [];
  database_name = [];
  max_size = pos 0;
  cur_size = pos 0;
  conn_list = [];
}

-- Connection numbers by round.
abbrev pool : MysqlPool ℕ
pool = record blank { max_size = pos 4; cur_size = pos 2; conn_list = 0 ∷ 1 ∷ [] }

pool_starts : init_pool [] [] [] (pos 4) [] (λ i. some i) blank ≡ pool
unfolding init_pool
pool_starts = refl

abbrev always_open : ℕ → Bool
always_open c = false

abbrev one_row : Bytes → Option ℕ
one_row text = some 1

abbrev history : List (Call ℕ ℕ)
history =
    gets always_open none
    ∷ queries always_open none true one_row (codes "select") []
    ∷ releases (some 0)
    ∷ []

abbrev before : World ℕ
before = record { pool = pool; lent = 0 }

abbrev after : World ℕ
after = record { pool = record pool { conn_list = 1 ∷ 0 ∷ [] }; lent = 0 }

run-Inv_example : Inv after.pool after.lent 4
unfolding run step get_connection release_connection exec_query command format
run-Inv_example =
    run-Inv history before 4 {w' = after} refl
      (record { limit = refl; counted = refl; bounded = omega arith })

leaks_exhaust_example :
    let q = leaks 4 always_open 9 one_row (codes "select") [] pool in
    exec_query always_open (some 9) true one_row (codes "select") [] q ≡ (returned none, q)
leaks_exhaust_example =
    leaks_exhaust always_open always_open 9 (some 9) true one_row (codes "select") [] pool 4
      (record { limit = refl; counted = refl; bounded = omega arith })

-- Connection 0 is taken, a query takes the other and gives it back, then 0 comes back.
abbrev held : Holdings ℕ
held = record { pool = pool; lent = [] }

abbrev taken : Holdings ℕ
taken = record { pool = record pool { conn_list = 1 ∷ [] }; lent = 0 ∷ [] }

abbrev given_back : Holdings ℕ
given_back = record { pool = record pool { conn_list = 1 ∷ 0 ∷ [] }; lent = [] }

none-IsFresh : (cs : List ℕ) → IsFresh none cs
none-IsFresh cs c e = absurd cc

abbrev shared_use : Moves ℕ held given_back
unfolding get_connection release_connection exec_query command format
shared_use =
    moves {w1 = taken}
      (moves {w1 = taken} (moves {w1 = held} stays (gets always_open none (none-IsFresh _)))
        (queries always_open none true one_row (codes "select") [] (none-IsFresh _)))
      (gives_back [] [] 0 refl)

Moves-Nodup_example : Nodup (owned given_back)
Moves-Nodup_example = Moves-Nodup shared_use (
    Nodup-cons.1 (
      λ m.
          not-mem-nil {A = ℕ} {a = 0} (mem_of_ne_of_mem {y = 1} (λ e. absurd (omega (arith, e))) m),
      Nodup-cons.1 (not-mem-nil, Nodup-nil),
    ))
