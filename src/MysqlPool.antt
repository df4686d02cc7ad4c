-- ===== src/MysqlPool.antt =====
-- smer/Mysql/src/mysql_pool.cpp and smer/Mysql/inc/mysql_pool.h: the pool of database connections.
-- The driver is not part of the repository: whether a connection is closed, what a call of
-- CreateConnection gives, whether setSchema and createStatement throw, and what a statement answers
-- are arguments of the methods.
pub mod Invariant
pub mod History
pub mod Leaks
pub mod Ownership
mod Tests
use ifellsofuckinggood.Prelude.{
  Outcome, returned, thrown, undefined, ℕ, zero, suc, ◌+◌, ◌/◌, ◌≡◌, ◌<◌, ℤ, pos, negsuc, inc, dec,
  ltℤ, Bytes, Arg, format, Bool, true, false, Option, none, some, List, [], ◌∷◌, ◌++◌, take, ltb,
  if◌then◌else◌,
}

pub record MysqlPool {ℓ} (C : Type ℓ) : Type ℓ where
  pub user : Bytes
  pub password : Bytes
  pub url : Bytes
  pub database_name : Bytes
  pub max_size : ℤ
  pub cur_size : ℤ
  pub conn_list : List C

-- maxSize / 2, as the number of rounds of a loop that counts up to it.
abbrev pub half : ℤ → ℕ
half (pos n) = n / 2
half (negsuc n) = 0

module _ {ℓ} {C : Type ℓ} where
  add_created : Option C → MysqlPool C → MysqlPool C
  add_created none p = p
  add_created (some c) p = record p { conn_list = p.conn_list ++ c ∷ []; cur_size = inc p.cur_size }

  -- `created i` is what CreateConnection gives in round i.
  pub init_connection : ℕ → ℕ → (ℕ → Option C) → MysqlPool C → MysqlPool C
  init_connection zero i created p = p
  init_connection (suc rounds) i created p =
      init_connection rounds (i + 1) created (add_created (created i) p)

  unfoldable pub init_pool :
      Bytes → Bytes → Bytes → ℤ → Bytes → (ℕ → Option C) → MysqlPool C → MysqlPool C
  unfolding init_connection add_created
  init_pool url user password max_size database_name created p =
      init_connection (half max_size) 0 created (record p {
        user = user;
        password = password;
        url = url;
        max_size = max_size;
        cur_size = pos 0;
        database_name = database_name;
      })

  -- connect throws, or gives a connection.
  unfoldable pub create_connection : Option C → Option C
  create_connection none = none
  create_connection (some c) = some c

  settle : Option C → MysqlPool C → Option C × MysqlPool C
  settle none p = (none, record p { cur_size = dec p.cur_size })
  settle (some c) p = (some c, p)

  grow : Option C → MysqlPool C → Option C × MysqlPool C
  grow none p = (none, p)
  grow (some c) p = (some c, record p { cur_size = inc p.cur_size })

  pick : (C → Bool) → Option C → List C → MysqlPool C → Option C × MysqlPool C
  unfolding settle grow create_connection
  pick closed created [] p =
      if ltℤ p.cur_size p.max_size then grow (create_connection created) p else (none, p)
  pick closed created (c ∷ rest) p =
      settle (if closed c then create_connection created else some c)
        (record p { conn_list = rest })

  unfoldable pub get_connection : (C → Bool) → Option C → MysqlPool C → Option C × MysqlPool C
  unfolding pick
  get_connection closed created p = pick closed created p.conn_list p

  unfoldable pub release_connection : Option C → MysqlPool C → MysqlPool C
  release_connection none p = p
  release_connection (some c) p = record p { conn_list = p.conn_list ++ c ∷ [] }

  -- Every connection of the list is closed and freed.
  unfoldable pub destory_conn_pool : MysqlPool C → MysqlPool C
  destory_conn_pool p = record p { conn_list = []; cur_size = pos 0 }

-- vsnprintf into the command buffer with the limit 100.
unfoldable pub command : Bytes → List Arg → Option Bytes
command fmt args = elim (format fmt args) [ none ↦ none | some t ↦ some (take 99 t) ]

module _ {ℓ} {C R : Type ℓ} where
  -- The result of a statement, the connection going back; an exception of executeQuery is caught.
  finish_query : C → Option R → MysqlPool C → Outcome (Option R) × MysqlPool C
  finish_query c reply p = (returned reply, release_connection (some c) p)

  run_query :
      Bool → (Bytes → Option R) → Option Bytes → C → MysqlPool C → Outcome (Option R) × MysqlPool C
  unfolding finish_query
  run_query false execute text c p = (thrown, p)
  run_query true execute none c p = (undefined, p)
  run_query true execute (some text) c p = finish_query c (execute text) p

  pub query_on :
      Bool
      → (Bytes → Option R)
      → Option Bytes
      → Option C × MysqlPool C
      → Outcome (Option R) × MysqlPool C
  unfolding run_query
  query_on schema execute text (none, p) = (returned none, p)
  query_on schema execute text (some c, p) = run_query schema execute text c p

  -- `schema` is false when setSchema or createStatement throws, outside the try block; `execute` is
  -- `none` when executeQuery throws.
  unfoldable pub exec_query :
      (C → Bool)
      → Option C
      → Bool
      → (Bytes → Option R)
      → Bytes
      → List Arg
      → MysqlPool C
      → Outcome (Option R) × MysqlPool C
  unfolding query_on
  exec_query closed created schema execute fmt args p =
      query_on schema execute (command fmt args) (get_connection closed created p)

-- executeUpdate throws, or gives the number of rows.
rows_changed : Option ℕ → Bool
rows_changed none = false
rows_changed (some n) = ltb 0 n

module _ {ℓ} {C : Type ℓ} where
  pub insert_on :
      Bool → (Bytes → Option ℕ) → Option Bytes → Option C × MysqlPool C → Outcome Bool × MysqlPool C
  unfolding rows_changed
  insert_on schema execute text (none, p) = (returned false, p)
  insert_on false execute text (some c, p) = (thrown, p)
  insert_on true execute none (some c, p) = (undefined, p)
  insert_on true execute (some text) (some c, p) =
      (returned (rows_changed (execute text)), release_connection (some c) p)

  unfoldable pub exec_insert :
      (C → Bool)
      → Option C
      → Bool
      → (Bytes → Option ℕ)
      → Bytes
      → List Arg
      → MysqlPool C
      → Outcome Bool × MysqlPool C
  unfolding insert_on
  exec_insert closed created schema execute fmt args p =
      insert_on schema execute (command fmt args) (get_connection closed created p)
