-- ===== src/Startup.antt =====
-- serverInit of tests/serverTest.cpp, the main program of the server: the order in which the parts are
-- made, and the two loops that it gives to the thread pool, which the message handlers use too. The log
-- lines and the return value, which is 0 in any case, are left out.
pub mod Workers
pub mod Spare
mod Tests
use ifellsofuckinggood.Prelude.{
  ℕ, ◌%◌, from_u32, codes, Bool, true, false, Option, none, some, Outcome, returned, thrown,
  undefined,
}
use ifellsofuckinggood.RedisClient.{Env}
use ifellsofuckinggood.ComManger.{Manger}
use ifellsofuckinggood.ComManger as ComManger
use ifellsofuckinggood.ThreadPool.{Pool, enqueue}
use ifellsofuckinggood.ThreadPool as ThreadPool
use ifellsofuckinggood.MysqlPool.{MysqlPool, init_pool}
use ifellsofuckinggood.HandleMsg.{Task}

-- What the thread pool is given: MyLog::run, Client::operator(), or the task of a handler.
pub data Job : Type 0 where
  log_loop : Job
  send_loop : Job
  handles : Task → Job

pub record Server (X Y W C : Type 0) : Type 0 where
  pub manger : Manger X Y W
  pub pool : Pool Job
  pub mysql : MysqlPool C

module _ {X Y W C : Type 0} where
  -- An enqueue on a stopped pool throws.
  enqueued : Option (Pool Job) → Server X Y W C → Outcome (Server X Y W C)
  enqueued none s = thrown
  enqueued (some p) s = returned (record s { pool = p })

  -- With the log's loop in the queue: the database's connections, where `created` is what connecting
  -- gives, then the loop that sends.
  after_log : ℕ → (ℕ → Option C) → Outcome (Server X Y W C) → Outcome (Server X Y W C)
  unfolding enqueued
  after_log connections created (returned s) = enqueued (enqueue send_loop s.pool) (record s {
    mysql =
        init_pool (codes "tcp://127.0.0.1:3306") (codes "root") (codes "353656535132Zlh!")
          (from_u32 (connections % 4294967296)) (codes "user") created s.mysql;
  })
  after_log connections created thrown = thrown
  after_log connections created undefined = undefined

  pub on_init :
      ℕ
      → ℕ
      → (ℕ → Option C)
      → Server X Y W C
      → Outcome Bool × Manger X Y W
      → Outcome (Server X Y W C)
  unfolding after_log enqueued
  on_init threads connections created s (returned true, m) =
      let p = ThreadPool.init threads s.pool in
      after_log connections created
        (enqueued (enqueue log_loop p) (record s { manger = m; pool = p }))
  on_init threads connections created s (returned false, m) = returned (record s { manger = m })
  on_init threads connections created s (thrown, m) = thrown
  on_init threads connections created s (undefined, m) = undefined

  unfoldable pub server_init :
      Env X Y W → ℕ → ℕ → (ℕ → Option C) → Server X Y W C → Outcome (Server X Y W C)
  unfolding on_init
  server_init env threads connections created s =
      on_init threads connections created s (ComManger.init env s.manger)
