-- ===== src/HandleMsg/Backend.antt =====
-- The services of the server's tasks as the server has them: the connection pool of the database and
-- the sessions in Redis. What the database driver does is an answer for each call, in order.
use ifellsofuckinggood.Prelude.{ℕ, suc, ◌+◌, Bytes, Bool, Option, List, Outcome}
use ifellsofuckinggood.MysqlPool.{MysqlPool, get_connection, command, exec_query, exec_insert}
use ifellsofuckinggood.MysqlPool.Invariant.{
  Inv, leaked, get_connection-Inv, query_on-Inv, insert_on-Inv,
}
use ifellsofuckinggood.RedisClient.{Env, State}
use ifellsofuckinggood.ComManger.{
  add_session_talker, is_talker_online, remove_session_talker, get_talker_fd, get_talker_name,
}
use ifellsofuckinggood.HandleMsg.{Task}
use ifellsofuckinggood.HandleMsg.Server.{Row, Services, Server, run_task}
use ifellsofuckinggood.HandleMsg.Keeps.{KeptBy, run_task-keeps}

-- What one call finds: which connections are closed, what a connect gives, whether setSchema and
-- createStatement return, and what the statement answers.
pub record Answer (C : Type 0) : Type 0 where
  pub closed : C → Bool
  pub created : Option C
  pub schema : Bool
  pub queried : Bytes → Option (List Row)
  pub updated : Bytes → Option ℕ

-- `leaks` counts the calls of the pool that ended without giving their connection back.
pub record Backend (C X Y V : Type 0) : Type 0 where
  pub pool : MysqlPool C
  pub sessions : State X Y V
  pub answers : ℕ → Answer C
  pub calls : ℕ
  pub leaks : ℕ

module _ {C X Y V : Type 0} (env : Env X Y V) where
  pooled : {A : Type 0} → Backend C X Y V → Outcome A × MysqlPool C → Outcome A × Backend C X Y V
  pooled w r = (r.0, record w { pool = r.1; calls = suc w.calls; leaks = w.leaks + leaked r.0 })

  with_sessions :
      {A : Type 0} → Backend C X Y V → Outcome A × State X Y V → Outcome A × Backend C X Y V
  with_sessions w r = (r.0, record w { sessions = r.1 })

  unfoldable pub services : Services (Backend C X Y V)
  unfolding pooled with_sessions
  services = record {
    exec_query = λ q args w.
        let a = w.answers w.calls in
        pooled w (exec_query a.closed a.created a.schema a.queried q args w.pool);
    exec_insert = λ q args w.
        let a = w.answers w.calls in
        pooled w (exec_insert a.closed a.created a.schema a.updated q args w.pool);
    add_session_talker =
        λ id name fd w. with_sessions w (add_session_talker env id name fd w.sessions);
    is_talker_online = λ id w. with_sessions w (is_talker_online env id w.sessions);
    remove_session_talker = λ id w. with_sessions w (remove_session_talker env id w.sessions);
    get_talker_fd = λ id w. with_sessions w (get_talker_fd env id w.sessions);
    get_talker_name = λ id w. with_sessions w (get_talker_name env id w.sessions);
  }

  -- No connection is lent but those that calls which threw have kept: cur_size is the length of the
  -- list with their number, and within the limit.
  abbrev pub IsBounded : ℕ → Backend C X Y V → Type 0
  IsBounded m w = Inv w.pool w.leaks m

  services-KeptBy : (m : ℕ) → KeptBy services (IsBounded m)
  unfolding services pooled with_sessions exec_query exec_insert
  services-KeptBy m = record {
    query_keeps = λ q args w h.
        let a = w.answers w.calls in
        query_on-Inv a.schema a.queried (command q args) (get_connection a.closed a.created w.pool)
          w.leaks m (get_connection-Inv a.closed a.created w.pool w.leaks m h);
    insert_keeps = λ q args w h.
        let a = w.answers w.calls in
        insert_on-Inv a.schema a.updated (command q args) (get_connection a.closed a.created w.pool)
          w.leaks m (get_connection-Inv a.closed a.created w.pool w.leaks m h);
    add_keeps = λ id name fd w h. h;
    online_keeps = λ id w h. h;
    remove_keeps = λ id w h. h;
    fd_keeps = λ id w h. h;
    name_keeps = λ id w h. h;
  }

  -- Every task of the server, over the connection pool and the sessions, gives back every connection
  -- but those of calls that threw, however the driver answers and however the task ends: `cur_size`
  -- stays the number of the connections in the list with one for each such call, and at most the
  -- limit.
  pub run_task-IsBounded :
      (t : Task) (s : Server (Backend C X Y V)) (m : ℕ)
      → IsBounded m s.world
      → IsBounded m (run_task services t s).1.world
  run_task-IsBounded t s m h = run_task-keeps services (IsBounded m) (services-KeptBy m) t s h
