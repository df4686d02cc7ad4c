-- ===== src/Startup/Tests.antt =====
-- The server's start with a small service behind it, and its theorems at concrete inputs.
use ifellsofuckinggood.Prelude.{
  ℕ, ◌≡◌, refl, ap, inl, pos, codes, format, true, false, none, some, List, [], ◌∷◌, All, returned,
  arith, atoi, from_u32, replicate,
}
use ifellsofuckinggood.TransObj.{new_default}
use ifellsofuckinggood.HandleMsg.{log_out_task}
use ifellsofuckinggood.RedisClient.{
  Env, refused, redis_con_cluster_type, command, execute_cmd_spop, create_cluster_context,
}
use ifellsofuckinggood.RedisClient.Replies.{array, elem_str, read_reply}
use ifellsofuckinggood.RedisClient.Exec.{exec_hget_all}
use ifellsofuckinggood.ComManger.{Manger, flush_all_user_hash_data, load_hash, hash_insert}
use ifellsofuckinggood.ComManger as ComManger
use ifellsofuckinggood.ThreadPool.{
  Pool, Worker, idle, busy, new, wake, enqueue, Event, enqueues, starts, start_step, enqueue_step,
}
use ifellsofuckinggood.ThreadPool as ThreadPool
use ifellsofuckinggood.ThreadPool.Counts.{started}
use ifellsofuckinggood.MysqlPool.{MysqlPool, init_pool}
use ifellsofuckinggood.Startup.{Job, log_loop, send_loop, handles, Server, server_init}
use ifellsofuckinggood.Startup.Workers.{Going, here, goes, IsLoop, server_init-starved}
use ifellsofuckinggood.Startup.Spare.{IsForHandlers, server_init-spare}

-- The service has one user.
abbrev env : Env ℕ ℕ ℕ
env = record {
  time = λ w. (w, w);
  connect = λ w. (refused, w);
  auth = λ c w. w;
  send = λ c text w. (none, w);
  cluster_connect = λ w. (refused, w);
  cluster_send = λ c text w. (some (array (elem_str (codes "zlh") ∷ elem_str (codes "4") ∷ [])), w);
}

abbrev manger : Manger ℕ ℕ ℕ
manger = record {
  user_data = record { is_user_hash_changed = pos 0; user_hash = [] };
  redis = record {
    client = record {
      con_type = redis_con_cluster_type;
      clients = [];
      cluster_clients = 7 ∷ [];
      begin_invalid_time = 0;
    };
    world = 0;
  };
}

abbrev loaded : Manger ℕ ℕ ℕ
loaded = record manger {
  user_data = record { is_user_hash_changed = pos 0; user_hash = (codes "zlh", pos 4) ∷ [] };
}

manger_starts : ComManger.init env manger ≡ (returned true, loaded)
unfolding ComManger.init flush_all_user_hash_data exec_hget_all execute_cmd_spop command format
    read_reply create_cluster_context load_hash hash_insert atoi
manger_starts = refl

abbrev unset : MysqlPool ℕ
unset = record {
  user = [];
  password = [];
  url = [];
  database_name = [];
  max_size = pos 0;
  cur_size = pos 0;
  conn_list = [];
}

abbrev before : Server ℕ ℕ ℕ ℕ
before = record {
  manger = manger;
  pool = record { workers = []; tasks = []; stop = false };
  mysql = unset;
}

-- With a database that never connects.
abbrev up : List (Worker Job) → Server ℕ ℕ ℕ ℕ
up workers = record {
  manger = loaded;
  pool = record { workers = workers; tasks = log_loop ∷ send_loop ∷ []; stop = false };
  mysql = record unset {
    user = codes "root";
    password = codes "353656535132Zlh!";
    url = codes "tcp://127.0.0.1:3306";
    database_name = codes "user";
    max_size = pos 4;
  };
}

up_with :
    (threads : ℕ)
    → server_init env threads 4 (λ i. none) (record before { pool = new })
      ≡ returned (up (replicate threads idle))
unfolding server_init enqueue ThreadPool.init new init_pool ComManger.init flush_all_user_hash_data
    exec_hget_all execute_cmd_spop command format read_reply create_cluster_context load_hash
    hash_insert atoi from_u32
up_with threads = refl

-- A client logs out while both loops run.
abbrev history : List (Event Job)
history =
    starts 0 log_loop ∷ enqueues (handles (log_out_task new_default)) ∷ starts 1 send_loop ∷ []

abbrev in_use : List (Worker Job) → Pool Job
in_use rest = record {
  workers = busy log_loop ∷ busy send_loop ∷ rest;
  tasks = handles (log_out_task new_default) ∷ [];
  stop = false;
}

goes_2 : Going (up (replicate 2 idle)).pool history (in_use [])
unfolding wake enqueue
goes_2 =
    goes (start_step refl) tt
      (goes (enqueue_step refl) (log_out_task new_default, refl) (goes (start_step refl) tt here))

goes_3 : Going (up (replicate 3 idle)).pool history (in_use (idle ∷ []))
unfolding wake enqueue
goes_3 =
    goes (start_step refl) tt
      (goes (enqueue_step refl) (log_out_task new_default, refl) (goes (start_step refl) tt here))

server_init-starved_example : All IsLoop (started history)
server_init-starved_example =
    server_init-starved env 2 4 (λ i. none) before (up (replicate 2 idle)) (up_with 2)
      (inl (omega arith)) goes_2

server_init-spare_example : (i : ℕ) × IsForHandlers i (in_use (idle ∷ []))
server_init-spare_example =
    server_init-spare env 3 4 (λ i. none) before (up (replicate 3 idle)) (up_with 3) (omega arith)
      (ap (λ r. r.0) manger_starts) goes_3
