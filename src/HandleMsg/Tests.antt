-- ===== src/HandleMsg/Tests.antt =====
-- Runs of the server's tasks against a small database, and the theorems at concrete inputs.
use ifellsofuckinggood.Prelude.{
  before_nul, ℕ, ◌+◌, ◌-◌, ◌≡◌, ◌≤◌, ◌<◌, ◌⊎◌, refl, pos, minus_one, Bytes, codes, c_string,
  bytes_eq, str, true, false, some, List, [], ◌∷◌, ◌++◌, arith, replicate, length, returned,
}
use ifellsofuckinggood.MyEnum.{msg_code, msg_login, msg_login_refuse, msg_login_accept}
use ifellsofuckinggood.TransObj.{
  TransObj, name_max_len, set_msg, set_msg_type, set_fd, get_name, get_passwd,
}
use ifellsofuckinggood.HandleMsg.{reg_task, login_task, accept_task, server_handle}
use ifellsofuckinggood.HandleMsg.Server.{Row, Services, Server, run_task}
use ifellsofuckinggood.RedisClient.{Env, refused, redis_con_cluster_type}
use ifellsofuckinggood.RedisClient.Replies.{integer}
use ifellsofuckinggood.Prelude.{none}
use ifellsofuckinggood.HandleMsg.Backend.{Backend, services, IsBounded, run_task-IsBounded}
use ifellsofuckinggood.HandleMsg.Ends.{Ends}
use ifellsofuckinggood.HandleMsg.Register.{Answered, reg-Answered}
use ifellsofuckinggood.HandleMsg.Login.{login_unknown_name, login_wrong_password}
use ifellsofuckinggood.HandleMsg.Friends.{accept-delivered, served, server_handle-served}

abbrev zlh_row : Row
zlh_row = record {
  get_string = λ column. returned (codes "123");
  get_int = λ column. returned (pos 5);
}

-- One user, zlh with the password 123, whose session is at the socket 8. Its state counts the
-- sessions that were added.
abbrev svc : Services ℕ
svc = record {
  exec_query = λ q args w.
      (returned (elim args [ (str name ∷ rest) ↦ some (if_zlh name) | _ ↦ some [] ]), w);
  exec_insert = λ q args w. (returned true, w);
  add_session_talker = λ id name fd w. (returned true, 1 + w);
  is_talker_online = λ id w. (returned true, w);
  remove_session_talker = λ id w. (returned true, w);
  get_talker_fd = λ id w. (returned (pos 8), w);
  get_talker_name = λ id w. (returned (some (codes "lys")), w);
}
  where
    if_zlh : Bytes → List Row
    if_zlh name = elim (bytes_eq name (codes "zlh")) [ true ↦ zlh_row ∷ [] | false ↦ [] ]

abbrev credentials : Bytes → Bytes → Bytes
credentials name passwd =
    (name ++ replicate (24 - length name) 0) ++ (passwd ++ replicate (40 - length passwd) 0)

abbrev login_of : Bytes → Bytes → TransObj
login_of name passwd = record {
  msg_type = 6;
  len = 0;
  id = minus_one;
  recver_id = minus_one;
  fd = minus_one;
  msg = credentials name passwd;
}

abbrev idle : Server ℕ
idle = record { world = 0; buff = [] }

reg-Answered_example :
    Ends []
      (Answered [] (pos 9))
      (run_task svc (reg_task (login_of (codes "lys") (codes "1")) (pos 9)) idle)
reg-Answered_example = reg-Answered svc (login_of (codes "lys") (codes "1")) (pos 9) idle

login_unknown_name_example :
    run_task svc (login_task (login_of (codes "lys") (codes "1")) (pos 9)) idle ≡ (
      returned (pos 1),
      record {
        world = 0;
        buff = set_msg_type (msg_code msg_login_accept) (login_of (codes "lys") (codes "1")) ∷ [];
      },
    )
unfolding get_name c_string bytes_eq
login_unknown_name_example =
    login_unknown_name svc (login_of (codes "lys") (codes "1")) (pos 9) idle {name = codes "lys"}
      (omega arith) refl refl

login_wrong_password_example :
    run_task svc (login_task (login_of (codes "zlh") (codes "1")) (pos 9)) idle ≡ (
      returned (pos 0),
      record {
        world = 0;
        buff =
            (set_msg
              (codes "Login err! password not equal!\n")
              (set_msg_type (msg_code msg_login_refuse) (login_of (codes "zlh") (codes "1")))).1
            ∷ [];
      },
    )
unfolding get_name get_passwd c_string bytes_eq before_nul
login_wrong_password_example =
    login_wrong_password svc (login_of (codes "zlh") (codes "1")) (pos 9) idle {name = codes "zlh"}
      {passwd = codes "1"} {rel_passwd = codes "123"} {row = zlh_row} (omega arith) refl refl refl
      refl (λ e. ground arith)

abbrev ask_of : Bytes → TransObj
ask_of name = record (login_of name []) { msg_type = 10 }

accept-delivered_example :
    let o = ask_of (codes "zlh") in
    ((length (codes "lys") < name_max_len)
      × (run_task svc (accept_task o) idle ≡ (
        returned (pos 1),
        record { world = 0; buff = (set_msg (before_nul (codes "lys")) (set_fd (pos 8) o)).1 ∷ [] },
      )))
    ⊎ ((name_max_len ≤ length (codes "lys"))
        × (run_task svc (accept_task o) idle
            ≡ (returned minus_one, record { world = 0; buff = [] })))
accept-delivered_example = accept-delivered svc (ask_of (codes "zlh")) (pos 9) idle refl refl refl

server_handle-served_example :
    server_handle (some (login_of (codes "zlh") (codes "123"))) (pos 9)
    ≡ served msg_login (login_of (codes "zlh") (codes "123")) (pos 9)
server_handle-served_example =
    server_handle-served (login_of (codes "zlh") (codes "123")) (pos 9) msg_login refl

-- A Redis service that answers 1 to every command.
abbrev env : Env ℕ ℕ ℕ
env = record {
  time = λ w. (w, w);
  connect = λ w. (refused, w);
  auth = λ c w. w;
  send = λ c text w. (none, w);
  cluster_connect = λ w. (refused, w);
  cluster_send = λ c text w. (some (integer (pos 1)), w);
}

-- A driver that connects, and whose statements give no row; two connections are allowed.
abbrev backend : Backend ℕ ℕ ℕ ℕ
backend = record {
  pool = record {
    user = [];
    password = [];
    url = [];
    database_name = [];
    max_size = pos 2;
    cur_size = pos 1;
    conn_list = 7 ∷ [];
  };
  sessions = record {
    client = record {
      con_type = redis_con_cluster_type;
      clients = [];
      cluster_clients = 7 ∷ [];
      begin_invalid_time = 0;
    };
    world = 0;
  };
  answers = λ i. record {
    closed = λ c. false;
    created = some i;
    schema = true;
    queried = λ text. some [];
    updated = λ text. some 1;
  };
  calls = 0;
  leaks = 0;
}

run_task-IsBounded_example :
    IsBounded env 2
      (run_task
        (services env)
        (reg_task (login_of (codes "lys") (codes "1")) (pos 9))
        (record { world = backend; buff = [] })).1.world
run_task-IsBounded_example =
    run_task-IsBounded env (reg_task (login_of (codes "lys") (codes "1")) (pos 9))
      (record { world = backend; buff = [] }) 2
      (record { limit = refl; counted = refl; bounded = omega arith })
