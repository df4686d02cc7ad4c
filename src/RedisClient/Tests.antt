-- ===== src/RedisClient/Tests.antt =====
-- Runs of the client against a small service, and its theorems at concrete inputs.
use ifellsofuckinggood.Prelude.{
  ℕ, ◌+◌, ◌≡◌, refl, codes, str, format, true, false, PercentFree, arith, none, some, List, [], ◌∷◌,
  returned,
}
use ifellsofuckinggood.RedisClient.{
  Env, State, refused, redis_con_cluster_type, command, execute_cmd_spop, new,
  create_cluster_context,
}
use ifellsofuckinggood.RedisClient.Replies.{status, read_reply}
use ifellsofuckinggood.RedisClient.Contexts.{
  Answers, Formatted, run_all, one_each, pool_of, cluster_round_robin,
}

-- Its state is the clock. It answers OK, and refuses every new connection.
abbrev env : Env ℕ ℕ ℕ
env = record {
  time = λ w. (w, 1 + w);
  connect = λ w. (refused, w);
  auth = λ c w. w;
  send = λ c text w. (none, w);
  cluster_connect = λ w. (refused, w);
  cluster_send = λ c text w. (some (status (codes "OK")), w);
}

abbrev at : List ℕ → ℕ → ℕ → State ℕ ℕ ℕ
at cs since now = record {
  client = record {
    con_type = redis_con_cluster_type;
    clients = [];
    cluster_clients = cs;
    begin_invalid_time = since;
  };
  world = now;
}

answers : Answers env
unfolding read_reply
answers c text w = (status (codes "OK"), (true, codes "OK" ∷ []), refl, refl)

abbrev get_a : Formatted
get_a = record { fmt = codes "get %s"; args = str (codes "a") ∷ []; text = codes "get a" }

get_a-PercentFree : PercentFree (codes "get a")
get_a-PercentFree = (omega arith, (omega arith, (omega arith, (omega arith, (omega arith, tt)))))

cluster_round_robin_example : run_all env (get_a ∷ get_a ∷ []) (at (7 ∷ 8 ∷ 9 ∷ []) 0 5) ≡ (
  (one_each env (7 ∷ 8 ∷ []) (get_a ∷ get_a ∷ []) 5).0,
  pool_of env
      (9 ∷ 7 ∷ 8 ∷ [])
      (one_each env (7 ∷ 8 ∷ []) (get_a ∷ get_a ∷ []) 5).1
      (at (7 ∷ 8 ∷ 9 ∷ []) 0 5),
)
unfolding command format
cluster_round_robin_example =
    cluster_round_robin env answers (7 ∷ 8 ∷ []) (9 ∷ []) (get_a ∷ get_a ∷ [])
      (at (7 ∷ 8 ∷ 9 ∷ []) 0 5) ((refl, get_a-PercentFree), ((refl, get_a-PercentFree), tt)) refl
      refl refl

-- So the next command in the same seconds is not tried either.
abbrev is_new : State ℕ ℕ ℕ
is_new = record { client = new; world = 1 }

first_command :
    (execute_cmd_spop env (codes "get %s") (str (codes "a") ∷ []) [] is_new).0
    ≡ returned (false, [])
unfolding execute_cmd_spop command format new create_cluster_context
first_command = refl
