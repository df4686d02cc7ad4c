-- ===== src/ComManger/Tests.antt =====
-- Runs of the session manager against a small service, and its theorems at concrete inputs.
use ifellsofuckinggood.Prelude.{
  ℕ, ◌≡◌, refl, pos, ℤ, Bytes, codes, format, to_string, none, some, List, [], ◌∷◌, returned,
}
use ifellsofuckinggood.RedisClient.{
  Env, refused, redis_con_cluster_type, command, execute_cmd_spop, create_cluster_context,
}
use ifellsofuckinggood.RedisClient.Replies.{integer, read_reply}
use ifellsofuckinggood.ComManger.{Manger, get_all_user_map, exec_hset}
use ifellsofuckinggood.ComManger.Sessions.{exec_hset-not-seen}

-- It answers 1 to every command.
abbrev env : Env ℕ ℕ ℕ
env = record {
  time = λ w. (w, w);
  connect = λ w. (refused, w);
  auth = λ c w. w;
  send = λ c text w. (none, w);
  cluster_connect = λ w. (refused, w);
  cluster_send = λ c text w. (some (integer (pos 1)), w);
}

abbrev cached : List (Bytes × ℤ)
cached = (codes "zlh", pos 4) ∷ []

abbrev manger : Manger ℕ ℕ ℕ
manger = record {
  user_data = record { is_user_hash_changed = pos 0; user_hash = cached };
  redis = record {
    client = record {
      con_type = redis_con_cluster_type;
      clients = [];
      cluster_clients = 7 ∷ [];
      begin_invalid_time = 0;
    };
    world = 0;
  };
}

exec_hset-not-seen_example :
    (get_all_user_map env
      (exec_hset env [] (codes "userHash") (codes "zlh") (codes "9") manger).1).0
    ≡ returned cached
unfolding exec_hset execute_cmd_spop command format read_reply to_string create_cluster_context
exec_hset-not-seen_example =
    exec_hset-not-seen env [] (codes "1" ∷ []) (codes "userHash") (codes "zlh") (codes "9") manger
      refl
