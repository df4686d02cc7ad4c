-- ===== src/RedisClient/Exec.antt =====
-- The commands of the client, each a format of ExecuteCmd_spop. ExecHset, which also sets a flag of
-- the session manager, stands with that.
use ifellsofuckinggood.Prelude.{
  Bytes, codes, str, Bool, true, false, List, [], ◌∷◌, ◌++◌, Outcome, returned, thrown, undefined,
  bytes_eq,
}
use ifellsofuckinggood.RedisClient.{Env, State, execute_cmd_spop}

-- What a command returns, with the response so far.
abbrev pub Result : Type 0 → Type 0 → Type 0 → Type 0
Result X Y W = Outcome (Bool × List Bytes) × State X Y W

-- " key value" for each pair, as the stream writes them.
unfoldable pub pairs_text : List (Bytes × Bytes) → Bytes
pairs_text [] = []
pairs_text ((k, v) ∷ rest) = codes " " ++ (k ++ (codes " " ++ (v ++ pairs_text rest)))

unfoldable pub hmset_text : Bytes → List (Bytes × Bytes) → Bytes
unfolding pairs_text
hmset_text hash_name key_vals = codes "HMSET" ++ (codes " " ++ (hash_name ++ pairs_text key_vals))

-- `response[0] == "1"`; an empty response has no such element.
unfoldable pub is_member : List Bytes → Outcome Bool
is_member [] = undefined
is_member (r ∷ rest) = returned (bytes_eq r (codes "1"))

module _ {X Y W : Type 0} (env : Env X Y W) (response : List Bytes) (s : State X Y W) where
  unfoldable pub exec_del : Bytes → Result X Y W
  exec_del key = execute_cmd_spop env (codes "DEL %s") (str key ∷ []) response s

  unfoldable pub exec_set_string : Bytes → Bytes → Result X Y W
  exec_set_string name text =
      execute_cmd_spop env (codes "set %s %s") (str name ∷ str text ∷ []) response s

  unfoldable pub exec_get_string : Bytes → Result X Y W
  exec_get_string name = execute_cmd_spop env (codes "get %s") (str name ∷ []) response s

  unfoldable pub exec_lpush : Bytes → Bytes → Result X Y W
  exec_lpush name item =
      execute_cmd_spop env (codes "lpush %s %s") (str name ∷ str item ∷ []) response s

  unfoldable pub exec_rpush : Bytes → Bytes → Result X Y W
  exec_rpush name item =
      execute_cmd_spop env (codes "rpush %s %s") (str name ∷ str item ∷ []) response s

  unfoldable pub exec_lpop : Bytes → Result X Y W
  exec_lpop name = execute_cmd_spop env (codes "lpop %s") (str name ∷ []) response s

  unfoldable pub exec_rpop : Bytes → Result X Y W
  exec_rpop name = execute_cmd_spop env (codes "rpop %s") (str name ∷ []) response s

  unfoldable pub exec_get_lst_all : Bytes → Result X Y W
  exec_get_lst_all name = execute_cmd_spop env (codes "lrange %s 0 -1") (str name ∷ []) response s

  -- The text is the format, and has no arguments.
  unfoldable pub exec_hmset : Bytes → List (Bytes × Bytes) → Result X Y W
  exec_hmset hash_name key_vals = execute_cmd_spop env (hmset_text hash_name key_vals) [] response s

  unfoldable pub exec_hget : Bytes → Bytes → Result X Y W
  exec_hget hash_name key =
      execute_cmd_spop env (codes "hget %s %s") (str hash_name ∷ str key ∷ []) response s

  unfoldable pub exec_hget_all : Bytes → Result X Y W
  exec_hget_all hash_name =
      execute_cmd_spop env (codes "hgetAll %s") (str hash_name ∷ []) response s

  unfoldable pub exec_sadd : Bytes → Bytes → Result X Y W
  exec_sadd set_name val =
      execute_cmd_spop env (codes "SADD %s %s") (str set_name ∷ str val ∷ []) response s

  contained : Outcome (Bool × List Bytes) × State X Y W → Outcome Bool × List Bytes × State X Y W
  contained (returned (true, r), t) = (is_member r, r, t)
  contained (returned (false, r), t) = (returned false, r, t)
  contained (thrown, t) = (thrown, response, t)
  contained (undefined, t) = (undefined, response, t)

  unfoldable pub exec_scontain : Bytes → Bytes → Outcome Bool × List Bytes × State X Y W
  unfolding contained
  exec_scontain set_name val =
      contained
        (execute_cmd_spop env (codes "SISMEMBER %s %s") (str set_name ∷ str val ∷ []) response s)

  unfoldable pub exec_sremove : Bytes → Bytes → Result X Y W
  exec_sremove set_name val =
      execute_cmd_spop env (codes "SREM %s %s") (str set_name ∷ str val ∷ []) response s
