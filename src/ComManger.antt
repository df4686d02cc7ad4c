-- ===== src/ComManger.antt =====
-- smer/Communication/src/ComManger.cpp and smer/Communication/inc/ComManger.h: the sessions of the
-- logged-in users, kept in Redis, and the cached hash of all users. `undefined` is undefined
-- behaviour, as an index past the end of a response.
pub mod Sessions
mod Tests
use ifellsofuckinggood.Prelude.{
  ℕ, zero, suc, ◌%◌, ◌≡◌, ℤ, pos, negsuc, minus_one, eqℤ, Bytes, codes, to_string, atoi, str,
  bytes_eq, Bool, true, false, Option, none, some, List, [], ◌∷◌, ◌++◌, ◌==◌, if◌then◌else◌,
  Outcome, returned, thrown, undefined,
}
use ifellsofuckinggood.RedisClient.{Env, State, execute_cmd_spop}
use ifellsofuckinggood.RedisClient.Exec.{
  exec_sadd, exec_hmset, exec_scontain, exec_sremove, exec_del, exec_hget, exec_hget_all,
}

-- What a bit-field `char f : 1` holds after an assignment, where char is signed as on x86-64.
unfoldable pub bit_field : ℤ → ℤ
bit_field (pos n) = if n % 2 == 0 then pos 0 else minus_one
bit_field (negsuc n) = if n % 2 == 0 then minus_one else pos 0

pub record RedisDataManger : Type 0 where
  pub is_user_hash_changed : ℤ
  pub user_hash : List (Bytes × ℤ)

-- The manager's data and the client of the service.
pub record Manger (X Y W : Type 0) : Type 0 where
  pub user_data : RedisDataManger
  pub redis : State X Y W

unfoldable pub hash_insert : Bytes → ℤ → List (Bytes × ℤ) → List (Bytes × ℤ)
hash_insert k v [] = (k, v) ∷ []
hash_insert k v ((j, w) ∷ m) = if bytes_eq j k then (k, v) ∷ m else (j, w) ∷ hash_insert k v m

-- Keys and values in turn; a last key alone reads past the end.
unfoldable pub load_hash : List Bytes → List (Bytes × ℤ) → Option (List (Bytes × ℤ))
load_hash [] m = some m
load_hash (k ∷ []) m = none
load_hash (k ∷ v ∷ rest) m = load_hash rest (hash_insert k (atoi v) m)

module _ {X Y W : Type 0} where
  unfoldable pub set_user_map_flag : ℤ → Manger X Y W → Manger X Y W
  unfolding bit_field
  set_user_map_flag z m = record m {
    user_data = record m.user_data { is_user_hash_changed = bit_field z };
  }

module _ {X Y W : Type 0} (env : Env X Y W) where
  -- A command's outcome, with the state that it leaves.
  Result : Type 0
  Result = Outcome (Bool × List Bytes) × State X Y W

  loaded : Manger X Y W → State X Y W → Option (List (Bytes × ℤ)) → Outcome Bool × Manger X Y W
  loaded m s none = (undefined, record m { redis = s })
  loaded m s (some h) = (
    returned true,
    record { user_data = record { is_user_hash_changed = pos 0; user_hash = h }; redis = s },
  )

  flushed : Manger X Y W → Outcome (Bool × List Bytes) × State X Y W → Outcome Bool × Manger X Y W
  unfolding loaded
  flushed m (returned (true, response), s) = loaded m s (load_hash response m.user_data.user_hash)
  flushed m (returned (false, response), s) = (returned false, record m { redis = s })
  flushed m (thrown, s) = (thrown, record m { redis = s })
  flushed m (undefined, s) = (undefined, record m { redis = s })

  unfoldable pub flush_all_user_hash_data : Manger X Y W → Outcome Bool × Manger X Y W
  unfolding flushed
  flush_all_user_hash_data m = flushed m (exec_hget_all env [] m.redis (codes "userHash"))

  unfoldable pub init : Manger X Y W → Outcome Bool × Manger X Y W
  init m =
      flush_all_user_hash_data
        (record m { user_data = record { is_user_hash_changed = pos 0; user_hash = [] } })

  refreshed : Outcome Bool × Manger X Y W → Outcome (List (Bytes × ℤ)) × Manger X Y W
  refreshed (returned b, m) = (
    returned m.user_data.user_hash,
    record m { user_data = record m.user_data { is_user_hash_changed = pos 0 } },
  )
  refreshed (thrown, m) = (thrown, m)
  refreshed (undefined, m) = (undefined, m)

  unfoldable pub get_all_user_map : Manger X Y W → Outcome (List (Bytes × ℤ)) × Manger X Y W
  unfolding refreshed
  get_all_user_map m =
      if eqℤ m.user_data.is_user_hash_changed (pos 1)
      then refreshed (flush_all_user_hash_data m)
      else (returned m.user_data.user_hash, m)

  hset_done :
      Manger X Y W
      → Outcome (Bool × List Bytes) × State X Y W
      → Outcome (Bool × List Bytes) × Manger X Y W
  hset_done m (returned (true, r), s) =
      (returned (true, r), set_user_map_flag (pos 1) (record m { redis = s }))
  hset_done m (returned (false, r), s) = (returned (false, r), record m { redis = s })
  hset_done m (thrown, s) = (thrown, record m { redis = s })
  hset_done m (undefined, s) = (undefined, record m { redis = s })

  -- ExecHset of the client: a command that succeeds marks the cached hash as changed.
  unfoldable pub exec_hset :
      List Bytes → Bytes → Bytes → Bytes → Manger X Y W → Outcome (Bool × List Bytes) × Manger X Y W
  unfolding hset_done
  exec_hset response hash_name key value m = hset_done m (
      execute_cmd_spop env (codes "hset %s %s %s") (str hash_name ∷ str key ∷ str value ∷ [])
        response m.redis)

  stored : Outcome (Bool × List Bytes) × State X Y W → Outcome Bool × State X Y W
  stored (returned (ok, response), s) = (returned ok, s)
  stored (thrown, s) = (thrown, s)
  stored (undefined, s) = (undefined, s)

  add_fields :
      ℤ → Bytes → ℤ → Outcome (Bool × List Bytes) × State X Y W → Outcome Bool × State X Y W
  unfolding stored
  add_fields id name fd (returned (true, response), s) = stored (
      exec_hmset env response s (to_string id)
        ((codes "name", name) ∷ (codes "fd", to_string fd) ∷ []))
  add_fields id name fd (returned (false, response), s) = (returned false, s)
  add_fields id name fd (thrown, s) = (thrown, s)
  add_fields id name fd (undefined, s) = (undefined, s)

  unfoldable pub add_session_talker : ℤ → Bytes → ℤ → State X Y W → Outcome Bool × State X Y W
  unfolding add_fields
  add_session_talker id name fd s =
      add_fields id name fd (exec_sadd env [] s (codes "userSession") (to_string id))

  unfoldable pub is_talker_online : ℤ → State X Y W → Outcome Bool × State X Y W
  is_talker_online id s =
      let (online, response, s') = exec_scontain env [] s (codes "userSession") (to_string id) in
      (online, s')

  remove_fields : ℤ → Outcome (Bool × List Bytes) × State X Y W → Outcome Bool × State X Y W
  unfolding stored
  remove_fields id (returned (true, response), s) = stored (exec_del env response s (to_string id))
  remove_fields id (returned (false, response), s) = (returned false, s)
  remove_fields id (thrown, s) = (thrown, s)
  remove_fields id (undefined, s) = (undefined, s)

  unfoldable pub remove_session_talker : ℤ → State X Y W → Outcome Bool × State X Y W
  unfolding remove_fields
  remove_session_talker id s =
      remove_fields id (exec_sremove env [] s (codes "userSession") (to_string id))

  -- `response[0]` of an empty response is undefined behaviour, no exception.
  read_fd : Outcome (Bool × List Bytes) × State X Y W → Outcome ℤ × State X Y W
  read_fd (returned (true, []), s) = (undefined, s)
  read_fd (returned (true, r ∷ rest), s) = (returned (atoi r), s)
  read_fd (returned (false, response), s) = (returned minus_one, s)
  read_fd (thrown, s) = (thrown, s)
  read_fd (undefined, s) = (undefined, s)

  unfoldable pub get_talker_fd : ℤ → State X Y W → Outcome ℤ × State X Y W
  unfolding read_fd
  get_talker_fd id s = read_fd (exec_hget env [] s (to_string id) (codes "fd"))

  read_name : Outcome (Bool × List Bytes) × State X Y W → Outcome (Option Bytes) × State X Y W
  read_name (returned (true, []), s) = (undefined, s)
  read_name (returned (true, r ∷ rest), s) = (returned (some r), s)
  read_name (returned (false, response), s) = (returned none, s)
  read_name (thrown, s) = (thrown, s)
  read_name (undefined, s) = (undefined, s)

  -- The name that `res` is set to, where the call returns true.
  unfoldable pub get_talker_name : ℤ → State X Y W → Outcome (Option Bytes) × State X Y W
  unfolding read_name
  get_talker_name id s = read_name (exec_hget env [] s (to_string id) (codes "name"))
