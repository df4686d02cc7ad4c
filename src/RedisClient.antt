-- ===== src/RedisClient.antt =====
-- smer/Redis/src/redis_pool.cpp and smer/Redis/inc/redis_pool.h: the client of the Redis service,
-- with its two pools of contexts. The clock, the connections and the service are not part of the
-- repository: `Env` holds what they answer, threading a state `W` of their own. The limits on the
-- command text and on the reconnects are the source's.
pub mod Replies
pub mod Exec
pub mod Contexts
pub mod Direct
mod Tests
use ifellsofuckinggood.Prelude.{
  ℕ, ◌+◌, ◌≡◌, ℤ, pos, Bytes, Arg, format, Bool, true, false, Option, none, some, List, [], ◌∷◌,
  ◌++◌, take, ltb, eqℤ, if◌then◌else◌, Outcome, returned, thrown, undefined,
}
use Replies.{Reply, read_reply}

-- A context that connects, one that carries an error, or a null pointer.
pub data Connect {ℓ} (X : Type ℓ) : Type ℓ where
  connected : X → Connect X
  refused : Connect X
  null_context : Connect X

pub record Env (X Y W : Type 0) : Type 0 where
  pub time : W → ℕ × W
  pub connect : W → Connect X × W
  pub auth : X → W → W
  pub send : X → Bytes → W → Option Reply × W
  pub cluster_connect : W → Connect Y × W
  pub cluster_send : Y → Bytes → W → Option Reply × W

pub record RedisClient (X Y : Type 0) : Type 0 where
  pub con_type : ℤ
  pub clients : List X
  pub cluster_clients : List Y
  pub begin_invalid_time : ℕ

pub record State (X Y W : Type 0) : Type 0 where
  pub client : RedisClient X Y
  pub world : W

abbrev pub redis_con_normal_type : ℤ
redis_con_normal_type = pos 0

abbrev pub redis_con_cluster_type : ℤ
redis_con_cluster_type = pos 1

abbrev pub max_reconnect_interval : ℕ
max_reconnect_interval = 3

unfoldable pub new : {X Y : Type 0} → RedisClient X Y
new = record {
  con_type = redis_con_cluster_type;
  clients = [];
  cluster_clients = [];
  begin_invalid_time = 0;
}

module _ {X Y W : Type 0} where
  unfoldable pub change_con_type : ℤ → State X Y W → State X Y W
  change_con_type t s = record s { client = record s.client { con_type = t } }

  unfoldable pub release_context : Option X → Bool → State X Y W → State X Y W
  release_context none active s = s
  release_context (some c) active s =
      if active
      then record s { client = record s.client { clients = s.client.clients ++ c ∷ [] } }
      else s

  unfoldable pub release_cluster_context : Option Y → Bool → State X Y W → State X Y W
  release_cluster_context none active s = s
  release_cluster_context (some c) active s =
      if active
      then record s {
        client = record s.client { cluster_clients = s.client.cluster_clients ++ c ∷ [] };
      }
      else s

abbrev pub is_some {ℓ} : {A : Type ℓ} → Option A → Bool
is_some none = false
is_some (some a) = true

-- vsnprintf into cmdBuf with the limit 100.
unfoldable pub command : Bytes → List Arg → Option Bytes
command fmt args = elim (format fmt args) [ none ↦ none | some t ↦ some (take 99 t) ]

module _ {X Y W : Type 0} (env : Env X Y W) where
  -- A failed connect starts the time in which no other is tried.
  fail : State X Y W → W → State X Y W
  fail s w =
      let (t, w') = env.time w in
      record { client = record s.client { begin_invalid_time = t }; world = w' }

  open_context : State X Y W → Connect X × W → Option X × State X Y W
  unfolding fail
  open_context s (connected c, w) = (some c, record s { world = env.auth c w })
  open_context s (refused, w) = (none, fail s w)
  open_context s (null_context, w) = (none, fail s w)

  try_connect : State X Y W → ℕ × W → Option X × State X Y W
  unfolding open_context
  try_connect s (now, w) =
      if ltb now (s.client.begin_invalid_time + max_reconnect_interval)
      then (none, record s { world = w })
      else open_context s (env.connect w)

  pick_context : List X → State X Y W → Option X × State X Y W
  unfolding try_connect
  pick_context (c ∷ rest) s = (some c, record s { client = record s.client { clients = rest } })
  pick_context [] s = try_connect s (env.time s.world)

  unfoldable pub create_context : State X Y W → Option X × State X Y W
  unfolding pick_context
  create_context s = pick_context s.client.clients s

  -- A null context is read for its error text before it is tested.
  open_cluster_context : State X Y W → Connect Y × W → Outcome (Option Y) × State X Y W
  unfolding fail
  open_cluster_context s (connected c, w) = (returned (some c), record s { world = w })
  open_cluster_context s (refused, w) = (returned none, fail s w)
  open_cluster_context s (null_context, w) = (undefined, record s { world = w })

  try_cluster_connect : State X Y W → ℕ × W → Outcome (Option Y) × State X Y W
  unfolding open_cluster_context
  try_cluster_connect s (now, w) =
      if ltb now (s.client.begin_invalid_time + max_reconnect_interval)
      then (returned none, record s { world = w })
      else open_cluster_context s (env.cluster_connect w)

  pick_cluster_context : List Y → State X Y W → Outcome (Option Y) × State X Y W
  unfolding try_cluster_connect
  pick_cluster_context (c ∷ rest) s =
      (returned (some c), record s { client = record s.client { cluster_clients = rest } })
  pick_cluster_context [] s = try_cluster_connect s (env.time s.world)

  unfoldable pub create_cluster_context : State X Y W → Outcome (Option Y) × State X Y W
  unfolding pick_cluster_context
  create_cluster_context s = pick_cluster_context s.client.cluster_clients s

  -- The command and the return of the context; a null reply drops it.
  replied : X → Option Reply × W → State X Y W → Option Reply × State X Y W
  replied c (reply, w) s =
      (reply, release_context (some c) (is_some reply) (record s { world = w }))

  cluster_replied : Y → Option Reply × W → State X Y W → Option Reply × State X Y W
  cluster_replied c (reply, w) s =
      (reply, release_cluster_context (some c) (is_some reply) (record s { world = w }))

  -- A null reply, or no context, is a call that returns false and leaves the response as it was.
  answer : List Bytes → Option Reply × State X Y W → Outcome (Bool × List Bytes) × State X Y W
  answer response (none, s) = (returned (false, response), s)
  answer response (some r, s) = (read_reply r response, s)

  -- The text is the format of redisCommand, which is given no arguments: a directive in it reads one
  -- that is not there.
  pub sent_normal :
      List Bytes → X → Option Bytes → State X Y W → Outcome (Bool × List Bytes) × State X Y W
  unfolding answer replied release_context
  sent_normal response c none s = (undefined, s)
  sent_normal response c (some text) s = answer response (replied c (env.send c text s.world) s)

  pub run_normal :
      Bytes → List Bytes → Option X × State X Y W → Outcome (Bool × List Bytes) × State X Y W
  unfolding sent_normal
  run_normal text response (none, s) = (returned (false, response), s)
  run_normal text response (some c, s) = sent_normal response c (format text []) s

  -- The same of redisClusterCommand.
  sent_cluster :
      List Bytes → Y → Option Bytes → State X Y W → Outcome (Bool × List Bytes) × State X Y W
  unfolding answer cluster_replied release_cluster_context
  sent_cluster response c none s = (undefined, s)
  sent_cluster response c (some text) s =
      answer response (cluster_replied c (env.cluster_send c text s.world) s)

  run_cluster :
      Bytes
      → List Bytes
      → Outcome (Option Y) × State X Y W
      → Outcome (Bool × List Bytes) × State X Y W
  unfolding sent_cluster
  run_cluster text response (returned none, s) = (returned (false, response), s)
  run_cluster text response (returned (some c), s) = sent_cluster response c (format text []) s
  run_cluster text response (thrown, s) = (thrown, s)
  run_cluster text response (undefined, s) = (undefined, s)

  run_text : Option Bytes → List Bytes → State X Y W → Outcome (Bool × List Bytes) × State X Y W
  unfolding run_normal run_cluster
  run_text none response s = (undefined, s)
  run_text (some text) response s =
      if eqℤ s.client.con_type redis_con_normal_type
      then run_normal text response (create_context s)
      else if eqℤ s.client.con_type redis_con_cluster_type
      then run_cluster text response (create_cluster_context s)
      else (returned (false, response), s)

  -- ExecuteCmd_spop: the strings of the reply are appended to `response`.
  unfoldable pub execute_cmd_spop :
      Bytes → List Arg → List Bytes → State X Y W → Outcome (Bool × List Bytes) × State X Y W
  unfolding run_text
  execute_cmd_spop fmt args response s = run_text (command fmt args) response s
