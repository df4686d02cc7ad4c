-- ===== src/RedisClient/Contexts.antt =====
-- What becomes of the contexts, and when a connection is tried.
use ifellsofuckinggood.Prelude.{
  ℕ, ◌+◌, ◌<◌, ◌≤◌, ◌≡◌, refl, Bytes, Arg, Bool, false, Option, none, some, List, [], ◌∷◌, ◌++◌,
  Outcome, returned, thrown, undefined, lt→ltb, le→ltb, length, All, PercentFree,
  format-PercentFree, append-nil, append_assoc, ap, Option-cases, inl, inr, arith,
}
use ifellsofuckinggood.RedisClient.Replies.{Reply, read_reply}
use ifellsofuckinggood.RedisClient.{
  Env, State, refused, redis_con_cluster_type, max_reconnect_interval, command, execute_cmd_spop,
  run_cluster, create_cluster_context, pick_cluster_context, try_cluster_connect,
  open_cluster_context, fail,
}

-- The contexts after a command that the first of them has carried.
abbrev pub returned_to {ℓ} : {A : Type ℓ} → List A → A → Option Reply → List A
returned_to rest c none = rest
returned_to rest c (some r) = rest ++ c ∷ []

-- What the call gives for a reply.
abbrev pub answer_of : List Bytes → Option Reply → Outcome (Bool × List Bytes)
answer_of response none = returned (false, response)
answer_of response (some r) = read_reply r response

-- A command, and its text.
pub record Formatted : Type 0 where
  pub fmt : Bytes
  pub args : List Arg
  pub text : Bytes

-- A command whose text has no percent sign.
abbrev pub IsPlain : Formatted → Type 0
IsPlain k = (command k.fmt k.args ≡ some k.text) × PercentFree k.text

module _ {X Y W : Type 0} (env : Env X Y W) where
  -- Commands one after another, as long as none ends the program.
  next_command :
      (State X Y W → List (Outcome (Bool × List Bytes)) × State X Y W)
      → Outcome (Bool × List Bytes) × State X Y W
      → List (Outcome (Bool × List Bytes)) × State X Y W
  next_command more (returned x, s) = let (rest, s') = more s in (returned x ∷ rest, s')
  next_command more (thrown, s) = (thrown ∷ [], s)
  next_command more (undefined, s) = (undefined ∷ [], s)

  unfoldable pub run_all :
      List Formatted → State X Y W → List (Outcome (Bool × List Bytes)) × State X Y W
  unfolding next_command
  run_all [] s = ([], s)
  run_all (k ∷ ks) s = next_command (run_all ks) (execute_cmd_spop env k.fmt k.args [] s)

  -- The commands, each on its own context.
  unfoldable pub one_each : List Y → List Formatted → W → List (Outcome (Bool × List Bytes)) × W
  one_each (c ∷ cs) (k ∷ ks) w =
      let (reply, w') = env.cluster_send c k.text w in
      let (rest, w'') = one_each cs ks w' in (answer_of [] reply ∷ rest, w'')
  one_each _ _ w = ([], w)

  -- The service answers every text with a reply that can be read.
  abbrev pub Answers : Type 0
  Answers =
      (c : Y) (text : Bytes) (w : W)
      → (r : Reply) × (x : Bool × List Bytes) × ((env.cluster_send c text w).0 ≡ some r)
        × (read_reply r [] ≡ returned x)

  abbrev pub pool_of : List Y → W → State X Y W → State X Y W
  pool_of cs w s = record s { client = record s.client { cluster_clients = cs }; world = w }

  carries :
      (k : Formatted) (s : State X Y W) {c : Y} {rest : List Y}
      → IsPlain k
      → s.client.con_type ≡ redis_con_cluster_type
      → s.client.cluster_clients ≡ c ∷ rest
      → execute_cmd_spop env k.fmt k.args [] s ≡ (
        answer_of [] (env.cluster_send c k.text s.world).0,
        pool_of
            (returned_to rest c (env.cluster_send c k.text s.world).0)
            (env.cluster_send c k.text s.world).1
            s,
      )
  unfolding execute_cmd_spop create_cluster_context run_cluster
  carries k s {c} {rest} plain t pool = elim (Option-cases (env.cluster_send c k.text s.world).0) [
    | inl n ↦ simp (plain.0, t, pool, format-PercentFree k.text [] plain.1, n)
    | inr n ↦ simp (plain.0, t, pool, format-PercentFree k.text [] plain.1, n.1)
  ]

  -- On the cluster connection, with a service that answers every text with a reply that can be read,
  -- commands whose texts have no percent sign go to the contexts at the front of the pool, one to each and
  -- in the pool's order, with as many more contexts behind them as there are; afterwards these contexts are
  -- behind the others, in the same order, each call has given what it reads from the reply to its own
  -- text, and the client is otherwise as it was.
  pub cluster_round_robin :
      (answers : Answers) (cs ds : List Y) (ks : List Formatted) (s : State X Y W)
      → All IsPlain ks
      → length cs ≡ length ks
      → s.client.con_type ≡ redis_con_cluster_type
      → s.client.cluster_clients ≡ cs ++ ds
      → run_all ks s ≡ ((one_each cs ks s.world).0, pool_of (ds ++ cs) (one_each cs ks s.world).1 s)
  unfolding run_all one_each next_command
  cluster_round_robin answers [] ds [] s plain n t pool =
      rw (append-nil ds) (ap (λ p. ([], pool_of p s.world s)) pool)
  cluster_round_robin answers [] ds (k ∷ ks) s plain n t pool = cc
  cluster_round_robin answers (c ∷ cs) ds [] s plain n t pool = cc
  cluster_round_robin answers (c ∷ cs) ds (k ∷ ks) s plain n t pool =
      let (r, x, e, read) = answers c k.text s.world in
      let w : W = (env.cluster_send c k.text s.world).1 in
      let m : length cs ≡ length ks = omega arith in
      let later : run_all ks (pool_of ((cs ++ ds) ++ c ∷ []) w s)
          ≡ ((one_each cs ks w).0, pool_of ((ds ++ c ∷ []) ++ cs) (one_each cs ks w).1 s) =
        cluster_round_robin answers cs (ds ++ c ∷ []) ks (pool_of ((cs ++ ds) ++ c ∷ []) w s)
          plain.1 m t (append_assoc cs ds (c ∷ [])) in
      rw (carries k s plain.0 t pool, e, read, later, append_assoc ds (c ∷ []) cs) refl

module _ {X Y W : Type 0} (env : Env X Y W) (fmt : Bytes) (args : List Arg) (response : List Bytes)
    (s : State X Y W) {text : Bytes} (formatted : command fmt args ≡ some text) where
  -- On the cluster connection, with no pooled context, and less than three seconds after a
  -- connection has failed, no other is tried: the call returns false and only the clock has been
  -- read.
  pub cluster_backoff :
      {now : ℕ} {w : W}
      → s.client.con_type ≡ redis_con_cluster_type
      → s.client.cluster_clients ≡ []
      → env.time s.world ≡ (now, w)
      → now < s.client.begin_invalid_time + max_reconnect_interval
      → execute_cmd_spop env fmt args response s
        ≡ (returned (false, response), record s { world = w })
  unfolding execute_cmd_spop create_cluster_context pick_cluster_context try_cluster_connect
  cluster_backoff {now} {w} t pool time early =
      rw (formatted, t, pool, time, lt→ltb now _ early) refl

  -- On the cluster connection, with no pooled context and at least three seconds after the last
  -- failure, a connection that is refused makes the call return false, and starts the next three
  -- seconds at the reading of the clock that follows.
  pub cluster_refused :
      {now later : ℕ} {w w' w'' : W}
      → s.client.con_type ≡ redis_con_cluster_type
      → s.client.cluster_clients ≡ []
      → env.time s.world ≡ (now, w)
      → s.client.begin_invalid_time + max_reconnect_interval ≤ now
      → env.cluster_connect w ≡ (refused, w')
      → env.time w' ≡ (later, w'')
      → let q = execute_cmd_spop env fmt args response s in
        (q.0 ≡ returned (false, response)) × (q.1.client.begin_invalid_time ≡ later)
  unfolding execute_cmd_spop create_cluster_context pick_cluster_context try_cluster_connect
      open_cluster_context fail
  cluster_refused {now} t pool time late no_connect time' =
      rw (formatted, t, pool, time, le→ltb _ now late, no_connect, time') (refl, refl)
