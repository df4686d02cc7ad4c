-- ===== src/RedisClient/Direct.antt =====
-- The methods of smer/Redis/src/redis_pool.cpp that nothing calls: ExecuteCmd, which gives the reply
-- itself, and CheckStatus; and the end of the client.
use ifellsofuckinggood.Prelude.{
  ◌≡◌, refl, Bytes, codes, Arg, format, Bool, false, Option, none, some, List, [], bytes_eq, map,
  leb, ◌&&◌, ◌+◌, ℕ, if◌then◌else◌, Outcome, returned, thrown, undefined, Option-cases, inl, inr,
}
use ifellsofuckinggood.RedisClient.{
  run_normal, sent_normal, Env, State, redis_con_normal_type, command, is_some, create_context,
  release_context, execute_cmd_spop,
}
use ifellsofuckinggood.RedisClient.Replies.{Reply, status, read_reply}

-- The destructor frees the contexts of the first pool only.
unfoldable pub destroy : {X Y W : Type 0} → State X Y W → State X Y W
destroy s = record s { client = record s.client { clients = [] } }

-- strcasecmp compares letters without their case.
abbrev pub lower : ℕ → ℕ
lower c = if leb b'A' c && leb c b'Z' then 32 + c else c

module _ {X Y W : Type 0} (env : Env X Y W) where
  carried_on : X → Option Bytes → State X Y W → Outcome (Option Reply) × State X Y W
  unfolding release_context
  carried_on c none s = (undefined, s)
  carried_on c (some text) s =
      let (reply, w) = env.send c text s.world in
      (returned reply, release_context (some c) (is_some reply) (record s { world = w }))

  -- The text is the format of redisCommand, as in ExecuteCmd_spop.
  sent_on : X → Option Bytes → State X Y W → Outcome (Option Reply) × State X Y W
  unfolding carried_on
  sent_on c none s = (undefined, s)
  sent_on c (some text) s = carried_on c (format text []) s

  on_context : Bytes → Option X × State X Y W → Outcome (Option Reply) × State X Y W
  unfolding sent_on
  on_context fmt (none, s) = (returned none, s)
  on_context fmt (some c, s) = sent_on c (command fmt []) s

  -- The text is printed first, which uses the arguments up: a directive that takes one of them is
  -- undefined behaviour in the second use.
  unfoldable pub execute_cmd : Bytes → List Arg → State X Y W → Outcome (Option Reply) × State X Y W
  unfolding on_context create_context
  execute_cmd fmt args s = on_context fmt (create_context env s)

  pong : Option Reply → Bool
  pong (some (status t)) = bytes_eq (map lower t) (codes "pong")
  pong _ = false

  unfoldable pub check_status : X → State X Y W → Bool × State X Y W
  unfolding pong
  check_status c s =
      let (reply, w) = env.send c (codes "ping") s.world in (pong reply, record s { world = w })

  -- What ExecuteCmd_spop makes of a reply.
  reads :
      List Bytes → Outcome (Option Reply) × State X Y W → Outcome (Bool × List Bytes) × State X Y W
  reads response (returned none, s) = (returned (false, response), s)
  reads response (returned (some r), s) = (read_reply r response, s)
  reads response (thrown, s) = (thrown, s)
  reads response (undefined, s) = (undefined, s)

  sent_normal-reads :
      (o : Option Bytes) (response : List Bytes) (c : X) (s : State X Y W)
      → sent_normal env response c o s ≡ reads response (carried_on c o s)
  unfolding sent_normal reads carried_on
  sent_normal-reads none response c s = refl
  sent_normal-reads (some text) response c s = elim (Option-cases (env.send c text s.world).0) [
    | inl n ↦ simp (n)
    | inr n ↦ simp (n.1)
  ]

  run_normal-reads :
      (fmt text : Bytes) (response : List Bytes) (p : Option X × State X Y W)
      → command fmt [] ≡ some text
      → run_normal env text response p ≡ reads response (on_context fmt p)
  unfolding run_normal reads on_context
  run_normal-reads fmt text response (none, s) e = refl
  run_normal-reads fmt text response (some c, s) e =
      rw e (sent_normal-reads (format text []) response c s)

  -- A command without arguments that goes to a single server, rather than to a cluster: ExecuteCmd_spop
  -- takes the same context, sends the same text and leaves the same state as ExecuteCmd, and what it
  -- returns is what it reads from the reply that ExecuteCmd gives.
  execute_cmd_spop-reads :
      (fmt text : Bytes) (response : List Bytes) (s : State X Y W)
      → s.client.con_type ≡ redis_con_normal_type
      → command fmt [] ≡ some text
      → execute_cmd_spop env fmt [] response s ≡ reads response (execute_cmd fmt [] s)
  unfolding execute_cmd_spop execute_cmd
  execute_cmd_spop-reads fmt text response s n e =
      simp (e, n) (run_normal-reads fmt text response (create_context env s) e)
