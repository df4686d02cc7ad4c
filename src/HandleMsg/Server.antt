-- ===== src/HandleMsg/Server.antt =====
-- The tasks of the server's handlers. The services that they call are an interface: the database
-- behind MysqlPool and the sessions of ComManger. A task that reads past the end of an object, or
-- through a null result set, is `undefined`; an exception that it does not catch is `thrown`.
use ifellsofuckinggood.Prelude.{
  before_nul, ℕ, ℤ, pos, minus_one, Bytes, codes, Arg, str, int, bytes_eq, Bool, true, false,
  Option, none, some, List, [], ◌∷◌, ◌++◌, length, leb, ltb, if◌then◌else◌, Outcome, returned,
  thrown, undefined,
}
use ifellsofuckinggood.MyEnum.{
  msg_code, msg_reg_refuse, msg_reg_accept, msg_login_refuse, msg_login_accept,
  msg_ask_for_friend_not_found,
}
use ifellsofuckinggood.TransObj.{
  TransObj, max_trans_msg_len, name_max_len, set_msg_type, set_id, set_fd, set_recver_id, set_msg,
  get_name, get_passwd, get_msg,
}
use ifellsofuckinggood.HandleMsg.{
  Task, talk_task, reg_task, login_task, log_out_task, ask_task, accept_task,
}

-- A row of a result set, by column.
pub record Row : Type 0 where
  pub get_string : Bytes → Outcome Bytes
  pub get_int : Bytes → Outcome ℤ

-- A result set is the rows that `next` goes through; `none` is a null pointer.
pub record Services (W : Type 0) : Type 0 where
  pub exec_query : Bytes → List Arg → W → Outcome (Option (List Row)) × W
  pub exec_insert : Bytes → List Arg → W → Outcome Bool × W
  pub add_session_talker : ℤ → Bytes → ℤ → W → Outcome Bool × W
  pub is_talker_online : ℤ → W → Outcome Bool × W
  pub remove_session_talker : ℤ → W → Outcome Bool × W
  pub get_talker_fd : ℤ → W → Outcome ℤ × W
  pub get_talker_name : ℤ → W → Outcome (Option Bytes) × W

-- `buff` is the queue of messages to send, oldest first.
pub record Server (W : Type 0) : Type 0 where
  pub world : W
  pub buff : List TransObj

abbrev pub M : Type 0 → Type 0 → Type 0
M W A = Server W → Outcome A × Server W

abbrev pub continue : {W A B : Type 0} → Outcome A × Server W → (A → M W B) → Outcome B × Server W
continue (returned a, s) f = f a s
continue (thrown, s) f = (thrown, s)
continue (undefined, s) f = (undefined, s)

infixl 5 ◌>>=◌ ◌>>◌
abbrev pub ◌>>=◌ : {W A B : Type 0} → M W A → (A → M W B) → M W B
◌>>=◌ m f s = continue (m s) f

abbrev pub ◌>>◌ : {W B : Type 0} → M W (Unit {0}) → M W B → M W B
m >> k = m >>= λ u. k

abbrev pub pure : {W A : Type 0} → A → M W A
pure a s = (returned a, s)

abbrev pub stop : {W A : Type 0} → M W A
stop s = (undefined, s)

-- A `const char*` that is read.
abbrev pub text_of : {W : Type 0} → Option Bytes → M W Bytes
text_of none = stop
text_of (some t) = pure t

abbrev pub lift : {W A : Type 0} → Outcome A → M W A
lift r s = (r, s)

abbrev pub call : {W A : Type 0} → (W → Outcome A × W) → M W A
call f s = let (r, w) = f s.world in (r, record s { world = w })

-- getBuff().push
unfoldable pub send : {W : Type 0} → TransObj → M W (Unit {0})
send o s = (returned tt, record s { buff = s.buff ++ o ∷ [] })

-- The message as it is given a type and a text, and sent; the task returns `code`.
unfoldable pub reply : {W : Type 0} → ℕ → Bytes → TransObj → ℤ → M W ℤ
reply t text o code = do send (set_msg text (set_msg_type t o)).1; pure code

abbrev pub reg_query : Bytes
reg_query = codes "select password from userinfo where username = '%s';"

abbrev pub reg_insert : Bytes
reg_insert = codes "insert into userinfo (username, fd, password) values('%s', %d, '%s');"

abbrev pub max_id_query : Bytes
max_id_query = codes "select max(userid) as id from userinfo;"

abbrev pub login_query : Bytes
login_query = codes "select password, userid from userinfo where username = '%s';"

abbrev pub friend_query : Bytes
friend_query = codes "select userid from userinfo where username = '%s';"

module _ {W : Type 0} (svc : Services W) where
  -- `msqlResSet->next()` of a null pointer.
  unfoldable pub next_row : Option (List Row) → M W (Option Row)
  next_row none = stop
  next_row (some []) = pure none
  next_row (some (r ∷ rest)) = pure (some r)

  -- After an insert that has changed a row.
  unfoldable pub reg_found_id : TransObj → Option Row → M W ℤ
  reg_found_id o none =
      reply (msg_code msg_reg_refuse) (codes "regin err no found current id! \n") o (pos 1)
  reg_found_id o (some row) = do
    id ← lift (row.get_int (codes "id"))
    reply (msg_code msg_reg_accept) (codes "regin accepted! \n") (set_id id o) (pos 1)

  unfoldable pub reg_inserted : TransObj → Bool → M W ℤ
  reg_inserted o true = do
    rows ← call (svc.exec_query max_id_query [])
    row ← next_row rows
    reg_found_id o row
  reg_inserted o false =
      reply (msg_code msg_reg_refuse) (codes "regin err! insert error!\n") o (pos 0)

  unfoldable pub reg_new : TransObj → ℤ → Bytes → Option Row → M W ℤ
  reg_new o fd name (some row) =
      reply (msg_code msg_reg_refuse) (codes "regin err! name reg exists already!") o (pos 0)
  reg_new o fd name none = do
    passwd ← text_of (get_passwd o)
    done ← call (svc.exec_insert reg_insert (str name ∷ int fd ∷ str passwd ∷ []))
    reg_inserted o done

  unfoldable pub reg : TransObj → ℤ → M W ℤ
  reg obj fd = do
    name ← text_of (get_name (set_fd fd obj))
    rows ← call (svc.exec_query reg_query (str name ∷ []))
    row ← next_row rows
    reg_new (set_fd fd obj) fd name row

  unfoldable pub log_refuse : Bytes → TransObj → M W ℤ
  log_refuse text o = reply (msg_code msg_login_refuse) text o (pos 0)

  unfoldable pub log_accept : TransObj → M W ℤ
  log_accept o = do send (set_msg_type (msg_code msg_login_accept) o); pure (pos 1)

  -- The exception of getInt is caught; the result of addSessionTalker is not read.
  unfoldable pub log_id : TransObj → ℤ → Bytes → Outcome ℤ → M W ℤ
  log_id o fd name (returned id) = do
    added ← call (svc.add_session_talker id name fd)
    log_accept (set_fd fd (set_id id o))
  log_id o fd name thrown = log_refuse (codes "Login err! id not found!\n") o
  log_id o fd name undefined = stop

  unfoldable pub log_matched : TransObj → ℤ → Bytes → Row → Bool → M W ℤ
  log_matched o fd name row true = log_id o fd name (row.get_int (codes "userid"))
  log_matched o fd name row false = log_refuse (codes "Login err! password not equal!\n") o

  unfoldable pub log_row : TransObj → ℤ → Bytes → Row → M W ℤ
  log_row o fd name row = do
    rel_passwd ← lift (row.get_string (codes "password"))
    trans_passwd ← text_of (get_passwd o)
    log_matched o fd name row (bytes_eq trans_passwd (before_nul rel_passwd))

  unfoldable pub log_rows : TransObj → ℤ → Bytes → Option (List Row) → M W ℤ
  log_rows o fd name none = log_refuse (codes "Login err! not found name\n") o
  log_rows o fd name (some []) = log_accept o
  log_rows o fd name (some (row ∷ rest)) = log_row o fd name row

  unfoldable pub log_in : TransObj → ℤ → M W ℤ
  log_in obj fd =
      if ltb max_trans_msg_len obj.len
      then log_refuse (codes "Login err! msg len too long! \n") obj
      else do
        name ← text_of (get_name obj)
        rows ← call (svc.exec_query login_query (str name ∷ []))
        log_rows obj fd name rows

  unfoldable pub ask_online : TransObj → Bool → M W ℤ
  ask_online o false = pure (pos 0)
  ask_online o true = do fd ← call (svc.get_talker_fd o.recver_id); send (set_fd fd o); pure (pos 1)

  unfoldable pub ask_row : TransObj → ℤ → Option Row → M W ℤ
  ask_row o fd none = do
    send (set_fd fd (set_msg_type (msg_code msg_ask_for_friend_not_found) o))
    pure (pos 0)
  ask_row o fd (some row) = do
    id ← lift (row.get_int (codes "userid"))
    online ← call (svc.is_talker_online id)
    ask_online (set_recver_id id o) online

  unfoldable pub ask : TransObj → ℤ → M W ℤ
  ask obj fd = do
    name ← text_of (get_msg obj)
    rows ← call (svc.exec_query friend_query (str name ∷ []))
    row ← next_row rows
    ask_row obj fd row

  unfoldable pub accept_named : TransObj → Option Bytes → M W ℤ
  accept_named o none = do send o; pure (pos 1)
  accept_named o (some name) =
      if leb name_max_len (length name)
      then pure minus_one
      else (do send (set_msg (before_nul name) o).1; pure (pos 1))

  unfoldable pub accept_online : TransObj → Bool → M W ℤ
  accept_online o false = pure minus_one
  accept_online o true = do
    fd ← call (svc.get_talker_fd o.recver_id)
    name ← call (svc.get_talker_name o.id)
    accept_named (set_fd fd o) name

  unfoldable pub accept : TransObj → M W ℤ
  accept o = do online ← call (svc.is_talker_online o.recver_id); accept_online o online

  unfoldable pub talk_online : TransObj → Bool → M W ℤ
  talk_online o false = pure (pos 0)
  talk_online o true = do send o; pure (pos 0)

  -- The task as a worker of the thread pool runs it; where the source returns nothing the model
  -- returns 0.
  unfoldable pub run_task : Task → M W ℤ
  unfolding reg log_in ask accept talk_online
  run_task (talk_task obj) = do
    online ← call (svc.is_talker_online obj.recver_id)
    talk_online obj online
  run_task (reg_task obj fd) = reg obj fd
  run_task (login_task obj fd) = log_in obj fd
  run_task (log_out_task obj) = do done ← call (svc.remove_session_talker obj.id); pure (pos 0)
  run_task (ask_task obj fd) = ask obj fd
  run_task (accept_task obj) = accept obj
