-- ===== src/HandleMsg/Keeps.antt =====
-- What the services keep, every task of the server keeps.
use ifellsofuckinggood.Prelude.{
  before_nul, ℕ, ℤ, Bytes, codes, Arg, Bool, true, false, Option, none, some, List, [], ◌∷◌, leb,
  ltb, length, if◌then◌else◌, bytes_eq, Outcome, returned, thrown, undefined,
}
use ifellsofuckinggood.TransObj.{
  TransObj, max_trans_msg_len, name_max_len, set_id, set_fd, set_recver_id, get_name, get_passwd,
  get_msg,
}
use ifellsofuckinggood.HandleMsg.{
  Task, talk_task, reg_task, login_task, log_out_task, ask_task, accept_task,
}
use ifellsofuckinggood.HandleMsg.Server.{
  Row, Services, Server, M, continue, call, lift, text_of, reply, send, next_row, reg, reg_new,
  reg_inserted, reg_found_id, log_in, log_rows, log_row, log_matched, log_id, log_accept,
  log_refuse, ask, ask_row, ask_online, accept, accept_online, accept_named, talk_online, run_task,
}

-- Each service keeps a property of the world, however it ends.
pub record KeptBy {W : Type 0} (svc : Services W) (P : W → Type 0) : Type 0 where
  pub query_keeps : (q : Bytes) (args : List Arg) (w : W) → P w → P (svc.exec_query q args w).1
  pub insert_keeps : (q : Bytes) (args : List Arg) (w : W) → P w → P (svc.exec_insert q args w).1
  pub add_keeps :
      (id : ℤ) (name : Bytes) (fd : ℤ) (w : W) → P w → P (svc.add_session_talker id name fd w).1
  pub online_keeps : (id : ℤ) (w : W) → P w → P (svc.is_talker_online id w).1
  pub remove_keeps : (id : ℤ) (w : W) → P w → P (svc.remove_session_talker id w).1
  pub fd_keeps : (id : ℤ) (w : W) → P w → P (svc.get_talker_fd id w).1
  pub name_keeps : (id : ℤ) (w : W) → P w → P (svc.get_talker_name id w).1

module _ {W : Type 0} (svc : Services W) (P : W → Type 0) (k : KeptBy svc P) where
  abbrev Keeps : {A : Type 0} → M W A → Type 0
  Keeps m = (s : Server W) → P s.world → P (m s).1.world

  Keeps-continue :
      {A B : Type 0} (r : Outcome A × Server W) (f : A → M W B)
      → P r.1.world
      → ((a : A) → Keeps (f a))
      → P (continue r f).1.world
  Keeps-continue (returned a, s) f h kf = kf a s h
  Keeps-continue (thrown, s) f h kf = h
  Keeps-continue (undefined, s) f h kf = h

  text-Keeps : (t : Option Bytes) → Keeps (text_of {W = W} t)
  text-Keeps none s h = h
  text-Keeps (some t) s h = h

  row-Keeps : (rows : Option (List Row)) → Keeps (next_row svc rows)
  unfolding next_row
  row-Keeps none s h = h
  row-Keeps (some []) s h = h
  row-Keeps (some (r ∷ rest)) s h = h

  reply-Keeps : (t : ℕ) (text : Bytes) (o : TransObj) (code : ℤ) → Keeps (reply t text o code)
  unfolding reply send
  reply-Keeps t text o code s h = h

  found_id-Keeps : (o : TransObj) (row : Option Row) → Keeps (reg_found_id svc o row)
  unfolding reg_found_id
  found_id-Keeps o none s h = reply-Keeps _ _ o _ s h
  found_id-Keeps o (some row) s h =
      Keeps-continue (lift (row.get_int (codes "id")) s) _ h (λ id. reply-Keeps _ _ (set_id id o) _)

  inserted-Keeps : (o : TransObj) (done : Bool) → Keeps (reg_inserted svc o done)
  unfolding reg_inserted
  inserted-Keeps o false s h = reply-Keeps _ _ o _ s h
  inserted-Keeps o true s h =
      Keeps-continue (call (svc.exec_query _ _) s) _ (k.query_keeps _ _ s.world h) λ rows s1 h1.
        Keeps-continue (next_row svc rows s1) _ (row-Keeps rows s1 h1) (found_id-Keeps o)

  new-Keeps :
      (o : TransObj) (fd : ℤ) (name : Bytes) (row : Option Row) → Keeps (reg_new svc o fd name row)
  unfolding reg_new
  new-Keeps o fd name (some row) s h = reply-Keeps _ _ o _ s h
  new-Keeps o fd name none s h =
      Keeps-continue (text_of (get_passwd o) s) _ (text-Keeps (get_passwd o) s h) λ passwd s1 h1.
        Keeps-continue (call (svc.exec_insert _ _) s1) _ (k.insert_keeps _ _ s1.world h1)
          (inserted-Keeps o)

  reg-Keeps : (o : TransObj) (fd : ℤ) → Keeps (reg svc o fd)
  unfolding reg
  reg-Keeps o fd s h =
      Keeps-continue (text_of (get_name (set_fd fd o)) s) _ (text-Keeps _ s h) λ name s1 h1.
        Keeps-continue (call (svc.exec_query _ _) s1) _ (k.query_keeps _ _ s1.world h1)
          λ rows s2 h2.
            Keeps-continue (next_row svc rows s2) _ (row-Keeps rows s2 h2)
              (new-Keeps (set_fd fd o) fd name)

  id-Keeps : (o : TransObj) (fd : ℤ) (name : Bytes) (r : Outcome ℤ) → Keeps (log_id svc o fd name r)
  unfolding log_id log_accept log_refuse send
  id-Keeps o fd name (returned id) s h =
      Keeps-continue (call (svc.add_session_talker id name fd) s) _
        (k.add_keeps id name fd s.world h) (λ b s1 h1. h1)
  id-Keeps o fd name thrown s h = reply-Keeps _ _ o _ s h
  id-Keeps o fd name undefined s h = h

  matched-Keeps :
      (o : TransObj) (fd : ℤ) (name : Bytes) (row : Row) (b : Bool)
      → Keeps (log_matched svc o fd name row b)
  unfolding log_matched log_refuse
  matched-Keeps o fd name row true s h = id-Keeps o fd name _ s h
  matched-Keeps o fd name row false s h = reply-Keeps _ _ o _ s h

  rows-Keeps :
      (o : TransObj) (fd : ℤ) (name : Bytes) (rows : Option (List Row))
      → Keeps (log_rows svc o fd name rows)
  unfolding log_rows log_row log_accept log_refuse send
  rows-Keeps o fd name none s h = reply-Keeps _ _ o _ s h
  rows-Keeps o fd name (some []) s h = h
  rows-Keeps o fd name (some (row ∷ rest)) s h =
      Keeps-continue (lift (row.get_string (codes "password")) s) _ h λ rel s1 h1.
        Keeps-continue (text_of (get_passwd o) s1) _ (text-Keeps _ s1 h1)
          λ passwd. matched-Keeps o fd name row (bytes_eq passwd (before_nul rel))

  if-Keeps : {A : Type 0} (b : Bool) (m n : M W A) → Keeps m → Keeps n → Keeps (if b then m else n)
  if-Keeps true m n hm hn s h = hm s h
  if-Keeps false m n hm hn s h = hn s h

  log_in-Keeps : (o : TransObj) (fd : ℤ) → Keeps (log_in svc o fd)
  unfolding log_in log_refuse
  log_in-Keeps o fd = if-Keeps (ltb max_trans_msg_len o.len) _ _ (reply-Keeps _ _ o _) λ s h.
      Keeps-continue (text_of (get_name o) s) _ (text-Keeps _ s h) λ name s1 h1.
        Keeps-continue (call (svc.exec_query _ _) s1) _ (k.query_keeps _ _ s1.world h1)
          (rows-Keeps o fd name)

  ask_online-Keeps : (o : TransObj) (b : Bool) → Keeps (ask_online svc o b)
  unfolding ask_online send
  ask_online-Keeps o false s h = h
  ask_online-Keeps o true s h =
      Keeps-continue (call (svc.get_talker_fd o.recver_id) s) _ (k.fd_keeps _ s.world h)
        (λ fd s1 h1. h1)

  ask_row-Keeps : (o : TransObj) (fd : ℤ) (row : Option Row) → Keeps (ask_row svc o fd row)
  unfolding ask_row send
  ask_row-Keeps o fd none s h = h
  ask_row-Keeps o fd (some row) s h =
      Keeps-continue (lift (row.get_int (codes "userid")) s) _ h λ id s1 h1.
        Keeps-continue (call (svc.is_talker_online id) s1) _ (k.online_keeps id s1.world h1)
          (ask_online-Keeps (set_recver_id id o))

  ask-Keeps : (o : TransObj) (fd : ℤ) → Keeps (ask svc o fd)
  unfolding ask
  ask-Keeps o fd s h = Keeps-continue (text_of (get_msg o) s) _ (text-Keeps _ s h) λ name s1 h1.
      Keeps-continue (call (svc.exec_query _ _) s1) _ (k.query_keeps _ _ s1.world h1) λ rows s2 h2.
        Keeps-continue (next_row svc rows s2) _ (row-Keeps rows s2 h2) (ask_row-Keeps o fd)

  named-Keeps : (o : TransObj) (name : Option Bytes) → Keeps (accept_named svc o name)
  unfolding accept_named send
  named-Keeps o none s h = h
  named-Keeps o (some name) s h =
      if-Keeps (leb name_max_len (length name)) _ _ (λ s h. h) (λ s h. h) s h

  accept_online-Keeps : (o : TransObj) (b : Bool) → Keeps (accept_online svc o b)
  unfolding accept_online
  accept_online-Keeps o false s h = h
  accept_online-Keeps o true s h =
      Keeps-continue (call (svc.get_talker_fd o.recver_id) s) _ (k.fd_keeps _ s.world h) λ fd s1 h1.
        Keeps-continue (call (svc.get_talker_name o.id) s1) _ (k.name_keeps _ s1.world h1)
          (named-Keeps (set_fd fd o))

  accept-Keeps : (o : TransObj) → Keeps (accept svc o)
  unfolding accept
  accept-Keeps o s h =
      Keeps-continue (call (svc.is_talker_online o.recver_id) s) _ (k.online_keeps _ s.world h)
        (accept_online-Keeps o)

  talk_online-Keeps : (o : TransObj) (b : Bool) → Keeps (talk_online svc o b)
  unfolding talk_online send
  talk_online-Keeps o false s h = h
  talk_online-Keeps o true s h = h

  -- Whatever every service keeps, each task of the server keeps, however it ends.
  pub run_task-keeps : (t : Task) (s : Server W) → P s.world → P (run_task svc t s).1.world
  unfolding run_task
  run_task-keeps (talk_task o) s h =
      Keeps-continue (call (svc.is_talker_online o.recver_id) s) _ (k.online_keeps _ s.world h)
        (talk_online-Keeps o)
  run_task-keeps (reg_task o fd) s h = reg-Keeps o fd s h
  run_task-keeps (login_task o fd) s h = log_in-Keeps o fd s h
  run_task-keeps (log_out_task o) s h =
      Keeps-continue (call (svc.remove_session_talker o.id) s) _ (k.remove_keeps _ s.world h)
        (λ b s1 h1. h1)
  run_task-keeps (ask_task o fd) s h = ask-Keeps o fd s h
  run_task-keeps (accept_task o) s h = accept-Keeps o s h
