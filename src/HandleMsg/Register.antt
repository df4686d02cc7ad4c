-- ===== src/HandleMsg/Register.antt =====
-- The registration task.
use ifellsofuckinggood.Prelude.{
  ◌≡◌, refl, ap, ◌∙◌, ℤ, pos, Bytes, codes, str, int, returned, Bool, true, false, Option, none,
  some, List, [], ◌∷◌, ◌++◌, ◌⊎◌, inl, inr,
}
use ifellsofuckinggood.MyEnum.{msg_code, msg_reg_refuse, msg_reg_accept}
use ifellsofuckinggood.TransObj.{
  TransObj, set_msg, set_msg_type, set_id, set_fd, get_name, get_passwd,
}
use ifellsofuckinggood.HandleMsg.{reg_task}
use ifellsofuckinggood.HandleMsg.Server.{
  Row, Services, Server, call, lift, text_of, send, reply, next_row, reg, reg_new, reg_inserted,
  reg_found_id, run_task, reg_query, reg_insert, max_id_query,
}
use ifellsofuckinggood.HandleMsg.Ends.{
  Ends, Ends-bind, Ends-call, Ends-lift, Ends-text, set_msg-keeps,
}

-- Exactly one message has been sent, to `fd`; it is an acceptance, where the task returns 1, or a
-- refusal.
abbrev pub Answered : {W : Type 0} → List TransObj → ℤ → ℤ → Server W → Type 0
Answered b fd code s =
    (o : TransObj) × (s.buff ≡ b ++ o ∷ [])
    × (o.fd ≡ fd)
    × (((o.msg_type ≡ msg_code msg_reg_accept) × (code ≡ pos 1))
        ⊎ (o.msg_type ≡ msg_code msg_reg_refuse))

module _ {W : Type 0} (svc : Services W) (b : List TransObj) (fd : ℤ) where
  refused :
      (text : Bytes) (o : TransObj) (code : ℤ) (s : Server W)
      → o.fd ≡ fd
      → s.buff ≡ b
      → Ends b (Answered b fd) (reply (msg_code msg_reg_refuse) text o code s)
  unfolding reply send
  refused text o code s h e =
      let k = set_msg-keeps text (set_msg_type (msg_code msg_reg_refuse) o) in
      (
        (set_msg text (set_msg_type (msg_code msg_reg_refuse) o)).1,
        ap (λ x. x ++ (set_msg text (set_msg_type (msg_code msg_reg_refuse) o)).1 ∷ []) e,
        k.1 ∙ h,
        inr k.0,
      )

  accepted :
      (text : Bytes) (o : TransObj) (s : Server W)
      → o.fd ≡ fd
      → s.buff ≡ b
      → Ends b (Answered b fd) (reply (msg_code msg_reg_accept) text o (pos 1) s)
  unfolding reply send
  accepted text o s h e =
      let k = set_msg-keeps text (set_msg_type (msg_code msg_reg_accept) o) in
      (
        (set_msg text (set_msg_type (msg_code msg_reg_accept) o)).1,
        ap (λ x. x ++ (set_msg text (set_msg_type (msg_code msg_reg_accept) o)).1 ∷ []) e,
        k.1 ∙ h,
        inl (k.0, refl),
      )

  next_row-quiet :
      (rows : Option (List Row)) (s : Server W)
      → s.buff ≡ b
      → Ends b (λ r s'. s'.buff ≡ b) (next_row svc rows s)
  unfolding next_row
  next_row-quiet none s e = e
  next_row-quiet (some []) s e = e
  next_row-quiet (some (r ∷ rest)) s e = e

  found_id-Answered :
      (o : TransObj) (row : Option Row) (s : Server W)
      → o.fd ≡ fd
      → s.buff ≡ b
      → Ends b (Answered b fd) (reg_found_id svc o row s)
  unfolding reg_found_id
  found_id-Answered o none s h e = refused _ o (pos 1) s h e
  found_id-Answered o (some row) s h e =
      Ends-bind b (Answered b fd) _ (lift (row.get_int (codes "id")) s) (Ends-lift b _ s e)
        (λ id s' e'. accepted _ (set_id id o) s' h e')

  inserted-Answered :
      (o : TransObj) (done : Bool) (s : Server W)
      → o.fd ≡ fd
      → s.buff ≡ b
      → Ends b (Answered b fd) (reg_inserted svc o done s)
  unfolding reg_inserted
  inserted-Answered o false s h e = refused _ o (pos 0) s h e
  inserted-Answered o true s h e =
      Ends-bind b (Answered b fd) _ (call (svc.exec_query max_id_query []) s)
        (Ends-call b (svc.exec_query max_id_query [] s.world) s e)
        λ rows s1 e1.
          Ends-bind b (Answered b fd) _ (next_row svc rows s1) (next_row-quiet rows s1 e1)
            λ row s2 e2. found_id-Answered o row s2 h e2

  new-Answered :
      (o : TransObj) (name : Bytes) (row : Option Row) (s : Server W)
      → o.fd ≡ fd
      → s.buff ≡ b
      → Ends b (Answered b fd) (reg_new svc o fd name row s)
  unfolding reg_new
  new-Answered o name (some row) s h e = refused _ o (pos 0) s h e
  new-Answered o name none s h e =
      Ends-bind b (Answered b fd) _ (text_of (get_passwd o) s) (Ends-text b (get_passwd o) s e)
        λ passwd s1 e1.
          Ends-bind b (Answered b fd) _ (call (svc.exec_insert reg_insert _) s1)
            (Ends-call b (svc.exec_insert reg_insert (str name ∷ int fd ∷ str passwd ∷ []) s1.world)
              s1 e1)
            λ done s2 e2. inserted-Answered o done s2 h e2

module _ {W : Type 0} (svc : Services W) where
  -- A registration task that returns has sent exactly one message, behind those of the queue and to
  -- the socket of the request: an acceptance, and then it returns 1, or a refusal. One that ends in
  -- an exception or in undefined behaviour has sent nothing.
  pub reg-Answered :
      (obj : TransObj) (fd : ℤ) (s : Server W)
      → Ends s.buff (Answered s.buff fd) (run_task svc (reg_task obj fd) s)
  unfolding run_task
  reg-Answered obj fd s =
      Ends-bind s.buff (Answered s.buff fd) _ (text_of (get_name (set_fd fd obj)) s)
        (Ends-text s.buff (get_name (set_fd fd obj)) s refl)
        λ name s1 e1.
          Ends-bind s.buff (Answered s.buff fd) _ (call (svc.exec_query reg_query _) s1)
            (Ends-call s.buff (svc.exec_query reg_query (str name ∷ []) s1.world) s1 e1)
            λ rows s2 e2.
              Ends-bind s.buff (Answered s.buff fd) _ (next_row svc rows s2)
                (next_row-quiet svc s.buff fd rows s2 e2)
                λ row s3 e3. new-Answered svc s.buff fd (set_fd fd obj) name row s3 refl e3

  -- A registration of a name that the database does not have, whose insert changes a row, is accepted
  -- with the largest identity that the database has then.
  pub reg-accepted :
      (obj : TransObj) (fd : ℤ) (s : Server W) {name passwd : Bytes} {row : Row} {rest : List Row}
      {w w1 w2 : W} {id : ℤ}
      → get_name obj ≡ some name
      → svc.exec_query reg_query (str name ∷ []) s.world ≡ (returned (some []), w)
      → get_passwd obj ≡ some passwd
      → svc.exec_insert reg_insert (str name ∷ int fd ∷ str passwd ∷ []) w ≡ (returned true, w1)
      → svc.exec_query max_id_query [] w1 ≡ (returned (some (row ∷ rest)), w2)
      → row.get_int (codes "id") ≡ returned id
      → run_task svc (reg_task obj fd) s ≡ (
        returned (pos 1),
        record {
          world = w2;
          buff =
              s.buff
              ++ (set_msg
                  (codes "regin accepted! \n")
                  (set_msg_type (msg_code msg_reg_accept) (set_id id (set_fd fd obj)))).1
                ∷ [];
        },
      )
  unfolding run_task reg reg_new reg_inserted reg_found_id next_row reply send get_name get_passwd
  reg-accepted obj fd s named free has_passwd inserted found has_id =
      rw (named, free, has_passwd, inserted, found, has_id) refl
