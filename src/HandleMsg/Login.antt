-- ===== src/HandleMsg/Login.antt =====
-- The login task.
use ifellsofuckinggood.Prelude.{
  before_nul, ◌≡◌, ◌≤◌, sym, ap, ◌∙◌, ℤ, pos, Bytes, codes, str, Bool, some, List, [], ◌∷◌, ◌++◌,
  le→ltb, bytes_eq, bytes_eq_sound, bytes_eq_refl, Bool-cases, inl, inr, returned,
}
use ifellsofuckinggood.MyEnum.{msg_code, msg_login_refuse, msg_login_accept}
use ifellsofuckinggood.TransObj.{
  TransObj, max_trans_msg_len, set_msg, set_msg_type, set_id, set_fd, get_name, get_passwd,
}
use ifellsofuckinggood.HandleMsg.{login_task}
use ifellsofuckinggood.HandleMsg.Server.{
  Row, Services, Server, reply, send, log_in, log_rows, log_row, log_matched, log_id, log_accept,
  log_refuse, run_task, login_query,
}

module _ {W : Type 0} (svc : Services W) (obj : TransObj) (fd : ℤ) (s : Server W) where
  abbrev pub sent : W → TransObj → Server W
  sent w o = record { world = w; buff = s.buff ++ o ∷ [] }

  module _ {name : Bytes} {rows : List Row} {w : W} (short : obj.len ≤ max_trans_msg_len)
      (named : get_name obj ≡ some name)
      (found : svc.exec_query login_query (str name ∷ []) s.world ≡ (returned (some rows), w)) where
    -- The task up to the answer of the database.
    looked_up :
        run_task svc (login_task obj fd) s
        ≡ log_rows svc obj fd name (some rows) (record { world = w; buff = s.buff })
    unfolding run_task log_in
    looked_up = rw (le→ltb _ _ short, named, found)

  -- A login of which `len` is at most 64, with a name of which the database has no row, is
  -- accepted, whatever the password: the answer has the identity and the address that the request
  -- came with, and no session is added.
  pub login_unknown_name :
      {name : Bytes} {w : W}
      → obj.len ≤ max_trans_msg_len
      → get_name obj ≡ some name
      → svc.exec_query login_query (str name ∷ []) s.world ≡ (returned (some []), w)
      → run_task svc (login_task obj fd) s
        ≡ (returned (pos 1), sent w (set_msg_type (msg_code msg_login_accept) obj))
  unfolding log_rows log_accept send
  login_unknown_name {name} short named found = looked_up short named found

  module _ {name passwd rel_passwd : Bytes} {row : Row} {rest : List Row} {w : W}
      (short : obj.len ≤ max_trans_msg_len) (named : get_name obj ≡ some name)
      (has_passwd : get_passwd obj ≡ some passwd)
      (found : svc.exec_query login_query (str name ∷ []) s.world
        ≡ (returned (some (row ∷ rest)), w))
      (stored : row.get_string (codes "password") ≡ returned rel_passwd) where
    compared :
        run_task svc (login_task obj fd) s
        ≡ log_matched svc obj fd name row
            (bytes_eq passwd (before_nul rel_passwd))
            (record { world = w; buff = s.buff })
    unfolding log_rows log_row
    compared = looked_up short named found ∙ rw (stored, has_passwd)

  -- A login of which `len` is at most 64, for a name that the database has, with a password that
  -- is not the stored one, is refused: the only message sent says so, and goes to the address that
  -- the request itself holds. No session is added.
  pub login_wrong_password :
      {name passwd rel_passwd : Bytes} {row : Row} {rest : List Row} {w : W}
      → obj.len ≤ max_trans_msg_len
      → get_name obj ≡ some name
      → get_passwd obj ≡ some passwd
      → svc.exec_query login_query (str name ∷ []) s.world ≡ (returned (some (row ∷ rest)), w)
      → row.get_string (codes "password") ≡ returned rel_passwd
      → ¬ (passwd ≡ before_nul rel_passwd)
      → run_task svc (login_task obj fd) s ≡ (
        returned (pos 0),
        sent w
            (set_msg
              (codes "Login err! password not equal!\n")
              (set_msg_type (msg_code msg_login_refuse) obj)).1,
      )
  unfolding log_matched log_refuse reply send
  login_wrong_password {name} {passwd} {rel_passwd} short named has_passwd found stored differs =
      compared short named has_passwd found stored
      ∙ (elim (Bool-cases (bytes_eq passwd (before_nul rel_passwd))) [
        | inl e ↦ absurd (differs (bytes_eq_sound passwd (before_nul rel_passwd) e))
        | inr e ↦ rw e
      ])

  -- A login of which `len` is at most 64, for a name that the database has, with the stored
  -- password, where the row has an identity and the sessions answer: it adds a session of that
  -- identity, the name and the socket of the request, and the only message sent accepts it, with
  -- that identity and to that socket.
  pub login_right_password :
      {name passwd rel_passwd : Bytes} {row : Row} {rest : List Row} {w w' : W} {id : ℤ}
      {added : Bool}
      → obj.len ≤ max_trans_msg_len
      → get_name obj ≡ some name
      → get_passwd obj ≡ some passwd
      → svc.exec_query login_query (str name ∷ []) s.world ≡ (returned (some (row ∷ rest)), w)
      → row.get_string (codes "password") ≡ returned rel_passwd
      → passwd ≡ before_nul rel_passwd
      → row.get_int (codes "userid") ≡ returned id
      → svc.add_session_talker id name fd w ≡ (returned added, w')
      → run_task svc (login_task obj fd) s ≡ (
        returned (pos 1),
        sent w' (set_msg_type (msg_code msg_login_accept) (set_fd fd (set_id id obj))),
      )
  unfolding log_matched log_id log_accept send
  login_right_password {name} {passwd} {rel_passwd} short named has_passwd found stored same has_id
        adds =
      compared short named has_passwd found stored
      ∙ rw (ap (bytes_eq passwd) (sym same), bytes_eq_refl passwd, has_id, adds)
