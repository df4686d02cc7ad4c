-- ===== src/Zepoll/Session.antt =====
-- From a line that the user types on the client to the task on the server.
use ifellsofuckinggood.Prelude.{
  ℕ, ◌≡◌, ◌<◌, refl, sym, ap, ◌∙◌, subst, ℤ, pos, minus_one, Bytes, true, false, none, some, List,
  [], ◌∷◌, ◌++◌, lt→leb, overwrite, overwrite_all, length, length-append, length-replicate,
  replicate, returned, arith,
}
use ifellsofuckinggood.MyEnum.{MsgType, msg_code, msg_reg, msg_login}
use ifellsofuckinggood.TransObj.{
  TransObj, IsSized, max_trans_msg_len, name_max_len, password_max_len, new_default, new_full,
  get_name, get_passwd, obj_bytes, trans_buff2_obj,
}
use ifellsofuckinggood.TransObj.Wire.{InRange, length-obj_bytes}
use ifellsofuckinggood.Player.{Archive}
use ifellsofuckinggood.HandleMsg.{Task, login_task, reg_task, server_handle}
use ifellsofuckinggood.HandleMsg.Friends.{server_handle-served}
use ifellsofuckinggood.IoManger.{IoManger}
use ifellsofuckinggood.IoManger.Talk.{handle_talk}
use ifellsofuckinggood.Util.{InputHandler, handle_input_of_login, handle_input_of_regin}
use ifellsofuckinggood.Util.Words.{words, listed}
use ifellsofuckinggood.Util.Typed.{Free, Splits, IsTypeable, credentials_type, credentials-typed}
use ifellsofuckinggood.Client.{Frame, client_side, frame_of, send_buff, run, is_button, waits}
use ifellsofuckinggood.Client.Received.{
  IsSendable, without_len, send_buff_lem, trans_buff2_obj-zeros,
}
use ifellsofuckinggood.Zepoll.{
  Event, Echo, echo_handler, IoLoop, update, tasks_of, on_obj, on_recv, echo_handle, call_handler,
  dispatch,
}
use ifellsofuckinggood.Zepoll.Serving.{buffer_size}

-- Bytes that arrive on a connection.
abbrev pub arrives : ℕ → Bytes → Event
arrives fd bytes = record {
  fd = fd;
  hup = false;
  err = false;
  readable = true;
  writable = false;
  received = some bytes;
  accepted = none;
}

module _ (junk : ℕ) (junk_buffer : Bytes) where
  -- A frame of the client that arrives in one piece on a connection makes the task of its object, but
  -- for the object's `len`, and of the connection; what other connections have is unchanged.
  pub dispatch-frame :
      (o : TransObj) (client : ℤ) (fd : ℕ) (h : Echo) (l : IoLoop)
      → IsSendable o
      → l.handlers fd ≡ some (echo_handler h)
      → length h.buffer ≡ buffer_size
      → let frame = (frame_of client_side client o).bytes in
        dispatch junk junk_buffer (arrives fd frame) l
        ≡ returned (record l {
          handlers =
              update fd
                (some (echo_handler (record { received = buffer_size; buffer = frame })))
                l.handlers;
          tasks = l.tasks ++ tasks_of (server_handle (some (without_len o)) (pos fd));
        })
  unfolding dispatch call_handler echo_handle on_recv on_obj frame_of
  dispatch-frame o client fd h l ok at size =
      let e = send_buff_lem o ok.sized in
      let n : length (send_buff o) ≡ 512 =
        ap length e
        ∙ omega (
          arith,
          length-append (obj_bytes o) (replicate 428 0),
          length-obj_bytes o ok.sized,
          length-replicate {A = ℕ} 428 0,
        ) in
      let whole : overwrite (send_buff o) h.buffer ≡ send_buff o =
        overwrite_all (send_buff o) h.buffer (n ∙ sym size) in
      let read : trans_buff2_obj (some (send_buff o)) new_default ≡ some (true, without_len o) =
        ap (λ b. trans_buff2_obj (some b) new_default) e ∙ trans_buff2_obj-zeros o [] 427 ok in
      simp (at, whole, n, read)

-- What a login or a registration is on the server.
abbrev pub credentials_task : InputHandler → TransObj → ℤ → Task
credentials_task handle_input_of_regin o fd = reg_task o fd
credentials_task _ o fd = login_task o fd

-- The message of a login or a registration, but for its text.
abbrev credentials_header : TransObj → MsgType → TransObj
credentials_header junk t =
    new_full junk minus_one minus_one (msg_code t) max_trans_msg_len minus_one

credentials-InRange :
    (junk : TransObj) (t : MsgType) (msg : Bytes)
    → msg_code t < 4294967296
    → InRange (record (credentials_header junk t) { msg = msg })
unfolding new_full
credentials-InRange junk t msg b = record {
  msg_type = b;
  id = omega arith;
  recver_id = omega arith;
  fd = omega arith;
}

credentials-task :
    (h : InputHandler) (t : MsgType) (o : TransObj) (fd : ℤ)
    → credentials_type h ≡ some t
    → o.msg_type ≡ msg_code t
    → (is_button o ≡ false)
      × (msg_code t < 4294967296)
      × (server_handle (some (without_len o)) fd ≡ some (credentials_task h (without_len o) fd))
credentials-task handle_input_of_login t o fd e m =
    let q : msg_login ≡ t = ground arith in
    let n : o.msg_type ≡ 6 = m ∙ ap msg_code (sym q) in
    (
      rw n refl,
      subst (λ u. msg_code u < 4294967296) q (omega arith),
      server_handle-served (without_len o) fd msg_login n,
    )
credentials-task handle_input_of_regin t o fd e m =
    let q : msg_reg ≡ t = ground arith in
    let n : o.msg_type ≡ msg_code msg_reg = m ∙ ap msg_code (sym q) in
    (
      rw n refl,
      subst (λ u. msg_code u < 4294967296) q (omega arith),
      server_handle-served (without_len o) fd msg_reg n,
    )
credentials-task _ t o fd e m = cc

without_len-IsSendable : (o : TransObj) → IsSendable o → IsSendable (without_len o)
without_len-IsSendable o ok = record {
  sized = ok.sized;
  in_range = record {
    msg_type = ok.in_range.msg_type;
    id = ok.in_range.id;
    recver_id = ok.in_range.recver_id;
    fd = ok.in_range.fd;
  };
}

module _ {F : Type 0} (arc : Archive F) (split : Bytes → Bytes → List Bytes)
    (splits : Splits split) where
  -- A login or a registration that is typed in any spelling of its word, on a line below 64 bytes, with a
  -- name and a password that can be typed, while nothing else waits to be sent: the client's loop sends
  -- one frame; and the server's loop, where that frame arrives in one piece on a connection, makes of it
  -- one login or registration task of the connection, in which the name and the password are those typed.
  -- The message of the task has no length, and its fields are in the range of what travels.
  pub credentials-served :
      (junk : TransObj) (stale : ℕ) (junk_buffer : Bytes) (h : InputHandler) (t : MsgType)
      (word name passwd : Bytes) (s : IoManger F) (client : ℤ) (fd : ℕ) (echo : Echo) (l : IoLoop)
      → IsSized junk
      → credentials_type h ≡ some t
      → listed word (words h) ≡ true
      → Free b'@' word
      → IsTypeable name_max_len name
      → IsTypeable password_max_len passwd
      → length (word ++ b'@' ∷ (name ++ b'|' ∷ passwd)) < max_trans_msg_len
      → s.buff ≡ []
      → l.handlers fd ≡ some (echo_handler echo)
      → length echo.buffer ≡ buffer_size
      → (o : TransObj) × (frame : Frame) × (s' : IoManger F) × (l' : IoLoop) × (handle_talk arc
            split junk
            (word ++ b'@' ∷ (name ++ b'|' ∷ passwd))
            s
          ≡ returned s')
        × (run client_side client s'.buff ≡ (frame ∷ [], waits, []))
        × (dispatch stale junk_buffer (arrives fd frame.bytes) l ≡ returned l')
        × (l'.tasks ≡ l.tasks ++ credentials_task h o (pos fd) ∷ [])
        × (get_name o ≡ some name)
        × (get_passwd o ≡ some passwd)
        × IsSendable o
        × (o.len ≡ 0)
  unfolding handle_talk run get_name get_passwd new_full
  credentials-served junk stale junk_buffer h t word name passwd s client fd echo l sized e at f n p
        short empty on size =
      let r =
        credentials-typed arc split splits junk h t word name passwd s.client e at f n p sized in
      let o = r.0 in
      let type_of : o.msg_type ≡ msg_code t = ap (λ (x : TransObj). x.msg_type) (sym r.5) in
      let k = credentials-task h t o (pos fd) e type_of in
      let ok : IsSendable o = record {
        sized = r.4;
        in_range = subst InRange r.5 (credentials-InRange junk t o.msg k.1);
      } in
      (
        without_len o,
        frame_of client_side client o,
        record s { client = s.client; talking = false; buff = s.buff ++ o ∷ [] },
        record l {
          handlers =
              update fd
                (some (
                  echo_handler (record {
                    received = buffer_size;
                    buffer = (frame_of client_side client o).bytes;
                  })))
                l.handlers;
          tasks = l.tasks ++ tasks_of (server_handle (some (without_len o)) (pos fd));
        },
        rw (lt→leb (length (word ++ b'@' ∷ (name ++ b'|' ∷ passwd))) 64 short, r.1) refl,
        rw (empty, k.0) refl,
        dispatch-frame stale junk_buffer o client fd echo l ok on size,
        ap (λ x. l.tasks ++ tasks_of x) k.2,
        r.2,
        r.3,
        without_len-IsSendable o ok,
        refl,
      )
