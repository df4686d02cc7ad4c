-- ===== src/Session/Registration.antt =====
-- All the way of a registration.
use ifellsofuckinggood.Prelude.{
  ℕ, ◌≡◌, ◌<◌, refl, sym, ap, ◌∙◌, subst, ℤ, pos, IsInt32, Bytes, codes, str, int, true, some, List,
  [], ◌∷◌, ◌++◌, replicate, length, returned, arith,
}
use ifellsofuckinggood.MyEnum.{msg_code, msg_reg, msg_reg_accept}
use ifellsofuckinggood.TransObj.{
  TransObj, IsSized, max_trans_msg_len, name_max_len, password_max_len, set_msg, set_msg_type,
  set_id, set_fd,
}
use ifellsofuckinggood.TransObj.Text.{set_msg-IsSized}
use ifellsofuckinggood.ConcQueue.{try_and_pop}
use ifellsofuckinggood.Player.{Archive}
use ifellsofuckinggood.HandleMsg.{reg_task}
use ifellsofuckinggood.HandleMsg.Server.{
  Row, Services, Server, run_task, reg_query, reg_insert, max_id_query,
}
use ifellsofuckinggood.HandleMsg.Client.{Client, client_handle, put_output}
use ifellsofuckinggood.HandleMsg.Ends.{set_msg-keeps}
use ifellsofuckinggood.HandleMsg.Register.{reg-accepted}
use ifellsofuckinggood.SysManger.{handle_recv_msg}
use ifellsofuckinggood.IoManger.{IoManger}
use ifellsofuckinggood.IoManger.Talk.{handle_talk}
use ifellsofuckinggood.Util.{handle_input_of_regin}
use ifellsofuckinggood.Util.Words.{words, listed}
use ifellsofuckinggood.Util.Typed.{Free, Splits, IsTypeable}
use ifellsofuckinggood.Client.{Frame, server_side, client_side, run, waits, recv_msg}
use ifellsofuckinggood.Client.Received.{IsSendable, without_len}
use ifellsofuckinggood.Zepoll.{Echo, echo_handler, IoLoop, dispatch}
use ifellsofuckinggood.Zepoll.Serving.{buffer_size}
use ifellsofuckinggood.Zepoll.Session.{arrives, credentials-served}
use ifellsofuckinggood.Session.Hops.{message_received}

abbrev accepted_text : Bytes
accepted_text = codes "regin accepted! \n"

-- The acceptance, before its text is set.
abbrev accepted_header : ℤ → ℤ → TransObj → TransObj
accepted_header id fd o = set_msg_type (msg_code msg_reg_accept) (set_id id (set_fd fd o))

accepted-IsSendable :
    (id fd : ℤ) (o : TransObj)
    → IsInt32 id
    → IsInt32 fd
    → IsSendable o
    → IsSendable (set_msg accepted_text (accepted_header id fd o)).1
accepted-IsSendable id fd o i f ok =
    let k = set_msg-keeps accepted_text (accepted_header id fd o) in
    record {
      sized = set_msg-IsSized accepted_text (accepted_header id fd o) ok.sized;
      in_range = record {
        msg_type = rw k.0 (omega arith);
        id = subst IsInt32 (sym k.2) i;
        recver_id = subst IsInt32 (sym k.3) ok.in_range.recver_id;
        fd = subst IsInt32 (sym k.1) f;
      };
    }

accepted-gets_id :
    {F : Type 0} (arc : Archive F) (o : TransObj) (c : Client F)
    → o.msg_type ≡ msg_code msg_reg_accept
    → (c' : Client F) × (handle_recv_msg arc (record c { rcv_buff = o ∷ [] }) ≡ returned c')
      × (c'.player ≡ record c.player { data' = record c.player.data' { id = o.id } })
unfolding handle_recv_msg try_and_pop client_handle put_output
accepted-gets_id arc o c t = (
  put_output arc (codes "Regin success!\n") (record c {
    rcv_buff = [];
    player = record c.player { data' = record c.player.data' { id = o.id } };
  }),
  rw t refl,
  refl,
)

module _ {F W : Type 0} (arc : Archive F) (split : Bytes → Bytes → List Bytes)
    (splits : Splits split) (svc : Services W) where
  -- A registration that is typed in any spelling of its word, on a line below 64 bytes, with a name that
  -- can be typed and that the database does not have, and a password that can be typed, where the insert
  -- of the two with the descriptor changes a row, the connection has its handler, the identity and the
  -- descriptor are in the range of an int, nothing else waits on the way, and each frame arrives in one
  -- piece: the task answers with one message to the connection that the frame came from, and the client
  -- that takes it from its queue has from then on the identity that the database gave, and all else of the
  -- player as it was: it is not logged in by that.
  pub registration_round_trip :
      (junk : TransObj) (stale : ℕ) (junk_buffer : Bytes) (word name passwd : Bytes)
      (s : IoManger F) (client own : ℤ) (fd : ℕ) (echo : Echo) (l : IoLoop) (srv : Server W)
      {row : Row} {rest : List Row} {id : ℤ} {w w1 w2 : W}
      → IsSized junk
      → listed word (words handle_input_of_regin) ≡ true
      → Free b'@' word
      → IsTypeable name_max_len name
      → IsTypeable password_max_len passwd
      → length (word ++ b'@' ∷ (name ++ b'|' ∷ passwd)) < max_trans_msg_len
      → s.buff ≡ []
      → l.handlers fd ≡ some (echo_handler echo)
      → length echo.buffer ≡ buffer_size
      → IsInt32 (pos fd)
      → srv.buff ≡ []
      → svc.exec_query reg_query (str name ∷ []) srv.world ≡ (returned (some []), w)
      → svc.exec_insert reg_insert (str name ∷ int (pos fd) ∷ str passwd ∷ []) w
        ≡ (returned true, w1)
      → svc.exec_query max_id_query [] w1 ≡ (returned (some (row ∷ rest)), w2)
      → row.get_int (codes "id") ≡ returned id
      → IsInt32 id
      → (o : TransObj) × (frame answer : Frame) × (s' : IoManger F) × (l' : IoLoop) × (srv' : Server
          W)
        × (got : TransObj) × (c' : Client F) × (handle_talk arc split junk
              (word ++ b'@' ∷ (name ++ b'|' ∷ passwd))
              s
            ≡ returned s')
        × (run client_side client s'.buff ≡ (frame ∷ [], waits, []))
        × (dispatch stale junk_buffer (arrives fd frame.bytes) l ≡ returned l')
        × (l'.tasks ≡ l.tasks ++ reg_task o (pos fd) ∷ [])
        × (run_task svc (reg_task o (pos fd)) srv ≡ (returned (pos 1), srv'))
        × (run server_side own srv'.buff ≡ (answer ∷ [], waits, []))
        × (answer.fd ≡ pos fd)
        × (recv_msg (answer.bytes ∷ []) (replicate 512 0) ≡ returned (got ∷ []))
        × (handle_recv_msg arc (record s'.client { rcv_buff = got ∷ [] }) ≡ returned c')
        × (c'.player
            ≡ record s'.client.player { data' = record s'.client.player.data' { id = id } })
  registration_round_trip junk stale junk_buffer word name passwd s client own fd echo l srv {row}
        {rest} {id} {w} {w1} {w2} sized at f n p short empty on size range idle free inserted found
        has_id id_range =
      let r =
        credentials-served arc split splits junk stale junk_buffer handle_input_of_regin msg_reg
          word name passwd s client fd echo l sized refl at f n p short empty on size in
      let o = r.0 in
      let k = set_msg-keeps accepted_text (accepted_header id (pos fd) o) in
      let a = (set_msg accepted_text (accepted_header id (pos fd) o)).1 in
      let down =
        message_received own a (rw k.0 refl)
          (accepted-IsSendable id (pos fd) o id_range range r.10) in
      let c = accepted-gets_id arc (without_len a) r.2.client k.0 in
      (
        o,
        r.1,
        down.0,
        r.2,
        r.3,
        record { world = w2; buff = srv.buff ++ a ∷ [] },
        without_len a,
        c.0,
        r.4,
        r.5,
        r.6,
        r.7,
        reg-accepted svc o (pos fd) srv r.8 free r.9 inserted found has_id,
        rw idle down.1,
        down.2 ∙ k.1,
        down.3,
        c.1,
        c.2
            ∙ ap
                (λ i. record r.2.client.player {
                  data' = record r.2.client.player.data' { id = i };
                })
                k.2,
      )
