-- ===== src/Client/Received.antt =====
-- What the receiving loop makes of the frames of the sending loop.
use ifellsofuckinggood.Prelude.{
  ℕ, suc, ◌-◌, ◌≡◌, ◌<◌, refl, sym, ap, ◌∙◌, ℤ, Bytes, true, some, List, [], ◌∷◌, ◌++◌, map, All,
  append_assoc, arith, length, take, replicate, overwrite, c_string, c_string-ends,
  overwrite-append, overwrite_all, overwrite-drop, overwrite-replicate, length-append,
  length-replicate, drop-replicate, take-append, returned,
}
use ifellsofuckinggood.TransObj.{TransObj, IsSized, new_default, obj_bytes, trans_buff2_obj}
use ifellsofuckinggood.TransObj.Wire.{InRange, length-obj_bytes, trans_buff2_obj-obj_bytes}
use ifellsofuckinggood.Client.{Frame, send_buff, frame_of, server_side, recv_msg, run}
use ifellsofuckinggood.Client.Loop.{AllSendable, run_waits}

-- The length of a message is not read from the buffer.
abbrev pub without_len : TransObj → TransObj
without_len o = record o { len = 0 }

-- An object that can travel.
pub record IsSendable (o : TransObj) : Type 0 where
  pub sized : IsSized o
  pub in_range : InRange o

new_default-IsSized : IsSized new_default
unfolding new_default
new_default-IsSized = refl

-- The client's frame is the object with 428 zeros behind it.
pub send_buff_lem : (o : TransObj) → IsSized o → send_buff o ≡ obj_bytes o ++ replicate 428 0
unfolding send_buff
send_buff_lem o s =
    overwrite-drop (obj_bytes o) (replicate 512 0)
      (omega (arith, length-obj_bytes o s, length-replicate {A = ℕ} 512 0))
    ∙ ap (◌++◌ (obj_bytes o)) (
        drop-replicate (length (obj_bytes o)) 512 0
        ∙ ap (λ n. replicate (512 - n) 0) (length-obj_bytes o s))

-- The server's frame is the object.
pub server_frame :
    (client : ℤ) (o : TransObj) → IsSized o → (frame_of server_side client o).bytes ≡ obj_bytes o
unfolding frame_of
server_frame client o s =
    ap (take 84) (send_buff_lem o s)
    ∙ take-append 84 (obj_bytes o) (replicate 428 0) (length-obj_bytes o s)

-- A buffer that begins with an object and ends in zeros gives that object, but for its len.
pub trans_buff2_obj-zeros :
    (o : TransObj) (more : Bytes) (n : ℕ)
    → IsSendable o
    → trans_buff2_obj (some (obj_bytes o ++ (more ++ replicate (suc n) 0))) new_default
      ≡ some (true, without_len o)
unfolding new_default
trans_buff2_obj-zeros o more n h =
    let t = c_string-ends (o.msg ++ more) n in
    trans_buff2_obj-obj_bytes o new_default (more ++ replicate (suc n) 0) {text = t.0} h.sized
      new_default-IsSized h.in_range
      (ap c_string (sym (append_assoc o.msg more (replicate (suc n) 0))) ∙ t.1)

recv_msg-from :
    (os : List TransObj) (old : Bytes)
    → All IsSendable os
    → length old ≡ 84
    → recv_msg (map obj_bytes os) (old ++ replicate 428 0) ≡ returned (map without_len os)
unfolding recv_msg
recv_msg-from [] old h l = refl
recv_msg-from (o ∷ os) old h l =
    let n = length-obj_bytes o h.0.sized in
    let e : overwrite (obj_bytes o) (old ++ replicate 428 0) ≡ obj_bytes o ++ replicate 428 0 =
      overwrite-append (obj_bytes o) old (replicate 428 0) (omega arith)
      ∙ ap (λ x. x ++ replicate 428 0) (overwrite_all (obj_bytes o) old (omega arith)) in
    rw (e, trans_buff2_obj-zeros o [] 427 h.0, recv_msg-from os (obj_bytes o) h.1 n) refl

frames-obj_bytes :
    (client : ℤ) (os : List TransObj)
    → All IsSendable os
    → map (λ (f : Frame). f.bytes) (map (frame_of server_side client) os) ≡ map obj_bytes os
frames-obj_bytes client [] h = refl
frames-obj_bytes client (o ∷ os) h =
    rw (server_frame client o h.0.sized, frames-obj_bytes client os h.1) refl

-- The client receives the messages that the server's loop sends to it, all and in order, but for their
-- `len`, where each frame arrives as a chunk of its own.
pub recv_msg-run :
    (client : ℤ) (os : List TransObj)
    → AllSendable os
    → All IsSendable os
    → recv_msg (map (λ (f : Frame). f.bytes) (run server_side client os).0) (replicate 512 0)
      ≡ returned (map without_len os)
recv_msg-run client os a h =
    rw (run_waits server_side client os a, frames-obj_bytes client os h)
      (recv_msg-from os (replicate 84 0) h (length-replicate {A = ℕ} 84 0))

-- What follows a message in the same chunk is lost: of a chunk with a message and up to 427 further
-- bytes, such as the next messages, only the first is received.
pub recv_msg-coalesced :
    (o : TransObj) (more : Bytes)
    → IsSendable o
    → length more < 428
    → recv_msg ((obj_bytes o ++ more) ∷ []) (replicate 512 0) ≡ returned (without_len o ∷ [])
unfolding recv_msg
recv_msg-coalesced o more h l =
    let n = length-obj_bytes o h.sized in
    let k : 512 - length (obj_bytes o ++ more) ≡ suc (427 - length more) =
      omega (arith, length-append (obj_bytes o) more) in
    let e : overwrite (obj_bytes o ++ more) (replicate 512 0)
        ≡ obj_bytes o ++ (more ++ replicate (suc (427 - length more)) 0) =
      overwrite-replicate (obj_bytes o ++ more) 512
        (omega (arith, length-append (obj_bytes o) more))
      ∙ ap (λ j. (obj_bytes o ++ more) ++ replicate j 0) k
      ∙ append_assoc (obj_bytes o) more (replicate (suc (427 - length more)) 0) in
    rw (e, trans_buff2_obj-zeros o more (427 - length more) h) refl
