-- ===== src/Client.antt =====
-- smer/Client/src/Client.cpp and smer/Client/inc/Client.h: the loop that takes messages from the queue
-- and sends them, which both programs run, and the client's loop that receives. The sockets are not
-- part of the repository: what the loops hand to `send` is a list of frames, since the result of a
-- send is only logged, and what `recv` gives before it fails or the peer closes is a list of chunks.
pub mod Loop
pub mod Received
mod Tests
use ifellsofuckinggood.Prelude.{
  ℕ, ◌≡◌, ℤ, eqℤ, minus_one, Bytes, before_nul, Bool, true, false, Option, none, some, List, [],
  ◌∷◌, ◌==◌, take, replicate, overwrite, length, if◌then◌else◌, Outcome, returned, thrown,
  undefined,
}
use ifellsofuckinggood.MyEnum.{msg_code, msg_button}
use ifellsofuckinggood.TransObj.{
  TransObj, size_of_trans_obj, new_default, new_with_id, set_msg, obj_bytes, trans_buff2_obj,
}

-- Which program it is compiled for: SERVER_COMPARE or CLIENT_COMPARE.
pub data Side : Type 0 where
  server_side client_side : Side

pub record Frame : Type 0 where
  pub fd : ℤ
  pub bytes : Bytes

abbrev pub max_len_of_send_buff : ℕ
max_len_of_send_buff = 512

-- The buffer of the loop, cleared, with the object at its start.
unfoldable pub send_buff : TransObj → Bytes
send_buff o = overwrite (obj_bytes o) (replicate max_len_of_send_buff 0)

-- The server sends the object to the socket that the object names, the client the whole buffer to its
-- own.
unfoldable pub frame_of : Side → ℤ → TransObj → Frame
unfolding send_buff
frame_of server_side client o = record { fd = o.fd; bytes = take size_of_trans_obj (send_buff o) }
frame_of client_side client o = record { fd = client; bytes = send_buff o }

pub data RunEnd : Type 0 where
  waits closed : RunEnd

abbrev pub is_button : TransObj → Bool
is_button o = o.msg_type == msg_code msg_button

-- Client::run over the messages that the queue gives: what is sent, whether the loop has ended or
-- waits for another message, and the messages that it has not taken.
unfoldable pub run : Side → ℤ → List TransObj → List Frame × RunEnd × List TransObj
unfolding frame_of
run side client [] = ([], waits, [])
run side client (o ∷ rest) =
    let more = run side client rest in
    if is_button o then ([], closed, rest) else (frame_of side client o ∷ more.0, more.1, more.2)

pub parsed_then : Option (Bool × TransObj) → Outcome (List TransObj) → Outcome (List TransObj)
parsed_then none rest = undefined
parsed_then (some (true, o)) (returned os) = returned (o ∷ os)
parsed_then (some (false, o)) (returned os) = returned os
parsed_then (some r) thrown = thrown
parsed_then (some r) undefined = undefined

-- Client::recvMsg: a chunk goes over the start of the buffer, whose rest stays as it was. The result is
-- what has been put into the queue of received messages.
unfoldable pub recv_msg : List Bytes → Bytes → Outcome (List TransObj)
unfolding parsed_then
recv_msg [] buf = returned []
recv_msg (chunk ∷ rest) buf =
    let buf' = overwrite chunk buf in
    parsed_then (trans_buff2_obj (some buf') new_default) (recv_msg rest buf')

-- Client::sendMsgOnce: the frame; the buffer behind the object is not cleared.
unfoldable pub send_msg_once : TransObj → Bytes → ℤ → ℤ → ℕ → Bytes → Frame
send_msg_once junk junk_buf client id msg_type str = record {
  fd = client;
  bytes =
      overwrite (obj_bytes (set_msg (before_nul str) (new_with_id junk id msg_type (length str))).1)
        junk_buf;
}

-- Client::init over what socket and connect give.
unfoldable pub init : ℤ → Bool → Bool
init socket connects = if eqℤ socket minus_one then false else connects
