-- ===== src/Client/Tests.antt =====
-- The two loops at concrete inputs.
use ifellsofuckinggood.Prelude.{
  ◌≡◌, refl, pos, codes, replicate, List, [], ◌∷◌, ◌++◌, map, returned, arith,
}
use ifellsofuckinggood.MyEnum.{msg_code, msg_button}
use ifellsofuckinggood.TransObj.{TransObj, header_bytes, obj_bytes}
use ifellsofuckinggood.ConcQueue.{
  Call, pushes, pops, Run, done, next, push_step, pop_step, wait_step, push, pop,
  wait_push_till_empty,
}
use ifellsofuckinggood.ConcQueue.Fifo.{puts, takes}
use ifellsofuckinggood.Client.{Frame, server_side, client_side, frame_of, closed, run, recv_msg}
use ifellsofuckinggood.Client.Loop.{run_ends, shutdown_sends_all}
use ifellsofuckinggood.Client.Received.{IsSendable, without_len, recv_msg-run, recv_msg-coalesced}

abbrev talk : TransObj
talk = record {
  msg_type = 1;
  len = 3;
  id = pos 4;
  recver_id = pos 1;
  fd = pos 8;
  msg = codes "lys" ++ replicate 61 0;
}

abbrev button : TransObj
button = record talk { msg_type = msg_code msg_button }

talk-IsSendable : IsSendable talk
talk-IsSendable = record {
  sized = refl;
  in_range = record {
    msg_type = omega arith;
    id = omega arith;
    recver_id = omega arith;
    fd = omega arith;
  };
}

run_ends_example :
    run server_side (pos 3) (talk ∷ button ∷ talk ∷ [])
    ≡ (map (frame_of server_side (pos 3)) (talk ∷ []), closed, talk ∷ [])
run_ends_example = run_ends server_side (pos 3) (talk ∷ []) button (talk ∷ []) (refl, tt) refl

recv_msg-run_example :
    recv_msg
      (map (λ (f : Frame). f.bytes) (run server_side (pos 3) (talk ∷ [])).0)
      (replicate 512 0)
    ≡ returned (map without_len (talk ∷ []))
recv_msg-run_example = recv_msg-run (pos 3) (talk ∷ []) (refl, tt) (talk-IsSendable, tt)

-- The second message of the chunk is lost.
recv_msg-coalesced_example :
    recv_msg ((obj_bytes talk ++ obj_bytes talk) ∷ []) (replicate 512 0)
    ≡ returned (without_len talk ∷ [])
unfolding obj_bytes header_bytes
recv_msg-coalesced_example = recv_msg-coalesced talk (obj_bytes talk) talk-IsSendable (omega arith)

abbrev history : List (Call TransObj)
history = pushes talk ∷ pops talk ∷ []

life : Run [] history []
unfolding push pop
life = next (push_step talk []) (next (pop_step {v = talk} refl) done)

shutdown_sends_all_example :
    run client_side (pos 3) (takes history ++ button ∷ [])
    ≡ (map (frame_of client_side (pos 3)) (puts history), closed, [])
unfolding wait_push_till_empty
shutdown_sends_all_example =
    shutdown_sends_all client_side (pos 3) {s = button ∷ []} life (wait_step {v = button} refl)
      (refl, tt) refl
