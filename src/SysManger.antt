-- ===== src/SysManger.antt =====
-- smer/SmerSystem/inc/SysManger.h and smer/SmerSystem/src/SysManger.cpp: the client's loop body for
-- messages, and the list of friend requests.
pub mod Requests
mod Tests
use ifellsofuckinggood.Prelude.{
  ℕ, suc, ◌%◌, ◌≡◌, ◌<◌, ℤ, pos, ltℤ, not, ◌&&◌, ◌==◌, Bytes, codes, to_string, Bool, true, false,
  Option, none, some, List, [], ◌∷◌, ◌++◌, if◌then◌else◌, Outcome, returned, thrown, undefined,
}
use ifellsofuckinggood.MyEnum.{
  sys_msg_code, sys_output_msg, sys_show_friends_msg, sys_show_ask_for_friend_req,
}
use ifellsofuckinggood.TransObj.{TransObj, get_msg}
use ifellsofuckinggood.ConcQueue.{push, try_and_pop}
use ifellsofuckinggood.ConcList.{
  ConcList, push_back, push_front, pop_back, pop_front, erase, get_size, get_one_request,
  get_all_data,
}
use ifellsofuckinggood.Player.{Player, Friends, Archive}
use ifellsofuckinggood.HandleMsg.Client.{SystemMsgObj, Client, client_handle}

-- IOManger::putOutputMsg
abbrev pub put_output_msg : {F : Type 0} → Bytes → Client F → Client F
put_output_msg text c = record c { output_msg = push text c.output_msg }

-- The friends that are not null, numbered, with an end of line before every third number.
unfoldable pub friend_lines : ℕ → Friends → Bytes
friend_lines i [] = []
friend_lines i ((name, none) ∷ rest) = friend_lines i rest
friend_lines i ((name, some id) ∷ rest) =
    to_string (pos i)
    ++ (codes ": "
        ++ (name
            ++ (codes ". "
                ++ ((if suc i % 3 == 0 then codes "\n" else []) ++ friend_lines (suc i) rest))))

-- The number is not increased.
unfoldable pub request_lines : ℕ → List TransObj → Option Bytes
request_lines i [] = some []
request_lines i (o ∷ rest) = elim (get_msg o) [
  | none ↦ none
  | some msg ↦ elim (request_lines i rest) [
    | none ↦ none
    | some lines ↦ some (to_string (pos i) ++ (codes ": " ++ (msg ++ (codes " \n" ++ lines))))
  ]
]

-- The list is a parameter by value: the caller's stays as it was.
unfoldable pub get_all_requests : List TransObj → ConcList TransObj → List TransObj
get_all_requests reqs buff = let filled = get_all_data buff reqs in reqs

unfoldable pub contains_req_idx : ℤ → ConcList TransObj → Bool
contains_req_idx index buff = not (ltℤ index (pos 0)) && ltℤ index (get_size buff)

module _ {F : Type 0} where
  unfoldable pub show_friends : Client F → Client F
  show_friends c = put_output_msg (friend_lines 1 c.player.friends) c

  shown : Client F → Option Bytes → Outcome (Client F)
  shown c none = undefined
  shown c (some lines) =
      returned (put_output_msg (codes "All requests list down here: \n" ++ lines) c)

  unfoldable pub show_ask_for_friend_req : Client F → Outcome (Client F)
  unfolding shown
  show_ask_for_friend_req c = shown c (request_lines 0 (get_all_requests [] c.req_buff))

  show_output : Option Bytes → Client F → Client F
  show_output none c = c
  show_output (some text) c = put_output_msg text c

  -- The entries of the table, of which at most one has the type.
  on_sys_msg : SystemMsgObj → Client F → Outcome (Client F)
  unfolding show_output show_friends show_ask_for_friend_req
  on_sys_msg m c =
      let requests = show_ask_for_friend_req c in
      if m.msg_type == sys_msg_code sys_output_msg
      then returned (show_output m.sys_msg c)
      else if m.msg_type == sys_msg_code sys_show_friends_msg
      then returned (show_friends c)
      else if m.msg_type == sys_msg_code sys_show_ask_for_friend_req
      then requests
      else returned c

  next_sys_msg : Client F → Option SystemMsgObj × List SystemMsgObj → Outcome (Client F)
  unfolding on_sys_msg
  next_sys_msg c (none, rest) = returned c
  next_sys_msg c (some m, rest) = on_sys_msg m (record c { sys_buff = rest })

  -- SeqToBin::tryGetSysMsg, with the messages that are left.
  abbrev pub try_get_sys_msg : Client F → Option SystemMsgObj × List SystemMsgObj
  try_get_sys_msg c = try_and_pop c.sys_buff

  unfoldable pub handle_sys_msg : Client F → Outcome (Client F)
  unfolding next_sys_msg
  handle_sys_msg c = next_sys_msg c (try_get_sys_msg c)

  next_rcv : Archive F → Client F → Option TransObj × List TransObj → Outcome (Client F)
  next_rcv arc c (none, rest) = returned c
  next_rcv arc c (some obj, rest) = client_handle arc obj (record c { rcv_buff = rest })

  unfoldable pub handle_recv_msg : Archive F → Client F → Outcome (Client F)
  unfolding next_rcv
  handle_recv_msg arc c = next_rcv arc c (try_and_pop c.rcv_buff)

  abbrev pub push_back_req : TransObj → Client F → Client F
  push_back_req req c = record c { req_buff = push_back req c.req_buff }

  abbrev pub push_front_req : TransObj → Client F → Client F
  push_front_req req c = record c { req_buff = push_front req c.req_buff }

  popped_req : Client F → Option (TransObj × ConcList TransObj) → Option (TransObj × Client F)
  popped_req c none = none
  popped_req c (some (req, buff)) = some (req, record c { req_buff = buff })

  -- `none` is a call that goes on waiting.
  unfoldable pub pop_back_req : Client F → Option (TransObj × Client F)
  unfolding popped_req
  pop_back_req c = popped_req c (pop_back c.req_buff)

  unfoldable pub pop_front_req : Client F → Option (TransObj × Client F)
  unfolding popped_req
  pop_front_req c = popped_req c (pop_front c.req_buff)

  erased_req : Client F → Option (Bool × ConcList TransObj) → Option (Bool × Client F)
  erased_req c none = none
  erased_req c (some (ok, buff)) = some (ok, record c { req_buff = buff })

  -- `none` is undefined behaviour.
  unfoldable pub erase_one_req : ℤ → Client F → Option (Bool × Client F)
  unfolding erased_req
  erase_one_req index c = erased_req c (erase index c.req_buff)
