-- ===== src/SysManger/Tests.antt =====
-- Runs of the client's loop body, and the theorems at concrete inputs.
use ifellsofuckinggood.Prelude.{
  ◌≡◌, refl, pos, codes, to_string, digits, replicate, true, false, none, some, [], ◌∷◌, ◌++◌,
  returned,
}
use ifellsofuckinggood.MyEnum.{sys_msg_code, sys_show_ask_for_friend_req}
use ifellsofuckinggood.TransObj.{TransObj}
use ifellsofuckinggood.Player.{Saved, Archive}
use ifellsofuckinggood.HandleMsg.Client.{Client}
use ifellsofuckinggood.SysManger.{handle_sys_msg, put_output_msg, friend_lines}
use ifellsofuckinggood.SysManger.Requests.{show_requests-blind}

-- A file that holds the player itself.
abbrev arc : Archive Saved
arc = record { write = λ x. x; read = λ p x. returned x; file_size = λ x. 1 }

abbrev request : TransObj
request = record {
  msg_type = 10;
  len = 0;
  id = pos 4;
  recver_id = pos 1;
  fd = pos 8;
  msg = codes "lys" ++ replicate 61 0;
}

abbrev client : Client Saved
client = record {
  player = record {
    logined = true;
    data' = record { id = pos 1; name = codes "zlh"; password = codes "123" };
    is_friends_changed = false;
    talker_name = [];
    friends = (codes "cpt", some (pos 2)) ∷ [];
  };
  disk = record { can_write = true; file = none };
  sys_buff = record { msg_type = sys_msg_code sys_show_ask_for_friend_req; sys_msg = none } ∷ [];
  rcv_buff = [];
  req_buff = record { size = pos 1; elems = request ∷ [] };
  output_msg = [];
}

-- One request is stored, and none is shown.
show_requests-blind_example :
    handle_sys_msg client
    ≡ returned
        (put_output_msg (codes "All requests list down here: \n") (record client { sys_buff = [] }))
show_requests-blind_example = show_requests-blind arc client refl

-- Three friends, with an end of line before the third number.
three_friends :
    friend_lines 1 ((codes "a", some (pos 1)) ∷ (codes "b", none) ∷ (codes "c", some (pos 3)) ∷ [])
    ≡ codes "1: a. 2: c. \n"
unfolding friend_lines to_string digits
three_friends = refl
