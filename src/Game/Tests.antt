-- ===== src/Game/Tests.antt =====
-- Keys that are pressed, and the pace of the updates, at concrete inputs.
use ifellsofuckinggood.Prelude.{
  ℕ, pos, Bytes, codes, replicate, true, false, none, [], ◌∷◌, ◌++◌, returned,
}
use ifellsofuckinggood.Player.{Saved, Archive}
use ifellsofuckinggood.Game.{Game}
use ifellsofuckinggood.Game.Run.{printed}

-- A file that holds the player itself.
abbrev arc : Archive Saved
arc = record { write = λ x. x; read = λ p x. returned x; file_size = λ x. 1 }

abbrev image : ℕ → Bytes
image type = replicate 8 1 ++ type ∷ replicate 7 0

abbrev game : Game Saved
game = record {
  io = record {
    client = record {
      player = record {
        logined = false;
        data' = record { id = pos 1; name = codes "zlh"; password = codes "123" };
        is_friends_changed = false;
        talker_name = [];
        friends = [];
      };
      disk = record { can_write = true; file = none };
      sys_buff = [];
      rcv_buff = [];
      req_buff = record { size = pos 0; elems = [] };
      output_msg = [];
    };
    buff = [];
    talking = false;
    printed = [];
  };
  cmd_que = [];
  sys_cmd_que = [];
  moves = [];
}
