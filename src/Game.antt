-- ===== src/Game.antt =====
-- smer/Game/src/Game.cpp and smer/Actor/src/Actor.cpp, with the client's loop body of
-- smer/SmerSystem/inc/SysManger.h: one update of the game, and when the loop makes one. `moves` is what
-- the actor and the keys print.
pub mod Pressed
pub mod Run
pub mod Paced
mod Tests
use ifellsofuckinggood.Prelude.{
  ℕ, ◌-◌, ◌+◌, ◌≡◌, Bytes, codes, Bool, true, false, Option, none, some, List, [], ◌∷◌, ◌++◌, ltb,
  ◌==◌, if◌then◌else◌, Outcome, returned, thrown, undefined,
}
use ifellsofuckinggood.MyEnum.{
  cmd_code, cmd_move_up, cmd_move_down, cmd_move_left, cmd_move_right, cmd_enter,
}
use ifellsofuckinggood.TransObj.{TransObj}
use ifellsofuckinggood.Player.{Archive}
use ifellsofuckinggood.HandleMsg.Client.{Client}
use ifellsofuckinggood.SysManger.{handle_sys_msg, handle_recv_msg}
use ifellsofuckinggood.IoManger.{IoManger, do_command}
use ifellsofuckinggood.ReadKey.{ReadKey, Command, scan_key_board, get_cmd, get_sys_cmd}

-- The terminal, whose queue of messages to send is also that of the keys.
pub record Game (F : Type 0) : Type 0 where
  pub io : IoManger F
  pub cmd_que : List Command
  pub sys_cmd_que : List Command
  pub moves : List Bytes

module _ {F : Type 0} where
  abbrev pub keys_of : Game F → ReadKey
  keys_of s = record {
    cmd_que = s.cmd_que;
    sys_cmd_que = s.sys_cmd_que;
    buff = s.io.buff;
    printed = s.moves;
  }

  abbrev pub with_keys : ReadKey → Game F → Game F
  with_keys r s = record s {
    io = record s.io { buff = r.buff };
    cmd_que = r.cmd_que;
    sys_cmd_que = r.sys_cmd_que;
    moves = r.printed;
  }

  -- Actor::doCommand
  unfoldable pub actor_do_command : ℕ → Game F → Game F
  actor_do_command type s =
      if type == cmd_code cmd_move_up
      then record s { moves = s.moves ++ codes "i am now moving up!!" ∷ [] }
      else if type == cmd_code cmd_move_down
      then record s { moves = s.moves ++ codes "i am now moving down!!" ∷ [] }
      else if type == cmd_code cmd_move_left
      then record s { moves = s.moves ++ codes "i am now moving left!!" ∷ [] }
      else if type == cmd_code cmd_move_right
      then record s { moves = s.moves ++ codes "i am now moving right!!" ∷ [] }
      else s

  acted : Option Command × ReadKey → Game F → Game F
  unfolding actor_do_command
  acted (none, r) s = s
  acted (some c, r) s = actor_do_command c.type (with_keys r s)

  -- Actor::action
  unfoldable pub action : Game F → Game F
  unfolding acted
  action s = acted (get_cmd (keys_of s)) s

  sys_done : Option Command × ReadKey → Game F → Game F
  sys_done (none, r) s = s
  sys_done (some c, r) s =
      let s' = with_keys r s in
      if c.type == cmd_code cmd_enter then record s' { io = do_command c.type s'.io } else s'

  unfoldable pub handle_sys_input : Game F → Game F
  unfolding sys_done
  handle_sys_input s = sys_done (get_sys_cmd (keys_of s)) s

module _ {F : Type 0} (arc : Archive F) where
  recv_then : Game F → Outcome (Client F) → Outcome (Game F)
  unfolding handle_sys_input
  recv_then s (returned c) =
      returned (handle_sys_input (record s { io = record s.io { client = c } }))
  recv_then s thrown = thrown
  recv_then s undefined = undefined

  sys_msg_then : Game F → Outcome (Client F) → Outcome (Game F)
  unfolding recv_then
  sys_msg_then s (returned c) = recv_then s (handle_recv_msg arc c)
  sys_msg_then s thrown = thrown
  sys_msg_then s undefined = undefined

  unfoldable pub handle_system : Game F → Outcome (Game F)
  unfolding sys_msg_then
  handle_system s = sys_msg_then s (handle_sys_msg s.io.client)

  module _ (image : ℕ → Bytes) (junk : TransObj) (junk_key : ℕ) where
    scan_then : Option ℕ → Outcome (Game F) → Outcome (Game F)
    unfolding action
    scan_then key (returned s) =
        let scanned = scan_key_board image junk s.io.talking junk_key key (keys_of s) in
        returned (action (with_keys scanned.1 s))
    scan_then key thrown = thrown
    scan_then key undefined = undefined

    -- Game::update
    unfoldable pub update : Option ℕ → Game F → Outcome (Game F)
    unfolding scan_then handle_system
    update key s = scan_then key (handle_system s)

-- The times, in milliseconds, at which Game::updateWordPerSec makes an update, among those that it reads.
-- Nothing ends the loop.
unfoldable pub update_word_per_sec : ℕ → List ℕ → List ℕ
update_word_per_sec last_time [] = []
update_word_per_sec last_time (current_time ∷ rest) =
    let made = update_word_per_sec current_time rest in
    let waits = update_word_per_sec last_time rest in
    if ltb (16 + last_time) current_time then current_time ∷ made else waits
