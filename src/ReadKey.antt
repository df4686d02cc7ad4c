-- ===== src/ReadKey.antt =====
-- smer/Input/src/ReadKey.cpp with smer/Command: keys of the client's terminal that become commands. What
-- `read` gives within half a second is an argument; a key that is not read leaves the character without a
-- value, `junk_key`. The scan of this file finds the terminal opened; Terminal adds the opening. A
-- character of 128 or more stands for a negative `char`; neither is in the table.
pub mod Terminal
mod Tests
use ifellsofuckinggood.Prelude.{
  ℕ, pos, Bytes, codes, to_string, Bool, ◌&&◌, Option, none, some, List, [], ◌∷◌, ◌++◌, leb, ◌==◌,
  if◌then◌else◌,
}
use ifellsofuckinggood.MyEnum.{
  cmd_code, cmd_move_up, cmd_move_down, cmd_move_left, cmd_move_right, cmd_attack, cmd_jump,
  cmd_enter, cmd_backpack, cmd_map, cmd_system, cmd_button, msg_code, msg_cmd,
}
use ifellsofuckinggood.Prelude.{write_at}
use ifellsofuckinggood.TransObj.{TransObj, new_typed}

pub record Command : Type 0 where
  pub type : ℕ

-- The map of the constructor.
abbrev pub keys : List (ℕ × ℕ)
keys =
    (119, cmd_code cmd_move_up)
    ∷ (97, cmd_code cmd_move_left)
    ∷ (115, cmd_code cmd_move_down)
    ∷ (100, cmd_code cmd_move_right)
    ∷ (10, cmd_code cmd_enter)
    ∷ (98, cmd_code cmd_backpack)
    ∷ (109, cmd_code cmd_map)
    ∷ (27, cmd_code cmd_system)
    ∷ (106, cmd_code cmd_attack)
    ∷ (32, cmd_code cmd_jump)
    ∷ []

unfoldable pub find_key : ℕ → List (ℕ × ℕ) → Option ℕ
find_key k [] = none
find_key k ((key, c) ∷ rest) = let later = find_key k rest in if k == key then some c else later

abbrev pub is_system_cmd : ℕ → Bool
is_system_cmd t = leb (cmd_code cmd_enter) t && leb t (cmd_code cmd_system)

abbrev pub is_actor_cmd : ℕ → Bool
is_actor_cmd t = leb (cmd_code cmd_move_up) t && leb t (cmd_code cmd_jump)

-- With the queue of messages to send, and the lines printed.
pub record ReadKey : Type 0 where
  pub cmd_que : List Command
  pub sys_cmd_que : List Command
  pub buff : List TransObj
  pub printed : List Bytes

abbrev pub size_of_command : ℕ
size_of_command = 16

-- `image` is a Command in memory, with the pointer to its virtual functions.
module _ (image : ℕ → Bytes) (junk : TransObj) where
  unfoldable pub cmd_obj : ℕ → TransObj
  cmd_obj type =
      let obj = new_typed junk (msg_code msg_cmd) size_of_command in
      record obj { msg = write_at 0 (image type) obj.msg }

  -- Command::getSeqData
  abbrev pub get_seq_data : Command → TransObj
  get_seq_data c = cmd_obj c.type

  queued : ℕ → ReadKey → ReadKey
  unfolding cmd_obj
  queued type s =
      if is_actor_cmd type
      then record s {
        buff = s.buff ++ cmd_obj type ∷ [];
        cmd_que = s.cmd_que ++ record { type = type } ∷ [];
      }
      else if is_system_cmd type
      then record s {
        printed = s.printed ++ (codes "get system" ++ to_string (pos type)) ∷ [];
        sys_cmd_que = s.sys_cmd_que ++ record { type = type } ∷ [];
      }
      else s

  on_key : Option ℕ → ReadKey → ℕ × ReadKey
  unfolding queued
  on_key none s = (cmd_code cmd_button, s)
  on_key (some type) s = (type, queued type s)

  key_read : ℕ → Option ℕ → ℕ
  key_read junk_key none = junk_key
  key_read junk_key (some k) = k

  unfoldable pub scan_key_board : Bool → ℕ → Option ℕ → ReadKey → ℕ × ReadKey
  unfolding on_key key_read find_key
  scan_key_board talking junk_key key s =
      let scanned = on_key (find_key (key_read junk_key key) keys) s in
      if talking then (cmd_code cmd_button, s) else scanned

popped : List Command → Option Command × List Command
popped [] = (none, [])
popped (c ∷ cs) = (some c, cs)

unfoldable pub get_cmd : ReadKey → Option Command × ReadKey
unfolding popped
get_cmd s = let (c, rest) = popped s.cmd_que in (c, record s { cmd_que = rest })

unfoldable pub get_sys_cmd : ReadKey → Option Command × ReadKey
unfolding popped
get_sys_cmd s = let (c, rest) = popped s.sys_cmd_que in (c, record s { sys_cmd_que = rest })

-- Command::doCommand, on any CommandDoer.
abbrev pub do_command {ℓ} : {S : Type ℓ} → (ℕ → S → S) → Command → S → S
do_command doer c s = doer c.type s
