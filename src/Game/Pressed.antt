-- ===== src/Game/Pressed.antt =====
-- What a pressed key does.
use ifellsofuckinggood.Prelude.{
  ℕ, pos, to_string, ◌≡◌, ◌≢◌, refl, ap, subst, Bytes, codes, true, false, Option, none, some, [],
  ◌∷◌, ◌++◌, ◌==◌, Bool-cases, inl, inr, Outcome, returned, arith,
}
use ifellsofuckinggood.MyEnum.{
  CmdType, cmd_code, cmd_move_up, cmd_move_down, cmd_move_left, cmd_move_right, cmd_attack,
  cmd_jump, cmd_enter, cmd_backpack, cmd_map, cmd_system, cmd_button,
}
use ifellsofuckinggood.TransObj.{TransObj}
use ifellsofuckinggood.ConcQueue.{try_and_pop}
use ifellsofuckinggood.Player.{Archive}
use ifellsofuckinggood.SysManger.{handle_sys_msg, handle_recv_msg}
use ifellsofuckinggood.IoManger.{do_command}
use ifellsofuckinggood.ReadKey.{keys, find_key, cmd_obj, scan_key_board, get_cmd, get_sys_cmd}
use ifellsofuckinggood.Game.{
  Game, actor_do_command, action, handle_sys_input, handle_system, update,
}

-- The key of a command.
abbrev pub key_of : CmdType → Option ℕ
key_of cmd_move_up = some b'w'
key_of cmd_move_left = some b'a'
key_of cmd_move_down = some b's'
key_of cmd_move_right = some b'd'
key_of cmd_attack = some b'j'
key_of cmd_jump = some b' '
key_of cmd_enter = some 10
key_of cmd_backpack = some b'b'
key_of cmd_map = some b'm'
key_of cmd_system = some 27
key_of cmd_button = none

-- Where a command goes.
pub data Use : Type 0 where
  moves_actor : Bytes → Use
  sent_only for_system nothing : Use

abbrev pub use_of : CmdType → Use
use_of cmd_move_up = moves_actor (codes "i am now moving up!!")
use_of cmd_move_left = moves_actor (codes "i am now moving left!!")
use_of cmd_move_down = moves_actor (codes "i am now moving down!!")
use_of cmd_move_right = moves_actor (codes "i am now moving right!!")
use_of cmd_attack = sent_only
use_of cmd_jump = sent_only
use_of cmd_button = nothing
use_of _ = for_system

-- A client for which nothing waits.
abbrev pub idle : {F : Type 0} → Game F → Game F
idle s = record s {
  io = record s.io {
    client = record s.io.client { sys_buff = []; rcv_buff = [] };
    talking = false;
  };
  cmd_que = [];
  sys_cmd_que = [];
}

module _ {F : Type 0} (image : ℕ → Bytes) (junk : TransObj) where
  abbrev pub sent : ℕ → Game F → Game F
  sent type s = record s { io = record s.io { buff = s.io.buff ++ cmd_obj image junk type ∷ [] } }

  abbrev pub used : ℕ → Use → Game F → Game F
  used type (moves_actor text) s = record (sent type s) { moves = s.moves ++ text ∷ [] }
  used type sent_only s = sent type s
  used type for_system s = record s {
    moves = s.moves ++ (codes "get system" ++ to_string (pos type)) ∷ [];
    sys_cmd_que = s.sys_cmd_que ++ record { type = type } ∷ [];
  }
  used type nothing s = s

unlike : {key k : ℕ} → some key ≢ some k → (k == key) ≡ false
unlike {key} {k} h = elim (Bool-cases (k == key)) [
  | inl e ↦ let q : key ≡ k = ground arith in absurd (h (ap some q))
  | inr e ↦ e
]

module _ {F : Type 0} (arc : Archive F) (image : ℕ → Bytes) (junk : TransObj) (junk_key : ℕ) where
  same_key :
      (s : Game F) {k k' : ℕ} {r : Outcome (Game F)}
      → some k ≡ some k'
      → update arc image junk junk_key (some k) s ≡ r
      → update arc image junk junk_key (some k') s ≡ r
  same_key s {k} {k'} {r} e h =
      let q : k ≡ k' = ground arith in
      subst (λ x. update arc image junk junk_key (some x) s ≡ r) q h

  -- While nobody talks and nothing else waits, an update in which the key of a command is pressed sends
  -- the commands of the actor to the server and obeys the four movements in the same update, keeps those
  -- of the system, with a line on the terminal, for the next one, and does nothing else.
  pub update-pressed :
      (t : CmdType) (k : ℕ) (s : Game F)
      → key_of t ≡ some k
      → update arc image junk junk_key (some k) (idle s)
        ≡ returned (used image junk (cmd_code t) (use_of t) (idle s))
  unfolding update handle_system handle_sys_msg handle_recv_msg handle_sys_input scan_key_board
      find_key action actor_do_command get_cmd get_sys_cmd try_and_pop
  update-pressed cmd_move_up k s e = same_key (idle s) e refl
  update-pressed cmd_move_left k s e = same_key (idle s) e refl
  update-pressed cmd_move_down k s e = same_key (idle s) e refl
  update-pressed cmd_move_right k s e = same_key (idle s) e refl
  update-pressed cmd_attack k s e = same_key (idle s) e refl
  update-pressed cmd_jump k s e = same_key (idle s) e refl
  update-pressed cmd_enter k s e = same_key (idle s) e refl
  update-pressed cmd_backpack k s e = same_key (idle s) e refl
  update-pressed cmd_map k s e = same_key (idle s) e refl
  update-pressed cmd_system k s e = same_key (idle s) e refl
  update-pressed cmd_button k s e = cc

  other_key : (k : ℕ) → ((t : CmdType) → key_of t ≢ some k) → find_key k keys ≡ none
  unfolding find_key
  other_key k h = simp (
    unlike (h cmd_move_up),
    unlike (h cmd_move_left),
    unlike (h cmd_move_down),
    unlike (h cmd_move_right),
    unlike (h cmd_enter),
    unlike (h cmd_backpack),
    unlike (h cmd_map),
    unlike (h cmd_system),
    unlike (h cmd_attack),
    unlike (h cmd_jump),
  )

  -- Every other key does nothing.
  pub update-other :
      (k : ℕ) (s : Game F)
      → ((t : CmdType) → key_of t ≢ some k)
      → update arc image junk junk_key (some k) (idle s) ≡ returned (idle s)
  unfolding update handle_system handle_sys_msg handle_recv_msg handle_sys_input scan_key_board
      action get_cmd get_sys_cmd try_and_pop
  update-other k s h = rw (other_key k h) refl

  -- An Enter, pressed while nobody talks and nothing else waits, turns the terminal to the talk in the
  -- next update, in which a key that is pressed has no effect.
  pub enter-talks :
      (key : Option ℕ) (s : Game F)
      → (s' : Game F) × (update arc image junk junk_key (some 10) (idle s) ≡ returned s')
        × (update arc image junk junk_key key s'
            ≡ returned (record (idle s) {
              io = record (idle s).io { talking = true };
              moves = s.moves ++ (codes "get system" ++ to_string (pos (cmd_code cmd_enter))) ∷ [];
            }))
  unfolding update handle_system handle_sys_msg handle_recv_msg handle_sys_input scan_key_board
      action get_cmd get_sys_cmd try_and_pop do_command
  enter-talks key s = (
    used image junk (cmd_code cmd_enter) for_system (idle s),
    update-pressed cmd_enter 10 s refl,
    refl,
  )
