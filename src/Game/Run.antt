-- ===== src/Game/Run.antt =====
-- What a run of updates makes of the keys that are pressed, one in each.
use ifellsofuckinggood.Prelude.{
  ℕ, pos, to_string, ◌≡◌, ◌≢◌, Bytes, codes, true, false, Option, none, some, List, [], ◌∷◌, ◌++◌,
  Bool, ◌==◌, Outcome, returned, thrown, undefined,
}
use ifellsofuckinggood.MyEnum.{CmdType, cmd_code, cmd_enter}
use ifellsofuckinggood.TransObj.{TransObj}
use ifellsofuckinggood.Player.{Archive}
use ifellsofuckinggood.ReadKey.{Command, cmd_obj}
use ifellsofuckinggood.Game.{Game, update}
use ifellsofuckinggood.Game.Pressed.{key_of, Use, moves_actor, sent_only, for_system, use_of, idle}

-- A key of a command, or another one.
pub data Press : ℕ → Option CmdType → Type 0 where
  of_command : {k : ℕ} {t : CmdType} → key_of t ≡ some k → Press k (some t)
  of_other : {k : ℕ} → ((t : CmdType) → key_of t ≢ some k) → Press k none

pub data Presses : List ℕ → List (Option CmdType) → Type 0 where
  done : Presses [] []
  more :
      {k : ℕ} {t : Option CmdType} {ks : List ℕ} {ts : List (Option CmdType)}
      → Press k t
      → Presses ks ts
      → Presses (k ∷ ks) (t ∷ ts)

-- Whether a run may have the command: not the Enter, which turns the terminal to the talk.
abbrev pub quiet : List (Option CmdType) → Bool
quiet [] = true
quiet (some cmd_enter ∷ ts) = false
quiet (_ ∷ ts) = quiet ts

abbrev pub line_of : CmdType → Bytes
line_of t = codes "get system" ++ to_string (pos (cmd_code t))

-- What a command prints, and what it leaves for the next update.
abbrev pub lines : CmdType → Use → List Bytes
lines t (moves_actor text) = text ∷ []
lines t for_system = line_of t ∷ []
lines t _ = []

abbrev pub kept : CmdType → Use → List Command
kept t for_system = record { type = cmd_code t } ∷ []
kept t _ = []

-- The lines of a run, in order.
unfoldable pub printed : List (Option CmdType) → List Bytes
printed [] = []
printed (none ∷ ts) = printed ts
printed (some t ∷ ts) = lines t (use_of t) ++ printed ts

-- The command of the system that waits at the end of a run, that of the last key.
unfoldable pub waiting : List Command → List (Option CmdType) → List Command
waiting q [] = q
waiting q (none ∷ ts) = waiting [] ts
waiting q (some t ∷ ts) = waiting (kept t (use_of t)) ts

module _ (image : ℕ → Bytes) (junk : TransObj) where
  abbrev pub messages : CmdType → Use → List TransObj
  messages t (moves_actor text) = cmd_obj image junk (cmd_code t) ∷ []
  messages t sent_only = cmd_obj image junk (cmd_code t) ∷ []
  messages t _ = []

  -- The messages of a run, in order.
  unfoldable pub sends : List (Option CmdType) → List TransObj
  sends [] = []
  sends (none ∷ ts) = sends ts
  sends (some t ∷ ts) = messages t (use_of t) ++ sends ts

module _ {F : Type 0} where
  -- With one command of the system waiting, or none.
  abbrev pub with_waiting : List Command → Game F → Game F
  with_waiting q s = record (idle s) { sys_cmd_que = q }

  abbrev pub given : List TransObj → List Bytes → List Command → Game F → Game F
  given msgs texts q s = record (idle s) {
    io = record (idle s).io { buff = s.io.buff ++ msgs };
    moves = s.moves ++ texts;
    sys_cmd_que = q;
  }

-- Nothing, or a command that the terminal does not obey.
abbrev pub IsInert : List Command → Type 0
IsInert [] = Unit
IsInert (c ∷ []) = (c.type == cmd_code cmd_enter) ≡ false
IsInert (c ∷ d ∷ q) = true ≡ false

module _ {F : Type 0} (arc : Archive F) (image : ℕ → Bytes) (junk : TransObj) (junk_key : ℕ) where
  next_update : (Game F → Outcome (Game F)) → Outcome (Game F) → Outcome (Game F)
  next_update f (returned s) = f s
  next_update f thrown = thrown
  next_update f undefined = undefined

  -- Updates one after another, each with the key that it reads.
  unfoldable pub updates : List ℕ → Game F → Outcome (Game F)
  unfolding next_update
  updates [] s = returned s
  updates (k ∷ ks) s = next_update (updates ks) (update arc image junk junk_key (some k) s)
