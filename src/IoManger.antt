-- ===== src/IoManger.antt =====
-- smer/IOMange/inc/IOManger.h and smer/IOMange/src/IOManger.cpp: the terminal of the client. `printed`
-- is what has been shown, the lines that frame a text left out; what the user types is an argument.
pub mod Talk
pub mod Shown
mod Tests
use ifellsofuckinggood.Prelude.{
  ℕ, before_nul, Bytes, codes, Bool, true, false, Option, none, some, List, [], ◌∷◌, ◌++◌, ◌==◌,
  if◌then◌else◌,
}
use ifellsofuckinggood.MyEnum.{cmd_code, cmd_enter}
use ifellsofuckinggood.TransObj.{TransObj}
use ifellsofuckinggood.ConcQueue.{push, try_and_pop}
use ifellsofuckinggood.Player.{Archive}
use ifellsofuckinggood.HandleMsg.Client.{Client, put_output}

-- With the client's data and the queue of messages to send, SeqToBin::getBuff.
pub record IoManger (F : Type 0) : Type 0 where
  pub client : Client F
  pub buff : List TransObj
  pub talking : Bool
  pub printed : List Bytes

abbrev pub login_hint : Bytes
login_hint =
    codes "You should login first.(if not regin -- regin and login first to use the function!)\n"
    ++ (codes "Try Regin ==> Regin@yourname|yourpassword\n"
        ++ (codes "Try Login ==> Login@yourname|yourpassword\n" ++ codes "(-_-)\n"))

module _ {F : Type 0} (arc : Archive F) where
  unfoldable pub try_login_first : Client F → Bool × Client F
  try_login_first c = if c.player.logined then (false, c) else (true, put_output arc login_hint c)

module _ {F : Type 0} where
  abbrev pub turn_to_talk : IoManger F → IoManger F
  turn_to_talk s = record s { talking = true }

  -- IOManger::doCommand
  unfoldable pub do_command : ℕ → IoManger F → IoManger F
  do_command cmd_type s = if cmd_type == cmd_code cmd_enter then turn_to_talk s else s

  -- c_str() ends the text at a NUL.
  shown_msg : IoManger F → Option Bytes × List Bytes → IoManger F
  shown_msg s (none, rest) = s
  shown_msg s (some msg, rest) = record s {
    client = record s.client { output_msg = rest };
    printed = s.printed ++ before_nul msg ∷ [];
  }

  unfoldable pub handle_output_msg : IoManger F → IoManger F
  unfolding shown_msg
  handle_output_msg s = shown_msg s (try_and_pop s.client.output_msg)
