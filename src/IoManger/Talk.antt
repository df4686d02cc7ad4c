-- ===== src/IoManger/Talk.antt =====
-- The talk of smer/IOMange/src/IOManger.cpp: a line that the user types, and the loop of the terminal.
-- The prompts that it prints are left out.
use ifellsofuckinggood.Prelude.{
  Bytes, Bool, true, false, Option, none, some, List, [], ◌∷◌, ◌++◌, leb, length, if◌then◌else◌,
  Outcome, returned, thrown, undefined,
}
use ifellsofuckinggood.TransObj.{TransObj, max_trans_msg_len}
use ifellsofuckinggood.Player.{Archive}
use ifellsofuckinggood.HandleMsg.Client.{Client}
use ifellsofuckinggood.IoManger.{IoManger, handle_output_msg}
use ifellsofuckinggood.Util.{get_msg_from_input}

module _ {F : Type 0} where
  -- The message, if there is one, goes behind those to send.
  pub talked : IoManger F → Outcome (Option TransObj × Client F) → Outcome (IoManger F)
  talked s (returned (none, c)) = returned (record s { client = c; talking = false })
  talked s (returned (some o, c)) =
      returned (record s { client = c; talking = false; buff = s.buff ++ o ∷ [] })
  talked s thrown = thrown
  talked s undefined = undefined

module _ {F : Type 0} (arc : Archive F) (split : Bytes → Bytes → List Bytes) (junk : TransObj) where
  unfoldable pub handle_talk : Bytes → IoManger F → Outcome (IoManger F)
  unfolding talked
  handle_talk str s =
      if leb max_trans_msg_len (length str)
      then returned (record s { talking = false })
      else talked s (get_msg_from_input arc split junk str s.client)

  woken : Bytes → Bool → List Bytes → IoManger F → Option (Outcome (IoManger F))
  woken str true msgs s = some (handle_talk str s)
  woken str false [] s = none
  woken str false (msg ∷ msgs) s = some (returned (handle_output_msg s))

  -- One round of IOManger::run; `none` is a round that goes on waiting.
  unfoldable pub run_round : Bytes → IoManger F → Option (Outcome (IoManger F))
  unfolding woken
  run_round str s = woken str s.talking s.client.output_msg s
