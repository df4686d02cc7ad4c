-- ===== src/ReadKey/Tests.antt =====
-- Scans of the keyboard at concrete inputs.
use ifellsofuckinggood.Prelude.{
  ℕ, ◌≡◌, refl, Bytes, false, Option, none, some, List, [], ◌∷◌, arith,
}
use ifellsofuckinggood.TransObj.{new_default}
use ifellsofuckinggood.ReadKey.{ReadKey, scan_key_board, find_key}
use ifellsofuckinggood.ReadKey.Terminal.{aborted, scans, scans-bounded}

abbrev quiet : ReadKey
quiet = record { cmd_que = []; sys_cmd_que = []; buff = []; printed = [] }

abbrev image : ℕ → Bytes
image type = type ∷ []

-- The key of the move up, between two scans without a key.
abbrev typed : List (Option ℕ)
typed = none ∷ some 119 ∷ none ∷ []

-- The key is found.
moves_up : (scan_key_board image new_default false 0 (some 119) quiet).0 ≡ 0
unfolding scan_key_board find_key
moves_up = refl

scans-bounded_example :
    scans image new_default 0 typed quiet (record { used = 4; limit = 6 }) ≡ aborted
scans-bounded_example =
    (scans-bounded image new_default 0 typed quiet 3 6 (omega arith) (omega arith)).1 (omega arith)
