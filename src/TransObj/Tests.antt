-- ===== src/TransObj/Tests.antt =====
-- Runs of the object's methods, and its theorems at concrete inputs.
use ifellsofuckinggood.Prelude.{◌≡◌, refl, pos, minus_one, none, codes, replicate, format}
use ifellsofuckinggood.TransObj.{TransObj, new_full, set_name}

abbrev blank : TransObj
blank = record {
  msg_type = 0;
  len = 0;
  id = pos 0;
  recver_id = pos 0;
  fd = pos 0;
  msg = replicate 64 0;
}

abbrev request : TransObj
request = new_full blank minus_one minus_one 6 64 minus_one

-- A name that holds a directive of printf is read as a format.
percent_name : set_name (codes "a%s") blank ≡ none
unfolding set_name format
percent_name = refl
