-- ===== src/Player/Tests.antt =====
-- Runs of the player's methods, and the theorems at concrete inputs.
use ifellsofuckinggood.Prelude.{
  ◌≡◌, refl, pos, codes, bytes_eq, true, false, none, some, [], ◌∷◌, if◌then◌else◌, returned,
  undefined, arith,
}
use ifellsofuckinggood.Player.{
  Player, PlayerData, Saved, Archive, Disk, find, put, add_friend, del_friend,
}
use ifellsofuckinggood.Player.Map.{find-put, del_friend-add_friend}

-- A file that holds the player itself.
abbrev arc : Archive Saved
arc = record { write = λ x. x; read = λ p x. returned x; file_size = λ x. 1 }

abbrev blank_data : PlayerData
blank_data = record { id = pos 0; name = []; password = [] }

abbrev zlh : Player
zlh = record {
  logined = true;
  data' = record { id = pos 1; name = codes "zlh"; password = codes "123" };
  is_friends_changed = false;
  talker_name = [];
  friends = (codes "lys", some (pos 4)) ∷ [];
}

abbrev blank : Player
blank = record {
  logined = false;
  data' = blank_data;
  is_friends_changed = false;
  talker_name = [];
  friends = [];
}

abbrev disk : Disk Saved
disk = record { can_write = true; file = none }

find-put_example : find (codes "lys") (put (codes "cpt") (some (pos 2)) zlh.friends) ≡ (
    if bytes_eq (codes "cpt") (codes "lys")
    then some (some (pos 2))
    else find (codes "lys") zlh.friends)
find-put_example = find-put (codes "cpt") (codes "lys") (some (pos 2)) zlh.friends

abbrev with_cpt : Player
with_cpt = record zlh {
  is_friends_changed = true;
  friends = (codes "cpt", some (pos 2)) ∷ (codes "lys", some (pos 4)) ∷ [];
}

abbrev written : Disk Saved
written = record disk {
  file = some (record { data' = with_cpt.data'; friends = with_cpt.friends });
}

del_friend-add_friend_example :
    (p' : Player) × (del_friend arc (codes "lys") zlh disk ≡ returned (true, p', disk))
    × (add_friend arc (codes "lys") (pos 7) p' disk ≡ undefined)
unfolding find bytes_eq
del_friend-add_friend_example =
    del_friend-add_friend arc (codes "lys") zlh disk {f = some (pos 4)} (pos 7) refl (omega arith)
