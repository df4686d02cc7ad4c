-- ===== src/Player/File.antt =====
-- The file of the player.
use ifellsofuckinggood.Prelude.{◌≡◌, refl, true, Bytes, returned}
use ifellsofuckinggood.Player.{Player, Saved, Disk, save_player_data, load_player_data, loaded}
use ifellsofuckinggood.Player.Serialize.{Boost, archive}
use ifellsofuckinggood.Player.Serialize.Loads.{IsMap, Laws, not_empty, read-write}

module _ (boost : Boost) (laws : Laws boost) where
  -- What savePlayerData has written, through the serialize methods and the archive of boost, is loaded
  -- again into any player: the identity, the name, the password and the friends are those of the saved
  -- player, and the rest of the other stays. The friends are in the map's order, and boost's primitives
  -- read back what they have written.
  pub load-save :
      (p q : Player) (d : Disk Bytes)
      → IsMap p.friends
      → d.can_write ≡ true
      → ((save_player_data (archive boost) p d).0 ≡ true)
        × (load_player_data (archive boost) q (save_player_data (archive boost) p d).1
            ≡ returned (true, record q { data' = p.data'; friends = p.friends }))
  unfolding save_player_data load_player_data loaded
  load-save p q d h ok =
      let x : Saved = record { data' = p.data'; friends = p.friends } in
      let y : Saved = record { data' = q.data'; friends = q.friends } in
      rw (ok, not_empty boost laws x, read-write boost laws x y h) (refl, refl)
