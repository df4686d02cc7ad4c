-- ===== src/Player.antt =====
-- smer/Player/inc/Player.h and smer/Player/src/Player.cpp: the player of the client and the friends.
-- The archive of boost, which turns the player's data into a file, is a parameter. `undefined` is
-- undefined behaviour, as the use of a null pointer.
pub mod Map
pub mod Serialize
pub mod File
mod Tests
use ifellsofuckinggood.Prelude.{
  ℕ, ◌≡◌, ◌<◌, ℤ, pos, Bytes, bytes_eq, Bool, true, false, Option, none, some, List, [], ◌∷◌, ltb,
  leb, ◌==◌, if◌then◌else◌, length, Outcome, returned, thrown, undefined,
}

abbrev pub max_friends_num : ℕ
max_friends_num = 3000

pub record PlayerData : Type 0 where
  pub id : ℤ
  pub name : Bytes
  pub password : Bytes

-- A friend is a pointer to the friend's identity, null after delFriend. The map's order is the order
-- of the names.
abbrev pub Friends : Type 0
Friends = List (Bytes × Option ℤ)

pub record Player : Type 0 where
  pub logined : Bool
  pub data' : PlayerData
  pub is_friends_changed : Bool
  pub talker_name : Bytes
  pub friends : Friends

-- string::operator<
unfoldable pub bytes_lt : Bytes → Bytes → Bool
bytes_lt xs [] = false
bytes_lt [] (y ∷ ys) = true
bytes_lt (x ∷ xs) (y ∷ ys) = let rest = bytes_lt xs ys in if x == y then rest else ltb x y

-- The element of map::find, where there is one.
unfoldable pub find : Bytes → Friends → Option (Option ℤ)
find name [] = none
find name ((n, f) ∷ rest) = let found = find name rest in if bytes_eq n name then some f else found

-- An assignment through map::operator[].
unfoldable pub put : Bytes → Option ℤ → Friends → Friends
unfolding bytes_lt
put name f [] = (name, f) ∷ []
put name f ((n, g) ∷ rest) =
    let later = put name f rest in
    if bytes_eq n name
    then (name, f) ∷ rest
    else if bytes_lt name n
    then (name, f) ∷ (n, g) ∷ rest
    else (n, g) ∷ later

unfoldable pub new : PlayerData → Player
new junk = record {
  logined = false;
  data' = junk;
  is_friends_changed = false;
  talker_name = [];
  friends = [];
}

unfoldable pub init : Bytes → Bytes → ℤ → Player → Player
init name password id p = record p { data' = record { id = id; name = name; password = password } }

abbrev pub set_login_status : Bool → Player → Player
set_login_status is_logined p = record p { logined = is_logined }

abbrev pub set_player_id : ℤ → Player → Player
set_player_id id p = record p { data' = record p.data' { id = id } }

abbrev pub set_player_name : Bytes → Player → Player
set_player_name name p = record p { data' = record p.data' { name = name } }

abbrev pub set_player_passwd : Bytes → Player → Player
set_player_passwd passwd p = record p { data' = record p.data' { password = passwd } }

unfoldable pub set_player_login : ℤ → Bytes → Bytes → Player → Player
set_player_login id name passwd p =
    set_player_passwd passwd (set_player_name name (set_player_id id (set_login_status true p)))

abbrev pub set_talker_name : Bytes → Player → Player
set_talker_name name p = record p { talker_name = name }

-- An unknown name is inserted with a null pointer, which is then read.
unfoldable pub get_talker_id : Player → Outcome ℤ
get_talker_id p = elim (find p.talker_name p.friends) [
  | (some (some id)) ↦ returned id
  | _ ↦ undefined
]

-- What is serialized.
pub record Saved : Type 0 where
  pub data' : PlayerData
  pub friends : Friends

-- What a file holds after a player has been written, and what is read from it into a player. A file that
-- holds no player makes the archive throw. Serialize makes it of the archive of boost.
pub record Archive (F : Type 0) : Type 0 where
  pub write : Saved → F
  pub read : Saved → F → Outcome Saved
  pub file_size : F → ℕ

-- PLAYER_DATA_FILE: whether it opens for writing, and what it holds, if it exists.
pub record Disk (F : Type 0) : Type 0 where
  pub can_write : Bool
  pub file : Option F

module _ {F : Type 0} (arc : Archive F) where
  unfoldable pub save_player_data : Player → Disk F → Bool × Disk F
  save_player_data p d =
      if d.can_write
      then (
        true,
        record d { file = some (arc.write (record { data' = p.data'; friends = p.friends })) },
      )
      else (false, d)

  loaded : Player → Outcome Saved → Outcome (Bool × Player)
  loaded p (returned x) = returned (true, record p { data' = x.data'; friends = x.friends })
  loaded p thrown = thrown
  loaded p undefined = undefined

  unfoldable pub load_player_data : Player → Disk F → Outcome (Bool × Player)
  unfolding loaded
  load_player_data p d = elim d.file [
    | none ↦ returned (false, p)
    | some f ↦
        if arc.file_size f == 0
        then returned (false, p)
        else loaded p (arc.read (record { data' = p.data'; friends = p.friends }) f)
  ]

  saved : Player → Disk F → Outcome (Bool × Player × Disk F)
  saved p d = let (ok, d') = save_player_data p d in returned (ok, p, d')

  abbrev pub changed : Bytes → Option ℤ → Player → Player
  changed name f p = record p { friends = put name f p.friends; is_friends_changed = true }

  -- A known friend is changed in memory only; one that was deleted has a null pointer, which is used.
  unfoldable pub add_friend : Bytes → ℤ → Player → Disk F → Outcome (Bool × Player × Disk F)
  unfolding saved save_player_data
  add_friend name id p d =
      let known : Outcome (Bool × Player × Disk F) = elim (find name p.friends) [
        | none ↦ saved (changed name (some id) p) d
        | some none ↦ undefined
        | some (some old) ↦ returned (true, changed name (some id) p, d)
      ] in
      if leb max_friends_num (length p.friends) then returned (false, p, d) else known

  unfoldable pub del_friend : Bytes → Player → Disk F → Outcome (Bool × Player × Disk F)
  unfolding saved save_player_data
  del_friend name p d = elim (find name p.friends) [
    | none ↦ saved p d
    | some f ↦ returned (true, changed name none p, d)
  ]
