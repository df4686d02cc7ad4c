-- ===== src/Player/Map.antt =====
-- The map of the friends.
use ifellsofuckinggood.Prelude.{
  suc, ◌≡◌, ◌≤◌, ◌<◌, inl, inr, refl, sym, ap, ◌∙◌, ℤ, Bytes, bytes_eq, bytes_eq_sound,
  bytes_eq_refl, Bool, true, false, Option, none, some, [], ◌∷◌, leb, if◌then◌else◌, length,
  returned, undefined, arith, Bool-cases, Option-cases, lt→leb,
}
use ifellsofuckinggood.Player.{
  Player, Friends, Archive, Disk, max_friends_num, find, put, add_friend, del_friend, saved,
  save_player_data, changed, bytes_lt,
}

bytes_eq-other : (a b c : Bytes) → bytes_eq a b ≡ true → bytes_eq b c ≡ bytes_eq a c
bytes_eq-other a b c e = ap (λ x. bytes_eq x c) (sym (bytes_eq_sound a b e))

other_name :
    (n name other : Bytes)
    → bytes_eq n name ≡ false
    → bytes_eq n other ≡ true
    → bytes_eq name other ≡ false
other_name n name other e h = elim (Bool-cases (bytes_eq name other)) [
  | inl e' ↦
      let a = bytes_eq_sound n other h in
      let b = bytes_eq_sound name other e' in let c = bytes_eq_refl n in cc
  | inr e' ↦ e'
]

-- A name that has been put is found with its friend, and every other name as before.
pub find-put :
    (name other : Bytes) (f : Option ℤ) (fs : Friends)
    → find other (put name f fs) ≡ (if bytes_eq name other then some f else find other fs)
unfolding find put
find-put name other f [] = refl
find-put name other f ((n, g) ∷ rest) = elim (Bool-cases (bytes_eq n name)) [
  | inl e ↦ rw (e, sym (bytes_eq-other n name other e)) (ground arith)
  | inr e ↦ elim (Bool-cases (bytes_lt name n)) [
    | inl l ↦ rw (e, l) refl
    | inr l ↦ elim (Bool-cases (bytes_eq n other)) [
      | inl h ↦ rw (e, l, find-put name other f rest, h, other_name n name other e h) refl
      | inr h ↦ rw (e, l, find-put name other f rest, h) refl
    ]
  ]
]

length-put : (name : Bytes) (f : Option ℤ) (fs : Friends) → length (put name f fs) ≤ suc (length fs)
unfolding put
length-put name f [] = omega arith
length-put name f ((n, g) ∷ rest) = ground (arith, length-put name f rest)

module _ {F : Type 0} (arc : Archive F) (name : Bytes) (p : Player) (d : Disk F) where
  -- An addFriend that returns keeps the number of friends at most 3000.
  pub add_friend-bounded :
      (id : ℤ) {ok : Bool} {p' : Player} {d' : Disk F}
      → length p.friends ≤ max_friends_num
      → add_friend arc name id p d ≡ returned (ok, p', d')
      → length p'.friends ≤ max_friends_num
  unfolding add_friend saved save_player_data
  add_friend-bounded id bound h = elim (Bool-cases (leb max_friends_num (length p.friends))) [
    | inl e ↦ ground arith
    | inr e ↦ elim (Option-cases (find name p.friends)) [
      | inl u ↦ ground (arith, length-put name (some id) p.friends)
      | inr (none, u) ↦ ground arith
      | inr (some old, u) ↦ ground (arith, length-put name (some id) p.friends)
    ]
  ]

  -- With room for another, an addFriend of a new name leaves that friend under the name, and under every
  -- other name what was there. It returns what the saving of the player returns.
  pub add_friend-found :
      (id : ℤ) (other : Bytes)
      → find name p.friends ≡ none
      → length p.friends < max_friends_num
      → (p' : Player) × (add_friend arc name id p d
          ≡ returned ((save_player_data arc p' d).0, p', (save_player_data arc p' d).1))
        × (find name p'.friends ≡ some (some id))
        × (find other p'.friends
            ≡ (if bytes_eq name other then some (some id) else find other p.friends))
  unfolding add_friend saved
  add_friend-found id other fresh small = (
    changed arc name (some id) p,
    rw (add_friend, fresh, lt→leb _ max_friends_num small) refl,
    find-put name name (some id) p.friends ∙ rw (bytes_eq_refl name),
    find-put name other (some id) p.friends,
  )

  -- A friend who has been deleted cannot be added again: the deletion returns true and leaves a null
  -- pointer under the name, and with less than 2999 friends the next addFriend of the name uses it.
  pub del_friend-add_friend :
      {f : Option ℤ} (id : ℤ)
      → find name p.friends ≡ some f
      → suc (length p.friends) < max_friends_num
      → (p' : Player) × (del_friend arc name p d ≡ returned (true, p', d))
        × (add_friend arc name id p' d ≡ undefined)
  unfolding del_friend add_friend
  del_friend-add_friend {f} id found small = (
    changed arc name none p,
    rw (del_friend, found),
    rw (
      find-put name name none p.friends,
      bytes_eq_refl name,
      lt→leb (length (put name none p.friends)) max_friends_num
          (omega (arith, length-put name none p.friends)),
    ),
  )
