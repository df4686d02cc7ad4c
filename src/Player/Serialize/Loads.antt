-- ===== src/Player/Serialize/Loads.antt =====
-- What the serialize methods load from what they have saved.
use ifellsofuckinggood.Prelude.{
  ◌≡◌, ◌<◌, refl, ℤ, Bytes, true, false, Option, List, [], ◌∷◌, ◌++◌, ◌==◌, append-nil,
  append_assoc, length, length-append, returned, arith, subst,
}
use ifellsofuckinggood.Player.{Saved, bytes_lt}
use ifellsofuckinggood.Player.Serialize.{
  Codec, Serializer, Boost, field, loaded_field, ◌&◌, then_load, serialize_friend_data, at_id,
  at_name, at_password, at_friends, serialize, archive, opened, body,
}

-- What is written is read back, whatever follows it.
abbrev pub Reads : {A : Type 0} → Codec A → A → Type 0
Reads c x = (rest : Bytes) → c.read (c.write x ++ rest) ≡ returned (x, rest)

-- A serialize method that loads from what it has saved of `p` makes `q` into `r`.
abbrev pub Loads : {P : Type 0} → Serializer P → P → P → P → Type 0
Loads s p q r = (rest : Bytes) → s.load q (s.save p ++ rest) ≡ returned (r, rest)

-- The names of a map, in order.
abbrev pub IsMap : {A : Type 0} → List (Bytes × A) → Type 0
IsMap [] = Unit
IsMap (x ∷ []) = Unit
IsMap ((n, f) ∷ (m, g) ∷ rest) = (bytes_lt n m ≡ true) × IsMap ((m, g) ∷ rest)

-- What boost says of its primitives. An archive's header is not empty.
pub record Laws (boost : Boost) : Type 1 where
  pub header_reads : Reads boost.header tt
  pub header_not_empty : 0 < length (boost.header.write tt)
  pub int_reads : (z : ℤ) → Reads boost.int z
  pub string_reads : (t : Bytes) → Reads boost.string t
  pub pointer_reads :
      {A : Type 0} (new : A) (s : Serializer A)
      → ((x y : A) → Loads s x y x)
      → (x : Option A) → Reads (boost.pointer new s) x
  pub map_of_reads :
      {A : Type 0} (c : Codec A)
      → ((x : A) → Reads c x)
      → (m : List (Bytes × A)) → IsMap m
      → Reads (boost.map_of c) m

pub field-Loads :
    {P A : Type 0} (get : P → A) (set : A → P → P) (c : Codec A) (p q : P)
    → Reads c (get p)
    → Loads (field get set c) p q (set (get p) q)
unfolding field loaded_field
field-Loads get set c p q h rest = rw (h rest) refl

pub and-Loads :
    {P : Type 0} (s t : Serializer P) (p q r r' : P)
    → Loads s p q r
    → Loads t p r r'
    → Loads (s & t) p q r'
unfolding ◌&◌ then_load
and-Loads s t p q r r' h k rest =
    rw (append_assoc (s.save p) (t.save p) rest, h (t.save p ++ rest)) (k rest)

module _ (boost : Boost) (laws : Laws boost) where
  friend_data-Loads : (x y : ℤ) → Loads (serialize_friend_data boost) x y x
  unfolding serialize_friend_data field loaded_field
  friend_data-Loads x y rest = rw (laws.int_reads x rest) refl

  at_id-Loads :
      (p q : Saved)
      → Loads (at_id boost) p q (record q { data' = record q.data' { id = p.data'.id } })
  unfolding at_id field loaded_field
  at_id-Loads p q rest = rw (laws.int_reads p.data'.id rest) refl

  at_name-Loads :
      (p q : Saved)
      → Loads (at_name boost) p q (record q { data' = record q.data' { name = p.data'.name } })
  unfolding at_name field loaded_field
  at_name-Loads p q rest = rw (laws.string_reads p.data'.name rest) refl

  at_password-Loads :
      (p q : Saved)
      → Loads
          (at_password boost)
          p
          q
          (record q { data' = record q.data' { password = p.data'.password } })
  unfolding at_password field loaded_field
  at_password-Loads p q rest = rw (laws.string_reads p.data'.password rest) refl

  at_friends-Loads :
      (p q : Saved)
      → IsMap p.friends
      → Loads (at_friends boost) p q (record q { friends = p.friends })
  unfolding at_friends
  at_friends-Loads p q h =
      field-Loads (λ x. x.friends) (λ x y. record y { friends = x })
        (boost.map_of (boost.pointer boost.new_friend (serialize_friend_data boost))) p q
        (laws.map_of_reads (boost.pointer boost.new_friend (serialize_friend_data boost))
          (laws.pointer_reads boost.new_friend (serialize_friend_data boost) (friend_data-Loads))
          p.friends h)

  -- Loading what has been saved of a player with its friends in the map's order gives that player.
  pub serialize-Loads : (p q : Saved) → IsMap p.friends → Loads (serialize boost) p q p
  unfolding serialize
  serialize-Loads p q h =
      let q1 : Saved = record q { data' = record q.data' { id = p.data'.id } } in
      let q2 : Saved = record q1 { data' = record q1.data' { name = p.data'.name } } in
      let q3 : Saved = record q { data' = p.data' } in
      and-Loads (at_id boost) (at_name boost & at_password boost & at_friends boost) p q q1 p
        (at_id-Loads p q)
        (and-Loads (at_name boost) (at_password boost & at_friends boost) p q1 q2 p
          (at_name-Loads p q1)
          (and-Loads (at_password boost) (at_friends boost) p q2 q3 p (at_password-Loads p q2)
            (at_friends-Loads p q3 h)))

  pub read-write :
      (p q : Saved)
      → IsMap p.friends
      → (archive boost).read q ((archive boost).write p) ≡ returned p
  unfolding archive opened body
  read-write p q h =
      let loads : (serialize boost).load q ((serialize boost).save p ++ []) ≡ returned (p, []) =
        serialize-Loads p q h [] in
      let loads' : (serialize boost).load q ((serialize boost).save p) ≡ returned (p, []) =
        subst (λ b. (serialize boost).load q b ≡ returned (p, []))
          (append-nil ((serialize boost).save p)) loads in
      rw (laws.header_reads ((serialize boost).save p), loads') refl

  pub not_empty : (p : Saved) → ((archive boost).file_size ((archive boost).write p) == 0) ≡ false
  unfolding archive
  not_empty p =
      let n = laws.header_not_empty in
      let e = length-append (boost.header.write tt) ((serialize boost).save p) in
      ground (arith, e, n)
