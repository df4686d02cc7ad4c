-- ===== src/Player/Serialize.antt =====
-- The serialize methods of smer/Player/inc/Player.h. One body serves both directions: `ar & x` writes the
-- field to an archive that saves, and sets it from one that loads. The primitives of boost are a
-- parameter.
pub mod Loads
mod Tests
use ifellsofuckinggood.Prelude.{
  ◌≡◌, ◌<◌, refl, ℤ, Bytes, true, Option, some, List, [], ◌∷◌, ◌++◌, append_assoc, length, Outcome,
  returned, thrown, undefined,
}
use ifellsofuckinggood.Player.{PlayerData, Friends, Saved, Archive, bytes_lt}

-- How a type is written, and what is read from the front of the bytes, with the bytes behind it.
pub record Codec {ℓ} (A : Type ℓ) : Type ℓ where
  pub write : A → Bytes
  pub read : Bytes → Outcome (A × Bytes)

-- A serialize method: it loads into an object that is there.
pub record Serializer {ℓ} (P : Type ℓ) : Type ℓ where
  pub save : P → Bytes
  pub load : P → Bytes → Outcome (P × Bytes)

-- What an archive puts in front, and the codecs of int, of string, of a pointer, which may be null, and
-- of a map with names as its keys. A pointer is loaded into a new object; `new_friend` is what the id of
-- a new friendData happens to be, as its constructor sets nothing.
pub record Boost : Type 1 where
  pub header : Codec (Unit {0})
  pub int : Codec ℤ
  pub string : Codec Bytes
  pub new_friend : ℤ
  pub pointer : {A : Type 0} → A → Serializer A → Codec (Option A)
  pub map_of : {A : Type 0} → Codec A → Codec (List (Bytes × A))

pub loaded_field : {P A : Type 0} → (A → P → P) → P → Outcome (A × Bytes) → Outcome (P × Bytes)
loaded_field set p (returned (a, rest)) = returned (set a p, rest)
loaded_field set p thrown = thrown
loaded_field set p undefined = undefined

-- ar & x
unfoldable pub field : {P A : Type 0} → (P → A) → (A → P → P) → Codec A → Serializer P
unfolding loaded_field
field get set c = record {
  save = λ p. c.write (get p);
  load = λ p bytes. loaded_field set p (c.read bytes);
}

pub then_load : {P : Type 0} → Serializer P → Outcome (P × Bytes) → Outcome (P × Bytes)
then_load s (returned (p, rest)) = s.load p rest
then_load s thrown = thrown
then_load s undefined = undefined

infixr 5 ◌&◌
-- One statement after another.
unfoldable pub ◌&◌ : {P : Type 0} → Serializer P → Serializer P → Serializer P
unfolding then_load
s & t = record { save = λ p. s.save p ++ t.save p; load = λ p bytes. then_load t (s.load p bytes) }

module _ (boost : Boost) where
  -- playerData::serialize
  unfoldable pub serialize_player_data : Serializer PlayerData
  unfolding field ◌&◌
  serialize_player_data =
      field (λ d. d.id) (λ x d. record d { id = x }) boost.int
      & field (λ d. d.name) (λ x d. record d { name = x }) boost.string
      & field (λ d. d.password) (λ x d. record d { password = x }) boost.string

  -- friendData::serialize; a friend's data is its identity.
  unfoldable pub serialize_friend_data : Serializer ℤ
  unfolding field
  serialize_friend_data = field (λ id. id) (λ x id. x) boost.int

  -- The statements of Player::serialize.
  unfoldable pub at_id : Serializer Saved
  at_id = field (λ p. p.data'.id) (λ x p. record p { data' = record p.data' { id = x } }) boost.int

  unfoldable pub at_name : Serializer Saved
  at_name =
      field (λ p. p.data'.name) (λ x p. record p { data' = record p.data' { name = x } })
        boost.string

  unfoldable pub at_password : Serializer Saved
  at_password =
      field (λ p. p.data'.password) (λ x p. record p { data' = record p.data' { password = x } })
        boost.string

  unfoldable pub at_friends : Serializer Saved
  at_friends =
      field (λ p. p.friends) (λ x p. record p { friends = x })
        (boost.map_of (boost.pointer boost.new_friend serialize_friend_data))

  unfoldable pub serialize : Serializer Saved
  unfolding at_id at_name at_password at_friends ◌&◌
  serialize = at_id & at_name & at_password & at_friends

  pub body : Outcome (Saved × Bytes) → Outcome Saved
  body (returned (p, rest)) = returned p
  body thrown = thrown
  body undefined = undefined

  pub opened : Saved → Outcome (Unit {0} × Bytes) → Outcome Saved
  unfolding body serialize
  opened p (returned (u, rest)) = body (serialize.load p rest)
  opened p thrown = thrown
  opened p undefined = undefined

  -- The archive over a file: `oa << *this` and `ia >> *this`.
  unfoldable pub archive : Archive Bytes
  unfolding opened serialize
  archive = record {
    write = λ p. boost.header.write tt ++ serialize.save p;
    read = λ p bytes. opened p (boost.header.read bytes);
    file_size = length;
  }
