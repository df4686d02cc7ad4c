-- ===== src/Player/Serialize/Tests.antt =====
-- A small archive, and a player that goes through it.
use ifellsofuckinggood.Prelude.{
  ℕ, zero, suc, ◌≡◌, refl, ℤ, pos, negsuc, Bytes, codes, true, false, Option, none, some, List, [],
  ◌∷◌, ◌++◌, append_assoc, length, take, drop, take-append, drop-append, Outcome, returned, thrown,
  undefined, arith,
}
use ifellsofuckinggood.Player.{Player, Disk, bytes_lt, save_player_data, load_player_data}
use ifellsofuckinggood.Player.File.{load-save}
use ifellsofuckinggood.Player.Serialize.{Codec, Serializer, Boost, archive}
use ifellsofuckinggood.Player.Serialize.Loads.{Reads, Loads, Laws}

read_header : Bytes → Outcome (Unit {0} × Bytes)
read_header [] = thrown
read_header (b ∷ rest) = returned (tt, rest)

read_int : Bytes → Outcome (ℤ × Bytes)
read_int (zero ∷ n ∷ rest) = returned (pos n, rest)
read_int (suc b ∷ n ∷ rest) = returned (negsuc n, rest)
read_int _ = thrown

write_int : ℤ → Bytes
write_int (pos n) = 0 ∷ n ∷ []
write_int (negsuc n) = 1 ∷ n ∷ []

read_string : Bytes → Outcome (Bytes × Bytes)
read_string [] = thrown
read_string (n ∷ rest) = returned (take n rest, drop n rest)

abbrev string_codec : Codec Bytes
string_codec = record { write = λ t. length t ∷ t; read = read_string }

module _ {A : Type 0} where
  as_some : Outcome (A × Bytes) → Outcome (Option A × Bytes)
  as_some (returned (x, rest)) = returned (some x, rest)
  as_some thrown = thrown
  as_some undefined = undefined

  read_pointer : A → Serializer A → Bytes → Outcome (Option A × Bytes)
  unfolding as_some
  read_pointer new s (zero ∷ rest) = returned (none, rest)
  read_pointer new s (suc b ∷ rest) = as_some (s.load new rest)
  read_pointer new s [] = thrown

  write_pointer : Serializer A → Option A → Bytes
  write_pointer s none = 0 ∷ []
  write_pointer s (some x) = 1 ∷ s.save x

  pointer-Reads :
      (new : A) (s : Serializer A)
      → ((x y : A) → Loads s x y x)
      → (x : Option A) → Reads (record { write = write_pointer s; read = read_pointer new s }) x
  unfolding write_pointer read_pointer as_some
  pointer-Reads new s h none rest = refl
  pointer-Reads new s h (some x) rest = rw (h x new rest) refl

  write_entries : Codec A → List (Bytes × A) → Bytes
  write_entries c [] = []
  write_entries c ((n, x) ∷ m) = string_codec.write n ++ (c.write x ++ write_entries c m)

  -- The entry is put in front of the entries behind it.
  put_first : Bytes × A → Outcome (List (Bytes × A) × Bytes) → Outcome (List (Bytes × A) × Bytes)
  put_first x (returned (m, rest)) = returned (x ∷ m, rest)
  put_first x thrown = thrown
  put_first x undefined = undefined

  with_value :
      (Bytes → Outcome (List (Bytes × A) × Bytes))
      → Bytes
      → Outcome (A × Bytes)
      → Outcome (List (Bytes × A) × Bytes)
  unfolding put_first
  with_value f n (returned (x, rest)) = put_first (n, x) (f rest)
  with_value f n thrown = thrown
  with_value f n undefined = undefined

  read_entries : Codec A → ℕ → Bytes → Outcome (List (Bytes × A) × Bytes)
  unfolding with_value
  read_entries c zero bytes = returned ([], bytes)
  read_entries c (suc k) [] = thrown
  read_entries c (suc k) (n ∷ rest) =
      with_value (read_entries c k) (take n rest) (c.read (drop n rest))

  read_map : Codec A → Bytes → Outcome (List (Bytes × A) × Bytes)
  unfolding read_entries
  read_map c [] = thrown
  read_map c (n ∷ rest) = read_entries c n rest

  entries-Reads :
      (c : Codec A)
      → ((x : A) → Reads c x)
      → (m : List (Bytes × A)) (rest : Bytes)
      → read_entries c (length m) (write_entries c m ++ rest) ≡ returned (m, rest)
  unfolding read_entries write_entries with_value put_first
  entries-Reads c h [] rest = refl
  entries-Reads c h ((n, x) ∷ m) rest =
      rw
        (
          append_assoc n (c.write x ++ write_entries c m) rest,
          append_assoc (c.write x) (write_entries c m) rest,
          take-append (length n) n (c.write x ++ (write_entries c m ++ rest)) refl,
          drop-append (length n) n (c.write x ++ (write_entries c m ++ rest)) refl,
          h x (write_entries c m ++ rest),
          entries-Reads c h m rest,
        )
        refl

abbrev boost : Boost
boost = record {
  header = record { write = λ u. 22 ∷ []; read = read_header };
  int = record { write = write_int; read = read_int };
  string = string_codec;
  new_friend = pos 77;
  pointer = λ new s. record { write = write_pointer s; read = read_pointer new s };
  map_of = λ c. record { write = λ m. length m ∷ write_entries c m; read = read_map c };
}

int-Reads : (z : ℤ) → Reads boost.int z
unfolding read_int write_int
int-Reads (pos n) rest = refl
int-Reads (negsuc n) rest = refl

laws : Laws boost
unfolding read_header read_string read_map
laws = record {
  header_reads = λ rest. refl;
  header_not_empty = omega arith;
  int_reads = int-Reads;
  string_reads =
      λ t rest. rw (take-append (length t) t rest refl, drop-append (length t) t rest refl) refl;
  pointer_reads = pointer-Reads;
  map_of_reads = λ c h m is_map rest. entries-Reads c h m rest;
}

abbrev player : ℤ → Bytes → List (Bytes × Option ℤ) → Player
player id name friends = record {
  logined = true;
  data' = record { id = id; name = name; password = codes "123" };
  is_friends_changed = false;
  talker_name = [];
  friends = friends;
}

abbrev zlh : Player
zlh = player (pos 1) (codes "zlh") ((codes "cpt", none) ∷ (codes "lys", some (pos 4)) ∷ [])

abbrev other : Player
other = player (pos 9) (codes "wy") ((codes "abc", some (pos 1)) ∷ [])

abbrev disk : Disk Bytes
disk = record { can_write = true; file = none }

load-save_example :
    ((save_player_data (archive boost) zlh disk).0 ≡ true)
    × (load_player_data (archive boost) other (save_player_data (archive boost) zlh disk).1
        ≡ returned (true, record other { data' = zlh.data'; friends = zlh.friends }))
unfolding bytes_lt
load-save_example = load-save boost laws zlh other disk (refl, tt) refl
