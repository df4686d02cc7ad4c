-- ===== src/Util/Split.antt =====
-- A function that splits at one separator as boost::split does, and a name and a password that can be
-- typed, for the tests.
use ifellsofuckinggood.Prelude.{
  ℕ, ◌≡◌, refl, Bytes, codes, true, false, List, [], ◌∷◌, ◌++◌, ◌==◌, if◌then◌else◌, arith,
}
use ifellsofuckinggood.TransObj.{name_max_len, password_max_len}
use ifellsofuckinggood.Util.Typed.{Free, Splits, IsTypeable}

glue : ℕ → List Bytes → List Bytes
glue x [] = (x ∷ []) ∷ []
glue x (p ∷ ps) = (x ∷ p) ∷ ps

split_at : ℕ → Bytes → List Bytes
unfolding glue
split_at c [] = [] ∷ []
split_at c (x ∷ t) = let rest = split_at c t in if x == c then [] ∷ rest else glue x rest

unfoldable pub split_text : Bytes → Bytes → List Bytes
unfolding split_at
split_text t [] = t ∷ []
split_text t (c ∷ more) = split_at c t

split_at-whole : (c : ℕ) (t : Bytes) → Free c t → split_at c t ≡ t ∷ []
unfolding split_at
split_at-whole c [] h = refl
split_at-whole c (x ∷ t) h =
    let n : (x == c) ≡ false = ground arith in rw (n, split_at-whole c t h.1) refl

split_at-first :
    (c : ℕ) (t rest : Bytes) → Free c t → split_at c (t ++ c ∷ rest) ≡ t ∷ split_at c rest
unfolding split_at
split_at-first c [] rest h = let n : (c == c) ≡ true = ground arith in rw n refl
split_at-first c (x ∷ t) rest h =
    let n : (x == c) ≡ false = ground arith in rw (n, split_at-first c t rest h.1) refl

pub split_text-Splits : Splits split_text
unfolding split_text
split_text-Splits = record {
  whole = λ c t h. split_at-whole c t h;
  first = λ c t rest h. split_at-first c t rest h;
}

pub name-IsTypeable : IsTypeable name_max_len (codes "zlh")
name-IsTypeable = record {
  short = omega arith;
  at_free = ground arith;
  bar_free = ground arith;
  percent_free = ground arith;
  nul_free = ground arith;
}

pub passwd-IsTypeable : IsTypeable password_max_len (codes "123")
passwd-IsTypeable = record {
  short = omega arith;
  at_free = ground arith;
  bar_free = ground arith;
  percent_free = ground arith;
  nul_free = ground arith;
}
