-- ===== src/Prelude/Decimal.antt =====
-- Decimal numbers: what atoi makes of what to_string writes.
use Prim.Native.Nat.{ℕ, zero, suc, ◌+◌, ◌-◌, ◌*◌, ◌/◌, ◌%◌, ◌≤◌, ◌<◌}
use mathlib.Core.Path.{◌≡◌, refl, ap, ◌∙◌}
use mathlib.Core.Logic.{◌≢◌, ◌⊎◌, inl, inr}
use mathlib.Core.List.{[], ◌∷◌, ◌++◌, concat-ne-nil}
use native.Mathlib.Omega.{arith}
use ifellsofuckinggood.Prelude.Int.{ℤ, pos, negsuc}
use ifellsofuckinggood.Prelude.Tests.{ltb, Bool-cases}
use ifellsofuckinggood.Prelude.Lists.{All}
use ifellsofuckinggood.Prelude.Memory.{
  Bytes, digits, to_string, is_space, is_digit, skip_spaces, scan, neg_of, signed, atoi, NulFree,
}

abbrev pub Digits : Bytes → Type 0
Digits = All (λ c. (b'0' ≤ c) × (c ≤ b'9'))

-- Digits are no other byte.
Digits-All : (d : ℕ) (t : Bytes) → (d < b'0') ⊎ (b'9' < d) → Digits t → All (λ b. b ≢ d) t
Digits-All d [] o h = tt
Digits-All d (c ∷ t) o h = (ground arith, Digits-All d t o h.1)

All-snoc : (xs : Bytes) (c : ℕ) → Digits xs → (b'0' ≤ c) × (c ≤ b'9') → Digits (xs ++ c ∷ [])
All-snoc [] c h k = (k, tt)
All-snoc (x ∷ xs) c h k = (h.0, All-snoc xs c h.1 k)

digits-Digits : (f n : ℕ) → Digits (digits f n)
unfolding digits
digits-Digits zero n = tt
digits-Digits (suc f) n = elim (Bool-cases (ltb n 10)) [
  | inl e ↦ rw e (ground arith)
  | inr e ↦ rw e (
      All-snoc (digits f (n / 10)) (b'0' + n % 10) (digits-Digits f (n / 10))
        (omega arith, omega arith))
]

scan-snoc :
    (a : ℕ) (xs : Bytes) (c : ℕ)
    → Digits xs
    → c ≤ 9
    → scan a (xs ++ (b'0' + c) ∷ []) ≡ scan a xs * 10 + c
unfolding scan is_digit
scan-snoc a [] c h k = ground arith
scan-snoc a (x ∷ xs) c h k = ground (arith, scan-snoc (a * 10 + (x - b'0')) xs c h.1 k)

scan-digits : (f n : ℕ) → n < f → scan 0 (digits f n) ≡ n
unfolding digits
scan-digits zero n h = absurd (omega arith)
scan-digits (suc f) n h = elim (Bool-cases (ltb n 10)) [
  | inl e ↦ rw e (unfold scan is_digit in ground arith)
  | inr e ↦ rw e (
      scan-snoc 0 (digits f (n / 10)) (n % 10) (digits-Digits f (n / 10)) (omega arith)
      ∙ (let ih = scan-digits f (n / 10) (ground arith) in omega arith))
]

digits-ne-nil : (f n : ℕ) → digits (suc f) n ≢ []
unfolding digits
digits-ne-nil f n h = elim (Bool-cases (ltb n 10)) [
  | inl e ↦ ground arith
  | inr e ↦ grind (arith, concat-ne-nil)
]

signed-Digits : (t : Bytes) → Digits t → t ≢ [] → signed (skip_spaces t) ≡ pos (scan 0 t)
unfolding signed skip_spaces is_space
signed-Digits [] h k = absurd (k refl)
signed-Digits (c ∷ t) h k = ground arith

signed-negative : (t : Bytes) → signed (skip_spaces (b'-' ∷ t)) ≡ neg_of (scan 0 t)
unfolding signed skip_spaces is_space
signed-negative t = ground arith

-- Reading back the decimal text of an integer gives the integer.
pub atoi-to_string : (z : ℤ) → atoi (to_string z) ≡ z
unfolding atoi to_string neg_of
atoi-to_string (pos n) =
    signed-Digits (digits (suc n) n) (digits-Digits (suc n) n) (digits-ne-nil n n)
    ∙ ap pos (scan-digits (suc n) n (omega arith))
atoi-to_string (negsuc n) =
    signed-negative (digits (suc (suc n)) (suc n))
    ∙ ap neg_of (scan-digits (suc (suc n)) (suc n) (omega arith))

pub to_string-All : (d n : ℕ) → (d < b'0') ⊎ (b'9' < d) → All (λ b. b ≢ d) (to_string (pos n))
unfolding to_string
to_string-All d n o = Digits-All d (digits (suc n) n) o (digits-Digits (suc n) n)

pub NulFree-to_string : (n : ℕ) → NulFree (to_string (pos n))
NulFree-to_string n = to_string-All 0 n (inl (omega arith))
