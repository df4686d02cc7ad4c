-- ===== src/Prelude/Memory.antt =====
-- Memory as lists of bytes, and the C library's string functions that the program calls.
use Prim.Native.Nat.{ℕ, zero, suc, ◌+◌, ◌-◌, ◌*◌, ◌/◌, ◌%◌, ◌≤◌, ◌<◌}
use Prim.Native.Char.{code}
use Prim.Native.String.{String}
use mathlib.Core.Path.{◌≡◌, refl, ap, ◌∙◌}
use mathlib.Core.Logic.{◌≢◌, inl, inr}
use mathlib.Core.Bool.{Bool, true, false, ◌&&◌, ◌||◌}
use mathlib.Core.List.{List, [], ◌∷◌, ◌++◌}
use mathlib.Core.Option.{Option, none, some}
use native.Mathlib.Omega.{arith}
use ifellsofuckinggood.Prelude.Int.{ℤ, pos, negsuc}
use ifellsofuckinggood.Prelude.Tests.{ltb, leb, ◌==◌, if◌then◌else◌, ◌>>=◌, Bool-cases}
use ifellsofuckinggood.Prelude.Lists.{
  length, take, drop, replicate, All, length-replicate, drop-replicate,
}

abbrev pub Bytes : Type 0
Bytes = List ℕ

-- The bytes of an ASCII literal.
abbrev pub codes : String → Bytes
codes String.[] = []
codes (String.◌∷◌ c s) = code c ∷ codes s

-- operator== of two texts
unfoldable pub bytes_eq : Bytes → Bytes → Bool
bytes_eq [] [] = true
bytes_eq [] (y ∷ ys) = false
bytes_eq (x ∷ xs) [] = false
bytes_eq (x ∷ xs) (y ∷ ys) = (x == y) && bytes_eq xs ys

pub bytes_eq_sound : (xs ys : Bytes) → bytes_eq xs ys ≡ true → xs ≡ ys
unfolding bytes_eq
bytes_eq_sound [] [] h = refl
bytes_eq_sound [] (y ∷ ys) h = ground arith
bytes_eq_sound (x ∷ xs) [] h = ground arith
bytes_eq_sound (x ∷ xs) (y ∷ ys) h = ground (arith, bytes_eq_sound xs ys)

pub bytes_eq_refl : (xs : Bytes) → bytes_eq xs xs ≡ true
unfolding bytes_eq
bytes_eq_refl [] = refl
bytes_eq_refl (x ∷ xs) = ground (arith, bytes_eq_refl xs)

-- What a `const char*` at the start of this memory reads as: the bytes before the first NUL.
-- `none` is a read past the end of the memory.
unfoldable pub c_string : Bytes → Option Bytes
c_string [] = none
c_string (b ∷ bs) =
    let rest = c_string bs in if b == 0 then some [] else (rest >>= λ t. some (b ∷ t))

-- A text that a `const char*` can carry.
abbrev pub NulFree : Bytes → Type 0
NulFree = All (λ b. b ≢ 0)

pub c_string-append_nul : (t rest : Bytes) → NulFree t → c_string (t ++ 0 ∷ rest) ≡ some t
unfolding c_string
c_string-append_nul [] rest h = refl
c_string-append_nul (b ∷ t) rest h = ground (arith, c_string-append_nul t rest h.1)

-- string::c_str, as a reader of the `const char*` sees it.
unfoldable pub before_nul : Bytes → Bytes
before_nul [] = []
before_nul (b ∷ bs) = let rest = before_nul bs in if b == 0 then [] else b ∷ rest

pub before_nul-NulFree : (t : Bytes) → NulFree t → before_nul t ≡ t
unfolding before_nul
before_nul-NulFree [] h = refl
before_nul-NulFree (b ∷ t) h = ground (arith, before_nul-NulFree t h.1)

-- Memory that ends in a NUL has a text.
pub c_string-ends :
    (t : Bytes) (n : ℕ) → (text : Bytes) × (c_string (t ++ replicate (suc n) 0) ≡ some text)
unfolding c_string
c_string-ends [] n = ([], refl)
c_string-ends (b ∷ t) n =
    let ih = c_string-ends t n in
    elim (Bool-cases (b == 0)) [ inl e ↦ ([], rw e refl) | inr e ↦ (b ∷ ih.0, rw (e, ih.1) refl) ]

-- memcpy(buf, xs, xs.size())
unfoldable pub overwrite : Bytes → Bytes → Bytes
overwrite [] buf = buf
overwrite (x ∷ xs) [] = []
overwrite (x ∷ xs) (b ∷ buf) = x ∷ overwrite xs buf

pub length-overwrite : (xs buf : Bytes) → length (overwrite xs buf) ≡ length buf
unfolding overwrite
length-overwrite [] buf = refl
length-overwrite (x ∷ xs) [] = refl
length-overwrite (x ∷ xs) (b ∷ buf) = ap suc (length-overwrite xs buf)

pub overwrite-drop :
    (xs buf : Bytes) → length xs ≤ length buf → overwrite xs buf ≡ xs ++ drop (length xs) buf
unfolding overwrite
overwrite-drop [] buf h = refl
overwrite-drop (x ∷ xs) [] h = absurd (omega arith)
overwrite-drop (x ∷ xs) (b ∷ buf) h = ap (◌∷◌ x) (overwrite-drop xs buf (omega arith))

-- memcpy(buf + at, xs, xs.size())
unfoldable pub write_at : ℕ → Bytes → Bytes → Bytes
unfolding overwrite
write_at zero xs buf = overwrite xs buf
write_at (suc k) xs [] = []
write_at (suc k) xs (b ∷ buf) = b ∷ write_at k xs buf

pub length-write_at : (k : ℕ) (xs buf : Bytes) → length (write_at k xs buf) ≡ length buf
unfolding write_at
length-write_at zero xs buf = length-overwrite xs buf
length-write_at (suc k) xs [] = refl
length-write_at (suc k) xs (b ∷ buf) = ap suc (length-write_at k xs buf)

-- A write into the second of two adjacent regions.
pub write_at-append :
    (k : ℕ) (xs front back : Bytes)
    → length front ≡ k
    → write_at k xs (front ++ back) ≡ front ++ overwrite xs back
unfolding write_at
write_at-append zero xs [] back h = refl
write_at-append zero xs (f ∷ front) back h = absurd (omega arith)
write_at-append (suc k) xs [] back h = absurd (omega arith)
write_at-append (suc k) xs (f ∷ front) back h =
    ap (◌∷◌ f) (write_at-append k xs front back (omega arith))

-- A write that fits into the first of two adjacent regions.
pub overwrite-append :
    (xs front back : Bytes)
    → length xs ≤ length front
    → overwrite xs (front ++ back) ≡ overwrite xs front ++ back
unfolding overwrite
overwrite-append [] front back h = refl
overwrite-append (x ∷ xs) [] back h = absurd (omega arith)
overwrite-append (x ∷ xs) (f ∷ front) back h =
    ap (◌∷◌ x) (overwrite-append xs front back (omega arith))

-- memset(buf + at, 0, n)
unfoldable pub memset_zero : ℕ → ℕ → Bytes → Bytes
unfolding write_at
memset_zero k n buf = write_at k (replicate n 0) buf

-- A number in decimal, most significant digit first, with fuel for the digits.
unfoldable pub digits : ℕ → ℕ → Bytes
digits zero n = []
digits (suc f) n =
    let rest = digits f (n / 10) in
    if ltb n 10 then (b'0' + n) ∷ [] else rest ++ (b'0' + n % 10) ∷ []

-- std::to_string of an int; n has fewer than n + 1 digits.
unfoldable pub to_string : ℤ → Bytes
unfolding digits
to_string (pos n) = digits (suc n) n
to_string (negsuc n) = b'-' ∷ digits (suc (suc n)) (suc n)

-- The variadic arguments of printf.
pub data Arg : Type 0 where
  str : Bytes → Arg
  int : ℤ → Arg

-- What a directive prints, with the arguments that are left. `none` is undefined behaviour: an
-- argument that is missing or has another type, or a directive that the program does not use.
unfoldable pub directive : ℕ → List Arg → Option (Bytes × List Arg)
directive d [] = if d == b'%' then some (b'%' ∷ [], []) else none
directive d (str t ∷ rest) =
    if d == b'%' then some (b'%' ∷ [], str t ∷ rest) else if d == b's' then some (t, rest) else none
directive d (int z ∷ rest) =
    if d == b'%'
    then some (b'%' ∷ [], int z ∷ rest)
    else if d == b'd'
    then some (to_string z, rest)
    else none

-- The text that printf makes of a format and its arguments.
unfoldable pub format : Bytes → List Arg → Option Bytes
unfolding directive to_string
format [] args = some []
format (c ∷ []) args = if c == b'%' then none else some (c ∷ [])
format (c ∷ d ∷ t) args =
    let plain = format (d ∷ t) args >>= λ r. some (c ∷ r) in
    let directed = directive d args >>= λ o. format t o.1 >>= λ r. some (o.0 ++ r) in
    if c == b'%' then directed else plain

-- A text with no directive.
abbrev pub PercentFree : Bytes → Type 0
PercentFree = All (λ b. b ≢ b'%')

pub format-PercentFree : (t : Bytes) (args : List Arg) → PercentFree t → format t args ≡ some t
unfolding format
format-PercentFree [] args h = refl
format-PercentFree (c ∷ []) args h = ground arith
format-PercentFree (c ∷ d ∷ t) args h = ground (arith, format-PercentFree (d ∷ t) args h.1)

-- What snprintf(dst, n, …) stores, for 0 < n: the text cut to n - 1 bytes, and a NUL.
unfoldable pub snprintf_bytes : ℕ → Bytes → Bytes
snprintf_bytes n t = take (n - 1) t ++ 0 ∷ []

-- A write over the whole region.
pub overwrite_all : (xs buf : Bytes) → length xs ≡ length buf → overwrite xs buf ≡ xs
unfolding overwrite
overwrite_all [] [] h = refl
overwrite_all [] (b ∷ buf) h = absurd (omega arith)
overwrite_all (x ∷ xs) [] h = absurd (omega arith)
overwrite_all (x ∷ xs) (b ∷ buf) h = ap (◌∷◌ x) (overwrite_all xs buf (omega arith))

-- A text written over cleared memory is padded with zeros.
pub overwrite-replicate :
    (t : Bytes) (n : ℕ)
    → length t ≤ n
    → overwrite t (replicate n 0) ≡ t ++ replicate (n - length t) 0
overwrite-replicate t n h =
    overwrite-drop t (replicate n 0) (omega (arith, length-replicate {A = ℕ} n 0))
    ∙ ap (◌++◌ t) (drop-replicate (length t) n 0)

-- Cleared memory with a text in it reads as that text.
pub c_string-padded :
    (t rest : Bytes) (n : ℕ) → NulFree t → 0 < n → c_string (t ++ (replicate n 0 ++ rest)) ≡ some t
c_string-padded t rest zero h k = absurd (omega arith)
c_string-padded t rest (suc n) h k = c_string-append_nul t (replicate n 0 ++ rest) h

unfoldable pub is_space : ℕ → Bool
is_space c = (c == b' ') || (leb 9 c && leb c 13)

unfoldable pub is_digit : ℕ → Bool
is_digit c = leb b'0' c && leb c b'9'

unfoldable pub skip_spaces : Bytes → Bytes
unfolding is_space
skip_spaces [] = []
skip_spaces (c ∷ t) = let rest = skip_spaces t in if is_space c then rest else c ∷ t

-- The number that the leading digits write, behind `acc`.
unfoldable pub scan : ℕ → Bytes → ℕ
unfolding is_digit
scan acc [] = acc
scan acc (c ∷ t) = let rest = scan (acc * 10 + (c - b'0')) t in if is_digit c then rest else acc

unfoldable pub neg_of : ℕ → ℤ
neg_of zero = pos 0
neg_of (suc n) = negsuc n

unfoldable pub signed : Bytes → ℤ
unfolding scan neg_of
signed [] = pos 0
signed (c ∷ t) =
    if c == b'-'
    then neg_of (scan 0 t)
    else if c == b'+'
    then pos (scan 0 t)
    else pos (scan 0 (c ∷ t))

-- atoi, for a number in the range of an int.
unfoldable pub atoi : Bytes → ℤ
unfolding skip_spaces signed
atoi t = signed (skip_spaces t)
