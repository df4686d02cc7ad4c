-- ===== src/MyLog/Ztime.antt =====
-- smer/Util/inc/ZTime.h: the time as a text. What boost gives for the local time, `iso`, is an argument.
use ifellsofuckinggood.Prelude.{
  ℕ, suc, ◌+◌, ◌-◌, ◌≡◌, ◌≢◌, refl, sym, ap, ◌∙◌, Bytes, codes, true, false, Option, none, some, [],
  ◌∷◌, ◌++◌, All, append_assoc, ltb, le→ltb, ◌==◌, ◌>>=◌, if◌then◌else◌, length, length-append,
  take, drop, take-append, drop-append, Outcome, returned, thrown, undefined, arith,
}

unfoldable pub find_char : ℕ → Bytes → Option ℕ
find_char c [] = none
find_char c (x ∷ t) =
    let later = find_char c t in if x == c then some 0 else later >>= λ i. some (suc i)

-- `pos + k`, where k is not 0: a position that was not found is -1.
abbrev pub place : Option ℕ → ℕ → ℕ
place none k = k - 1
place (some i) k = i + k

-- std::string::replace of n characters from i on.
unfoldable pub replaced : ℕ → ℕ → Bytes → Bytes → Outcome Bytes
replaced i n s t = if ltb (length t) i then thrown else returned (take i t ++ (s ++ drop (i + n) t))

-- std::string::substr from i on.
unfoldable pub substr_from : ℕ → Bytes → Outcome Bytes
substr_from i t = if ltb (length t) i then thrown else returned (drop i t)

abbrev pub next_text : Outcome Bytes → (Bytes → Outcome Bytes) → Outcome Bytes
next_text (returned t) k = k t
next_text thrown k = thrown
next_text undefined k = undefined

-- The two colons.
unfoldable pub with_colons : Option ℕ → Bytes → Outcome Bytes
unfolding replaced
with_colons pos t =
    next_text (replaced (place pos 3) 0 (codes ":") t) (replaced (place pos 6) 0 (codes ":"))

ymdhms_at : Option ℕ → Bytes → Outcome Bytes
unfolding with_colons
ymdhms_at none iso = thrown
ymdhms_at (some i) iso = next_text (replaced i 1 (codes "-") iso) (with_colons (some i))

unfoldable pub get_cur_time_with_ymdhms : Bytes → Outcome Bytes
unfolding ymdhms_at find_char
get_cur_time_with_ymdhms iso = ymdhms_at (find_char b'T' iso) iso

before : Option ℕ → Bytes → Bytes
before none iso = iso
before (some i) iso = take i iso

unfoldable pub get_cur_time_with_ymd : Bytes → Bytes
unfolding find_char before
get_cur_time_with_ymd iso = before (find_char b'T' iso) iso

unfoldable pub get_cur_time_with_hms : Bytes → Outcome Bytes
unfolding with_colons substr_from find_char
get_cur_time_with_hms iso =
    let pos = find_char b'T' iso in next_text (with_colons pos iso) (substr_from (place pos 1))

-- A time as boost writes it, YYYYMMDDTHHMMSS.
pub record Clock : Type 0 where
  pub day : Bytes
  pub hour : Bytes
  pub minute : Bytes
  pub second : Bytes

abbrev pub iso_of : Clock → Bytes
iso_of c = c.day ++ b'T' ∷ (c.hour ++ (c.minute ++ c.second))

abbrev pub hms_of : Clock → Bytes
hms_of c = c.hour ++ (b':' ∷ (c.minute ++ b':' ∷ c.second))

pub record IsClock (c : Clock) : Type 0 where
  pub day : All (λ b. b ≢ b'T') c.day
  pub hour : length c.hour ≡ 2
  pub minute : length c.minute ≡ 2

find_char-first :
    (c : ℕ) (t rest : Bytes) → All (λ b. b ≢ c) t → find_char c (t ++ c ∷ rest) ≡ some (length t)
unfolding find_char
find_char-first c [] rest h = let e : (c == c) ≡ true = ground arith in rw e refl
find_char-first c (x ∷ t) rest h =
    let e : (x == c) ≡ false = ground arith in rw (e, find_char-first c t rest h.1) refl

replaced-append :
    (xs ys s : Bytes) (i : ℕ)
    → length xs ≡ i
    → replaced i 0 s (xs ++ ys) ≡ returned (xs ++ (s ++ ys))
unfolding replaced
replaced-append xs ys s i e =
    let e0 : i + 0 ≡ i = omega arith in
    rw
      (
        e0,
        le→ltb i (length (xs ++ ys)) (omega (arith, length-append xs ys)),
        take-append i xs ys e,
        drop-append i xs ys e,
      )
      refl

with_colons-append :
    (xs m s : Bytes) (i : ℕ)
    → length xs ≡ i + 3
    → length m ≡ 2
    → with_colons (some i) (xs ++ (m ++ s)) ≡ returned (xs ++ (b':' ∷ (m ++ b':' ∷ s)))
unfolding with_colons
with_colons-append xs m s i e n =
    let second : replaced (i + 6) 0 (codes ":") (xs ++ (b':' ∷ (m ++ s)))
        ≡ returned (xs ++ (b':' ∷ (m ++ b':' ∷ s))) =
      ap (replaced (i + 6) 0 (codes ":")) (sym (append_assoc xs (b':' ∷ m) s))
      ∙ replaced-append (xs ++ (b':' ∷ m)) s (codes ":") (i + 6)
          (omega (arith, length-append xs (b':' ∷ m)))
      ∙ ap returned (append_assoc xs (b':' ∷ m) (b':' ∷ s)) in
    rw (replaced-append xs (m ++ s) (codes ":") (i + 3) e) second

-- For a time as boost writes it, getCurTimeWithHms gives the time with colons, getCurTimeWithYmd the day,
-- and getCurTimeWithYmdhms both with a dash between them.
pub cur_times :
    (c : Clock)
    → IsClock c
    → (get_cur_time_with_hms (iso_of c) ≡ returned (hms_of c))
      × (get_cur_time_with_ymd (iso_of c) ≡ c.day)
      × (get_cur_time_with_ymdhms (iso_of c) ≡ returned (c.day ++ b'-' ∷ hms_of c))
unfolding get_cur_time_with_hms get_cur_time_with_ymd get_cur_time_with_ymdhms ymdhms_at replaced
    substr_from
cur_times c v =
    let n = length c.day in
    let at = find_char-first b'T' c.day (c.hour ++ (c.minute ++ c.second)) v.day in
    let after : (x : ℕ) (t : Bytes) → drop (n + 1) (c.day ++ x ∷ t) ≡ t = λ x t.
      ap (drop (n + 1)) (sym (append_assoc c.day (x ∷ []) t))
      ∙ drop-append (n + 1) (c.day ++ x ∷ []) t (length-append c.day (x ∷ [])) in
    let colons : (x : ℕ)
        → with_colons (some n) (c.day ++ x ∷ (c.hour ++ (c.minute ++ c.second)))
          ≡ returned (c.day ++ x ∷ hms_of c) =
      λ x.
        ap (with_colons (some n)) (sym (append_assoc c.day (x ∷ c.hour) (c.minute ++ c.second)))
        ∙ with_colons-append (c.day ++ x ∷ c.hour) c.minute c.second n
            (omega (arith, length-append c.day (x ∷ c.hour), v.hour)) v.minute
        ∙ ap returned (append_assoc c.day (x ∷ c.hour) (b':' ∷ (c.minute ++ b':' ∷ c.second))) in
    (
      rw
          (
            at,
            colons b'T',
            le→ltb (n + 1) (length (c.day ++ b'T' ∷ hms_of c))
                (omega (arith, length-append c.day (b'T' ∷ hms_of c))),
          )
          (ap returned (after b'T' (hms_of c))),
      rw (at, take-append n c.day (b'T' ∷ (c.hour ++ (c.minute ++ c.second))) refl) refl,
      rw
          (
            at,
            le→ltb n (length (iso_of c))
                (omega (arith, length-append c.day (b'T' ∷ (c.hour ++ (c.minute ++ c.second))))),
            take-append n c.day (b'T' ∷ (c.hour ++ (c.minute ++ c.second))) refl,
            after b'T' (c.hour ++ (c.minute ++ c.second)),
          )
          (colons b'-'),
    )
