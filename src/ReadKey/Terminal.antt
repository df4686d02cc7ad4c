-- ===== src/ReadKey/Terminal.antt =====
-- The descriptor that every scan of smer/Input/src/ReadKey.cpp opens and never closes. The kernel gives the
-- lowest free number, as POSIX says, up to the limit of the process.
use ifellsofuckinggood.Prelude.{
  ℕ, zero, suc, ◌+◌, ◌≡◌, ◌≤◌, ◌<◌, refl, ap, ◌∙◌, Bytes, Bool, true, false, Option, none, some,
  List, [], ◌∷◌, ltb, lt→ltb, if◌then◌else◌, length, arith, Bool-cases, inl, inr,
}
use ifellsofuckinggood.TransObj.{TransObj}
use ifellsofuckinggood.ReadKey.{ReadKey, scan_key_board}

-- The process has the descriptors below `used`.
pub record Descriptors : Type 0 where
  pub used : ℕ
  pub limit : ℕ

-- FD_SETSIZE
abbrev pub fd_setsize : ℕ
fd_setsize = 1024

-- open: `none` is -1.
unfoldable pub open_tty : Descriptors → Option ℕ × Descriptors
open_tty d = if ltb d.used d.limit then (some d.used, record d { used = suc d.used }) else (none, d)

-- A scan, one whose assertion ends the program, or one that writes outside an fd_set.
pub data Scanned : Type 0 where
  scanned : ReadKey → Descriptors → Scanned
  aborted : Scanned
  outside : Scanned

module _ (image : ℕ → Bytes) (junk : TransObj) (junk_key : ℕ) where
  -- The rest of the scan, with what `open` has given.
  on_tty : Option ℕ → ReadKey → Option ℕ × Descriptors → Scanned
  on_tty key s (none, d) = aborted
  on_tty key s (some zero, d) = aborted
  on_tty key s (some (suc n), d) =
      if ltb (suc n) fd_setsize
      then scanned (scan_key_board image junk false junk_key key s).1 d
      else outside

  unfoldable pub scan : Bool → Option ℕ → ReadKey → Descriptors → Scanned
  unfolding on_tty open_tty
  scan true key s d = scanned (scan_key_board image junk true junk_key key s).1 d
  scan false key s d = on_tty key s (open_tty d)

  next_scan : (ReadKey → Descriptors → Scanned) → Scanned → Scanned
  next_scan f (scanned s d) = f s d
  next_scan f aborted = aborted
  next_scan f outside = outside

  -- Scans one after another, each with the key that it reads, if there is one.
  unfoldable pub scans : List (Option ℕ) → ReadKey → Descriptors → Scanned
  unfolding next_scan
  scans [] s d = scanned s d
  scans (k ∷ ks) s d = next_scan (scans ks) (scan false k s d)

  -- The scans without the descriptors.
  unfoldable pub keys_scanned : List (Option ℕ) → ReadKey → ReadKey
  keys_scanned [] s = s
  keys_scanned (k ∷ ks) s = keys_scanned ks (scan_key_board image junk false junk_key k s).1

  scan-opens :
      (k : Option ℕ) (s : ReadKey) (n limit : ℕ)
      → suc n < limit
      → suc n < fd_setsize
      → scan false k s (record { used = suc n; limit = limit })
        ≡ scanned
            (scan_key_board image junk false junk_key k s).1
            (record { used = suc (suc n); limit = limit })
  unfolding scan on_tty open_tty
  scan-opens k s n limit h l = simp (lt→ltb (suc n) limit h, lt→ltb (suc n) fd_setsize l)

  scan-aborts :
      (k : Option ℕ) (s : ReadKey) (limit : ℕ)
      → scan false k s (record { used = limit; limit = limit }) ≡ aborted
  unfolding scan on_tty open_tty
  scan-aborts k s limit = let e : ltb limit limit ≡ false = ground arith in rw e refl

  -- From a process with its standard descriptors and a limit of at most 1024: the scans go on as long as
  -- there are descriptors left, and the first one after that ends the program.
  pub scans-bounded :
      (ks : List (Option ℕ)) (s : ReadKey) (n limit : ℕ)
      → suc n ≤ limit
      → limit ≤ fd_setsize
      → (suc n + length ks ≤ limit
          → scans ks s (record { used = suc n; limit = limit })
            ≡ scanned (keys_scanned ks s) (record { used = suc n + length ks; limit = limit }))
        × (limit < suc n + length ks
            → scans ks s (record { used = suc n; limit = limit }) ≡ aborted)
  unfolding scans keys_scanned next_scan
  scans-bounded [] s n limit h l = (
    λ k.
        let e : suc n ≡ suc n + 0 = omega arith in
        ap (λ u. scanned s (record { used = u; limit = limit })) e,
    λ k. absurd (omega arith),
  )
  scans-bounded (k ∷ ks) s n limit h l = elim (Bool-cases (ltb (suc n) limit)) [
    | inl b ↦
        let s' = (scan_key_board image junk false junk_key k s).1 in
        let one = scan-opens k s n limit (ground arith) (ground arith) in
        let rest = scans-bounded ks s' (suc n) limit (ground arith) l in
        let e : suc (suc n) + length ks ≡ suc n + suc (length ks) = omega arith in
        (
          λ q. rw one (
              rest.0 (omega arith)
              ∙ ap (λ u. scanned (keys_scanned ks s') (record { used = u; limit = limit })) e),
          λ q. rw one (rest.1 (omega arith)),
        )
    | inr b ↦
        let e : suc n ≡ limit = ground arith in
        (λ q. absurd (ground arith), λ q. rw (e, scan-aborts k s limit) refl)
  ]
