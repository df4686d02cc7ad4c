-- ===== src/TransObj/Text.antt =====
-- The setters and getters of the text fields.
use ifellsofuckinggood.Prelude.{
  ℕ, suc, ◌+◌, ◌-◌, ◌≤◌, ◌<◌, ◌≡◌, ◌⊎◌, refl, ap, Bytes, Bool, true, false, some, [], ◌∷◌, ◌++◌,
  arith, ltb, leb, length, drop, replicate, NulFree, PercentFree, lt→leb, overwrite_all,
  overwrite-replicate, overwrite-append, write_at-append, length-replicate, length-append, take_all,
  drop-append, c_string, overwrite, write_at, memset_zero, format-PercentFree, snprintf_bytes,
  length-overwrite, append_assoc, append-nil, c_string-padded, ◌&&◌, inl, inr, Bool-cases,
}
use ifellsofuckinggood.TransObj.{
  TransObj, IsSized, max_trans_msg_len, name_max_len, password_max_len, clear_msg, set_msg,
  set_name, set_passwd, set_name_passwd, get_name, get_passwd, get_msg,
}

memset_whole : (n : ℕ) (buf : Bytes) → length buf ≡ n → memset_zero 0 n buf ≡ replicate n 0
unfolding memset_zero
memset_whole n buf h =
    overwrite_all (replicate n 0) buf (omega (arith, length-replicate {A = ℕ} n 0))

-- After a text is copied into cleared memory.
set_msg-padded :
    (t : Bytes) (o : TransObj)
    → IsSized o
    → length t < max_trans_msg_len
    → set_msg t o ≡ (true, record o { msg = t ++ replicate (max_trans_msg_len - length t) 0 })
unfolding set_msg write_at
set_msg-padded t o s h = rw (
  lt→leb (length t) max_trans_msg_len h,
  memset_whole 64 o.msg s,
  overwrite-replicate t 64 (omega arith),
)

ge_of_leb : (n : ℕ) → leb 64 n ≡ false → n < 64
ge_of_leb n e = ground arith

pub set_msg-IsSized : (t : Bytes) (o : TransObj) → IsSized o → IsSized (set_msg t o).1
set_msg-IsSized t o s = elim (Bool-cases (leb 64 (length t))) [
  | inl e ↦ unfold set_msg in rw e s
  | inr e ↦ rw (set_msg-padded t o s (ground arith)) (
      omega (
        arith,
        length-append t (replicate (64 - length t) 0),
        length-replicate {A = ℕ} (64 - length t) 0,
        ge_of_leb (length t) e,
      ))
]

snprintf_fits : (n : ℕ) (t : Bytes) → length t < n → snprintf_bytes n t ≡ t ++ 0 ∷ []
unfolding snprintf_bytes
snprintf_fits n t h = ap (λ x. x ++ 0 ∷ []) (take_all (n - 1) t (omega arith))

replicate_more :
    (k n : ℕ) → k < n → ◌≡◌ {A = Bytes} (0 ∷ replicate (n - (k + 1)) 0) (replicate (n - k) 0)
replicate_more k n h =
    let e : suc (n - (k + 1)) ≡ n - k = omega arith in ap (λ m. replicate {A = ℕ} m 0) e

length-snprintf : (n : ℕ) (t : Bytes) → length t < n → length (snprintf_bytes n t) ≡ length t + 1
length-snprintf n t h = rw (snprintf_fits n t h) (length-append t (0 ∷ []))

-- A text that snprintf stores into a cleared region: the text, and zeros up to the region's end.
stored_region :
    (n : ℕ) (t region : Bytes)
    → length region ≡ n
    → length t < n
    → overwrite (snprintf_bytes n t) (overwrite (replicate n 0) region)
      ≡ t ++ replicate (n - length t) 0
stored_region n t region r h =
    rw
      (
        overwrite_all (replicate n 0) region (omega (arith, length-replicate {A = ℕ} n 0)),
        snprintf_fits n t h,
        overwrite-replicate (t ++ 0 ∷ []) n (omega (arith, length-append t (0 ∷ []))),
        length-append t (0 ∷ []),
        append_assoc,
      )
      (ap (◌++◌ t) (replicate_more (length t) n h))

name_region :
    (n : ℕ) (t front back : Bytes)
    → length front ≡ n
    → length t < n
    → write_at 0 (snprintf_bytes n t) (memset_zero 0 n (front ++ back))
      ≡ (t ++ replicate (n - length t) 0) ++ back
unfolding memset_zero write_at
name_region n t front back r h =
    rw
      (
        overwrite-append (replicate n 0) front back (omega (arith, length-replicate {A = ℕ} n 0)),
        overwrite-append (snprintf_bytes n t) (overwrite (replicate n 0) front) back
            (omega (arith, length-snprintf n t h, length-overwrite (replicate n 0) front)),
      )
      (ap (λ x. x ++ back) (stored_region n t front r h))

passwd_region :
    (k n : ℕ) (t front back : Bytes)
    → length front ≡ k
    → length back ≡ n
    → length t < n
    → write_at k (snprintf_bytes n t) (memset_zero k n (front ++ back))
      ≡ front ++ (t ++ replicate (n - length t) 0)
unfolding memset_zero
passwd_region k n t front back r b h =
    rw
      (
        write_at-append k (replicate n 0) front back r,
        write_at-append k (snprintf_bytes n t) front (overwrite (replicate n 0) back) r,
      )
      (ap (◌++◌ front) (stored_region n t back b h))

module _ (o : TransObj) (front back : Bytes) (split : o.msg ≡ front ++ back) where
  set_name-region :
      (t : Bytes)
      → length front ≡ 24
      → length t < 24
      → PercentFree t
      → set_name t o ≡ some (true, record o { msg = (t ++ replicate (24 - length t) 0) ++ back })
  unfolding set_name
  set_name-region t f h p =
      rw (lt→leb (length t) 24 h, format-PercentFree t [] p, split, name_region 24 t front back f h)

  set_passwd-region :
      (t : Bytes)
      → length front ≡ 24
      → length back ≡ 40
      → length t < 40
      → PercentFree t
      → set_passwd t o ≡ some (true, record o { msg = front ++ (t ++ replicate (40 - length t) 0) })
  unfolding set_passwd
  set_passwd-region t f b h p = rw (
    lt→leb (length t) 40 h,
    format-PercentFree t [] p,
    split,
    passwd_region 24 40 t front back f b h,
  )

zeros_split : (o : TransObj) → IsSized o → (clear_msg o).msg ≡ replicate 24 0 ++ replicate 40 0
unfolding clear_msg
zeros_split o s = memset_whole 64 o.msg s

padded_end :
    (t : Bytes) (n : ℕ)
    → NulFree t
    → length t < n
    → c_string (t ++ replicate (n - length t) 0) ≡ some t
padded_end t n f h =
    let e : replicate {A = ℕ} (n - length t) 0 ++ [] ≡ replicate (n - length t) 0 = append-nil _ in
    rw (← e) (c_string-padded t [] (n - length t) f (omega arith))

abbrev credentials : Bytes → Bytes → Bytes
credentials name passwd =
    (name ++ replicate (24 - length name) 0) ++ (passwd ++ replicate (40 - length passwd) 0)

length-padded : (n : ℕ) (t : Bytes) → length t ≤ n → length (t ++ replicate (n - length t) 0) ≡ n
length-padded n t h =
    omega (
      arith,
      length-append t (replicate (n - length t) 0),
      length-replicate {A = ℕ} (n - length t) 0,
    )

module _ (name passwd : Bytes) (o : TransObj) (s : IsSized o) (h : length name < name_max_len)
    (k : length passwd < password_max_len) where
  stored :
      PercentFree name
      → PercentFree passwd
      → set_name_passwd name passwd o ≡ some (true, record o { msg = credentials name passwd })
  unfolding set_name_passwd clear_msg
  stored p q = rw (
    lt→leb (length name) 24 h,
    lt→leb (length passwd) 40 k,
    set_name-region (clear_msg o) (replicate 24 0) (replicate 40 0) (zeros_split o s) name refl h p,
    set_passwd-region
        (record o { msg = (name ++ replicate (24 - length name) 0) ++ replicate 40 0 })
        (name ++ replicate (24 - length name) 0) (replicate 40 0) refl passwd
        (length-padded 24 name (omega arith)) refl k q,
  )

  reads_name : NulFree name → c_string (credentials name passwd) ≡ some name
  reads_name f = rw append_assoc (c_string-padded name _ (24 - length name) f (omega arith))

  reads_passwd : NulFree passwd → c_string (drop 24 (credentials name passwd)) ≡ some passwd
  reads_passwd f =
      rw
        (drop-append 24 (name ++ replicate (24 - length name) 0)
          (passwd ++ replicate (40 - length passwd) 0) (length-padded 24 name (omega arith)))
        (padded_end passwd 40 f k)

  -- A name below 24 and a password below 40 bytes that hold neither a percent sign nor a NUL are
  -- accepted and read back by the getters; the array keeps its size, and no other field changes.
  pub set_name_passwd-reads :
      PercentFree name
      → PercentFree passwd
      → NulFree name
      → NulFree passwd
      → (o' : TransObj) × (set_name_passwd name passwd o ≡ some (true, o'))
        × (get_name o' ≡ some name)
        × (get_passwd o' ≡ some passwd)
        × IsSized o'
        × (record o { msg = o'.msg } ≡ o')
  unfolding get_name get_passwd
  set_name_passwd-reads p q f g = (
    record o { msg = credentials name passwd },
    stored p q,
    reads_name f,
    reads_passwd g,
    omega (
      arith,
      length-append (name ++ replicate (24 - length name) 0)
          (passwd ++ replicate (40 - length passwd) 0),
      length-padded 24 name (omega arith),
      length-padded 40 passwd (omega arith),
    ),
    refl,
  )

-- Exactly the names below 24 and the passwords below 40 bytes are accepted, when neither holds a
-- percent sign; a refused call leaves the object as it was.
pub set_name_passwd_accepts :
    (name passwd : Bytes) (o : TransObj)
    → IsSized o
    → PercentFree name
    → PercentFree passwd
    → (r : Bool × TransObj) × (set_name_passwd name passwd o ≡ some r)
      × (r.0 ≡ (ltb (length name) name_max_len && ltb (length passwd) password_max_len))
      × ((r.0 ≡ true) ⊎ (r.1 ≡ o))
unfolding set_name_passwd
set_name_passwd_accepts name passwd o s p q = elim (Bool-cases (leb 24 (length name))) [
  | inl e ↦ ((false, o), rw e, ground arith, inr refl)
  | inr e ↦ elim (Bool-cases (leb 40 (length passwd))) [
    | inl e' ↦ ((false, o), rw (e, e'), ground arith, inr refl)
    | inr e' ↦ (
      (true, record o { msg = credentials name passwd }),
      stored name passwd o s (ground arith) (ground arith) p q,
      ground arith,
      inl refl,
    )
  ]
]

-- A message below 64 bytes, with no NUL in it, is stored and reads back; a longer one is refused
-- and changes nothing. Only the array changes.
pub set_msg-reads :
    (t : Bytes) (o : TransObj)
    → IsSized o
    → NulFree t
    → (((length t < max_trans_msg_len)
          × ((set_msg t o).0 ≡ true)
          × (get_msg (set_msg t o).1 ≡ some t))
        ⊎ ((max_trans_msg_len ≤ length t) × (set_msg t o ≡ (false, o))))
      × (record o { msg = (set_msg t o).1.msg } ≡ (set_msg t o).1)
set_msg-reads t o s f = elim (Bool-cases (leb 64 (length t))) [
  | inl e ↦ unfold set_msg in rw e (inr (ground arith, refl), refl)
  | inr e ↦
      rw (set_msg-padded t o s (ground arith))
        (inl (ground arith, refl, unfold get_msg in padded_end t 64 f (ground arith)), refl)
]
