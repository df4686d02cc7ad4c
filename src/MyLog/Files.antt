-- ===== src/MyLog/Files.antt =====
-- smer/Util/inc/FileIO.h: files that are opened once, for appending, and kept open. The file system is
-- not part of the repository: whether a file can be opened is an argument of the call that opens it, and
-- a write to a stream that could not be opened has no effect, as the standard says.
use ifellsofuckinggood.Prelude.{
  ◌≡◌, ◌≢◌, refl, sym, ap, ◌∙◌, Bytes, bytes_eq, bytes_eq_sound, Bool, true, false, Option, none,
  some, List, [], ◌∷◌, ◌++◌, All, append_assoc, append-nil, Bool-cases, inl, inr, if◌then◌else◌,
  Outcome, returned, undefined, arith,
}

-- The table of the open files, where a null pointer is `some none`, and `some (some false)` is a stream
-- that takes nothing, as one that could not be opened; and what the files hold.
pub record FileIo : Type 0 where
  pub path2file : Bytes → Option (Option Bool)
  pub files : Bytes → Bytes

abbrev pub update_at {ℓ} : {A : Type ℓ} → Bytes → A → (Bytes → A) → Bytes → A
update_at path a f p = if bytes_eq path p then a else f p

-- The stream's `<<`.
put_text : Bool → Bytes → Bytes → FileIo → FileIo
put_text good path str s =
    if good then record s { files = update_at path (s.files path ++ str) s.files } else s

unfoldable pub get_out_file_by_path : Bool → Bytes → FileIo → FileIo
get_out_file_by_path opens path s = record s {
  path2file = update_at path (some (some opens)) s.path2file;
}

close_at : Option (Option Bool) → Bytes → FileIo → Outcome FileIo
close_at none path s = returned s
close_at (some none) path s = undefined
close_at (some (some good)) path s =
    returned (record s { path2file = update_at path (some none) s.path2file })

-- A second closing follows the null pointer.
unfoldable pub close_file : Bytes → FileIo → Outcome FileIo
unfolding close_at
close_file path s = close_at (s.path2file path) path s

write_at_file : Option (Option Bool) → Bool → Bytes → Bytes → FileIo → FileIo
unfolding put_text get_out_file_by_path
write_at_file (some (some good)) opens path str s = put_text good path str s
write_at_file _ opens path str s = put_text opens path str (get_out_file_by_path opens path s)

unfoldable pub write_to_file : Bool → Bytes → Bytes → FileIo → FileIo
unfolding write_at_file
write_to_file opens path str s = write_at_file (s.path2file path) opens path str s

-- The stream of a file that has been closed takes no more than one that could not be opened.
closed_stream : Option (Option Bool) → Option (Option Bool)
closed_stream (some (some good)) = some (some false)
closed_stream f = f

-- FileIo::~FileIo
unfoldable pub destroy : FileIo → FileIo
unfolding closed_stream
destroy s = record s { path2file = λ p. closed_stream (s.path2file p) }

-- A sequence of writes, each with whether its file could be opened, its path and its text.
unfoldable pub written : List (Bool × Bytes × Bytes) → FileIo → FileIo
written [] s = s
written ((opens, path, str) ∷ ws) s = written ws (write_to_file opens path str s)

-- What was written to a path.
unfoldable pub texts : Bytes → List (Bool × Bytes × Bytes) → Bytes
texts p [] = []
texts p ((opens, path, str) ∷ ws) = (if bytes_eq path p then str else []) ++ texts p ws

-- No stream has failed to open.
abbrev pub NoneFailed : FileIo → Type 0
NoneFailed s = (p : Bytes) → s.path2file p ≢ some (some false)

put-files :
    (path str : Bytes) (files : Bytes → Bytes) (p : Bytes)
    → update_at path (files path ++ str) files p ≡ files p ++ (if bytes_eq path p then str else [])
put-files path str files p = elim (Bool-cases (bytes_eq path p)) [
  | inl e ↦ rw e (ap (λ q. files q ++ str) (bytes_eq_sound path p e))
  | inr e ↦ rw e (sym (append-nil (files p)))
]

-- A write to a stream that can be written to.
Puts : Bytes → Bytes → FileIo → FileIo → Type 0
Puts path str s s' =
    NoneFailed s' × ((p : Bytes) → s'.files p ≡ s.files p ++ (if bytes_eq path p then str else []))

opened-Puts :
    (path str : Bytes) (s : FileIo)
    → NoneFailed s
    → Puts path str s (put_text true path str (get_out_file_by_path true path s))
unfolding Puts put_text get_out_file_by_path
opened-Puts path str s h = (
  λ p e. elim (Bool-cases (bytes_eq path p)) [ inl b ↦ ground arith | inr b ↦ h p (ground arith) ],
  put-files path str s.files,
)

write_at-Puts :
    (f : Option (Option Bool)) (path str : Bytes) (s : FileIo)
    → s.path2file path ≡ f
    → NoneFailed s
    → Puts path str s (write_at_file f true path str s)
unfolding write_at_file
write_at-Puts none path str s e h = opened-Puts path str s h
write_at-Puts (some none) path str s e h = opened-Puts path str s h
write_at-Puts (some (some true)) path str s e h =
    unfold Puts put_text in (h, put-files path str s.files)
write_at-Puts (some (some false)) path str s e h = absurd (h path e)

writes-NoneFailed :
    (path str : Bytes) (s : FileIo)
    → NoneFailed s
    → NoneFailed (write_to_file true path str s)
      × ((p : Bytes)
          → (write_to_file true path str s).files p
            ≡ s.files p ++ (if bytes_eq path p then str else []))
unfolding write_to_file Puts
writes-NoneFailed path str s h = write_at-Puts (s.path2file path) path str s refl h

-- Where every file can be opened, a file has after any writes what it had before with the texts that were
-- written to its path behind it, in order, whatever was written to other paths in between.
pub written-texts :
    (ws : List (Bool × Bytes × Bytes)) (s : FileIo) (p : Bytes)
    → NoneFailed s
    → All (λ w. w.0 ≡ true) ws
    → (written ws s).files p ≡ s.files p ++ texts p ws
unfolding written texts
written-texts [] s p h a = sym (append-nil (s.files p))
written-texts ((opens, path, str) ∷ ws) s p h a =
    let w = writes-NoneFailed path str s h in
    rw (a.0, written-texts ws (write_to_file true path str s) p w.0 a.1, w.1 p)
      (append_assoc (s.files p) (if bytes_eq path p then str else []) (texts p ws))

write_at-other :
    (f : Option (Option Bool)) (opens : Bool) (path str : Bytes) (s : FileIo) (p : Bytes)
    → bytes_eq path p ≡ false
    → s.path2file p ≡ some (some false)
    → ((write_at_file f opens path str s).path2file p ≡ some (some false))
      × ((write_at_file f opens path str s).files p ≡ s.files p)
unfolding write_at_file put_text get_out_file_by_path
write_at-other none true path str s p b h = (rw b h, rw b refl)
write_at-other none false path str s p b h = (rw b h, refl)
write_at-other (some none) true path str s p b h = (rw b h, rw b refl)
write_at-other (some none) false path str s p b h = (rw b h, refl)
write_at-other (some (some true)) opens path str s p b h = (h, rw b refl)
write_at-other (some (some false)) opens path str s p b h = (h, refl)

write_at-lost :
    (f : Option (Option Bool)) (opens : Bool) (path str : Bytes) (s : FileIo) (p : Bytes)
    → s.path2file path ≡ f
    → s.path2file p ≡ some (some false)
    → ((write_at_file f opens path str s).path2file p ≡ some (some false))
      × ((write_at_file f opens path str s).files p ≡ s.files p)
unfolding write_at_file put_text get_out_file_by_path
write_at-lost f opens path str s p e h = elim (Bool-cases (bytes_eq path p)) [
  | inl b ↦
      let q : f ≡ some (some false) = sym e ∙ ap s.path2file (bytes_eq_sound path p b) ∙ h in
      rw q (h, refl)
  | inr b ↦ write_at-other f opens path str s p b h
]

write-lost :
    (opens : Bool) (path str : Bytes) (s : FileIo) (p : Bytes)
    → s.path2file p ≡ some (some false)
    → ((write_to_file opens path str s).path2file p ≡ some (some false))
      × ((write_to_file opens path str s).files p ≡ s.files p)
unfolding write_to_file
write-lost opens path str s p h = write_at-lost (s.path2file path) opens path str s p refl h

-- Once a file could not be opened, everything that is written to its path is lost, even where the file can
-- be opened by then.
pub written-lost :
    (ws : List (Bool × Bytes × Bytes)) (s : FileIo) (p : Bytes)
    → s.path2file p ≡ some (some false)
    → (written ws s).files p ≡ s.files p
unfolding written
written-lost [] s p h = refl
written-lost ((opens, path, str) ∷ ws) s p h =
    let k = write-lost opens path str s p h in
    written-lost ws (write_to_file opens path str s) p k.0 ∙ k.1
