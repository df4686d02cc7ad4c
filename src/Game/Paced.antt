-- ===== src/Game/Paced.antt =====
-- How often the game is updated.
use ifellsofuckinggood.Prelude.{
  ℕ, ◌+◌, ◌*◌, ◌≡◌, ◌≤◌, ◌<◌, true, false, List, [], ◌∷◌, All, ltb, length, Bool-cases, inl, inr,
  arith,
}
use ifellsofuckinggood.Game.{update_word_per_sec}

ltb-lt : (a b : ℕ) → ltb a b ≡ true → a < b
ltb-lt a b e = ground arith

ltb-ge : (a b : ℕ) → ltb a b ≡ false → b ≤ a
ltb-ge a b e = ground arith

-- Between two updates there are more than 16 milliseconds: up to a time that no reading exceeds there
-- are at most as many updates as 17 milliseconds fit into the time since the last one.
pub paced :
    (last end : ℕ) (ts : List ℕ)
    → last ≤ end
    → All (λ t. t ≤ end) ts
    → 17 * length (update_word_per_sec last ts) + last ≤ end
unfolding update_word_per_sec
paced last end [] l h = omega arith
paced last end (t ∷ ts) l h = elim (Bool-cases (ltb (16 + last) t)) [
  | inl e ↦ rw e (omega (arith, paced t end ts h.0 h.1, ltb-lt (16 + last) t e))
  | inr e ↦ rw e (paced last end ts l h.1)
]

-- No update is left out: a reading that is more than 16 milliseconds behind the last update gives one,
-- and after readings that give none the last is at most so far behind.
pub no_update :
    (last : ℕ) (ts : List ℕ) → update_word_per_sec last ts ≡ [] → All (λ t. t ≤ 16 + last) ts
unfolding update_word_per_sec
no_update last [] e = tt
no_update last (t ∷ ts) e = elim (Bool-cases (ltb (16 + last) t)) [
  | inl b ↦ absurd (ground arith)
  | inr b ↦ (ltb-ge (16 + last) t b, no_update last ts (ground arith))
]
