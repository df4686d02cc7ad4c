-- ===== src/ConcList/Size.antt =====
-- The count and the elements.
use ifellsofuckinggood.Prelude.{
  ℕ, suc, ◌≡◌, refl, ap, ℤ, pos, negsuc, ltℤ, Bool, true, false, not, ◌&&◌, Option, none, some,
  List, [], ◌∷◌, length, remove_at, if◌then◌else◌, arith, length-append, length-remove_at,
  get_elem?-lt, get_elem?-ge, ◌⊎◌, inl, inr, ltb, Bool-cases, Option-cases,
}
use ifellsofuckinggood.ConcList.{
  ConcList, last?, without_last, push_back, push_front, pop_back, pop_head, pop_front, erase,
  get_one_request, wait_push_till_empty, element_at, index_of,
}

-- The methods that change the list, but for waitPushTillEmpty.
pub data Call {ℓ} (A : Type ℓ) : Type ℓ where
  push_backs push_fronts : A → Call A
  pop_backs pop_fronts : Call A
  erases : ℤ → Call A

module _ {ℓ} {A : Type ℓ} where
  abbrev pub rest_of : {B : Type ℓ} → Option (B × ConcList A) → Option (ConcList A)
  rest_of none = none
  rest_of (some (v, l)) = some l

  abbrev pub IsCounted : ConcList A → Type 0
  IsCounted l = l.size ≡ pos (length l.elems)

int_cases : (z : ℤ) → ((n : ℕ) × (z ≡ pos n)) ⊎ ((n : ℕ) × (z ≡ negsuc n))
int_cases (pos n) = inl (n, refl)
int_cases (negsuc n) = inr (n, refl)

module _ {ℓ} {A : Type ℓ} where
  -- `none` is a call that waits, or undefined behaviour.
  unfoldable pub step : Call A → ConcList A → Option (ConcList A)
  step (push_backs v) l = some (push_back v l)
  step (push_fronts v) l = some (push_front v l)
  step pop_backs l = rest_of (pop_back l)
  step pop_fronts l = rest_of (pop_front l)
  step (erases i) l = elim (erase i l) [ none ↦ none | some r ↦ some r.1 ]

  length-without_last :
      (xs : List A) {v : A} → last? xs ≡ some v → suc (length (without_last xs)) ≡ length xs
  length-without_last [] h = cc
  length-without_last (x ∷ []) h = refl
  length-without_last (x ∷ y ∷ rest) h = ap suc (length-without_last (y ∷ rest) h)

  -- Every method that changes the list keeps `size` at the number of elements, from a list where it
  -- is that number; the methods are those of `Call`, so all but waitPushTillEmpty.
  pub step-IsCounted :
      (c : Call A) (l : ConcList A) {l' : ConcList A}
      → IsCounted l
      → step c l ≡ some l'
      → IsCounted l'
  unfolding step push_back push_front pop_back pop_front pop_head erase
  step-IsCounted (push_backs v) l c h = ground (arith, length-append l.elems (v ∷ []))
  step-IsCounted (push_fronts v) l c h = ground arith
  step-IsCounted pop_backs l c h = elim (Option-cases (last? l.elems)) [
    | inl e ↦ ground arith
    | inr (v, e) ↦ ground (arith, length-without_last l.elems {v = v} e)
  ]
  step-IsCounted pop_fronts l c h = ground arith
  step-IsCounted (erases (pos i)) l c h = ground (arith, length-remove_at i l.elems)
  step-IsCounted (erases (negsuc i)) l c h = ground arith

  -- On a counted list getOneRequest gives the element at the index, and false at any other index.
  pub get_one_request-IsCounted :
      (l : ConcList A) (i : ℤ) → IsCounted l → get_one_request i l ≡ some (element_at i l.elems)
  unfolding get_one_request element_at
  get_one_request-IsCounted l (pos i) c = elim (Bool-cases (ltb i (length l.elems))) [
    | inl e ↦ ground (arith, get_elem?-lt l.elems i (ground arith))
    | inr e ↦ ground (arith, get_elem?-ge l.elems i (ground arith))
  ]
  get_one_request-IsCounted l (negsuc i) c = ground arith

  abbrev pub in_range : ℤ → List A → Bool
  in_range i xs = not (ltℤ i (pos 0)) && ltℤ i (pos (length xs))

  -- On a counted list erase removes the element at an index in range, and answers false and changes
  -- nothing at any other index; the count stays right.
  pub erase-IsCounted :
      (l : ConcList A) (i : ℤ)
      → IsCounted l
      → erase i l
        ≡ some (
            if in_range i l.elems
            then (
              true,
              record {
                size = pos (length (remove_at (index_of i) l.elems));
                elems = remove_at (index_of i) l.elems;
              },
            )
            else (false, l))
  unfolding erase element_at index_of
  erase-IsCounted l (pos i) c = elim (Bool-cases (ltb i (length l.elems))) [
    | inl e ↦
        ground
          (arith, get_elem?-lt l.elems i (ground arith), length-remove_at i l.elems (ground arith))
    | inr e ↦ ground arith
  ]
  erase-IsCounted l (negsuc i) c = ground arith

  -- waitPushTillEmpty breaks the count: whatever it pushes on a counted list, the element stays
  -- invisible to getOneRequest and erase at every index, and a pop then takes the count below zero.
  pub wait_push_uncounted :
      (l l' : ConcList A) (v : A) (i : ℤ)
      → IsCounted l
      → wait_push_till_empty v l ≡ some l'
      → (l'.elems ≡ v ∷ [])
        × (¬ IsCounted l')
        × (get_one_request i l' ≡ some none)
        × (erase i l' ≡ some (false, l'))
        × (pop_front l' ≡ some (v, record { size = negsuc 0; elems = [] }))
  unfolding wait_push_till_empty get_one_request erase pop_front pop_head
  wait_push_uncounted l l' v i c h = (
    ground arith,
    λ c'. ground arith,
    elim (int_cases i) [ inl (n, e) ↦ ground arith | inr (n, e) ↦ ground arith ],
    elim (int_cases i) [ inl (n, e) ↦ ground arith | inr (n, e) ↦ ground arith ],
    ground arith,
  )
