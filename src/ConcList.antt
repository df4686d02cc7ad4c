-- ===== src/ConcList.antt =====
-- smer/Util/inc/ConcList.h: a list behind a mutex that keeps its own count of the elements. `none`
-- is a method that goes on waiting.
pub mod Size
mod Tests
use ifellsofuckinggood.Prelude.{
  ℕ, ◌≡◌, ℤ, pos, negsuc, inc, dec, ltℤ, Bool, true, false, not, ◌||◌, ◌&&◌, Option, none, some,
  List, [], ◌∷◌, ◌++◌, length, get_elem?, remove_at, if◌then◌else◌,
}

pub record ConcList {ℓ} (A : Type ℓ) : Type ℓ where
  pub size : ℤ
  pub elems : List A

-- list::back and list::pop_back
abbrev pub last? {ℓ} : {A : Type ℓ} → List A → Option A
last? [] = none
last? (x ∷ []) = some x
last? (x ∷ y ∷ rest) = last? (y ∷ rest)

abbrev pub without_last {ℓ} : {A : Type ℓ} → List A → List A
without_last [] = []
without_last (x ∷ []) = []
without_last (x ∷ y ∷ rest) = x ∷ without_last (y ∷ rest)

pub index_of : ℤ → ℕ
index_of (pos i) = i
index_of (negsuc i) = 0

module _ {ℓ} {A : Type ℓ} where
  unfoldable pub new : ConcList A
  new = record { size = pos 0; elems = [] }

  -- The copy constructor: `size` keeps what the memory held.
  unfoldable pub copy : ℤ → ConcList A → ConcList A
  copy junk other = record { size = junk; elems = other.elems }

  unfoldable pub push_back : A → ConcList A → ConcList A
  push_back v l = record { size = inc l.size; elems = l.elems ++ v ∷ [] }

  unfoldable pub push_front : A → ConcList A → ConcList A
  push_front v l = record { size = inc l.size; elems = v ∷ l.elems }

  unfoldable pub front : ConcList A → Option A
  front l = get_elem? l.elems 0

  unfoldable pub back : ConcList A → Option A
  back l = last? l.elems

  unfoldable pub pop_back : ConcList A → Option (A × ConcList A)
  pop_back l = elim (last? l.elems) [
    | none ↦ none
    | some v ↦ some (v, record { size = dec l.size; elems = without_last l.elems })
  ]

  pop_head : ℤ → List A → Option (A × ConcList A)
  pop_head size [] = none
  pop_head size (v ∷ rest) = some (v, record { size = dec size; elems = rest })

  unfoldable pub pop_front : ConcList A → Option (A × ConcList A)
  unfolding pop_head
  pop_front l = pop_head l.size l.elems

  unfoldable pub empty : ConcList A → Bool
  empty l = elim l.elems [ [] ↦ true | x ∷ rest ↦ false ]

  unfoldable pub wait_till_not_empty : ConcList A → Option Bool
  wait_till_not_empty l = elim l.elems [ [] ↦ none | x ∷ rest ↦ some true ]

  -- `size` is left as it was.
  unfoldable pub wait_push_till_empty : A → ConcList A → Option (ConcList A)
  wait_push_till_empty v l = elim l.elems [
    | [] ↦ some (record { size = l.size; elems = v ∷ [] })
    | x ∷ rest ↦ none
  ]

  -- Appends to the list that it is given.
  unfoldable pub get_all_data : ConcList A → List A → List A
  get_all_data l target = target ++ l.elems

  -- An index past the end, as `advance` sees it: `none` is undefined behaviour.
  unfoldable pub element_at : ℤ → List A → Option A
  element_at (pos i) xs = get_elem? xs i
  element_at (negsuc i) xs = none

  -- `none` is undefined behaviour.
  unfoldable pub erase : ℤ → ConcList A → Option (Bool × ConcList A)
  unfolding element_at index_of
  erase index l =
      let erased : Option (Bool × ConcList A) = elim (element_at index l.elems) [
        | none ↦ none
        | some v ↦
            some (true, record { size = dec l.size; elems = remove_at (index_of index) l.elems })
      ] in
      if ltℤ index (pos 0) || not (ltℤ index l.size) then some (false, l) else erased

  unfoldable pub get_size : ConcList A → ℤ
  get_size l = l.size

  -- The element that `obj` is set to: `some none` is a call that returns false, `none` is undefined
  -- behaviour.
  unfoldable pub get_one_request : ℤ → ConcList A → Option (Option A)
  unfolding element_at
  get_one_request index l =
      let found : Option (Option A) = elim (element_at index l.elems) [
        | none ↦ none
        | some v ↦ some (some v)
      ] in
      if not (ltℤ index (pos 0)) && ltℤ index l.size then found else some none
