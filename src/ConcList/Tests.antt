-- ===== src/ConcList/Tests.antt =====
-- Runs of the list, and its theorems at concrete inputs.
use ifellsofuckinggood.Prelude.{ℕ, ◌≡◌, refl, pos, negsuc, false, none, some, [], ◌∷◌}
use ifellsofuckinggood.ConcList.{
  ConcList, new, push_back, pop_back, pop_front, erase, get_one_request, wait_push_till_empty,
}
use ifellsofuckinggood.ConcList.Size.{
  pop_backs, step, IsCounted, step-IsCounted, wait_push_uncounted,
}

abbrev two : ConcList ℕ
two = record { size = pos 2; elems = 5 ∷ 6 ∷ [] }

abbrev one : ConcList ℕ
one = record { size = pos 1; elems = 5 ∷ [] }

filled : push_back 6 (push_back 5 new) ≡ two
unfolding push_back new
filled = refl

step-IsCounted_example : IsCounted one
unfolding step pop_back
step-IsCounted_example = step-IsCounted pop_backs two refl refl

abbrev uncounted : ConcList ℕ
uncounted = record { size = pos 0; elems = 5 ∷ [] }

wait_push_uncounted_example :
    (uncounted.elems ≡ 5 ∷ [])
    × (¬ IsCounted uncounted)
    × (get_one_request (pos 0) uncounted ≡ some none)
    × (erase (pos 0) uncounted ≡ some (false, uncounted))
    × (pop_front uncounted ≡ some (5, record { size = negsuc 0; elems = [] }))
unfolding wait_push_till_empty new
wait_push_uncounted_example =
    wait_push_uncounted (record { size = pos 0; elems = [] }) uncounted 5 (pos 0) refl refl
