-- ===== src/IoManger/Shown.antt =====
-- The loop of the terminal while nobody talks.
use ifellsofuckinggood.Prelude.{
  ℕ, zero, suc, ◌≡◌, refl, ap, ◌∙◌, Bytes, false, Option, none, some, List, [], ◌∷◌, ◌++◌, map,
  before_nul, append-nil, append_assoc, length, Outcome, returned, thrown, undefined,
}
use ifellsofuckinggood.TransObj.{TransObj}
use ifellsofuckinggood.ConcQueue.{try_and_pop}
use ifellsofuckinggood.Player.{Archive}
use ifellsofuckinggood.IoManger.{IoManger, handle_output_msg}
use ifellsofuckinggood.IoManger.Talk.{run_round}

-- A terminal where nobody talks, with these texts to show and shown.
abbrev pub with_texts : {F : Type 0} → List Bytes → List Bytes → IoManger F → IoManger F
with_texts msgs printed s = record s {
  client = record s.client { output_msg = msgs };
  talking = false;
  printed = printed;
}

module _ {F : Type 0} (arc : Archive F) (split : Bytes → Bytes → List Bytes) (junk : TransObj)
    (str : Bytes) where
  next :
      Option (Outcome (IoManger F))
      → IoManger F
      → (IoManger F → Outcome (IoManger F))
      → Outcome (IoManger F)
  next none s k = returned s
  next (some (returned s')) s k = k s'
  next (some thrown) s k = thrown
  next (some undefined) s k = undefined

  -- So many rounds, or fewer where the terminal comes to wait.
  unfoldable pub rounds : ℕ → IoManger F → Outcome (IoManger F)
  unfolding next
  rounds zero s = returned s
  rounds (suc n) s = next (run_round arc split junk str s) s (rounds n)

  shown_in_order-from :
      (msgs printed : List Bytes) (s : IoManger F)
      → rounds (length msgs) (with_texts msgs printed s)
        ≡ returned (with_texts [] (printed ++ map before_nul msgs) s)
  unfolding rounds run_round handle_output_msg try_and_pop
  shown_in_order-from [] printed s = rw (append-nil printed) refl
  shown_in_order-from (m ∷ msgs) printed s =
      shown_in_order-from msgs (printed ++ before_nul m ∷ []) s
      ∙ ap (λ p. returned (with_texts [] p s))
          (append_assoc printed (before_nul m ∷ []) (map before_nul msgs))

  -- While nobody talks, as many rounds as there are texts to show print each of them up to its first NUL, once and
  -- in the order in which they were put, and change nothing else; then the terminal waits.
  pub shown_in_order :
      (s : IoManger F)
      → s.talking ≡ false
      → let shown = with_texts [] (s.printed ++ map before_nul s.client.output_msg) s in
        (rounds (length s.client.output_msg) s ≡ returned shown)
        × (run_round arc split junk str shown ≡ none)
  unfolding run_round
  shown_in_order s h =
      let quiet : s ≡ record s { talking = false } = ap (λ t. record s { talking = t }) h in
      (
        ap (rounds (length s.client.output_msg)) quiet
            ∙ shown_in_order-from s.client.output_msg s.printed s,
        refl,
      )
