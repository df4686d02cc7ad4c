-- ===== src/IoManger/Tests.antt =====
-- The terminal at a concrete input.
use ifellsofuckinggood.Prelude.{
  before_nul, ◌≡◌, refl, pos, codes, true, false, none, [], ◌∷◌, returned,
}
use ifellsofuckinggood.TransObj.{new_default}
use ifellsofuckinggood.Player.{Saved, Archive}
use ifellsofuckinggood.IoManger.{IoManger}
use ifellsofuckinggood.IoManger.Talk.{run_round}
use ifellsofuckinggood.IoManger.Shown.{with_texts, rounds, shown_in_order}
use ifellsofuckinggood.Util.Split.{split_text}

-- A file that holds the player itself.
abbrev arc : Archive Saved
arc = record { write = λ x. x; read = λ p x. returned x; file_size = λ x. 1 }

abbrev terminal : IoManger Saved
terminal = record {
  client = record {
    player = record {
      logined = false;
      data' = record { id = pos 1; name = codes "zlh"; password = codes "123" };
      is_friends_changed = false;
      talker_name = [];
      friends = [];
    };
    disk = record { can_write = true; file = none };
    sys_buff = [];
    rcv_buff = [];
    req_buff = record { size = pos 0; elems = [] };
    output_msg = codes "one" ∷ codes "two" ∷ [];
  };
  buff = [];
  talking = false;
  printed = codes "zero" ∷ [];
}

shown_in_order_example :
    let shown = with_texts [] (codes "zero" ∷ codes "one" ∷ codes "two" ∷ []) terminal in
    (rounds arc split_text new_default [] 2 terminal ≡ returned shown)
    × (run_round arc split_text new_default [] shown ≡ none)
unfolding before_nul
shown_in_order_example = shown_in_order arc split_text new_default [] terminal refl
