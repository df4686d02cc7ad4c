-- ===== src/Util/Tests.antt =====
-- Typed lines, and the theorems at concrete inputs.
use ifellsofuckinggood.Prelude.{
  ◌≡◌, ◌↔◌, refl, pos, codes, before_nul, write_at, memset_zero, c_string, bytes_eq, replicate,
  true, false, none, some, [], ◌∷◌, ◌++◌, returned,
}
use ifellsofuckinggood.TransObj.{TransObj, new_default, new_full, set_msg, get_msg}
use ifellsofuckinggood.Player.{Saved, Archive}
use ifellsofuckinggood.HandleMsg.Client.{Client}
use ifellsofuckinggood.Util.{
  handle_input_of_regin, communication_cmd_table, find_cmd, get_msg_from_input,
}
use ifellsofuckinggood.Util.Words.{words, listed, find_cmd-words}
use ifellsofuckinggood.Util.Split.{split_text}

-- A file that holds the player itself.
abbrev arc : Archive Saved
arc = record { write = λ x. x; read = λ p x. returned x; file_size = λ x. 1 }

abbrev request : TransObj
request = record {
  msg_type = 10;
  len = 0;
  id = pos 4;
  recver_id = pos 1;
  fd = pos 8;
  msg = codes "lys" ++ replicate 61 0;
}

abbrev client : Client Saved
client = record {
  player = record {
    logined = true;
    data' = record { id = pos 1; name = codes "zlh"; password = codes "123" };
    is_friends_changed = false;
    talker_name = [];
    friends = (codes "cpt", some (pos 2)) ∷ [];
  };
  disk = record { can_write = true; file = none };
  sys_buff = [];
  rcv_buff = [];
  req_buff = record { size = pos 1; elems = request ∷ [] };
  output_msg = [];
}

abbrev logged_out : Client Saved
logged_out = record client { player = record client.player { logined = false } }

test_talk :
    (o : TransObj) × (get_msg_from_input arc split_text new_default (codes "hello") client
      ≡ returned (some o, client))
    × (get_msg o ≡ some (codes "hello"))
unfolding get_msg_from_input split_text get_msg c_string set_msg before_nul write_at memset_zero
    new_full new_default
test_talk = (_, refl, refl)

test_unknown_word :
    get_msg_from_input arc split_text new_default (codes "fly@1") client ≡ returned (none, client)
unfolding get_msg_from_input split_text find_cmd bytes_eq
test_unknown_word = refl

find_cmd-words_example :
    (find_cmd (codes "rg") communication_cmd_table ≡ some handle_input_of_regin)
    ↔ (listed (codes "rg") (words handle_input_of_regin) ≡ true)
find_cmd-words_example = find_cmd-words (codes "rg") handle_input_of_regin
