-- ===== src/SysManger/Requests.antt =====
-- Friend requests on the client, from the message to the friend.
use ifellsofuckinggood.Prelude.{
  ◌≡◌, ◌<◌, refl, ap, ◌∙◌, pos, Bytes, codes, bytes_eq, true, Option, none, some, List, [], ◌∷◌,
  ◌++◌, if◌then◌else◌, length, get_elem?, returned, arith, lt→leb, length-append,
}
use ifellsofuckinggood.MyEnum.{
  msg_code, msg_ask_for_friend, msg_ask_for_friend_accept, sys_msg_code,
  sys_show_ask_for_friend_req,
}
use ifellsofuckinggood.TransObj.{TransObj, name_max_len, get_name, get_msg}
use ifellsofuckinggood.ConcQueue.{try_and_pop}
use ifellsofuckinggood.ConcList.{ConcList, push_back, get_one_request, element_at}
use ifellsofuckinggood.ConcList.Size.{IsCounted, get_one_request-IsCounted}
use ifellsofuckinggood.Player.{Archive, max_friends_num, find, add_friend, save_player_data}
use ifellsofuckinggood.Player.Map.{add_friend-found}
use ifellsofuckinggood.HandleMsg.{find_handler}
use ifellsofuckinggood.HandleMsg.Client.{
  SystemMsgObj, Client, client_handle, client_handler, put_output,
}
use ifellsofuckinggood.SysManger.{
  handle_sys_msg, next_sys_msg, on_sys_msg, show_ask_for_friend_req, shown, request_lines,
  get_all_requests, put_output_msg,
}

module _ {F : Type 0} (arc : Archive F) where
  -- The request list is always shown empty: whatever requests have been received, the output is the
  -- heading alone, and the requests stay.
  pub show_requests-blind :
      (c : Client F) {text : Option Bytes} {rest : List SystemMsgObj}
      → c.sys_buff
        ≡ record { msg_type = sys_msg_code sys_show_ask_for_friend_req; sys_msg = text } ∷ rest
      → handle_sys_msg c
        ≡ returned (
            put_output_msg (codes "All requests list down here: \n") (record c { sys_buff = rest }))
  unfolding handle_sys_msg next_sys_msg on_sys_msg show_ask_for_friend_req shown request_lines
      get_all_requests try_and_pop
  show_requests-blind c waiting = rw waiting refl

  push_back-IsCounted :
      (o : TransObj) (l : ConcList TransObj) → IsCounted l → IsCounted (push_back o l)
  unfolding push_back
  push_back-IsCounted o l h = ground (arith, length-append l.elems (o ∷ []))

  last_of : (o : TransObj) (xs : List TransObj) → get_elem? (xs ++ o ∷ []) (length xs) ≡ some o
  last_of o [] = refl
  last_of o (x ∷ xs) = last_of o xs

  -- A friend request with a text that comes in while the list of requests is counted is stored
  -- behind the others, where it is found by its number, and the list stays counted.
  pub ask-stored :
      (obj : TransObj) (c : Client F) {name : Bytes}
      → obj.msg_type ≡ msg_code msg_ask_for_friend
      → get_msg obj ≡ some name
      → IsCounted c.req_buff
      → (c' : Client F) × (client_handle arc obj c ≡ returned c')
        × IsCounted c'.req_buff
        × (get_one_request (pos (length c.req_buff.elems)) c'.req_buff ≡ some (some obj))
  unfolding client_handle client_handler find_handler put_output get_msg
  ask-stored obj c {name} asks named counted = (
    record (put_output arc (codes "You have a request from " ++ name) c) {
      req_buff = push_back obj c.req_buff;
    },
    rw (asks, named) refl,
    push_back-IsCounted obj c.req_buff counted,
    get_one_request-IsCounted (push_back obj c.req_buff) (pos (length c.req_buff.elems))
          (push_back-IsCounted obj c.req_buff counted)
        ∙ ap some (unfold push_back element_at in last_of obj c.req_buff.elems),
  )

  -- An acceptance that comes in, with a name below the limit that is not yet a friend's, and with
  -- room for another friend: if the player can be saved, the sender's identity is then found under the
  -- name, the friends of other names are as before, and the player has been saved.
  pub accept-befriends :
      (obj : TransObj) (c : Client F) (other : Bytes) {name : Bytes}
      → obj.msg_type ≡ msg_code msg_ask_for_friend_accept
      → get_name obj ≡ some name
      → length name < name_max_len
      → find name c.player.friends ≡ none
      → length c.player.friends < max_friends_num
      → c.disk.can_write ≡ true
      → (c' : Client F) × (client_handle arc obj c ≡ returned c')
        × (find name c'.player.friends ≡ some (some obj.id))
        × (find other c'.player.friends
            ≡ (if bytes_eq name other then some (some obj.id) else find other c.player.friends))
        × (c'.disk ≡ (save_player_data arc c'.player c.disk).1)
  unfolding client_handle client_handler find_handler put_output get_name
  accept-befriends obj c other {name} accepts named short fresh small ok =
      let f = add_friend-found arc name c.player c.disk obj.id other fresh small in
      let done : add_friend arc name obj.id c.player c.disk
          ≡ returned (true, f.0, (save_player_data arc f.0 c.disk).1) =
        f.1 ∙ (unfold save_player_data in rw ok refl) in
      (
        put_output arc
            (codes "Your ask friend request had been accepted from " ++ (name ++ codes "\n"))
            (record c { player = f.0; disk = (save_player_data arc f.0 c.disk).1 }),
        rw (accepts, named, lt→leb _ name_max_len short, done) refl,
        f.2,
        f.3,
        refl,
      )
