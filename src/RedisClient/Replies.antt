-- ===== src/RedisClient/Replies.antt =====
-- The replies of the service, and what ExecuteCmd_spop makes of them.
use ifellsofuckinggood.Prelude.{
  ℤ, Bytes, codes, to_string, Bool, true, false, List, [], ◌∷◌, ◌++◌, Outcome, returned, undefined,
}

-- An element of an array: a number, a text, or one without a text, as a nil.
pub data Elem : Type 0 where
  elem_integer : ℤ → Elem
  elem_str : Bytes → Elem
  elem_null : Elem

pub data Reply : Type 0 where
  integer : ℤ → Reply
  string : Bytes → Reply
  status : Bytes → Reply
  nil : Reply
  error : Bytes → Reply
  array : List Elem → Reply
  other : Reply

-- A string made from a null pointer is undefined behaviour.
append_elems : List Elem → List Bytes → Outcome (Bool × List Bytes)
append_elems [] response = returned (true, response)
append_elems (elem_integer n ∷ es) response = append_elems es (response ++ to_string n ∷ [])
append_elems (elem_str t ∷ es) response = append_elems es (response ++ t ∷ [])
append_elems (elem_null ∷ es) response = undefined

unfoldable pub read_reply : Reply → List Bytes → Outcome (Bool × List Bytes)
unfolding append_elems
read_reply (integer n) response = returned (true, response ++ to_string n ∷ [])
read_reply (string t) response = returned (true, response ++ t ∷ [])
read_reply (status t) response = returned (true, response ++ t ∷ [])
read_reply nil response = returned (true, response ++ [] ∷ [])
read_reply (error t) response = returned (true, response ++ t ∷ [])
read_reply (array es) response = append_elems es response
read_reply other response = returned (false, response ++ codes "Undefine Reply Type" ∷ [])
