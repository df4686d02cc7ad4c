-- ===== src/TransObj.antt =====
-- smer/Seqeue/inc/SeqAbleObj.h: the message that client and server exchange. `msg` is the array of
-- 64 bytes; a name stands at its start and a password behind it, at offset 24 (the two limits are
-- those of smer/Player/src/Player.cpp). A constructor that leaves fields without a value takes them
-- from `junk`, what the memory held before.
pub mod Text
pub mod Wire
mod Tests
use ifellsofuckinggood.Prelude.{
  ℕ, ◌≡◌, ◌+◌, ◌*◌, ◌-◌, ◌/◌, ◌%◌, ℤ, pos, negsuc, minus_one, to_u32, from_u32, Bytes, Bool, true,
  false, Option, none, some, List, [], ◌∷◌, ◌++◌, ltb, leb, ◌||◌, if◌then◌else◌, ◌>>=◌, length,
  take, drop, replicate, c_string, overwrite, write_at, memset_zero, format, snprintf_bytes,
}

abbrev pub max_trans_msg_len : ℕ
max_trans_msg_len = 64

abbrev pub name_max_len : ℕ
name_max_len = 24

abbrev pub password_max_len : ℕ
password_max_len = max_trans_msg_len - name_max_len

pub record TransObj : Type 0 where
  pub msg_type : ℕ
  pub len : ℕ
  pub id : ℤ
  pub recver_id : ℤ
  pub fd : ℤ
  pub msg : Bytes

-- The array has its size.
abbrev pub IsSized : TransObj → Type 0
IsSized o = length o.msg ≡ max_trans_msg_len

unfoldable pub new_default : TransObj
new_default = record {
  msg_type = 0;
  len = 0;
  id = pos 0;
  recver_id = pos 0;
  fd = pos 0;
  msg = replicate max_trans_msg_len 0;
}

unfoldable pub new_typed : TransObj → ℕ → ℕ → TransObj
new_typed junk msg_type len = record junk { msg_type = msg_type; len = len; id = pos 1 }

unfoldable pub new_with_id : TransObj → ℤ → ℕ → ℕ → TransObj
new_with_id junk id msg_type len = record junk { msg_type = msg_type; len = len; id = id }

unfoldable pub new_with_fd : TransObj → ℤ → ℕ → ℕ → ℤ → TransObj
new_with_fd junk id msg_type len fd = record junk {
  msg_type = msg_type;
  len = len;
  id = id;
  fd = fd;
}

unfoldable pub new_full : TransObj → ℤ → ℤ → ℕ → ℕ → ℤ → TransObj
new_full junk id recver_id msg_type len fd = record junk {
  msg_type = msg_type;
  len = len;
  id = id;
  recver_id = recver_id;
  fd = fd;
}

abbrev pub set_msg_type : ℕ → TransObj → TransObj
set_msg_type t o = record o { msg_type = t }

abbrev pub set_id : ℤ → TransObj → TransObj
set_id i o = record o { id = i }

abbrev pub set_fd : ℤ → TransObj → TransObj
set_fd f o = record o { fd = f }

abbrev pub set_recver_id : ℤ → TransObj → TransObj
set_recver_id r o = record o { recver_id = r }

-- The parameter is an int, the field is unsigned.
abbrev set_len : ℤ → TransObj → TransObj
set_len l o = record o { len = to_u32 l }

unfoldable pub clear_msg : TransObj → TransObj
clear_msg o = record o { msg = memset_zero 0 max_trans_msg_len o.msg }

unfoldable pub clear_name : TransObj → TransObj
clear_name o = record o { msg = memset_zero 0 name_max_len o.msg }

unfoldable pub clear_passwd : TransObj → TransObj
clear_passwd o = record o { msg = memset_zero name_max_len password_max_len o.msg }

-- A `const char*` argument is the text before its NUL. strncpy copies strlen(msg_) bytes.
unfoldable pub set_msg : Bytes → TransObj → Bool × TransObj
unfolding clear_msg
set_msg t o =
    if leb max_trans_msg_len (length t)
    then (false, o)
    else (true, record o { msg = write_at 0 t (clear_msg o).msg })

-- The text is the format of snprintf. `none` is undefined behaviour.
unfoldable pub set_name : Bytes → TransObj → Option (Bool × TransObj)
unfolding clear_name
set_name t o =
    let printed = format t [] >>= λ p.
    some (true, record o { msg = write_at 0 (snprintf_bytes name_max_len p) (clear_name o).msg }) in
    if leb name_max_len (length t) then some (false, o) else printed

unfoldable pub set_passwd : Bytes → TransObj → Option (Bool × TransObj)
unfolding clear_passwd
set_passwd t o =
    let printed = format t [] >>= λ p. some (
      true,
      record o {
        msg = write_at name_max_len (snprintf_bytes password_max_len p) (clear_passwd o).msg;
      },
    ) in
    if leb password_max_len (length t) then some (false, o) else printed

unfoldable pub set_name_passwd : Bytes → Bytes → TransObj → Option (Bool × TransObj)
set_name_passwd name passwd o =
    let filled =
      set_name name (clear_msg o) >>= λ n. set_passwd passwd n.1 >>= λ p. some (true, p.1) in
    if leb name_max_len (length name) || leb password_max_len (length passwd)
    then some (false, o)
    else filled

-- What a reader of the returned pointer sees; `none` is a read past the end of the object.
unfoldable pub get_name : TransObj → Option Bytes
get_name o = c_string o.msg

unfoldable pub get_passwd : TransObj → Option Bytes
get_passwd o = c_string (drop name_max_len o.msg)

unfoldable pub get_msg : TransObj → Option Bytes
get_msg o = c_string o.msg

-- The object in memory: little-endian, no padding, sizeof(TransObj) bytes.
abbrev pub size_of_trans_obj : ℕ
size_of_trans_obj = 84

unfoldable pub le_bytes : ℕ → Bytes
le_bytes n = (n % 256) ∷ (n / 256 % 256) ∷ (n / 65536 % 256) ∷ (n / 16777216 % 256) ∷ []

unfoldable pub read_le : Bytes → ℕ
read_le (a ∷ b ∷ c ∷ d ∷ rest) = a + 256 * b + 65536 * c + 16777216 * d
read_le _ = 0

unfoldable pub header_bytes : TransObj → Bytes
unfolding le_bytes
header_bytes o =
    le_bytes o.msg_type
    ++ (le_bytes o.len
        ++ (le_bytes (to_u32 o.id) ++ (le_bytes (to_u32 o.recver_id) ++ le_bytes (to_u32 o.fd))))

unfoldable pub obj_bytes : TransObj → Bytes
obj_bytes o = header_bytes o ++ o.msg

-- A buffer that is shorter than the object is read past its end; so is one whose text, read from
-- the object's array on, has no NUL.
unfoldable pub trans_buff2_obj : Option Bytes → TransObj → Option (Bool × TransObj)
trans_buff2_obj none o = some (false, o)
trans_buff2_obj (some buff) o =
    if ltb (length buff) size_of_trans_obj
    then none
    else (c_string (drop 20 buff) >>= λ text.
        let o1 = set_recver_id (from_u32 (read_le (drop 12 buff))) o in
        let o2 = set_fd (from_u32 (read_le (drop 16 buff))) o1 in
        let o3 = set_id (from_u32 (read_le (drop 8 buff))) o2 in
        let o4 = set_msg_type (read_le buff) o3 in
        let o5 = (set_msg text o4).1 in
        some (true, record o5 { msg = write_at 0 (take max_trans_msg_len (drop 20 buff)) o5.msg }))
