-- ===== src/TransObj/Wire.antt =====
-- The object as it travels: memcpy into a send buffer, and transBuff2Obj on the other side.
use ifellsofuckinggood.Prelude.{
  ℕ, ◌≤◌, ◌<◌, ◌≡◌, refl, sym, ap, ◌∙◌, ℤ, IsInt32, to_u32, from_u32, to_u32-lt, from_u32-to_u32,
  Bytes, true, some, ◌++◌, arith, length, take, drop, le→ltb, memset_zero, c_string, write_at,
  overwrite_all, length-append, take-append, append_assoc, length-write_at, length-take,
  length-drop,
}
use ifellsofuckinggood.TransObj.{
  TransObj, IsSized, size_of_trans_obj, set_msg, clear_msg, le_bytes, read_le, header_bytes,
  obj_bytes, trans_buff2_obj,
}

read_le-le_bytes : (n : ℕ) (rest : Bytes) → n < 4294967296 → read_le (le_bytes n ++ rest) ≡ n
unfolding read_le le_bytes
read_le-le_bytes n rest h = omega arith

length-header : (o : TransObj) → length (header_bytes o) ≡ 20
unfolding header_bytes le_bytes
length-header o = refl

pub length-obj_bytes : (o : TransObj) → IsSized o → length (obj_bytes o) ≡ size_of_trans_obj
unfolding obj_bytes
length-obj_bytes o s = omega (arith, length-append (header_bytes o) o.msg, length-header o)

-- setMsg keeps the array's size.
pub length-set_msg : (t : Bytes) (o : TransObj) → length (set_msg t o).1.msg ≡ length o.msg
unfolding set_msg clear_msg memset_zero
length-set_msg t o = ground (arith, length-write_at 0 t (clear_msg o).msg)

-- Only the text field of the object changes.
set_msg-frame :
    (t : Bytes) (o : TransObj) → record o { msg = (set_msg t o).1.msg } ≡ (set_msg t o).1
unfolding set_msg
set_msg-frame t o = ground arith

read_int : (z : ℤ) (rest : Bytes) → IsInt32 z → from_u32 (read_le (le_bytes (to_u32 z) ++ rest)) ≡ z
read_int z rest h = rw (read_le-le_bytes (to_u32 z) rest (to_u32-lt z)) (from_u32-to_u32 z h)

-- The fields of a buffer that begins with an object.
record Fields (o : TransObj) (rest : Bytes) : Type 0 where
  msg_type : read_le (header_bytes o ++ rest) ≡ o.msg_type
  id : from_u32 (read_le (drop 8 (header_bytes o ++ rest))) ≡ o.id
  recver_id : from_u32 (read_le (drop 12 (header_bytes o ++ rest))) ≡ o.recver_id
  fd : from_u32 (read_le (drop 16 (header_bytes o ++ rest))) ≡ o.fd
  tail : drop 20 (header_bytes o ++ rest) ≡ rest

-- The fields that travel are in the range of their types.
pub record InRange (o : TransObj) : Type 0 where
  pub msg_type : o.msg_type < 4294967296
  pub id : IsInt32 o.id
  pub recver_id : IsInt32 o.recver_id
  pub fd : IsInt32 o.fd

read-Fields : (o : TransObj) (rest : Bytes) → InRange o → Fields o rest
unfolding header_bytes le_bytes
read-Fields o rest r = record {
  msg_type = read_le-le_bytes o.msg_type _ r.msg_type;
  id = read_int o.id _ r.id;
  recver_id = read_int o.recver_id _ r.recver_id;
  fd = read_int o.fd _ r.fd;
  tail = refl;
}

-- setMsg changes the text alone, and memcpy replaces that.
refill :
    (t xs : Bytes) (o : TransObj)
    → length xs ≡ length o.msg
    → record (set_msg t o).1 { msg = write_at 0 xs (set_msg t o).1.msg } ≡ record o { msg = xs }
unfolding write_at
refill t xs o h =
    rw (overwrite_all xs (set_msg t o).1.msg (h ∙ sym (length-set_msg t o)))
      (sym (ap (λ (p : TransObj). record p { msg = xs }) (set_msg-frame t o)))

-- The object that a long enough buffer gives.
parsed :
    (b : Bytes) (o' : TransObj) {text : Bytes}
    → size_of_trans_obj ≤ length b
    → IsSized o'
    → c_string (drop 20 b) ≡ some text
    → trans_buff2_obj (some b) o'
      ≡ some (
        true,
        record {
          msg_type = read_le b;
          len = o'.len;
          id = from_u32 (read_le (drop 8 b));
          recver_id = from_u32 (read_le (drop 12 b));
          fd = from_u32 (read_le (drop 16 b));
          msg = take 64 (drop 20 b);
        },
      )
unfolding trans_buff2_obj
parsed b o' {text} h s nul =
    rw (le→ltb size_of_trans_obj (length b) h, nul)
      (ap (λ (o : TransObj). some (true, o))
        (refill text (take 64 (drop 20 b)) _
          (omega (arith, length-take 64 (drop 20 b), length-drop 20 b))))

enough :
    (o : TransObj) (pad : Bytes)
    → IsSized o
    → size_of_trans_obj ≤ length (header_bytes o ++ (o.msg ++ pad))
enough o pad s =
    omega (
      arith,
      length-append (header_bytes o) (o.msg ++ pad),
      length-append o.msg pad,
      length-header o,
    )

-- Reading a buffer that begins with the bytes of an object succeeds and gives every field of it but
-- `len`, which keeps the value of the object that is read into. The buffer must have a NUL from the
-- object's array on, and the fields must be in the range of their types.
pub trans_buff2_obj-obj_bytes :
    (o o' : TransObj) (pad : Bytes) {text : Bytes}
    → IsSized o
    → IsSized o'
    → InRange o
    → c_string (o.msg ++ pad) ≡ some text
    → trans_buff2_obj (some (obj_bytes o ++ pad)) o' ≡ some (true, record o { len = o'.len })
unfolding obj_bytes
trans_buff2_obj-obj_bytes o o' pad {text} s s' r nul =
    let f = read-Fields o (o.msg ++ pad) r in
    let e : obj_bytes o ++ pad ≡ header_bytes o ++ (o.msg ++ pad) =
      append_assoc (header_bytes o) o.msg pad in
    rw (
      e,
      parsed (header_bytes o ++ (o.msg ++ pad)) o' {text = text} (enough o pad s) s'
          (rw f.tail nul),
      f.msg_type,
      f.id,
      f.recver_id,
      f.fd,
      f.tail,
      take-append 64 o.msg pad s,
    )
