-- ===== src/Derive/Field.antt =====
-- derive/src/data.rs: the code for a field, for each kind of value: what it writes and reads at its
-- fixed place, and what at the running index after all fixed places.
use mini_udp.Prelude.{
  ℕ, zero, suc, ◌+◌, ◌*◌, ◌%◌, ◌^◌, Bool, true, false, ◌==◌, if◌then◌else◌, Option, none, some,
  List, [], ◌∷◌, ◌++◌, length, take, is_some,
}
use mini_udp.ByteRepr.{ByteRepr, Result, ok, panic, ◌>>=◌}
use mini_udp.Derive.Bytes.{
  ByteOffset, dynamic, get_range, put_range, slice_from, slice_of, le_bytes, from_le,
}
use mini_udp.Derive.Length.{
  ByteLen, fully_static, fully_unknown, known_fixed_unknown_length, as_const_max_length, as_length,
  is_static,
}

-- `Fixed` is what the fixed part binds for the variable part: the variable `.._fixed`, or the value
-- itself.
pub record Field (M : Type 0) : Type 1 where
  pub Fixed : Type 0
  pub length : ByteLen M
  pub write_fixed_part : ByteOffset → M → List ℕ × ℕ → Result (List ℕ × ℕ)
  pub write_variable_part : ByteOffset → M → List ℕ × ℕ → Result (List ℕ × ℕ)
  pub read_fixed_part : ByteOffset → List ℕ → ℕ → Result (Fixed × ℕ)
  pub read_variable_part : ByteOffset → Fixed → List ℕ → ℕ → Result (M × ℕ)

unfoldable pub empty_tuple_field : Field (Unit {0})
empty_tuple_field = record {
  Fixed = Unit {0};
  length = fully_static 0;
  write_fixed_part = λ offset m st. ok st;
  write_variable_part = λ offset m st. ok st;
  read_fixed_part = λ offset bytes byte_ptr. ok (tt, byte_ptr);
  read_variable_part = λ offset m bytes byte_ptr. ok (m, byte_ptr);
}

unfoldable pub bool_field : Field Bool
bool_field = record {
  Fixed = Bool;
  length = fully_static 1;
  write_fixed_part = λ offset m st. put_range offset ((if m then 1 else 0) ∷ []) st;
  write_variable_part = λ offset m st. ok st;
  read_fixed_part = λ offset bytes byte_ptr. do
    (xs, next) ← get_range offset 1 bytes byte_ptr
    ok (from_le xs == 1, next);
  read_variable_part = λ offset m bytes byte_ptr. ok (m, byte_ptr);
}

-- The numbers, also the floating-point ones, of this many bytes.
unfoldable pub number_field : ℕ → Field ℕ
number_field width = record {
  Fixed = ℕ;
  length = fully_static width;
  write_fixed_part = λ offset m st. put_range offset (le_bytes width m) st;
  write_variable_part = λ offset m st. ok st;
  read_fixed_part = λ offset bytes byte_ptr. do
    (xs, next) ← get_range offset width bytes byte_ptr
    ok (from_le xs, next);
  read_variable_part = λ offset m bytes byte_ptr. ok (m, byte_ptr);
}

-- `len() as u32`, at the fixed place of strings and vectors.
abbrev pub len_bytes : {A : Type 0} → List A → List ℕ
len_bytes xs = le_bytes 4 (length xs % 2 ^ 32)

abbrev pub read_len : ByteOffset → List ℕ → ℕ → Result (ℕ × ℕ)
read_len offset bytes byte_ptr =
    get_range offset 4 bytes byte_ptr >>= λ (r : List ℕ × ℕ). ok (from_le r.0, r.1)

-- A string is its bytes. `lossy` is `String::from_utf8_lossy`.
unfoldable pub string_field : (List ℕ → List ℕ) → ℕ → Field (List ℕ)
string_field lossy max_length = record {
  Fixed = ℕ;
  length = known_fixed_unknown_length 4 max_length (λ m. length m);
  write_fixed_part = λ offset m st. put_range offset (len_bytes m) st;
  write_variable_part = λ offset m st. put_range dynamic m st;
  read_fixed_part = read_len;
  read_variable_part = λ offset fixed bytes byte_ptr. do
    xs ← slice_of bytes byte_ptr fixed
    ok (lossy xs, byte_ptr + fixed);
}

-- `value.write_to_bytes(&mut bytes[byte_ptr..])?; byte_ptr += value.byte_len();`
unfoldable pub write_item : {M : Type 0} → ByteRepr M → M → List ℕ × ℕ → Result (List ℕ × ℕ)
write_item repr m (bytes, byte_ptr) = do
  tail ← slice_from bytes byte_ptr
  written ← repr.write_to_bytes m tail
  ok (take byte_ptr bytes ++ written, byte_ptr + repr.byte_len m)

-- `let value = from_bytes(&bytes[byte_ptr..])?; byte_ptr += value.byte_len();`
unfoldable pub read_item : {M : Type 0} → ByteRepr M → List ℕ → ℕ → Result (M × ℕ)
read_item repr bytes byte_ptr = do
  tail ← slice_from bytes byte_ptr
  m ← repr.from_bytes tail
  ok (m, byte_ptr + repr.byte_len m)

unfoldable pub write_items : {M : Type 0} → ByteRepr M → List M → List ℕ × ℕ → Result (List ℕ × ℕ)
write_items repr [] st = ok st
write_items repr (m ∷ ms) st = write_item repr m st >>= λ st'. write_items repr ms st'

-- An array stops at the first error as well: what is left of it is filled with defaults and dropped.
unfoldable pub read_items : {M : Type 0} → ByteRepr M → ℕ → List ℕ → ℕ → Result (List M × ℕ)
read_items repr zero bytes byte_ptr = ok ([], byte_ptr)
read_items repr (suc n) bytes byte_ptr = do
  (m, next) ← read_item repr bytes byte_ptr
  (ms, end) ← read_items repr n bytes next
  ok (m ∷ ms, end)

-- `iter().map(|f| f.byte_len()).sum()`
unfoldable pub sum_len : {M : Type 0} → ByteRepr M → List M → ℕ
sum_len repr [] = 0
sum_len repr (m ∷ ms) = repr.byte_len m + sum_len repr ms

unfoldable pub delegated_field : {M : Type 0} → ByteRepr M → Field M
delegated_field {M} repr = record {
  Fixed = Unit {0};
  length = fully_unknown repr.min_byte_len repr.max_byte_len repr.byte_len;
  write_fixed_part = λ offset m st. ok st;
  write_variable_part = λ offset m st. write_item repr m st;
  read_fixed_part = λ offset bytes byte_ptr. ok (tt, byte_ptr);
  read_variable_part = λ offset fixed bytes byte_ptr. read_item repr bytes byte_ptr;
}

-- An array is the list of its items.
unfoldable pub array_field : {M : Type 0} → ByteRepr M → ℕ → Field (List M)
array_field repr len = record {
  Fixed = Unit {0};
  length = fully_unknown (repr.min_byte_len * len) (repr.max_byte_len * len) (sum_len repr);
  write_fixed_part = λ offset m st. ok st;
  write_variable_part = λ offset m st. write_items repr m st;
  read_fixed_part = λ offset bytes byte_ptr. ok (tt, byte_ptr);
  read_variable_part = λ offset fixed bytes byte_ptr. read_items repr len bytes byte_ptr;
}

-- `max_item` is the code for the greatest length of an item.
unfoldable pub vec_field : {M : Type 0} → ByteRepr M → ℕ → ℕ → Field (List M)
vec_field repr max_length max_item = record {
  Fixed = ℕ;
  length = known_fixed_unknown_length 4 (max_length * max_item) (sum_len repr);
  write_fixed_part = λ offset m st. put_range offset (len_bytes m) st;
  write_variable_part = λ offset m st. write_items repr m st;
  read_fixed_part = read_len;
  read_variable_part = λ offset fixed bytes byte_ptr. read_items repr fixed bytes byte_ptr;
}

unfoldable pub read_option : {M : Type 0} → Field M → Bool → List ℕ → ℕ → Result (Option M × ℕ)
read_option inner false bytes byte_ptr = ok (none, byte_ptr)
read_option inner true bytes byte_ptr = do
  (fixed, start) ← inner.read_fixed_part dynamic bytes byte_ptr
  (x, next) ← inner.read_variable_part dynamic fixed bytes start
  ok (some x, next)

unfoldable pub write_option : {M : Type 0} → Field M → Option M → List ℕ × ℕ → Result (List ℕ × ℕ)
write_option inner none st = ok st
write_option inner (some x) st =
    inner.write_fixed_part dynamic x st >>= λ st'. inner.write_variable_part dynamic x st'

abbrev pub option_len : {M : Type 0} → Field M → Option M → ℕ
option_len inner none = 0
option_len inner (some x) = as_length inner.length x

-- The inner value has no fixed place of its own: it is written and read at the running index.
unfoldable pub option_field : {M : Type 0} → Field M → Field (Option M)
option_field {M} inner = record {
  Fixed = Bool;
  length = known_fixed_unknown_length 1 (as_const_max_length inner.length) (option_len inner);
  write_fixed_part = λ offset m st. put_range offset ((if is_some m then 1 else 0) ∷ []) st;
  write_variable_part = λ offset m st. write_option inner m st;
  read_fixed_part = λ offset bytes byte_ptr. do
    (xs, next) ← get_range offset 1 bytes byte_ptr
    ok (from_le xs == 1, next);
  read_variable_part = λ offset fixed bytes byte_ptr. read_option inner fixed bytes byte_ptr;
}

-- A `Cow` of a value with one fixed byte makes the macro itself panic, at `unreachable!()`. One of
-- a number is written twice, by both parts.
unfoldable pub cow_field : {M : Type 0} → Field M → Field M
cow_field inner = record {
  Fixed = Unit {0};
  length = inner.length;
  write_fixed_part = λ offset m st.
      if inner.length.fixed_bytes == 1
      then panic
      else if is_static inner.length
      then inner.write_fixed_part offset m st
      else ok st;
  write_variable_part = λ offset m st.
      inner.write_fixed_part offset m st >>= λ st'. inner.write_variable_part offset m st';
  read_fixed_part = λ offset bytes byte_ptr. ok (tt, byte_ptr);
  read_variable_part = λ offset fixed bytes byte_ptr. do
    (x, start) ← inner.read_fixed_part offset bytes byte_ptr
    inner.read_variable_part offset x bytes start;
}
