-- ===== src/Derive/Fields.antt =====
-- derive/src/data_group.rs: the code for a list of fields, and derive/src/lib.rs: the code for a
-- struct. The values of a struct are tuples.
use mini_udp.Prelude.{if◌then◌else◌, Option, some, none, ℕ, ◌+◌, List, [], ◌∷◌}
use mini_udp.ByteRepr.{ByteRepr, Result, ok, ◌>>=◌}
use mini_udp.Derive.Bytes.{static}
use mini_udp.Derive.Length.{
  is_static, ByteLen, fully_static, add, as_const_min_length, as_const_max_length, as_length,
}
use mini_udp.Derive.Value.{Value, El, field_of}

abbrev pub Els : List Value → Type 0
Els [] = Unit {0}
Els (v ∷ vs) = El v × Els vs

-- The tuples of the variables that the fixed parts bind.
abbrev pub Fixeds : (List ℕ → List ℕ) → List Value → Type 0
Fixeds lossy [] = Unit {0}
Fixeds lossy (v ∷ vs) = (field_of lossy v).Fixed × Fixeds lossy vs

module _ (lossy : List ℕ → List ℕ) where
  -- `Fields::length`, a sum.
  unfoldable pub length_of : (vs : List Value) → ByteLen (Els vs)
  length_of [] = fully_static 0
  length_of (v ∷ vs) = add (field_of lossy v).length (length_of vs)

  -- The fixed parts, with the offsets that `Field::new` takes from `context.byte_offset`.
  unfoldable pub write_fixed_parts :
      (vs : List Value) → ℕ → Els vs → List ℕ × ℕ → Result (List ℕ × ℕ)
  write_fixed_parts [] offset ms st = ok st
  write_fixed_parts (v ∷ vs) offset (m, ms) st =
      (field_of lossy v).write_fixed_part (static offset) m st >>= λ st'.
      write_fixed_parts vs (offset + (field_of lossy v).length.fixed_bytes) ms st'

  unfoldable pub write_variable_parts :
      (vs : List Value) → ℕ → Els vs → List ℕ × ℕ → Result (List ℕ × ℕ)
  write_variable_parts [] offset ms st = ok st
  write_variable_parts (v ∷ vs) offset (m, ms) st =
      (field_of lossy v).write_variable_part (static offset) m st >>= λ st'.
      write_variable_parts vs (offset + (field_of lossy v).length.fixed_bytes) ms st'

  unfoldable pub read_fixed_parts : (vs : List Value) → ℕ → List ℕ → Result (Fixeds lossy vs)
  read_fixed_parts [] offset bytes = ok tt
  read_fixed_parts (v ∷ vs) offset bytes = do
    (fixed, start) ← (field_of lossy v).read_fixed_part (static offset) bytes 0
    rest ← read_fixed_parts vs (offset + (field_of lossy v).length.fixed_bytes) bytes
    ok (fixed, rest)

  unfoldable pub read_variable_parts :
      (vs : List Value) → ℕ → Fixeds lossy vs → List ℕ → ℕ → Result (Els vs)
  read_variable_parts [] offset fixed bytes byte_ptr = ok tt
  read_variable_parts (v ∷ vs) offset (fixed, rest) bytes byte_ptr = do
    (m, next) ← (field_of lossy v).read_variable_part (static offset) fixed bytes byte_ptr
    ms ← read_variable_parts vs (offset + (field_of lossy v).length.fixed_bytes) rest bytes next
    ok (m, ms)

  -- `Fields::write` and `Fields::read`, with the fixed parts from `offset` on.
  unfoldable pub write_fields : (vs : List Value) → ℕ → Els vs → List ℕ → Result (List ℕ)
  write_fields vs offset ms bytes = do
    (fixed, start) ← write_fixed_parts vs offset ms (bytes, 0)
    (written, end) ← write_variable_parts vs offset ms (fixed, offset + (length_of vs).fixed_bytes)
    ok written

  unfoldable pub read_fields : (vs : List Value) → ℕ → List ℕ → Result (Els vs)
  read_fields vs offset bytes = do
    fixed ← read_fixed_parts vs offset bytes
    read_variable_parts vs offset fixed bytes (offset + (length_of vs).fixed_bytes)

  -- `impl_for_struct`
  unfoldable pub impl_for_struct : (vs : List Value) → ByteRepr (Els vs)
  impl_for_struct vs = record {
    min_byte_len = as_const_min_length (length_of vs);
    max_byte_len = as_const_max_length (length_of vs);
    byte_len = as_length (length_of vs);
    write_to_bytes = write_fields vs 0;
    from_bytes = read_fields vs 0;
  }

  -- `BYTE_LEN`, where `derive_byte_repr` implements `StaticByteRepr` for a struct.
  unfoldable pub static_byte_len : List Value → Option ℕ
  static_byte_len vs =
      if is_static (length_of vs) then some (as_const_max_length (length_of vs)) else none
