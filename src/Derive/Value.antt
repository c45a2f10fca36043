-- ===== src/Derive/Value.antt =====
-- derive/src/data.rs: the enum `Value`, the kinds of types that the macro knows, and the instances
-- that mini_udp/src/byte_repr.rs derives for them by `derive_for` (derive/src/lib.rs).
use mini_udp.Prelude.{ℕ, Bool, Option, List}
use mini_udp.ByteRepr.{ByteRepr, ok, ◌>>=◌}
use mini_udp.Derive.Bytes.{static}
use mini_udp.Derive.Length.{as_const_min_length, as_const_max_length, as_length}
use mini_udp.Derive.Field.{
  Field, empty_tuple_field, bool_field, number_field, string_field, cow_field, option_field,
  array_field, vec_field, delegated_field,
}

-- The variants of `Value` for numbers. A floating-point number is its bit pattern.
pub data Number : Type 0 where
  u8 i8 u16 i16 u32 i32 f32 u64 i64 f64 usize isize u128 i128 : Number

-- Their lengths, with pointers of 64 bits.
abbrev pub width : Number → ℕ
width u8 = 1
width i8 = 1
width u16 = 2
width i16 = 2
width u32 = 4
width i32 = 4
width f32 = 4
width u64 = 8
width i64 = 8
width f64 = 8
width usize = 8
width isize = 8
width u128 = 16
width i128 = 16

-- `delegated` is any other type, with its own instance.
pub data Value : Type 1 where
  empty_tuple bool : Value
  number : Number → Value
  string : ℕ → Value
  cow option : Value → Value
  array vec : Value → ℕ → Value
  delegated : (M : Type 0) → ByteRepr M → Value

-- The lengths that `from_type` gives a string and a vector.
abbrev pub string_max : ℕ
string_max = 1020

abbrev pub vec_max : ℕ
vec_max = 1000

-- The values of a type. Nothing forgets that a `Cow` is borrowed or owned: both are the value.
abbrev pub El : Value → Type 0
El empty_tuple = Unit {0}
El bool = Bool
El (number n) = ℕ
El (string max) = List ℕ
El (cow ty) = El ty
El (option ty) = Option (El ty)
El (array ty len) = List (El ty)
El (vec ty max) = List (El ty)
El (delegated M repr) = M

-- `derive_for`: the instance of a type by itself.
unfoldable pub derive_for : {M : Type 0} → Field M → ByteRepr M
derive_for value = record {
  min_byte_len = as_const_min_length value.length;
  max_byte_len = as_const_max_length value.length;
  byte_len = as_length value.length;
  write_to_bytes = λ m bytes. do
    (fixed, start) ← value.write_fixed_part (static 0) m (bytes, 0)
    (written, end) ← value.write_variable_part (static 0) m (fixed, value.length.fixed_bytes)
    ok written;
  from_bytes = λ bytes. do
    (fixed, start) ← value.read_fixed_part (static 0) bytes 0
    (m, end) ← value.read_variable_part (static 0) fixed bytes value.length.fixed_bytes
    ok m;
}

module _ (lossy : List ℕ → List ℕ) where
  -- The instances of the generic types are derived with their parameter as another type.
  unfoldable pub instance_of : (v : Value) → ByteRepr (El v)
  instance_of empty_tuple = derive_for empty_tuple_field
  instance_of bool = derive_for bool_field
  instance_of (number n) = derive_for (number_field (width n))
  instance_of (string max) = derive_for (string_field lossy string_max)
  instance_of (cow ty) = derive_for (cow_field (delegated_field (instance_of ty)))
  instance_of (option ty) = derive_for (option_field (delegated_field (instance_of ty)))
  instance_of (array ty len) = derive_for (array_field (instance_of ty) len)
  instance_of (vec ty max) =
      derive_for (vec_field (instance_of ty) vec_max (instance_of ty).max_byte_len)
  instance_of (delegated M repr) = repr

  -- The code for a field of this kind, in a type that derives the trait.
  unfoldable pub field_of : (v : Value) → Field (El v)
  unfolding instance_of
  field_of empty_tuple = empty_tuple_field
  field_of bool = bool_field
  field_of (number n) = number_field (width n)
  field_of (string max) = string_field lossy max
  field_of (cow ty) = cow_field (field_of ty)
  field_of (option ty) = option_field (field_of ty)
  field_of (array ty len) = array_field (instance_of ty) len
  field_of (vec ty max) = vec_field (instance_of ty) max (as_const_max_length (field_of ty).length)
  field_of (delegated M repr) = delegated_field repr
