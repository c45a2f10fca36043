-- ===== src/Derive/Codec/Values.antt =====
-- The kinds of values whose generated code is a codec, and the values it is right for.
use mini_udp.Prelude.{ℕ, ◌^◌, ◌<◌, ◌≡◌, refl, List, [], length, All}
use mini_udp.ByteRepr.{ByteRepr}
use mini_udp.Derive.Codec.Lengths.{fully_unknown-IsTidy}
use mini_udp.Derive.Length.{is_static, fully_unknown}
use mini_udp.Derive.Field.{delegated_field, cow_field}
use mini_udp.Derive.Value.{
  Value, empty_tuple, bool, number, string, cow, option, array, vec, delegated, width, string_max,
  vec_max, El, instance_of, field_of,
}
use mini_udp.Derive.Codec.{IsCodec, IsLawful}
use mini_udp.Derive.Codec.Items.{write_item_lem, read_item_lem}
use mini_udp.Derive.Codec.Scalars.{
  empty_tuple-IsLawful, bool-IsLawful, number-IsLawful, string-IsLawful, nothing_written,
  next_of-zero,
}
use mini_udp.Derive.Codec.Groups.{
  delegated-IsLawful, vec-IsLawful, array-IsLawful, OkOption, option-IsLawful, derive_for-IsCodec,
}

-- A value is a field of a type that derives the trait, or stands behind an instance of its own.
pub data Place : Type 0 where
  in_field by_itself : Place

pub record Known (M : Type 0) (repr : ByteRepr M) : Type 1 where
  pub Ok : M → Type 0
  pub codec : IsCodec repr Ok

-- All kinds but a `Cow` as a field or in the option of a field.
pub data Never : Type 1 where

abbrev pub Good : Place → Value → Type 1
Good place empty_tuple = Unit {1}
Good place bool = Unit {1}
Good place (number n) = Unit {1}
Good place (string max) = Unit {1}
Good in_field (cow ty) = Never
Good by_itself (cow ty) = Good by_itself ty
Good place (option ty) = Good place ty
Good place (array ty len) = Good by_itself ty
Good place (vec ty max) = Good by_itself ty
Good place (delegated M repr) = Known M repr

module _ (lossy : List ℕ → List ℕ) where
  -- Numbers of their width, strings in UTF-8, and lengths of 32 bits.
  abbrev pub Valid : (place : Place) (v : Value) → Good place v → El v → Type 0
  Valid place empty_tuple g m = Unit {0}
  Valid place bool g m = Unit {0}
  Valid place (number n) g m = m < 256 ^ width n
  Valid place (string max) g m = (length m < 2 ^ 32) × (lossy m ≡ m)
  Valid in_field (cow ty) g m = ⊥
  Valid by_itself (cow ty) g m = Valid by_itself ty g m
  Valid place (option ty) g m = OkOption (Valid place ty g) m
  Valid place (array ty len) g m = (length m ≡ len) × All (Valid by_itself ty g) m
  Valid place (vec ty max) g m = (length m < 2 ^ 32) × All (Valid by_itself ty g) m
  Valid place (delegated M repr) g m = g.Ok m

cow_delegated-IsLawful :
    {M : Type 0} (repr : ByteRepr M) (Ok : M → Type 0)
    → IsCodec repr Ok
    → IsLawful (cow_field (delegated_field repr)) Ok
unfolding cow_field delegated_field fully_unknown is_static
cow_delegated-IsLawful repr Ok codec = record {
  fixed_code = λ m. [];
  variable_code = codec.code;
  fixed_of = λ m. tt;
  tidy = fully_unknown-IsTidy repr.min_byte_len repr.max_byte_len repr.byte_len;
  fixed_len = λ m. refl;
  variable_len = codec.code_len;
  min_len = codec.min_len;
  write_fixed = λ offset m bytes p v h. nothing_written offset bytes p;
  write_variable = λ offset m bytes p v h. write_item_lem repr Ok codec m bytes p v h;
  read_fixed = λ offset m bytes p v a. rw (next_of-zero offset p) refl;
  read_variable = λ offset m bytes p v a. read_item_lem repr Ok codec m bytes p v a;
}

module _ (lossy : List ℕ → List ℕ) where
  pub instance_of-IsCodec :
      (v : Value) (g : Good by_itself v) → IsCodec (instance_of lossy v) (Valid lossy by_itself v g)
  unfolding instance_of
  instance_of-IsCodec empty_tuple g = derive_for-IsCodec _ _ empty_tuple-IsLawful
  instance_of-IsCodec bool g = derive_for-IsCodec _ _ bool-IsLawful
  instance_of-IsCodec (number n) g = derive_for-IsCodec _ _ (number-IsLawful (width n))
  instance_of-IsCodec (string max) g = derive_for-IsCodec _ _ (string-IsLawful lossy string_max)
  instance_of-IsCodec (cow ty) g =
      derive_for-IsCodec _ _ (cow_delegated-IsLawful _ _ (instance_of-IsCodec ty g))
  instance_of-IsCodec (option ty) g =
      derive_for-IsCodec _ _
        (option-IsLawful _ _ (delegated-IsLawful _ _ (instance_of-IsCodec ty g)))
  instance_of-IsCodec (array ty len) g =
      derive_for-IsCodec _ _ (array-IsLawful _ _ (instance_of-IsCodec ty g) len)
  instance_of-IsCodec (vec ty max) g =
      derive_for-IsCodec _ _ (vec-IsLawful _ _ (instance_of-IsCodec ty g) vec_max _)
  instance_of-IsCodec (delegated M repr) g = g.codec

  pub field_of-IsLawful :
      (v : Value) (g : Good in_field v) → IsLawful (field_of lossy v) (Valid lossy in_field v g)
  unfolding field_of
  field_of-IsLawful empty_tuple g = empty_tuple-IsLawful
  field_of-IsLawful bool g = bool-IsLawful
  field_of-IsLawful (number n) g = number-IsLawful (width n)
  field_of-IsLawful (string max) g = string-IsLawful lossy max
  field_of-IsLawful (cow ty) g = elim g [ ]
  field_of-IsLawful (option ty) g = option-IsLawful _ _ (field_of-IsLawful ty g)
  field_of-IsLawful (array ty len) g = array-IsLawful _ _ (instance_of-IsCodec ty g) len
  field_of-IsLawful (vec ty max) g = vec-IsLawful _ _ (instance_of-IsCodec ty g) max _
  field_of-IsLawful (delegated M repr) g = delegated-IsLawful _ _ g.codec
