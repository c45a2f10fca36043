-- ===== src/Tests/Derives.antt =====
-- Runs of the code that derive/src generates, and of frames with the codec of `Packet`.
use mini_udp.Prelude.{
  ℕ, ◌≤◌, ◌<◌, ◌≡◌, refl, arith, true, some, List, [], ◌∷◌, ◌++◌, length, replicate, inl, inr,
}
use mini_udp.ByteRepr.{err, panic, slice_too_short, invalid_value}
use mini_udp.Derive.Bytes.{le_bytes}
use mini_udp.Derive.Value.{
  Value, u8, u16, bool, number, string, cow, option, vec, string_max, vec_max, field_of, derive_for,
  instance_of,
}
use mini_udp.Derive.Fields.{static_byte_len, Els, length_of, impl_for_struct}
use mini_udp.Derive.Variants.{Choice, impl_for_enum, match_len, variant_len}
use mini_udp.Derive.Codec.Values.{by_itself, Valid}
use mini_udp.Derive.Codec.Structs.{GoodAll, ValidAll}
use mini_udp.Derive.Codec.Minimum.{GoodVariants, ValidChoice}
use mini_udp.Derive.Length.{
  is_static, add, as_length, known_min_length, fully_static, fully_unknown,
  known_fixed_unknown_length,
}
use mini_udp.Derive.Field.{
  number_field, bool_field, option_field, string_field, vec_field, cow_field, delegated_field,
  sum_len,
}
use mini_udp.Derive.RoundTrip.{
  RoundTrip, derived_struct, derived_enum, derived_instance, derived_min_len,
}
use mini_udp.Derive.Static.{static_struct}
use mini_udp.Derive.Twice.{option_cow_too_short}
use mini_udp.Derive.Refused.{struct_too_short}
use mini_udp.Derive.Untrusted.{string_cut_off, enum_refused}

abbrev pub zeros : ℕ → List ℕ
zeros n = replicate n 0

abbrev pub same_text : List ℕ → List ℕ
same_text bytes = bytes

abbrev mixed_fields : List Value
mixed_fields = number u16 ∷ option bool ∷ string string_max ∷ vec (number u8) vec_max ∷ []

abbrev mixed : Els mixed_fields
mixed = (513, (some true, (104 ∷ 105 ∷ [], (1 ∷ 2 ∷ 3 ∷ [], tt))))

abbrev mixed_good : GoodAll mixed_fields
mixed_good = (tt, (tt, (tt, (tt, tt))))

mixed_valid : ValidAll same_text mixed_fields mixed_good mixed
mixed_valid = (
  omega arith,
  (tt, ((omega arith, refl), ((omega arith, (omega arith, (omega arith, (omega arith, tt)))), tt))),
)

mixed_len : (impl_for_struct same_text mixed_fields).byte_len mixed ≤ length (zeros 20)
unfolding impl_for_struct impl_for_enum length_of field_of instance_of derive_for add as_length
    known_min_length number_field bool_field option_field string_field vec_field cow_field
    delegated_field fully_static fully_unknown known_fixed_unknown_length sum_len match_len
    variant_len
mixed_len = omega arith

derived_struct_example :
    RoundTrip (impl_for_struct same_text mixed_fields) mixed (zeros 20) (9 ∷ 9 ∷ [])
derived_struct_example =
    derived_struct same_text mixed_fields mixed_good mixed (zeros 20) (9 ∷ 9 ∷ []) mixed_valid
      mixed_len

-- `Hello` and `Wave(u16)`.
abbrev pub greetings : List (List Value)
greetings = [] ∷ (number u16 ∷ []) ∷ []

abbrev pub greetings_good : GoodVariants greetings
greetings_good = (tt, ((tt, tt), tt))

abbrev pub wave : Choice greetings
wave = inr (inl (513, tt))

pub wave_valid : ValidChoice same_text greetings greetings_good wave
wave_valid = (omega arith, tt)

wave_len : (impl_for_enum same_text greetings).byte_len wave ≤ length (zeros 4)
unfolding impl_for_struct impl_for_enum length_of field_of instance_of derive_for add as_length
    known_min_length number_field bool_field option_field string_field vec_field cow_field
    delegated_field fully_static fully_unknown known_fixed_unknown_length sum_len match_len
    variant_len
wave_len = omega arith

derived_enum_example : RoundTrip (impl_for_enum same_text greetings) wave (zeros 4) (9 ∷ [])
derived_enum_example =
    derived_enum same_text greetings greetings_good wave (zeros 4) (9 ∷ []) (omega arith) wave_valid
      wave_len

abbrev names : Value
names = vec (cow (string string_max)) vec_max

names_valid : Valid same_text by_itself names tt ((104 ∷ []) ∷ [] ∷ [])
names_valid = (omega arith, ((omega arith, refl), ((omega arith, refl), tt)))

names_len : (instance_of same_text names).byte_len ((104 ∷ []) ∷ [] ∷ []) ≤ length (zeros 20)
unfolding impl_for_struct impl_for_enum length_of field_of instance_of derive_for add as_length
    known_min_length number_field bool_field option_field string_field vec_field cow_field
    delegated_field fully_static fully_unknown known_fixed_unknown_length sum_len match_len
    variant_len
names_len = omega arith

derived_instance_example :
    RoundTrip (instance_of same_text names) ((104 ∷ []) ∷ [] ∷ []) (zeros 20) []
derived_instance_example =
    derived_instance same_text names tt ((104 ∷ []) ∷ [] ∷ []) (zeros 20) [] names_valid names_len

derived_min_len_example :
    ((impl_for_struct same_text mixed_fields).min_byte_len
      ≤ (impl_for_struct same_text mixed_fields).byte_len mixed)
    × ((impl_for_enum same_text greetings).min_byte_len
        ≤ (impl_for_enum same_text greetings).byte_len wave)
derived_min_len_example =
    derived_min_len same_text mixed_fields mixed_good mixed greetings greetings_good wave
      mixed_valid wave_valid (omega arith)

cow_len :
    length (zeros 3)
    ≡ (impl_for_struct same_text (option (cow (number u16)) ∷ [])).byte_len (some 7, tt)
unfolding impl_for_struct impl_for_enum length_of field_of instance_of derive_for add as_length
    known_min_length number_field bool_field option_field string_field vec_field cow_field
    delegated_field fully_static fully_unknown known_fixed_unknown_length sum_len match_len
    variant_len
cow_len = omega arith

option_cow_too_short_example :
    (impl_for_struct same_text (option (cow (number u16)) ∷ [])).write_to_bytes
      (some 7, tt)
      (zeros 3)
    ≡ err slice_too_short
option_cow_too_short_example = option_cow_too_short same_text u16 7 (zeros 3) (omega arith) cow_len

mixed_fixed : length (zeros 10) < (length_of same_text mixed_fields).fixed_bytes
unfolding impl_for_struct impl_for_enum length_of field_of instance_of derive_for add as_length
    known_min_length number_field bool_field option_field string_field vec_field cow_field
    delegated_field fully_static fully_unknown known_fixed_unknown_length sum_len match_len
    variant_len
mixed_fixed = omega arith

struct_too_short_example :
    ((impl_for_struct same_text mixed_fields).write_to_bytes mixed (zeros 10) ≡ err slice_too_short)
    × ((impl_for_struct same_text mixed_fields).from_bytes (zeros 10) ≡ err slice_too_short)
struct_too_short_example =
    struct_too_short same_text mixed_fields mixed_good mixed (zeros 10) mixed_valid mixed_fixed

string_cut_off_example :
    (instance_of same_text (string string_max)).from_bytes (le_bytes 4 5 ++ (104 ∷ 105 ∷ []))
    ≡ panic
string_cut_off_example =
    string_cut_off same_text string_max 5 (104 ∷ 105 ∷ []) (omega arith) (omega arith)

enum_refused_example :
    ((impl_for_enum same_text greetings).from_bytes [] ≡ err slice_too_short)
    × ((impl_for_enum same_text greetings).from_bytes (2 ∷ 0 ∷ 0 ∷ []) ≡ err invalid_value)
enum_refused_example = enum_refused same_text greetings 2 (0 ∷ 0 ∷ []) (omega arith) (omega arith)

abbrev flags : List Value
flags = number u16 ∷ bool ∷ []

flags_static : is_static (length_of same_text flags) ≡ true
unfolding is_static length_of field_of number_field bool_field fully_static add
flags_static = refl

static_struct_example :
    let repr = impl_for_struct same_text flags in
    (static_byte_len same_text flags ≡ some (repr.byte_len (513, (true, tt))))
    × (repr.min_byte_len ≡ repr.byte_len (513, (true, tt)))
    × (repr.max_byte_len ≡ repr.byte_len (513, (true, tt)))
static_struct_example = static_struct same_text flags (tt, (tt, tt)) (513, (true, tt)) flags_static
