-- ===== src/Derive/Codec/Scalars.antt =====
-- The fields with no instances of others behind them: `()`, `bool`, numbers and strings.
use mini_udp.Prelude.{
  ℕ, ◌+◌, ◌%◌, ◌^◌, ◌<◌, ◌≡◌, refl, arith, Bool, true, false, ◌==◌, if◌then◌else◌, List, [], ◌∷◌,
  length,
}
use mini_udp.ByteRepr.{Result, ok, ◌>>=◌}
use mini_udp.Derive.Bytes.{
  ByteOffset, start_of, next_of, patch, get_range, le_bytes, from_le, static, dynamic,
}
use mini_udp.Derive.Field.{
  empty_tuple_field, bool_field, number_field, string_field, len_bytes, read_len,
}
use mini_udp.Derive.Patch.{At}
use mini_udp.Derive.Access.{
  put_range_lem, get_range_lem, slice_of_lem, patch-nil, length-le_bytes, from_le-le_bytes,
}
use mini_udp.Derive.Codec.{IsLawful}
use mini_udp.Derive.Length.{fully_static, known_fixed_unknown_length}
use mini_udp.Derive.Codec.Lengths.{fully_static-IsTidy, known_fixed-IsTidy}

abbrev and_next : {A : Type 0} → A → ℕ → Result (A × ℕ)
and_next a p = ok (a, p)

pub next_of-zero : (offset : ByteOffset) (p : ℕ) → next_of offset 0 p ≡ p
next_of-zero (static n) p = refl
next_of-zero dynamic p = omega arith

-- A part with nothing in it.
pub nothing_written :
    (offset : ByteOffset) (bytes : List ℕ) (p : ℕ)
    → and_next bytes p ≡ and_next (patch (start_of offset p) [] bytes) (next_of offset 0 p)
nothing_written offset bytes p =
    rw (patch-nil (start_of offset p) bytes, next_of-zero offset p) refl

pub plus_zero : (p : ℕ) → p + 0 ≡ p
plus_zero p = omega arith

pub empty_tuple-IsLawful : IsLawful empty_tuple_field (λ m. Unit {0})
unfolding empty_tuple_field fully_static
empty_tuple-IsLawful = record {
  fixed_code = λ m. [];
  variable_code = λ m. [];
  fixed_of = λ m. m;
  tidy = fully_static-IsTidy 0;
  fixed_len = λ m. refl;
  variable_len = λ m v. refl;
  min_len = λ m v. omega arith;
  write_fixed = λ offset m bytes p v h. nothing_written offset bytes p;
  write_variable = λ offset m bytes p v h. rw (patch-nil p bytes, plus_zero p) refl;
  read_fixed = λ offset m bytes p v a. rw (next_of-zero offset p) refl;
  read_variable = λ offset m bytes p v a. rw (plus_zero p) refl;
}

bit-from_le : (b : Bool) → (from_le ((if b then 1 else 0) ∷ []) == 1) ≡ b
unfolding from_le
bit-from_le true = refl
bit-from_le false = refl

pub read_bit :
    (offset : ByteOffset) (b : Bool) (bytes : List ℕ) (p : ℕ)
    → At bytes (start_of offset p) ((if b then 1 else 0) ∷ [])
    → (get_range offset 1 bytes p >>= λ (r : List ℕ × ℕ). and_next (from_le r.0 == 1) r.1)
      ≡ ok (b, next_of offset 1 p)
read_bit offset b bytes p a =
    rw (get_range_lem offset ((if b then 1 else 0) ∷ []) bytes p a, bit-from_le b) refl

pub bool-IsLawful : IsLawful bool_field (λ m. Unit {0})
unfolding bool_field fully_static
bool-IsLawful = record {
  fixed_code = λ m. (if m then 1 else 0) ∷ [];
  variable_code = λ m. [];
  fixed_of = λ m. m;
  tidy = fully_static-IsTidy 1;
  fixed_len = λ m. refl;
  variable_len = λ m v. refl;
  min_len = λ m v. omega arith;
  write_fixed = λ offset m bytes p v h. put_range_lem offset ((if m then 1 else 0) ∷ []) bytes p h;
  write_variable = λ offset m bytes p v h. rw (patch-nil p bytes, plus_zero p) refl;
  read_fixed = λ offset m bytes p v a. read_bit offset m bytes p a;
  read_variable = λ offset m bytes p v a. rw (plus_zero p) refl;
}

read_number :
    (offset : ByteOffset) (width x : ℕ) (bytes : List ℕ) (p : ℕ)
    → x < 256 ^ width
    → At bytes (start_of offset p) (le_bytes width x)
    → (get_range offset width bytes p >>= λ (r : List ℕ × ℕ). and_next (from_le r.0) r.1)
      ≡ ok (x, next_of offset width p)
read_number offset width x bytes p h a =
    let found =
      rw (length-le_bytes width x) at (get_range_lem offset (le_bytes width x) bytes p a) in
    rw (found, from_le-le_bytes width x h) refl

pub number-IsLawful : (width : ℕ) → IsLawful (number_field width) (λ m. m < 256 ^ width)
unfolding number_field fully_static
number-IsLawful width = record {
  fixed_code = λ m. le_bytes width m;
  variable_code = λ m. [];
  fixed_of = λ m. m;
  tidy = fully_static-IsTidy width;
  fixed_len = λ m. length-le_bytes width m;
  variable_len = λ m v. refl;
  min_len = λ m v. omega arith;
  write_fixed = λ offset m bytes p v h. put_range_lem offset (le_bytes width m) bytes p h;
  write_variable = λ offset m bytes p v h. rw (patch-nil p bytes, plus_zero p) refl;
  read_fixed =
      λ offset m bytes p v a. rw (length-le_bytes width m) (read_number offset width m bytes p v a);
  read_variable = λ offset m bytes p v a. rw (plus_zero p) refl;
}

pub read_len_lem :
    {A : Type 0} (offset : ByteOffset) (xs : List A) (bytes : List ℕ) (p : ℕ)
    → length xs < 2 ^ 32
    → At bytes (start_of offset p) (len_bytes xs)
    → read_len offset bytes p ≡ ok (length xs, next_of offset (length (len_bytes xs)) p)
read_len_lem offset xs bytes p h a =
    let same : length xs % 2 ^ 32 ≡ length xs = omega arith in
    rw (length-le_bytes 4 (length xs % 2 ^ 32))
      (rw same at (read_number offset 4 (length xs % 2 ^ 32) bytes p (omega arith) a))

pub string-IsLawful :
    (lossy : List ℕ → List ℕ) (max : ℕ)
    → IsLawful (string_field lossy max) (λ m. (length m < 2 ^ 32) × (lossy m ≡ m))
unfolding string_field known_fixed_unknown_length
string-IsLawful lossy max = record {
  fixed_code = λ m. len_bytes m;
  variable_code = λ m. m;
  fixed_of = λ m. length m;
  tidy = known_fixed-IsTidy 4 max (λ m. length m);
  fixed_len = λ m. length-le_bytes 4 (length m % 2 ^ 32);
  variable_len = λ m v. refl;
  min_len = λ m v. omega arith;
  write_fixed = λ offset m bytes p v h. put_range_lem offset (len_bytes m) bytes p h;
  write_variable = λ offset m bytes p v h. put_range_lem dynamic m bytes p h;
  read_fixed = λ offset m bytes p v a. read_len_lem offset m bytes p v.0 a;
  read_variable = λ offset m bytes p v a. rw (slice_of_lem bytes p m a, v.1) refl;
}
