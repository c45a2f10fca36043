-- ===== src/Derive/Twice.antt =====
-- derive/src/data.rs: the field `Option<Cow<N>>` for a number `N`.
use mini_udp.Prelude.{
  ℕ, ◌+◌, ◌≤◌, ◌<◌, ◌≡◌, refl, ap, arith, leb, ◌==◌, false, List, [], ◌∷◌, length, some,
}
use mini_udp.ByteRepr.{err, slice_too_short}
use mini_udp.Derive.Bytes.{patch, put_range, le_bytes, static, dynamic}
use mini_udp.Derive.Field.{number_field, cow_field, option_field, write_option}
use mini_udp.Derive.Value.{field_of, Number, option, cow, number, width}
use mini_udp.Derive.Fields.{
  length_of, write_fixed_parts, write_variable_parts, impl_for_struct, write_fields,
}
use mini_udp.Derive.Length.{
  add, known_min_length, as_length, fully_static, is_static, known_fixed_unknown_length,
}
use mini_udp.Derive.Patch.{length-patch}
use mini_udp.Derive.Access.{put_range_lem, length-le_bytes}

put_range-short :
    (xs bytes : List ℕ) (p : ℕ)
    → length bytes < p + length xs
    → put_range dynamic xs (bytes, p) ≡ err slice_too_short
unfolding put_range
put_range-short xs bytes p h = rw (lt→leb _ _ h) refl
  where
    lt→leb : (a b : ℕ) → a < b → leb b a ≡ false
    lt→leb a b h = ground arith

not_one : (w : ℕ) → 1 < w → (w == 1) ≡ false
not_one w h = ground arith

write_option-short :
    (w x : ℕ) (bytes : List ℕ) (p : ℕ)
    → 1 < w
    → p + w ≤ length bytes
    → length bytes < p + w + w
    → write_option (cow_field (number_field w)) (some x) (bytes, p) ≡ err slice_too_short
unfolding write_option cow_field number_field fully_static is_static
write_option-short w x bytes p wide h k =
    let xs = le_bytes w x in
    let len = length-le_bytes w x in
    let fits : p + length xs ≤ length bytes = omega (arith, len) in
    let short : length (patch p xs bytes) < p + length xs + length xs =
      omega (arith, len, length-patch p xs bytes fits) in
    rw
      (
        not_one w wide,
        put_range_lem dynamic xs bytes p fits,
        put_range-short xs (patch p xs bytes) (p + length xs) short,
      )
      refl

module _ (lossy : List ℕ → List ℕ) where
  option_cow_len :
      (n : Number) (x : ℕ)
      → (impl_for_struct lossy (option (cow (number n)) ∷ [])).byte_len (some x, tt) ≡ 1 + width n
  unfolding impl_for_struct length_of field_of add option_field known_fixed_unknown_length as_length
      cow_field number_field fully_static known_min_length
  option_cow_len n x = let same : width n + 0 ≡ width n = omega arith in ap (λ k. 1 + k) same

  -- For a struct of one field, the option of a `Cow` of a number of two bytes or more, a slice of
  -- just `byte_len` bytes is too short to write a value that is there: the number is written
  -- twice.
  pub option_cow_too_short :
      (n : Number) (x : ℕ) (bytes : List ℕ)
      → 1 < width n
      → length bytes ≡ (impl_for_struct lossy (option (cow (number n)) ∷ [])).byte_len (some x, tt)
      → (impl_for_struct lossy (option (cow (number n)) ∷ [])).write_to_bytes (some x, tt) bytes
        ≡ err slice_too_short
  unfolding impl_for_struct write_fields write_fixed_parts write_variable_parts field_of length_of
      add option_field known_fixed_unknown_length fully_static
  option_cow_too_short n x bytes wide h =
      let len = option_cow_len n x in
      let one : List ℕ = 1 ∷ [] in
      let fits : 0 + length one ≤ length bytes = omega (arith, len) in
      let size = length-patch 0 one bytes fits in
      rw
        (
          put_range_lem (static 0) one bytes 0 fits,
          write_option-short (width n) x (patch 0 one bytes) 1 wide (omega (arith, len, size))
              (omega (arith, len, size)),
        )
        refl
