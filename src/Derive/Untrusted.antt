-- ===== src/Derive/Untrusted.antt =====
-- derive/src: what a read makes of bytes that no write produced: an id that no variant has, and a
-- string that is cut off.
use mini_udp.Prelude.{
  ℕ, suc, ◌+◌, ◌^◌, ◌≤◌, ◌<◌, ◌≡◌, refl, arith, leb, ◌==◌, false, List, [], ◌∷◌, ◌++◌, length,
  length-append,
}
use mini_udp.ByteRepr.{err, panic, slice_too_short, invalid_value}
use mini_udp.Derive.Bytes.{get_range, slice_of, le_bytes, from_le, static}
use mini_udp.Derive.Length.{known_fixed_unknown_length}
use mini_udp.Derive.Field.{string_field}
use mini_udp.Derive.Value.{Value, string, derive_for, instance_of}
use mini_udp.Derive.Variants.{impl_for_enum, read_enum, match_read, variant_len}
use mini_udp.Derive.Patch.{At}
use mini_udp.Derive.Access.{get_range_lem, length-le_bytes, from_le-le_bytes}

lt→leb : (a b : ℕ) → a < b → leb b a ≡ false
lt→leb a b h = ground arith

slice_of-short :
    (bytes : List ℕ) (p len : ℕ) → length bytes < p + len → slice_of bytes p len ≡ panic
unfolding slice_of
slice_of-short bytes p len h = rw (lt→leb _ _ h) refl

At-front : (xs ys : List ℕ) → At (xs ++ ys) 0 xs
At-front xs ys = record { inside = omega arith; post = ys; found = refl }

module _ (lossy : List ℕ → List ℕ) where
  -- Reading a `String` panics if the slice ends before the length that it states, which is below
  -- `2^32`.
  pub string_cut_off :
      (max n : ℕ) (rest : List ℕ)
      → n < 2 ^ 32
      → length rest < n
      → (instance_of lossy (string max)).from_bytes (le_bytes 4 n ++ rest) ≡ panic
  unfolding instance_of derive_for string_field known_fixed_unknown_length
  string_cut_off max n rest small cut =
      let xs = le_bytes 4 n in
      let len = length-le_bytes 4 n in
      let short : length (xs ++ rest) < 4 + n = omega (arith, length-append xs rest, len) in
      rw
        (
          rw len at (get_range_lem (static 0) xs (xs ++ rest) 0 (At-front xs rest)),
          from_le-le_bytes 4 n small,
          slice_of-short (xs ++ rest) 4 n short,
        )
        refl

  differs : (found id n : ℕ) → id + suc n ≤ found → (found == id) ≡ false
  differs found id n h = ground arith

  match_read-unknown :
      (variants : List (List Value)) (offset id found : ℕ) (bytes : List ℕ)
      → id + length variants ≤ found
      → match_read lossy variants offset id found bytes ≡ err invalid_value
  unfolding match_read
  match_read-unknown [] offset id found bytes h = refl
  match_read-unknown (vs ∷ variants) offset id found bytes h =
      rw
        (
          differs found id (length variants) h,
          match_read-unknown variants offset (id + 1) found bytes (omega arith),
        )
        refl

  ne_one : (n : ℕ) → 1 < n → (n == 1) ≡ false
  ne_one n h = ground arith

  from_le-byte : (b : ℕ) → from_le (b ∷ []) ≡ b
  unfolding from_le
  from_le-byte b = omega arith

  no_byte : get_range (static 0) 1 [] 0 ≡ err slice_too_short
  unfolding get_range
  no_byte = refl

  -- An enum of two variants or more reads `SliceTooShort` from an empty slice, and `InvalidValue`
  -- from one that begins with the id of no variant.
  pub enum_refused :
      (variants : List (List Value)) (id : ℕ) (rest : List ℕ)
      → 1 < length variants
      → length variants ≤ id
      → ((impl_for_enum lossy variants).from_bytes [] ≡ err slice_too_short)
        × ((impl_for_enum lossy variants).from_bytes (id ∷ rest) ≡ err invalid_value)
  unfolding impl_for_enum read_enum
  enum_refused variants id rest many unknown =
      let first : List ℕ = id ∷ [] in
      (
        rw (ne_one (length variants) many, no_byte) refl,
        rw
            (
              ne_one (length variants) many,
              get_range_lem (static 0) first (id ∷ rest) 0 (At-front first rest),
              from_le-byte id,
              match_read-unknown variants (variant_len (length variants)) 0 id (id ∷ rest)
                  (omega arith),
            )
            refl,
      )
