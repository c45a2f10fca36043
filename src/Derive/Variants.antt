-- ===== src/Derive/Variants.antt =====
-- derive/src/lib.rs: the code for an enum of up to 256 variants. With more the macro picks a wider
-- type for the id, but its code for that does not type-check: it matches a slice against numbers.
use mini_udp.Prelude.{
  ℕ, ◌+◌, ◌-◌, ◌^◌, ◌&&◌, leb, ◌==◌, if◌then◌else◌, Option, none, some, List, [], ◌∷◌, length, Bool,
  true, min, ◌⊎◌, inl, inr,
}
use mini_udp.ByteRepr.{ByteRepr, Result, ok, err, invalid_value, ◌>>=◌}
use mini_udp.Derive.Bytes.{static, get_range, put_range, le_bytes, from_le}
use mini_udp.Derive.Length.{as_length, known_min_length, known_max_length}
use mini_udp.Derive.Value.{Value}
use mini_udp.Derive.Fields.{Els, length_of, write_fields, read_fields}

-- A value of an enum: a choice of a variant, with its fields.
abbrev pub Choice : List (List Value) → Type 0
Choice [] = ⊥
Choice (vs ∷ variants) = Els vs ⊎ Choice variants

-- The whole bytes of `(len - 1).ilog2() + 1` bits.
unfoldable pub variant_len : ℕ → ℕ
variant_len len =
    if leb len 1
    then 0
    else if leb len 256
    then 1
    else if leb len 65536
    then 2
    else if leb len 16_777_216
    then 3
    else 4

abbrev pub usize_max : ℕ
usize_max = 2 ^ 64 - 1

abbrev pub all : (ℕ → Bool) → List ℕ → Bool
all test [] = true
all test (x ∷ xs) = test x && all test xs

-- Nested `if`s that pick the first option which the operator puts before all later ones.
unfoldable pub const_min_max_list : (ℕ → ℕ → Bool) → List ℕ → ℕ
const_min_max_list operator [] = 0
const_min_max_list operator (x ∷ []) = x
const_min_max_list operator (x ∷ y ∷ ys) =
    let nest = const_min_max_list operator (y ∷ ys) in if all (operator x) (y ∷ ys) then x else nest

-- `filter(..is_empty()).map(known..)`, and the others with their unknown parts.
abbrev pub known : List (ℕ × Option ℕ) → List ℕ
known [] = []
known ((n, none) ∷ ls) = n ∷ known ls
known ((n, some m) ∷ ls) = known ls

abbrev pub unknown : List (ℕ × Option ℕ) → List ℕ
unknown [] = []
unknown ((n, none) ∷ ls) = unknown ls
unknown ((n, some m) ∷ ls) = (n + m) ∷ unknown ls

abbrev pub minimum : ℕ → List ℕ → ℕ
minimum d [] = d
minimum d (x ∷ []) = x
minimum d (x ∷ y ∷ ys) = min x (minimum d (y ∷ ys))

abbrev pub max : ℕ → ℕ → ℕ
max x y = if leb x y then y else x

abbrev pub maximum : List ℕ → ℕ
maximum [] = 0
maximum (x ∷ xs) = max x (maximum xs)

-- Both branches of the source: without an unknown length the list of options is the known one.
unfoldable pub lowest_min_len : List (ℕ × Option ℕ) → ℕ → ℕ
unfolding const_min_max_list
lowest_min_len ls variant_len =
    const_min_max_list leb (minimum usize_max (known ls) ∷ unknown ls) + variant_len

unfoldable pub lowest_max_len : List (ℕ × Option ℕ) → ℕ → ℕ
unfolding const_min_max_list
lowest_max_len ls variant_len =
    const_min_max_list (λ x y. leb y x) (maximum (known ls) ∷ unknown ls) + variant_len

module _ (lossy : List ℕ → List ℕ) where
  abbrev pub mins : List (List Value) → List (ℕ × Option ℕ)
  mins [] = []
  mins (vs ∷ variants) =
      (known_min_length (length_of lossy vs), (length_of lossy vs).unknown_min) ∷ mins variants

  abbrev maxes : List (List Value) → List (ℕ × Option ℕ)
  maxes [] = []
  maxes (vs ∷ variants) =
      (known_max_length (length_of lossy vs), (length_of lossy vs).unknown_max) ∷ maxes variants

  -- `match self { .. }` over the lengths of the variants.
  unfoldable pub match_len : (variants : List (List Value)) → Choice variants → ℕ
  match_len [] m = absurd m
  match_len (vs ∷ variants) (inl ms) = as_length (length_of lossy vs) ms
  match_len (vs ∷ variants) (inr m) = match_len variants m

  -- `match self { .. }` over the writes of the variants, from the id `id` on: the slice and the id.
  unfoldable pub match_write :
      (variants : List (List Value)) → ℕ → ℕ → Choice variants → List ℕ → Result (List ℕ × ℕ)
  match_write [] offset id m bytes = absurd m
  match_write (vs ∷ variants) offset id (inl ms) bytes =
      write_fields lossy vs offset ms bytes >>= λ written. ok (written, id)
  match_write (vs ∷ variants) offset id (inr m) bytes = match_write variants offset (id + 1) m bytes

  -- `match access { .. }` over the reads of the variants.
  unfoldable pub match_read :
      (variants : List (List Value)) → ℕ → ℕ → ℕ → List ℕ → Result (Choice variants)
  match_read [] offset id found bytes = err invalid_value
  match_read (vs ∷ variants) offset id found bytes =
      let here = read_fields lossy vs offset bytes >>= λ ms. ok (inl ms) in
      let later = match_read variants offset (id + 1) found bytes >>= λ m. ok (inr m) in
      if found == id then here else later

  -- An enum of one variant has no id.
  unfoldable pub write_enum :
      (variants : List (List Value)) → Choice variants → List ℕ → Result (List ℕ)
  write_enum variants m bytes = do
    (fields, id) ← match_write variants (variant_len (length variants)) 0 m bytes
    if leb (length variants) 1
        then ok fields
        else (put_range (static 0) (le_bytes 1 id) (fields, 0) >>= λ st. ok st.0)

  unfoldable pub read_enum : (variants : List (List Value)) → List ℕ → Result (Choice variants)
  read_enum variants bytes =
      if length variants == 1
      then match_read variants (variant_len (length variants)) 0 0 bytes
      else (get_range (static 0) 1 bytes 0 >>= λ st.
          match_read variants (variant_len (length variants)) 0 (from_le st.0) bytes)

  -- `impl_for_enum`
  unfoldable pub impl_for_enum : (variants : List (List Value)) → ByteRepr (Choice variants)
  impl_for_enum variants = record {
    min_byte_len = lowest_min_len (mins variants) (variant_len (length variants));
    max_byte_len = lowest_max_len (maxes variants) (variant_len (length variants));
    byte_len = λ m. match_len variants m + variant_len (length variants);
    write_to_bytes = write_enum variants;
    from_bytes = read_enum variants;
  }
