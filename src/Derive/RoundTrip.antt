-- ===== src/Derive/RoundTrip.antt =====
-- derive/src: what the generated instances promise: a value that is written is read back.
use mini_udp.Prelude.{ℕ, ◌+◌, ◌≤◌, ◌≡◌, refl, sym, arith, List, ◌++◌, length, take, drop}
use mini_udp.ByteRepr.{ByteRepr, ok}
use mini_udp.Derive.Bytes.{patch}
use mini_udp.Derive.Value.{Value, El, instance_of}
use mini_udp.Derive.Fields.{Els, impl_for_struct}
use mini_udp.Derive.Variants.{Choice, impl_for_enum}
use mini_udp.Derive.Patch.{length-patch, drop-length_append, take-length_append}
use mini_udp.Derive.Codec.{IsCodec}
use mini_udp.Derive.Codec.Values.{by_itself, Good, Valid, instance_of-IsCodec}
use mini_udp.Derive.Codec.Structs.{GoodAll, ValidAll}
use mini_udp.Derive.Codec.Minimum.{GoodVariants, ValidChoice}
use mini_udp.Derive.Codec.Enums.{impl_for_struct-IsCodec, impl_for_enum-IsCodec}

-- A write replaces the first `byte_len` bytes, no others, and whatever follows those a read of them
-- returns the value.
pub record RoundTrip {M : Type 0} (repr : ByteRepr M) (m : M) (bytes more : List ℕ) : Type 0 where
  pub written : List ℕ
  pub writes : repr.write_to_bytes m bytes ≡ ok written
  pub same_length : length written ≡ length bytes
  pub untouched : drop (repr.byte_len m) written ≡ drop (repr.byte_len m) bytes
  pub reads : repr.from_bytes (take (repr.byte_len m) written ++ more) ≡ ok m

pub patch-front : (xs bytes : List ℕ) → patch 0 xs bytes ≡ xs ++ drop (length xs) bytes
unfolding patch
patch-front xs bytes = let same : 0 + length xs ≡ length xs = omega arith in rw same refl

module _ {M : Type 0} (repr : ByteRepr M) (Ok : M → Type 0) (codec : IsCodec repr Ok) where
  pub IsCodec-RoundTrip :
      (m : M) (bytes more : List ℕ)
      → Ok m
      → repr.byte_len m ≤ length bytes
      → RoundTrip repr m bytes more
  IsCodec-RoundTrip m bytes more valid h =
      let xs = codec.code m in
      let len = codec.code_len m valid in
      let front : take (repr.byte_len m) (patch 0 xs bytes) ≡ xs =
        rw (sym len, patch-front xs bytes) (take-length_append xs (drop (length xs) bytes)) in
      let fits : 0 + length xs ≤ length bytes = omega (arith, len) in
      record {
        written = patch 0 xs bytes;
        writes = codec.write m bytes valid (omega (arith, len));
        same_length = length-patch 0 xs bytes fits;
        untouched =
            rw (sym len, patch-front xs bytes) (drop-length_append xs (drop (length xs) bytes));
        reads = rw front (
            codec.read m (xs ++ more) valid
              (record { inside = omega arith; post = more; found = refl }));
      }

module _ (lossy : List ℕ → List ℕ) where
  -- A struct of fields of every kind but `Cow`, directly or in an option, with other types that
  -- have a right codec. If the numbers of a value are of their widths, its strings UTF-8, its
  -- arrays of their lengths and the other lengths below `2^32`, and the slice has room, then
  -- `write_to_bytes` succeeds, replaces the first `byte_len` bytes and no others, and
  -- `from_bytes` of these, whatever follows them, returns the value.
  pub derived_struct :
      (vs : List Value) (g : GoodAll vs) (ms : Els vs) (bytes more : List ℕ)
      → ValidAll lossy vs g ms
      → (impl_for_struct lossy vs).byte_len ms ≤ length bytes
      → RoundTrip (impl_for_struct lossy vs) ms bytes more
  derived_struct vs g = IsCodec-RoundTrip _ _ (impl_for_struct-IsCodec lossy vs g)

  -- An enum of up to 256 variants with fields of every kind but `Cow`, directly or in an option,
  -- with other types that have a right codec. If the numbers of a value are of their widths, its
  -- strings UTF-8, its arrays of their lengths and the other lengths below `2^32`, and the slice
  -- has room, then `write_to_bytes` succeeds, replaces the first `byte_len` bytes and no others,
  -- and `from_bytes` of these, whatever follows them, returns the value.
  pub derived_enum :
      (variants : List (List Value)) (g : GoodVariants variants) (m : Choice variants)
      (bytes more : List ℕ)
      → length variants ≤ 256
      → ValidChoice lossy variants g m
      → (impl_for_enum lossy variants).byte_len m ≤ length bytes
      → RoundTrip (impl_for_enum lossy variants) m bytes more
  derived_enum variants g m bytes more few =
      IsCodec-RoundTrip _ _ (impl_for_enum-IsCodec lossy variants g few) m bytes more

  -- The instances of the base types, and of options, arrays, vectors and `Cow` of them or of
  -- types with a right codec. If the numbers of a value are of their widths, its strings UTF-8,
  -- its arrays of their lengths and the other lengths below `2^32`, and the slice has room, then
  -- `write_to_bytes` succeeds, replaces the first `byte_len` bytes and no others, and
  -- `from_bytes` of these, whatever follows them, returns the value.
  pub derived_instance :
      (v : Value) (g : Good by_itself v) (m : El v) (bytes more : List ℕ)
      → Valid lossy by_itself v g m
      → (instance_of lossy v).byte_len m ≤ length bytes
      → RoundTrip (instance_of lossy v) m bytes more
  derived_instance v g = IsCodec-RoundTrip _ _ (instance_of-IsCodec lossy v g)

  -- `MIN_BYTE_LEN` is at most `byte_len`, for a struct and for an enum of up to 256 variants with
  -- fields of every kind but `Cow`, directly or in an option, and values with numbers of their
  -- widths, strings in UTF-8, arrays of their lengths and other lengths below `2^32`.
  pub derived_min_len :
      (vs : List Value) (g : GoodAll vs) (ms : Els vs) (variants : List (List Value))
      (h : GoodVariants variants) (m : Choice variants)
      → ValidAll lossy vs g ms
      → ValidChoice lossy variants h m
      → length variants ≤ 256
      → ((impl_for_struct lossy vs).min_byte_len ≤ (impl_for_struct lossy vs).byte_len ms)
        × ((impl_for_enum lossy variants).min_byte_len ≤ (impl_for_enum lossy variants).byte_len m)
  derived_min_len vs g ms variants h m valid chosen few = (
    (impl_for_struct-IsCodec lossy vs g).min_len ms valid,
    (impl_for_enum-IsCodec lossy variants h few).min_len m chosen,
  )
