-- ===== src/Derive/Codec.antt =====
-- What a codec promises, of an instance of `ByteRepr` and of the generated code for a field.
pub mod Lengths
pub mod Items
pub mod Scalars
pub mod Groups
pub mod Values
pub mod Structs
pub mod Choices
pub mod Enums
pub mod Minimum
use mini_udp.Prelude.{ℕ, ◌+◌, ◌≤◌, ◌≡◌, Option, none, some, List, length}
use mini_udp.ByteRepr.{ByteRepr, ok}
use mini_udp.Derive.Bytes.{ByteOffset, start_of, next_of, patch}
use mini_udp.Derive.Length.{ByteLen}
use mini_udp.Derive.Field.{Field}
use mini_udp.Derive.Patch.{At}

-- The values of `Ok` have a code of the stated length: it is what a write puts at the front of a
-- slice, and a read of a slice that begins with it finds the value.
pub record IsCodec {M : Type 0} (repr : ByteRepr M) (Ok : M → Type 0) : Type 0 where
  pub code : M → List ℕ
  pub code_len : (m : M) → Ok m → length (code m) ≡ repr.byte_len m
  pub min_len : (m : M) → Ok m → repr.min_byte_len ≤ repr.byte_len m
  pub write :
      (m : M) (bytes : List ℕ)
      → Ok m
      → length (code m) ≤ length bytes
      → repr.write_to_bytes m bytes ≡ ok (patch 0 (code m) bytes)
  pub read : (m : M) (bytes : List ℕ) → Ok m → At bytes 0 (code m) → repr.from_bytes bytes ≡ ok m

-- What a length says beyond the fixed bytes.
abbrev pub or_zero : Option ℕ → ℕ
or_zero none = 0
or_zero (some n) = n

abbrev pub at_value : {M : Type 0} → Option (M → ℕ) → M → ℕ
at_value none m = 0
at_value (some f) m = f m

abbrev pub variable_length : {M : Type 0} → ByteLen M → M → ℕ
variable_length l m = at_value l.unknown_length m

-- A length with no code of its own is the fixed bytes.
pub record IsTidy {M : Type 0} (l : ByteLen M) : Type 0 where
  pub no_min : l.min_length ≡ 0
  pub no_max : l.max_length ≡ 0
  pub static_min : l.unknown_length ≡ none → l.unknown_min ≡ none
  pub static_max : l.unknown_length ≡ none → l.unknown_max ≡ none

-- The two parts of a field write and read the two parts of its code, the first at its offset and
-- the second at the running index.
pub record IsLawful {M : Type 0} (f : Field M) (Ok : M → Type 0) : Type 0 where
  pub fixed_code : M → List ℕ
  pub variable_code : M → List ℕ
  pub fixed_of : M → f.Fixed
  pub tidy : IsTidy f.length
  pub fixed_len : (m : M) → length (fixed_code m) ≡ f.length.fixed_bytes
  pub variable_len : (m : M) → Ok m → length (variable_code m) ≡ variable_length f.length m
  pub min_len : (m : M) → Ok m → or_zero f.length.unknown_min ≤ variable_length f.length m
  pub write_fixed :
      (offset : ByteOffset) (m : M) (bytes : List ℕ) (p : ℕ)
      → Ok m
      → start_of offset p + length (fixed_code m) ≤ length bytes
      → f.write_fixed_part offset m (bytes, p)
        ≡ ok (
          patch (start_of offset p) (fixed_code m) bytes,
          next_of offset (length (fixed_code m)) p,
        )
  pub write_variable :
      (offset : ByteOffset) (m : M) (bytes : List ℕ) (p : ℕ)
      → Ok m
      → p + length (variable_code m) ≤ length bytes
      → f.write_variable_part offset m (bytes, p)
        ≡ ok (patch p (variable_code m) bytes, p + length (variable_code m))
  pub read_fixed :
      (offset : ByteOffset) (m : M) (bytes : List ℕ) (p : ℕ)
      → Ok m
      → At bytes (start_of offset p) (fixed_code m)
      → f.read_fixed_part offset bytes p ≡ ok (fixed_of m, next_of offset (length (fixed_code m)) p)
  pub read_variable :
      (offset : ByteOffset) (m : M) (bytes : List ℕ) (p : ℕ)
      → Ok m
      → At bytes p (variable_code m)
      → f.read_variable_part offset (fixed_of m) bytes p ≡ ok (m, p + length (variable_code m))
