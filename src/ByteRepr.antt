-- ===== src/ByteRepr.antt =====
-- mini_udp/src/byte_repr.rs: the trait `ByteRepr` as an interface, its errors, and the provided
-- methods of `ByteReprExt`. A byte slice is a list of numbers.
pub mod Many
use mini_udp.Prelude.{
  ℕ, zero, suc, ◌+◌, ◌-◌, ltb, leb, ◌&&◌, if◌then◌else◌, List, [], ◌∷◌, ◌++◌, length, take, drop,
}
use mini_udp.Outcome.{Outcome, done, panicked, out_of_fuel}

pub data ByteReprError : Type 0 where
  slice_too_short invalid_value : ByteReprError

-- What a method of a codec comes to: `Ok`, `Err`, or a panic of the code behind it.
pub data Result {ℓ} (A : Type ℓ) : Type ℓ where
  ok : A → Result A
  err : ByteReprError → Result A
  panic : Result A

infixl 5 ◌>>=◌
abbrev pub ◌>>=◌ {ℓ κ} : {A : Type ℓ} {B : Type κ} → Result A → (A → Result B) → Result B
ok a >>= f = f a
err e >>= f = err e
panic >>= f = panic

-- `write_to_bytes` takes the slice and returns what it then holds; after an error the slice may
-- hold anything, and no caller reads it.
pub record ByteRepr (M : Type 0) : Type 0 where
  pub min_byte_len : ℕ
  pub max_byte_len : ℕ
  pub byte_len : M → ℕ
  pub write_to_bytes : M → List ℕ → Result (List ℕ)
  pub from_bytes : List ℕ → Result M

module _ {M : Type 0} (repr : ByteRepr M) where
  open repr use {min_byte_len, byte_len, write_to_bytes, from_bytes}

  -- The loop of `write_many`: what it returns, and the slice.
  unfoldable pub write_many_from : List M → List ℕ → ℕ → ℕ → Outcome ((ℕ × ℕ) × List ℕ)
  write_many_from [] bytes i ptr = done ((i, ptr), bytes)
  write_many_from (v ∷ vs) bytes i ptr =
      let rest =
        λ (tail : List ℕ). write_many_from vs (take ptr bytes ++ tail) (i + 1) (ptr + byte_len v) in
      if ltb (length bytes - ptr) (byte_len v)
      then done ((i, ptr), bytes)
      else elim (write_to_bytes v (drop ptr bytes)) [
        | err e ↦ done ((i, ptr), bytes)
        | panic ↦ panicked
        | ok tail ↦ rest tail
      ]

  unfoldable pub write_many : List M → List ℕ → Outcome ((ℕ × ℕ) × List ℕ)
  unfolding write_many_from
  write_many values bytes = write_many_from values bytes 0 0

  -- One round of the loop of `read_many` goes on with the value at its front; the tests come first.
  unfoldable pub read_many_from : ℕ → List ℕ → List M → ℕ → Outcome (Result (List M × ℕ))
  read_many_from zero bytes out ptr = out_of_fuel
  read_many_from (suc fuel) bytes out ptr =
      let rest = λ (v : M). read_many_from fuel bytes (out ++ (v ∷ [])) (ptr + byte_len v) in
      if ltb ptr (length bytes) && leb min_byte_len (length bytes - ptr)
      then elim (from_bytes (drop ptr bytes)) [
        | err e ↦ done (err e)
        | panic ↦ panicked
        | ok v ↦ rest v
      ]
      else done (ok (out, ptr))

  -- A value of no bytes is read again and again. Otherwise a round reads a byte or more.
  unfoldable pub read_many : List ℕ → Outcome (Result (List M × ℕ))
  unfolding read_many_from
  read_many bytes = read_many_from (length bytes + 1) bytes [] 0
