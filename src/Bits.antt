-- ===== src/Bits.antt =====
-- Single bits of a word, and what `|=` and `&` with a power of two do to them.
use mini_udp.Prelude.{
  ℕ, zero, suc, ◌+◌, ◌*◌, ◌/◌, ◌%◌, ◌^◌, ◌≤◌, ◌≡◌, refl, arith, ◌==◌, if◌then◌else◌,
}
use Prim.Native.Nat.{min, max, digits, bit_and, bit_or, bit_and-bitwise, bit_or-bitwise}
use native.Mathlib.Nat.{pow-suc}

-- Bit `k` of a word, as 0 or 1.
unfoldable pub bit : ℕ → ℕ → ℕ
bit a zero = a % 2
bit a (suc k) = bit (a / 2) k

-- The native operations run over the digits of their first argument on fuel; any fuel from that
-- argument on gives the same.
module _ (tail : ℕ → ℕ) (op : ℕ → ℕ → ℕ) where
  fuel_irrelevant : (f g a b : ℕ) → a ≤ f → a ≤ g → digits tail op f a b ≡ digits tail op g a b
  fuel_irrelevant zero zero a b p q = refl
  fuel_irrelevant zero (suc g) zero b p q = refl
  fuel_irrelevant zero (suc g) (suc a) b p q = absurd (omega arith)
  fuel_irrelevant (suc f) zero zero b p q = refl
  fuel_irrelevant (suc f) zero (suc a) b p q = absurd (omega arith)
  fuel_irrelevant (suc f) (suc g) zero b p q = refl
  fuel_irrelevant (suc f) (suc g) (suc a) b p q =
      omega (arith, fuel_irrelevant f g (suc a / 2) (b / 2) (omega arith) (omega arith))

bit_or_digit : (a b : ℕ) → bit_or a b ≡ bit_or (a / 2) (b / 2) * 2 + max (a % 2) (b % 2)
bit_or_digit zero b = omega (arith, bit_or-bitwise 0 b, bit_or-bitwise 0 (b / 2))
bit_or_digit (suc a) b = omega (
  arith,
  bit_or-bitwise (suc a) b,
  bit_or-bitwise (suc a / 2) (b / 2),
  fuel_irrelevant (λ y. y) max a (suc a / 2) (suc a / 2) (b / 2) (omega arith) (omega arith),
)

bit_and_digit : (a b : ℕ) → bit_and a b ≡ bit_and (a / 2) (b / 2) * 2 + min (a % 2) (b % 2)
bit_and_digit zero b = omega (arith, bit_and-bitwise 0 b, bit_and-bitwise 0 (b / 2))
bit_and_digit (suc a) b = omega (
  arith,
  bit_and-bitwise (suc a) b,
  bit_and-bitwise (suc a / 2) (b / 2),
  fuel_irrelevant (λ y. 0) min a (suc a / 2) (suc a / 2) (b / 2) (omega arith) (omega arith),
)

pub bit-bit_or : (k a b : ℕ) → bit (bit_or a b) k ≡ max (bit a k) (bit b k)
unfolding bit
bit-bit_or zero a b = omega (arith, bit_or_digit a b)
bit-bit_or (suc k) a b =
    let half : bit_or a b / 2 ≡ bit_or (a / 2) (b / 2) = omega (arith, bit_or_digit a b) in
    rw half (bit-bit_or k (a / 2) (b / 2))

pub bit-zero : (k : ℕ) → bit 0 k ≡ 0
unfolding bit
bit-zero zero = refl
bit-zero (suc k) = bit-zero k

pub bit-pow : (k j : ℕ) → bit (2 ^ k) j ≡ (if k == j then 1 else 0)
unfolding bit
bit-pow zero zero = refl
bit-pow zero (suc j) = ground (arith, bit-zero j)
bit-pow (suc k) zero = rw pow-suc (ground arith)
bit-pow (suc k) (suc j) =
    let half : 2 ^ suc k / 2 ≡ 2 ^ k = rw pow-suc (omega arith) in
    rw half (ground (arith, bit-pow k j))

bit_and-zero : (f a : ℕ) → a ≤ f → bit_and a 0 ≡ 0
bit_and-zero f zero h = refl
bit_and-zero zero (suc a) h = absurd (omega arith)
bit_and-zero (suc f) (suc a) h =
    omega (arith, bit_and_digit (suc a) 0, bit_and-zero f (suc a / 2) (omega arith))

-- Masking with one bit leaves that bit in its place.
pub bit_and-pow : (k a : ℕ) → bit_and a (2 ^ k) ≡ bit a k * 2 ^ k
unfolding bit
bit_and-pow zero a = omega (arith, bit_and_digit a 1, bit_and-zero (a / 2) (a / 2) (omega arith))
bit_and-pow (suc k) a =
    let half : 2 ^ suc k / 2 ≡ 2 ^ k = rw pow-suc (omega arith) in
    let even : 2 ^ suc k % 2 ≡ 0 = rw pow-suc (omega arith) in
    let double : 2 ^ suc k ≡ 2 ^ k * 2 = rw pow-suc (omega arith) in
    let step : bit_and a (2 ^ suc k) ≡ bit_and (a / 2) (2 ^ k) * 2 + min (a % 2) 0 =
      rw (half, even) at (bit_and_digit a (2 ^ suc k)) in
    rw (step, bit_and-pow k (a / 2), double) (omega arith)
