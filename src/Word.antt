-- ===== src/Word.antt =====
-- The `u16` arithmetic that sequence ids use (`wrapping_add`, `wrapping_sub`, `u16::MAX`).
use mini_udp.Prelude.{ℕ, ◌+◌, ◌-◌, ◌%◌, ◌<◌, ◌≡◌, arith}

abbrev pub u16_max : ℕ
u16_max = 65535

-- The number of `u16` values.
abbrev pub u16_mod : ℕ
u16_mod = 65536

abbrev pub IsU16 : ℕ → Type 0
IsU16 x = x < u16_mod

abbrev pub wrapping_add : ℕ → ℕ → ℕ
wrapping_add a b = (a + b) % u16_mod

-- `-` on ℕ stops at 0, so the modulus is added first.
abbrev pub wrapping_sub : ℕ → ℕ → ℕ
wrapping_sub a b = (a + u16_mod - b) % u16_mod

-- The number of steps from `b` forward to `a` gives `a` back.
pub wrapping_add-wrapping_sub :
    (a b : ℕ) → IsU16 a → IsU16 b → wrapping_add b (wrapping_sub a b) ≡ a
wrapping_add-wrapping_sub a b ha hb = omega arith
