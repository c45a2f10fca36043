-- ===== src/Serial.antt =====
-- The free functions of mini_udp/src/ring_buffer.rs: the range of consecutive ids and the
-- comparison of ids across the wrap of `u16`.
pub mod Order
use mini_udp.Prelude.{
  ℕ, zero, suc, ◌+◌, ◌-◌, Bool, true, false, not, ◌&&◌, ltb, leb, if◌then◌else◌, List, [], ◌∷◌,
}
use mini_udp.Word.{u16_max, wrapping_add, wrapping_sub}

-- `(k..k + len).map(|i| start.wrapping_add(i))`
unfoldable pub offsets : ℕ → ℕ → ℕ → List ℕ
offsets start k zero = []
offsets start k (suc len) = wrapping_add start k ∷ offsets start (k + 1) len

unfoldable pub wrapping_range : ℕ → ℕ → List ℕ
unfolding offsets
wrapping_range start end = let len = wrapping_sub end start in offsets start 0 len

-- No `u16` subtraction or addition of the body leaves the range: the second test of each
-- conjunction guards the third.
unfoldable pub wrapping_gt : ℕ → ℕ → ℕ → Bool
wrapping_gt x y max_dif =
    if ltb (u16_max - x) max_dif && (leb y x && ltb (u16_max - x + y) max_dif)
    then false
    else if ltb (u16_max - y) max_dif && (leb x y && ltb (u16_max - y + x) max_dif)
    then true
    else ltb y x
