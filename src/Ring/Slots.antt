-- ===== src/Ring/Slots.antt =====
-- mini_udp/src/ring_buffer.rs: which capacities and buffers are well-formed, and which slot of the
-- array an id has.
use mini_udp.Prelude.{
  ℕ, suc, ◌+◌, ◌-◌, ◌*◌, ◌/◌, ◌%◌, ◌≤◌, ◌<◌, ◌≡◌, sym, ap, ◌∙◌, arith, length, inl, inr, lt_or_le,
}
use mini_udp.Word.{u16_max, u16_mod, IsU16, wrapping_sub}
use mini_udp.Ring.{RingBuffer}
use native.Mathlib.Nat.{div-add-mod, mul-le-mul_left, lt_of_mul-lt-mul_left, add-mul-mod_self_left}

-- What the assertions of `RingBuffer::default` ask for, and a bound under which no `u16`
-- expression of `insert` overflows and ids a buffer apart compare by distance. Only the powers of
-- two up to 8192 meet it; the program uses 32.
pub record IsCapacity (n : ℕ) : Type 0 where
  pub positive : 0 < n
  pub small : n ≤ 8192
  pub divides : u16_max % n ≡ n - 1

pub record IsRing {T : Type 0} (n : ℕ) (r : RingBuffer T) : Type 0 where
  pub full_width : length r.items ≡ n
  pub id_range : IsU16 r.newest

-- The number of rounds that the ids make over the buffer.
abbrev pub rounds : ℕ → ℕ
rounds n = u16_max / n + 1

pub rounds_lem : (n : ℕ) → IsCapacity n → n * rounds n ≡ u16_mod
rounds_lem n c = grind (arith, div-add-mod u16_max n)

-- Two ids that share a slot are at least a buffer apart, both ways round.
far_apart :
    (n i j : ℕ)
    → IsCapacity n
    → IsU16 j
    → i < j
    → i % n ≡ j % n
    → (n ≤ j - i) × (j - i + n ≤ u16_mod)
far_apart n i j c hj h e =
    let above : i / n < j / n =
      lt_of_mul-lt-mul_left n (omega (arith, div-add-mod i n, div-add-mod j n)) in
    let below : j / n < rounds n =
      lt_of_mul-lt-mul_left n (omega (arith, div-add-mod j n, rounds_lem n c)) in
    let gap : n * suc (i / n) ≤ n * (j / n) = mul-le-mul_left n above in
    let room : n * suc (j / n) ≤ n * rounds n = mul-le-mul_left n below in
    let facts : (n * (i / n) + i % n ≡ i) × (n * (j / n) + j % n ≡ j) × (n * rounds n ≡ u16_mod) =
      (div-add-mod i n, div-add-mod j n, rounds_lem n c) in
    (omega arith, omega arith)

-- Of the ids in one window no two share a slot.
pub slot_injective :
    (n i j newest : ℕ)
    → IsCapacity n
    → IsU16 i
    → IsU16 j
    → IsU16 newest
    → wrapping_sub newest i < n
    → wrapping_sub newest j < n
    → i % n ≡ j % n
    → i ≡ j
slot_injective n i j newest c hi hj hn wi wj e = elim (lt_or_le i j) [
  | inl lt ↦ absurd (omega (arith, far_apart n i j c hj lt e))
  | inr le ↦ elim (lt_or_le j i) [
    | inl lt ↦ absurd (omega (arith, far_apart n j i c hi lt (sym e)))
    | inr ge ↦ omega arith
  ]
]

-- Ids a whole buffer apart share a slot.
pub slot_periodic : (n i : ℕ) → IsCapacity n → IsU16 i → wrapping_sub i n % n ≡ i % n
slot_periodic n i c hi = elim (lt_or_le i n) [
  | inl lt ↦
      let same : wrapping_sub i n ≡ i + n * (u16_max / n) = omega (arith, rounds_lem n c) in
      rw same (add-mul-mod_self_left i n (u16_max / n))
  | inr le ↦
      let same : wrapping_sub i n + n * 1 ≡ i = omega arith in
      sym (add-mul-mod_self_left (wrapping_sub i n) n 1) ∙ ap (λ k. k % n) same
]
