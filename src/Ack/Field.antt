-- ===== src/Ack/Field.antt =====
-- mini_udp/src/packet_ack.rs: which bits `PacketAck::new` sets.
use mini_udp.Prelude.{
  ℕ, ◌%◌, ◌^◌, ◌≤◌, ◌<◌, ◌≡◌, refl, ap, arith, ◌&&◌, if◌then◌else◌, List, [], ◌∷◌, is_some,
  contains, All, Option-cases, inl, inr,
}
use mini_udp.Word.{IsU16, wrapping_add, wrapping_sub}
use mini_udp.Bits.{bit, bit-bit_or, bit-zero, bit-pow}
use mini_udp.Serial.Order.{contains-wrapping_range, wrapping_range-IsU16}
use mini_udp.Ring.{RingBuffer, get}
use mini_udp.Ring.Slots.{IsCapacity, IsRing}
use mini_udp.Ring.Window.{get_out, get-some-in_window}
use mini_udp.Ring.Iter.{key_at}
use mini_udp.Ring.Iter.Runs.{hits, hits-some, hits-none, window, keys_lem}
use mini_udp.Ack.{num_items, key_list, found_ids, or_ack_bits, ack_bits}
use Prim.Native.Nat.{max, bit_or}
use native.Mathlib.Nat.{pow-le-pow_right}

pub capacity : IsCapacity num_items
capacity = record { positive = omega arith; small = omega arith; divides = refl }

module _ {T : Type 0} (r : RingBuffer T) where
  contains-hits :
      (is : List ℕ) (j : ℕ)
      → contains (hits (key_at num_items r) is) j ≡ (contains is j && is_some (get num_items r j))
  unfolding hits
  contains-hits [] j = refl
  contains-hits (i ∷ is) j = ground (arith, contains-hits is j)

  -- An id that a loop over `keys` sees, as a shift.
  abbrev IsRecent : ℕ → Type 0
  IsRecent i = IsU16 i × (wrapping_sub r.newest i < num_items)

  hits-IsRecent : (is : List ℕ) → All IsU16 is → All IsRecent (hits (key_at num_items r) is)
  unfolding hits
  hits-IsRecent [] h = tt
  hits-IsRecent (i ∷ is) (h, hs) = elim (Option-cases (get num_items r i)) [
    | inl e ↦ rw (hits-none (key_at num_items r) i is (rw (e, key_at))) (hits-IsRecent is hs)
    | inr (x, e) ↦
        rw (hits-some (key_at num_items r) i is i (rw (e, key_at)))
          ((h, get-some-in_window num_items r i x e), hits-IsRecent is hs)
  ]

  module _ (v : IsRing num_items r) where
    key_list-hits : key_list r ≡ hits (key_at num_items r) (window num_items r)
    unfolding key_list
    key_list-hits = ap found_ids (keys_lem num_items r capacity v)

    contains-key_list : (j : ℕ) → IsU16 j → contains (key_list r) j ≡ is_some (get num_items r j)
    contains-key_list j hj =
        rw
          (
            key_list-hits,
            contains-hits (window num_items r) j,
            contains-wrapping_range (wrapping_sub r.newest 31) (wrapping_add r.newest 1) j
                (omega arith) (omega arith) hj,
          )
          (ground (arith, get_out num_items r j))

-- A shift by less than 32 loses nothing.
shift_lem : (d : ℕ) → d < 32 → 2 ^ d % 2 ^ 32 ≡ 2 ^ d
shift_lem d h =
    let bound : 2 ^ d ≤ 2 ^ 31 =
      pow-le-pow_right {n = 2} (omega arith) {i = d} {j = 31} (omega arith) in
    omega arith

bit-or_ack_bits :
    {T : Type 0} (r : RingBuffer T) (k : ℕ) (is : List ℕ) (bits : ℕ)
    → IsU16 r.newest
    → k < 32
    → All (IsRecent r) is
    → bit (or_ack_bits r.newest is bits) k
      ≡ max (bit bits k) (if contains is (wrapping_sub r.newest k) then 1 else 0)
unfolding or_ack_bits
bit-or_ack_bits r k [] bits hn hk hs = omega arith
bit-or_ack_bits r k (i ∷ is) bits hn hk (hi, hs) =
    let d = wrapping_sub r.newest i in
    rw
      (
        shift_lem d hi.1,
        bit-or_ack_bits r k is (bit_or bits (2 ^ d)) hn hk hs,
        bit-bit_or k bits (2 ^ d),
        bit-pow d k,
      )
      (ground arith)

module _ {T : Type 0} (r : RingBuffer T) (v : IsRing num_items r) where
  -- Bit `k` says whether the packet `k` ids before the newest is in the buffer.
  pub bit-ack_bits :
      (k : ℕ)
      → k < 32
      → bit (ack_bits r) k ≡ (if is_some (get num_items r (wrapping_sub r.newest k)) then 1 else 0)
  unfolding ack_bits
  bit-ack_bits k hk =
      rw
        (
          bit-or_ack_bits r k (key_list r) 0 v.id_range hk
              (rw (key_list-hits r v) (hits-IsRecent r _ (wrapping_range-IsU16 _ _))),
          bit-zero k,
          contains-key_list r v (wrapping_sub r.newest k) (omega arith),
        )
        (ground arith)
