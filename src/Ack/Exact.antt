-- ===== src/Ack/Exact.antt =====
-- mini_udp/src/packet_ack.rs: the bits that `acknowledge` reads, against those that
-- `PacketAck::new` sets.
use mini_udp.Prelude.{
  ℕ, zero, suc, ◌+◌, ◌^◌, ◌<◌, ◌≡◌, refl, arith, Bool, not, ◌&&◌, ◌==◌, if◌then◌else◌, ltb, none,
  is_some, Bool-cases, lt_or_le, inl, inr,
}
use mini_udp.Word.{IsU16, wrapping_sub}
use mini_udp.Bits.{bit, bit_and-pow}
use mini_udp.Ring.{RingBuffer, get}
use mini_udp.Ring.Slots.{IsRing}
use mini_udp.Ring.Window.{get_out, get-take, take-IsRing}
use mini_udp.Packet.{PacketAck, Packet}
use mini_udp.Ack.{num_items, ack_bits, new_ack, acknowledge_bit, acknowledge_from, acknowledge}
use Prim.Native.Nat.{bit_and}
use native.Mathlib.Nat.{one-le-pow}
use mini_udp.Ack.Field.{capacity, bit-ack_bits}

-- The loop of `acknowledge` over one buffer.
one_buffer : {T : Type 0} → ℕ → ℕ → ℕ → ℕ → RingBuffer T → RingBuffer T
one_buffer bits newest i zero sent = sent
one_buffer bits newest i (suc rounds) sent =
    one_buffer bits newest (i + 1) rounds (acknowledge_bit bits newest i sent)

acknowledge_from-one_buffer :
    {T : Type 0} (ack : PacketAck) (i rounds : ℕ) (reliable ordered : RingBuffer T)
    → acknowledge_from ack i rounds (reliable, ordered) ≡ (
      one_buffer ack.reliable_ack_bits ack.reliable_newest_received i rounds reliable,
      one_buffer ack.ordered_ack_bits ack.ordered_newest_received i rounds ordered,
    )
unfolding acknowledge_from one_buffer
acknowledge_from-one_buffer ack i zero reliable ordered = refl
acknowledge_from-one_buffer ack i (suc rounds) reliable ordered =
    acknowledge_from-one_buffer ack (i + 1) rounds _ _

-- The test of the source reads one bit.
is_set : ℕ → ℕ → Bool
is_set bits i = not (bit bits i == 0)

is_set_lem : (bits i : ℕ) → not (bit_and bits (2 ^ i) == 0) ≡ is_set bits i
unfolding is_set
is_set_lem bits i =
    let big : 0 < 2 ^ i = one-le-pow i 2 (omega arith) in rw (bit_and-pow i bits) (grind arith)

same_test :
    (newest i j : ℕ)
    → IsU16 newest
    → i < 32
    → IsU16 j
    → (wrapping_sub newest i == j) ≡ (i == wrapping_sub newest j)
same_test newest i j hn hi hj = ground arith

module _ {T : Type 0} (bits newest : ℕ) (hn : IsU16 newest) where
  -- One round removes the packet that the bit names, if it is set.
  get-acknowledge_bit :
      (i j : ℕ) (sent : RingBuffer T)
      → IsRing num_items sent
      → i < 32
      → IsU16 j
      → let sent' = acknowledge_bit bits newest i sent in
        IsRing num_items sent'
        × (get num_items sent' j
            ≡ (if is_set bits i && i == wrapping_sub newest j then none else get num_items sent j))
  unfolding acknowledge_bit
  get-acknowledge_bit i j sent v hi hj = elim (Bool-cases (is_set bits i)) [
    | inl e ↦
        let (out, kept, found) =
          get-take num_items sent capacity v (wrapping_sub newest i) j (omega arith) hj in
        rw (is_set_lem bits i, e)
          (
            take-IsRing num_items sent capacity v (wrapping_sub newest i),
            rw (same_test newest i j hn hi hj) at found,
          )
    | inr e ↦ rw (is_set_lem bits i, e) (v, refl)
  ]

  get-one_buffer :
      (rounds i j : ℕ) (sent : RingBuffer T)
      → IsRing num_items sent
      → i + rounds ≡ 32
      → IsU16 j
      → let sent' = one_buffer bits newest i rounds sent in
        let d = wrapping_sub newest j in
        IsRing num_items sent'
        × (get num_items sent' j
            ≡ (if (not (ltb d i) && ltb d 32) && is_set bits d then none else get num_items sent j))
  unfolding one_buffer
  get-one_buffer zero i j sent v h hj = (v, ground arith)
  get-one_buffer (suc rounds) i j sent v h hj =
      let (v1, found1) = get-acknowledge_bit i j sent v (omega arith) hj in
      let (v', found') =
        get-one_buffer rounds (i + 1) j (acknowledge_bit bits newest i sent) v1 (omega arith) hj in
      (v', ground (arith, found1, found'))

module _ {T R : Type 0} (held : RingBuffer R) (hv : IsRing num_items held) (sent : RingBuffer T)
    (v : IsRing num_items sent) where
  -- A whole loop against the bits of the receiver's buffer.
  get-acknowledged :
      (j : ℕ)
      → IsU16 j
      → let sent' = one_buffer (ack_bits held) held.newest 0 32 sent in
        IsRing num_items sent'
        × (get num_items sent' j
            ≡ (if is_some (get num_items held j) then none else get num_items sent j))
  unfolding is_set
  get-acknowledged j hj =
      let d = wrapping_sub held.newest j in
      let (v', found) =
        get-one_buffer (ack_bits held) held.newest hv.id_range 32 0 j sent v (omega arith) hj in
      let back : wrapping_sub held.newest d ≡ j = omega arith in
      (
        v',
        elim (lt_or_le d 32) [
          | inl near ↦ ground (arith, found, rw back at (bit-ack_bits held hv d near))
          | inr far ↦ ground (arith, found, get_out num_items held j far)
        ],
      )

-- With well-formed buffers, an acknowledgement made from a receiver's two buffers removes from
-- the sender's just the packets whose ids the receiver's hold: unordered ones by the first,
-- ordered ones by the second.
pub acknowledge-new_ack :
    {T RECV : Type 0} (sequence_id : ℕ) (reliable_received : RingBuffer (Unit {0}))
    (ordered_received : RingBuffer (Packet RECV)) (reliable ordered : RingBuffer T) (j : ℕ)
    → IsRing num_items reliable_received
    → IsRing num_items ordered_received
    → IsRing num_items reliable
    → IsRing num_items ordered
    → IsU16 j
    → let (reliable', ordered') =
        acknowledge (new_ack sequence_id reliable_received ordered_received) (reliable, ordered) in
      (get num_items reliable' j
        ≡ (if is_some (get num_items reliable_received j) then none else get num_items reliable j))
      × (get num_items ordered' j
          ≡ (if is_some (get num_items ordered_received j) then none else get num_items ordered j))
unfolding acknowledge new_ack
acknowledge-new_ack sequence_id reliable_received ordered_received reliable ordered j hr ho vr vo
      hj =
    rw
      (acknowledge_from-one_buffer (new_ack sequence_id reliable_received ordered_received) 0 32
        reliable ordered)
      (
        (get-acknowledged reliable_received hr reliable vr j hj).1,
        (get-acknowledged ordered_received ho ordered vo j hj).1,
      )

-- Whatever an acknowledgement says, it leaves well-formed buffers.
pub acknowledge-IsRing :
    {T : Type 0} (ack : PacketAck) (reliable ordered : RingBuffer T)
    → IsU16 ack.reliable_newest_received
    → IsU16 ack.ordered_newest_received
    → IsRing num_items reliable
    → IsRing num_items ordered
    → let (reliable', ordered') = acknowledge ack (reliable, ordered) in
      IsRing num_items reliable' × IsRing num_items ordered'
unfolding acknowledge
acknowledge-IsRing ack reliable ordered hr ho vr vo =
    rw (acknowledge_from-one_buffer ack 0 32 reliable ordered) (
      (get-one_buffer ack.reliable_ack_bits ack.reliable_newest_received hr 32 0 0 reliable vr
          (omega arith) (omega arith)).0,
      (get-one_buffer ack.ordered_ack_bits ack.ordered_newest_received ho 32 0 0 ordered vo
          (omega arith) (omega arith)).0,
    )
