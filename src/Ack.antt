-- ===== src/Ack.antt =====
-- mini_udp/src/packet_ack.rs: the bit fields that say which packets have arrived, and what the
-- sender does with them. All its buffers have the default capacity.
pub mod Field
pub mod Exact
use mini_udp.Prelude.{
  ℕ, zero, suc, ◌+◌, ◌*◌, ◌%◌, ◌^◌, Bool, not, ◌==◌, if◌then◌else◌, Option, none, some, List, [],
  ◌∷◌,
}
use mini_udp.Word.{wrapping_sub}
use mini_udp.Ring.{RingBuffer, take, get_newest_index}
use mini_udp.Ring.Iter.{keys}
use mini_udp.Packet.{PacketAck, Packet}
use Prim.Native.Nat.{bit_and, bit_or}

-- `RingBuffer<T>` is `RingBuffer<T, 32>`.
abbrev pub num_items : ℕ
num_items = 32

abbrev pub found_ids : Option (List ℕ) → List ℕ
found_ids none = []
found_ids (some is) = is

-- The ids of `for i in ring.keys()`. The `none` of `keys`, fuel run out, is no Rust value.
unfoldable pub key_list : {T : Type 0} → RingBuffer T → List ℕ
key_list ring = found_ids (keys num_items ring)

-- `for i in ring.keys() { bits |= 1 << newest.wrapping_sub(i) as u32; }`
unfoldable pub or_ack_bits : ℕ → List ℕ → ℕ → ℕ
or_ack_bits newest [] bits = bits
or_ack_bits newest (i ∷ is) bits =
    or_ack_bits newest is (bit_or bits (2 ^ wrapping_sub newest i % 2 ^ 32))

unfoldable pub ack_bits : {T : Type 0} → RingBuffer T → ℕ
unfolding key_list or_ack_bits
ack_bits ring = or_ack_bits (get_newest_index ring) (key_list ring) 0

-- `PacketAck::new`
unfoldable pub new_ack :
    {RECV : Type 0} → ℕ → RingBuffer (Unit {0}) → RingBuffer (Packet RECV) → PacketAck
unfolding ack_bits
new_ack sequence_id reliable_received ordered_received = record {
  sequence_id = sequence_id;
  reliable_newest_received = get_newest_index reliable_received;
  reliable_ack_bits = ack_bits reliable_received;
  ordered_newest_received = get_newest_index ordered_received;
  ordered_ack_bits = ack_bits ordered_received;
}

-- One `if` of the loop of `acknowledge`.
unfoldable pub acknowledge_bit : {T : Type 0} → ℕ → ℕ → ℕ → RingBuffer T → RingBuffer T
acknowledge_bit bits newest i send_packets =
    if not (bit_and bits (2 ^ i) == 0)
    then (let index = wrapping_sub newest i in (take num_items send_packets index).0)
    else send_packets

-- The loop from `i` on, over the two buffers of sent packets.
unfoldable pub acknowledge_from :
    {T : Type 0} → PacketAck → ℕ → ℕ → RingBuffer T × RingBuffer T → RingBuffer T × RingBuffer T
acknowledge_from ack i zero (reliable, ordered) = (reliable, ordered)
acknowledge_from ack i (suc rounds) (reliable, ordered) = acknowledge_from ack (i + 1) rounds (
  acknowledge_bit ack.reliable_ack_bits ack.reliable_newest_received i reliable,
  acknowledge_bit ack.ordered_ack_bits ack.ordered_newest_received i ordered,
)

-- `for i in 0..32`
unfoldable pub acknowledge :
    {T : Type 0} → PacketAck → RingBuffer T × RingBuffer T → RingBuffer T × RingBuffer T
acknowledge ack sent = acknowledge_from ack 0 32 sent
