-- ===== src/Inner/HandedOn/Late.antt =====
-- mini_udp/src/communicator/inner.rs: a reliable packet that comes very late, across the wrap.
use mini_udp.Prelude.{ℕ, ◌≤◌, ◌<◌, ◌≡◌, refl, ◌∙◌, ap, arith, true, false, is_some, ◌++◌, le→ltb}
use mini_udp.Word.{IsU16, wrapping_sub}
use mini_udp.Serial.{wrapping_gt}
use mini_udp.Ring
use mini_udp.Ring.Window.{get_out}
use mini_udp.Ring.Insert.{get-insert}
use mini_udp.Packet.{Packet}
use mini_udp.Ack.{num_items}
use mini_udp.Ack.Field.{capacity}
use mini_udp.Inner.{InnerUdpCommunicator}
use mini_udp.Inner.Receive.{handle_packet}
use mini_udp.Inner.Receive.Keeps.{IsWire, IsValid}
use mini_udp.Inner.HandedOn.Branches.{seen_if_unordered, unordered_stored}

-- The test for an old packet compares as numbers what is more than 64 apart.
not_old :
    (newest id : ℕ)
    → IsU16 newest
    → IsU16 id
    → 31 ≤ newest
    → newest < id
    → 96 ≤ wrapping_sub newest id
    → wrapping_gt (wrapping_sub newest 31) id 64 ≡ false
unfolding wrapping_gt
not_old newest id hn hi low above late = ground arith

module _ {SEND RECV : Type 0} where
  -- In a well-formed state, a reliable packet that is not ordered, with an id above the newest
  -- one but at least 96 behind it across the wrap, the newest being 31 or more, is taken as new,
  -- whether or not it came before: its messages are handed on, and its id becomes the newest.
  pub late_across_wrap :
      (c : InnerUdpCommunicator SEND RECV) (p : Packet RECV)
      → IsValid c
      → IsWire p
      → p.reliable ≡ true
      → p.ordered ≡ false
      → 31 ≤ c.reliable_received_packets.newest
      → c.reliable_received_packets.newest < p.ack.sequence_id
      → 96 ≤ wrapping_sub c.reliable_received_packets.newest p.ack.sequence_id
      → ((handle_packet c p).unordered_recv_queue ≡ c.unordered_recv_queue ++ p.messages)
        × ((handle_packet c p).reliable_received_packets.newest ≡ p.ack.sequence_id)
  late_across_wrap c p v w r o low above late =
      let ring = c.reliable_received_packets in
      let id = p.ack.sequence_id in
      let absent : is_some (Ring.get num_items ring id) ≡ false =
        rw (get_out num_items ring id (omega arith)) refl in
      let stored = unordered_stored c p r o (
        seen_if_unordered c p r o
        ∙ rw (absent, not_old ring.newest id v.reliable_received.id_range w.id low above late)
            refl) in
      (
        ap (λ u. u.1) stored,
        ap (λ u. u.0.newest) stored
            ∙ (get-insert num_items ring id tt capacity v.reliable_received w.id id w.id).0
            ∙ rw (le→ltb (wrapping_sub ring.newest id) num_items (omega arith)) refl,
      )
