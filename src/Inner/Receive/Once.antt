-- ===== src/Inner/Receive/Once.antt =====
-- What `handle_packet` does to the state, and at a packet that comes twice.
use mini_udp.Prelude.{
  ℕ, ◌≡◌, refl, ap, ◌∙◌, arith, Bool, true, not, ◌||◌, if◌then◌else◌, is_some, is_empty, Bool-cases,
  if_true, if_false, if_or, or_true, if_cases, inl, inr, eq→==,
}
use mini_udp.Word.{IsU16}
use mini_udp.Ring
use mini_udp.Ring.{RingBuffer}
use mini_udp.Ring.Slots.{IsRing}
use mini_udp.Ring.Insert.{get-insert, insert-IsRing}
use mini_udp.Packet.{Packet}
use mini_udp.Ack.{num_items}
use mini_udp.Ack.Field.{capacity}
use mini_udp.Ack.Exact.{acknowledge-IsRing}
use mini_udp.Inner.{InnerUdpCommunicator}
use mini_udp.Inner.Receive.{
  Delivery, acknowledge_packet, is_duplicate, newest_index, is_too_old, store, handle_packet,
}
use mini_udp.Inner.Receive.Keeps.{IsWire, IsValid, deliver-Keeps}

insert-found :
    {T : Type 0} (r : RingBuffer T) (i : ℕ) (item : T)
    → IsRing num_items r
    → IsU16 i
    → is_some (Ring.get num_items (Ring.insert num_items r i item) i) ≡ true
insert-found r i item v hi =
    rw ((get-insert num_items r i item capacity v hi i hi).1, eq→== i i refl) refl

module _ {SEND RECV : Type 0} where
  pub is_duplicate_if :
      (c : InnerUdpCommunicator SEND RECV) (p : Packet RECV)
      → is_duplicate c p ≡ (
          if p.ordered
          then is_some (Ring.get num_items c.reliable_ordered_received_packets p.ack.sequence_id)
          else is_some (Ring.get num_items c.reliable_received_packets p.ack.sequence_id))
  unfolding is_duplicate
  is_duplicate_if c p = elim (Bool-cases p.ordered) [
    | inl e ↦ rw e (ground arith)
    | inr e ↦ rw e (ground arith)
  ]

  IsStored : Packet RECV → InnerUdpCommunicator SEND RECV → Type 0
  IsStored p c = IsValid c × (is_duplicate c p ≡ true)

  -- `store` leaves the packet in its buffer.
  store-IsStored :
      (c : InnerUdpCommunicator SEND RECV) (p : Packet RECV)
      → IsValid c
      → IsWire p
      → IsStored p (store c p)
  unfolding store IsStored
  store-IsStored c p v w =
      let d : Delivery RECV = record {
        received = Ring.insert num_items c.reliable_ordered_received_packets p.ack.sequence_id p;
        head = c.ordered_read_packet_head;
        queue = c.ordered_recv_queue;
      } in
      let k =
        deliver-Keeps d
          (insert-IsRing num_items c.reliable_ordered_received_packets p.ack.sequence_id p capacity
            v.ordered_received w.id)
          v.head in
      if_cases (IsStored p) p.ordered _ _
        (λ e. (
          record {
            reliable_sent = v.reliable_sent;
            ordered_sent = v.ordered_sent;
            reliable_received = v.reliable_received;
            ordered_received = k.valid;
            head = k.head;
            unreliable_id = v.unreliable_id;
          },
          is_duplicate_if _ p
              ∙ if_true p.ordered _ _ e
              ∙ k.same_ids p.ack.sequence_id w.id
              ∙ insert-found c.reliable_ordered_received_packets p.ack.sequence_id p
                  v.ordered_received w.id,
        ))
        (λ e. (
          record {
            reliable_sent = v.reliable_sent;
            ordered_sent = v.ordered_sent;
            reliable_received =
                insert-IsRing num_items c.reliable_received_packets p.ack.sequence_id tt capacity
                  v.reliable_received w.id;
            ordered_received = v.ordered_received;
            head = v.head;
            unreliable_id = v.unreliable_id;
          },
          is_duplicate_if _ p
              ∙ if_false p.ordered _ _ e
              ∙ insert-found c.reliable_received_packets p.ack.sequence_id tt v.reliable_received
                  w.id,
        ))

  acknowledge_packet-IsValid :
      (c : InnerUdpCommunicator SEND RECV) (p : Packet RECV)
      → IsValid c
      → IsWire p
      → IsValid (acknowledge_packet c p.ack)
  unfolding acknowledge_packet
  acknowledge_packet-IsValid c p v w =
      let (vr, vo) =
        acknowledge-IsRing p.ack c.reliable_send_packets c.reliable_ordered_send_packets
          w.reliable_newest w.ordered_newest v.reliable_sent v.ordered_sent in
      record {
        reliable_sent = vr;
        ordered_sent = vo;
        reliable_received = v.reliable_received;
        ordered_received = v.ordered_received;
        head = v.head;
        unreliable_id = v.unreliable_id;
      }

  unfoldable pub with_duplicate : InnerUdpCommunicator SEND RECV → InnerUdpCommunicator SEND RECV
  with_duplicate c = record c { received_packet_duplicate = true }

  with_duplicate-IsValid :
      (c : InnerUdpCommunicator SEND RECV) → IsValid c → IsValid (with_duplicate c)
  unfolding with_duplicate
  with_duplicate-IsValid c v = record {
    reliable_sent = v.reliable_sent;
    ordered_sent = v.ordered_sent;
    reliable_received = v.reliable_received;
    ordered_received = v.ordered_received;
    head = v.head;
    unreliable_id = v.unreliable_id;
  }

  -- The packet is one that `handle_packet` drops.
  unfoldable pub is_seen : InnerUdpCommunicator SEND RECV → Packet RECV → Bool
  is_seen c p = is_duplicate c p || is_too_old c p

  is_seen-with_duplicate :
      (c : InnerUdpCommunicator SEND RECV) (p : Packet RECV)
      → is_seen (with_duplicate c) p ≡ is_seen c p
  unfolding is_seen with_duplicate is_duplicate is_too_old newest_index
  is_seen-with_duplicate c p = refl

  pub handle_packet-reliable :
      (c : InnerUdpCommunicator SEND RECV) (p : Packet RECV)
      → p.reliable ≡ true
      → handle_packet c p
        ≡ (if is_seen c p then with_duplicate c else store (acknowledge_packet c p.ack) p)
  unfolding handle_packet is_seen with_duplicate
  handle_packet-reliable c p r =
      if_false (not p.reliable) _ _ (ap not r) ∙ if_or (is_duplicate c p) (is_too_old c p) _ _

  -- A reliable packet that was handled is one to drop from then on.
  handle_packet-is_seen :
      (c : InnerUdpCommunicator SEND RECV) (p : Packet RECV)
      → IsValid c
      → IsWire p
      → p.reliable ≡ true
      → IsValid (handle_packet c p) × (is_seen (handle_packet c p) p ≡ true)
  unfolding IsStored is_seen
  handle_packet-is_seen c p v w r = rw (handle_packet-reliable c p r) (
      if_cases (λ c'. IsValid c' × (is_seen c' p ≡ true)) (is_seen c p) _ _
        (λ e. (with_duplicate-IsValid c v, is_seen-with_duplicate c p ∙ e))
        (λ e.
          let stored =
            store-IsStored (acknowledge_packet c p.ack) p (acknowledge_packet-IsValid c p v w) w in
          (stored.0, or_true _ _ stored.1)))

  pub handle_packet-IsValid :
      (c : InnerUdpCommunicator SEND RECV) (p : Packet RECV)
      → IsValid c
      → IsWire p
      → IsValid (handle_packet c p)
  unfolding handle_packet
  handle_packet-IsValid c p v w = elim (Bool-cases p.reliable) [
    | inl r ↦ (handle_packet-is_seen c p v w r).0
    | inr r ↦
        if_cases IsValid (not p.reliable) _ _
          (λ e.
            acknowledge_packet-IsValid _ p
              (if_cases IsValid (is_empty p.messages) _ _ (λ h. v)
                (λ h. record {
                  reliable_sent = v.reliable_sent;
                  ordered_sent = v.ordered_sent;
                  reliable_received = v.reliable_received;
                  ordered_received = v.ordered_received;
                  head = v.head;
                  unreliable_id = v.unreliable_id;
                }))
              w)
          (λ e. ground arith)
  ]

  -- A reliable packet with `u16` ids is delivered once: when it arrives again right after it was
  -- handled, in a well-formed state, it only sets the flag by which the next `send` acknowledges
  -- it.
  pub handle_packet_twice :
      (c : InnerUdpCommunicator SEND RECV) (p : Packet RECV)
      → IsValid c
      → IsWire p
      → p.reliable ≡ true
      → handle_packet (handle_packet c p) p
        ≡ record (handle_packet c p) { received_packet_duplicate = true }
  unfolding with_duplicate
  handle_packet_twice c p v w r =
      handle_packet-reliable (handle_packet c p) p r
      ∙ if_true _ _ _ (handle_packet-is_seen c p v w r).1
