-- ===== src/Inner/Receive/Keeps.antt =====
-- Well-formed packets and states, and what the delivery loop keeps of a buffer, whatever the next
-- id is.
use mini_udp.Prelude.{
  ℕ, ◌≡◌, refl, ◌∙◌, arith, ◌==◌, if◌then◌else◌, is_some, some, List, [], ◌∷◌, Option-cases, if_lem,
  inl, inr,
}
use mini_udp.Word.{IsU16}
use mini_udp.Serial.{wrapping_gt}
use mini_udp.Ring
use mini_udp.Ring.{RingBuffer}
use mini_udp.Ring.Slots.{IsRing}
use mini_udp.Ring.Window.{get-some-in_window, get-set_mut, set_mut-IsRing}
use mini_udp.Packet.{Packet}
use mini_udp.Ack.{num_items}
use mini_udp.Ack.Field.{capacity}
use mini_udp.Inner.{InnerUdpCommunicator}
use mini_udp.Inner.Receive.{Delivery, deliver_packet, deliver_in, deliver}
use mini_udp.Serial.Order.{wrapping_range-IsU16}
use mini_udp.Prelude.{All}

-- The ids of a packet are `u16`, as parsing gives them.
pub record IsWire {M : Type 0} (p : Packet M) : Type 0 where
  pub id : IsU16 p.ack.sequence_id
  pub reliable_newest : IsU16 p.ack.reliable_newest_received
  pub ordered_newest : IsU16 p.ack.ordered_newest_received

pub record IsValid {SEND RECV : Type 0} (c : InnerUdpCommunicator SEND RECV) : Type 0 where
  pub reliable_sent : IsRing num_items c.reliable_send_packets
  pub ordered_sent : IsRing num_items c.reliable_ordered_send_packets
  pub reliable_received : IsRing num_items c.reliable_received_packets
  pub ordered_received : IsRing num_items c.reliable_ordered_received_packets
  pub head : IsU16 c.ordered_read_packet_head
  pub unreliable_id : IsU16 c.unreliable_send_packet_id

-- What the loop of `deliver` keeps, whatever the next id is.
pub record Keeps {RECV : Type 0} (d d' : Delivery RECV) : Type 0 where
  pub valid : IsRing num_items d'.received
  pub newest : d'.received.newest ≡ d.received.newest
  pub head : IsU16 d'.head
  pub same_ids :
      (j : ℕ)
      → IsU16 j
      → is_some (Ring.get num_items d'.received j) ≡ is_some (Ring.get num_items d.received j)

module _ {RECV : Type 0} where
  packet-Keeps :
      (d : Delivery RECV) (id : ℕ) (p : Packet RECV)
      → IsRing num_items d.received
      → IsU16 d.head
      → IsU16 id
      → Ring.get num_items d.received id ≡ some p
      → Keeps d (deliver_packet d id p)
  unfolding deliver_packet Ring.set_mut
  packet-Keeps d id p v hd hi e = record {
    valid = set_mut-IsRing num_items d.received capacity v id (record p { messages = [] });
    newest = refl;
    head = omega arith;
    same_ids = λ j hj. ground (
      arith,
      get-set_mut num_items d.received capacity v id j (record p { messages = [] }) hi hj
          (get-some-in_window num_items d.received id p e),
      e,
    );
  }

  Keeps-trans : (d e f : Delivery RECV) → Keeps d e → Keeps e f → Keeps d f
  Keeps-trans d e f h g = record {
    valid = g.valid;
    newest = g.newest ∙ h.newest;
    head = g.head;
    same_ids = λ j hj. g.same_ids j hj ∙ h.same_ids j hj;
  }

  Keeps-refl : (d : Delivery RECV) → IsRing num_items d.received → IsU16 d.head → Keeps d d
  Keeps-refl d v hd = record { valid = v; newest = refl; head = hd; same_ids = λ j hj. refl }

  deliver_in-Keeps :
      (is : List ℕ) (d : Delivery RECV)
      → IsRing num_items d.received
      → IsU16 d.head
      → All IsU16 is
      → Keeps d (deliver_in d is)
  unfolding deliver_in
  deliver_in-Keeps [] d v hd hs = Keeps-refl d v hd
  deliver_in-Keeps (id ∷ is) d v hd (hi, hs) =
      elim (Option-cases (Ring.get num_items d.received id)) [
        | inl e ↦ rw (e, deliver_in) (deliver_in-Keeps is d v hd hs)
        | inr (p, e) ↦
            let first = packet-Keeps d id p v hd hi e in
            let next =
              Keeps-trans d (deliver_packet d id p) (deliver_in (deliver_packet d id p) is) first
                (deliver_in-Keeps is (deliver_packet d id p) first.valid first.head hs) in
            rw (e, deliver_in)
              (if_lem (Keeps d) (id == d.head) (deliver_in (deliver_packet d id p) is)
                (if wrapping_gt id d.head 32 then d else deliver_in d is) next
                (if_lem (Keeps d) (wrapping_gt id d.head 32) d (deliver_in d is) (Keeps-refl d v hd)
                  (deliver_in-Keeps is d v hd hs)))
      ]

  pub deliver-Keeps :
      (d : Delivery RECV) → IsRing num_items d.received → IsU16 d.head → Keeps d (deliver d)
  unfolding deliver
  deliver-Keeps d v hd = deliver_in-Keeps _ d v hd (wrapping_range-IsU16 _ _)
