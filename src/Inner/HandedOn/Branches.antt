-- ===== src/Inner/HandedOn/Branches.antt =====
-- mini_udp/src/communicator/inner.rs: what `handle_packet` does to either buffer of received
-- packets and to the queue that it feeds, for each kind of packet.
use mini_udp.Prelude.{
  ◌≡◌, refl, sym, ap, ◌∙◌, arith, true, false, not, ◌&&◌, ◌||◌, if_lem, if_cases, if_true, if_false,
  is_some, List, [], ◌++◌, is_empty, ◌∷◌,
}
use mini_udp.Word.{wrapping_sub}
use mini_udp.Serial.{wrapping_gt}
use mini_udp.Ring
use mini_udp.Ring.{RingBuffer}
use mini_udp.Packet.{Packet}
use mini_udp.Ack.{num_items}
use mini_udp.Inner.{InnerUdpCommunicator}
use mini_udp.Inner.Receive.{
  acknowledge_packet, is_duplicate, newest_index, is_too_old, store, handle_packet,
}
use mini_udp.Inner.Receive.Once.{is_seen, with_duplicate, handle_packet-reliable, is_duplicate_if}
use mini_udp.Inner.Receive.Ordered.{delivery}
use mathlib.Core.List.{append-nil}

abbrev pub unordered :
    {SEND RECV : Type 0} → InnerUdpCommunicator SEND RECV → RingBuffer (Unit {0}) × List RECV
unordered d = (d.reliable_received_packets, d.unordered_recv_queue)

module _ {SEND RECV : Type 0} (c : InnerUdpCommunicator SEND RECV) (p : Packet RECV) where
  abbrev SameDelivery : InnerUdpCommunicator SEND RECV → Type 0
  SameDelivery d = delivery d ≡ delivery c

  pub other_untouched :
      (p.reliable && p.ordered) ≡ false → delivery (handle_packet c p) ≡ delivery c
  unfolding handle_packet acknowledge_packet store
  other_untouched h =
      if_cases SameDelivery (not p.reliable) _ _
        (λ e. if_lem SameDelivery (is_empty p.messages) c _ refl refl)
        (λ e. if_lem SameDelivery (is_duplicate c p) _ _ refl (
          if_lem SameDelivery (is_too_old c p) _ _ refl (
            if_cases SameDelivery p.ordered _ _ (λ o. absurd (ground (arith, h, e, o)))
              (λ o. refl))))

  abbrev SameUnordered : InnerUdpCommunicator SEND RECV → Type 0
  SameUnordered d = unordered d ≡ unordered c

  pub ordered_untouched :
      p.reliable ≡ true → p.ordered ≡ true → unordered (handle_packet c p) ≡ unordered c
  unfolding with_duplicate store acknowledge_packet
  ordered_untouched r o =
      ap unordered (handle_packet-reliable c p r)
      ∙ if_lem SameUnordered (is_seen c p) _ _ refl
          (if_cases SameUnordered p.ordered _ _ (λ e. refl) (λ e. absurd (ground (arith, o, e))))

  abbrev Extends : InnerUdpCommunicator SEND RECV → Type 0
  Extends d = unordered d ≡ (c.reliable_received_packets, c.unordered_recv_queue ++ p.messages)

  -- An unreliable packet is handed on whatever came before.
  pub unreliable_handed : p.reliable ≡ false → Extends (handle_packet c p)
  unfolding handle_packet acknowledge_packet
  unreliable_handed r =
      if_cases Extends (not p.reliable) _ _
        (λ e.
          if_cases (λ d. Extends (acknowledge_packet d p.ack)) (is_empty p.messages) c _
            (λ h. ap (λ ms. (c.reliable_received_packets, ms)) (nothing p.messages h)) (λ h. refl))
        (λ e. absurd (ground (arith, r, e)))
    where
      nothing :
          (ms : List RECV)
          → is_empty ms ≡ true
          → c.unordered_recv_queue ≡ c.unordered_recv_queue ++ ms
      nothing [] h = sym (append-nil c.unordered_recv_queue)
      nothing (m ∷ ms) h = absurd (ground (arith, h))

  module _ (r : p.reliable ≡ true) (o : p.ordered ≡ false) where
    pub seen_if_unordered : is_seen c p ≡ (
        is_some (Ring.get num_items c.reliable_received_packets p.ack.sequence_id)
        || wrapping_gt (wrapping_sub c.reliable_received_packets.newest 31) p.ack.sequence_id 64)
    unfolding is_seen is_too_old newest_index
    seen_if_unordered = rw (is_duplicate_if c p, o) refl

    pub unordered_seen : is_seen c p ≡ true → unordered (handle_packet c p) ≡ unordered c
    unfolding with_duplicate
    unordered_seen h = ap unordered (handle_packet-reliable c p r ∙ if_true (is_seen c p) _ _ h)

    pub unordered_stored :
        is_seen c p ≡ false
        → unordered (handle_packet c p) ≡ (
          Ring.insert num_items c.reliable_received_packets p.ack.sequence_id tt,
          c.unordered_recv_queue ++ p.messages,
        )
    unfolding store acknowledge_packet
    unordered_stored h =
        ap unordered
          (handle_packet-reliable c p r ∙ if_false (is_seen c p) _ _ h ∙ if_false p.ordered _ _ o)
