-- ===== src/Inner/Receive/Ordered/Arrival.antt =====
-- `handle_packet` on an ordered packet, by the number of the packet.
use mini_udp.Prelude.{
  ℕ, ◌+◌, ◌≤◌, ◌≡◌, refl, sym, ap, ◌∙◌, true, false, ◌||◌, is_some, List, ◌∷◌, ◌++◌, contains, inl,
  inr, Bool-cases, if_true, if_false,
}
use mini_udp.Word.{wrapping_sub}
use mini_udp.Serial.{wrapping_gt}
use mini_udp.Ring
use mini_udp.Packet.{Packet}
use mini_udp.Ack.{num_items}
use mini_udp.Inner.{InnerUdpCommunicator}
use mini_udp.Inner.Receive.{
  Delivery, deliver, acknowledge_packet, newest_index, is_too_old, store, handle_packet,
}
use mini_udp.Inner.Receive.Once.{is_seen, with_duplicate, handle_packet-reliable, is_duplicate_if}
use mini_udp.Inner.Receive.Steps.{found}
use mini_udp.Inner.Receive.Ordered.{logged, IsBuffered, delivery}
use mini_udp.Inner.Receive.Ordered.Handing.{deliver-IsBuffered}
use mini_udp.Inner.Receive.Ordered.Storing.{stored, stored-IsBuffered}
use mini_udp.Inner.Receive.Numbers.{id_of, contains-again, again-IsKnown}
use mini_udp.Inner.Receive.Numbers.Seen.{seen_again, unseen}
use mini_udp.Inner.Receive.Numbers.Storing.{high_after}
use mathlib.Core.List.{append_assoc}
use mathlib.Core.Path.{subst}

-- The messages handed on, read or still queued, are those before the first number that has not
-- arrived.
abbrev pub IsInOrder :
    {RECV : Type 0} → (ℕ → List RECV) → List ℕ → List RECV → Delivery RECV → Type 0
IsInOrder log ns handed d =
    (low : ℕ) × (high : ℕ) × IsBuffered log ns low high d
    × (contains ns low ≡ false)
    × (handed ++ d.queue ≡ logged log low)

module _ {SEND RECV : Type 0} (log : ℕ → List RECV) (ns : List ℕ) (handed : List RECV)
    (c : InnerUdpCommunicator SEND RECV) where
  again-IsInOrder :
      (n : ℕ)
      → contains ns n ≡ true
      → IsInOrder log ns handed (delivery c)
      → IsInOrder log (n ∷ ns) handed (delivery c)
  again-IsInOrder n h (low, high, b, missing, same) = (
    low,
    high,
    record {
      known = again-IsKnown ns high c.reliable_ordered_received_packets n h b.known;
      head = b.head;
      above = b.above;
      near = b.near;
      came = λ k lt. contains-again ns n k h ∙ b.came k lt;
      messages = b.messages;
    },
    contains-again ns n low h ∙ missing,
    same,
  )

  module _ (n : ℕ) (p : Packet RECV) (reliable : p.reliable ≡ true) (ordered : p.ordered ≡ true)
      (id : p.ack.sequence_id ≡ id_of n) where
    seen_if : is_seen c p ≡ (
        is_some (found c.reliable_ordered_received_packets (id_of n))
        || wrapping_gt (wrapping_sub c.reliable_ordered_received_packets.newest 31) (id_of n) 64)
    unfolding is_seen is_too_old newest_index
    seen_if = rw (is_duplicate_if c p, ordered, id) refl

    delivery_seen : is_seen c p ≡ true → delivery (handle_packet c p) ≡ delivery c
    unfolding with_duplicate
    delivery_seen h =
        ap delivery (handle_packet-reliable c p reliable ∙ if_true (is_seen c p) _ _ h)

    delivery_store :
        is_seen c p ≡ false
        → delivery (handle_packet c p)
          ≡ deliver (record {
            received = Ring.insert num_items c.reliable_ordered_received_packets (id_of n) p;
            head = c.ordered_read_packet_head;
            queue = c.ordered_recv_queue;
          })
    unfolding store acknowledge_packet
    delivery_store h =
        ap delivery (
          handle_packet-reliable c p reliable
          ∙ if_false (is_seen c p) _ _ h
          ∙ if_true p.ordered _ _ ordered)
        ∙ rw id refl

    -- A packet with one of the log's numbers arrives, at most 31 ahead of the first number that
    -- has not arrived, and at most 95 behind any that has.
    pub handle_packet-IsInOrder :
        p.messages ≡ log n
        → ((j : ℕ) → j + 32 ≤ n → contains ns j ≡ true)
        → ((j : ℕ) → contains ns j ≡ true → j ≤ n + 95)
        → IsInOrder log ns handed (delivery c)
        → IsInOrder log (n ∷ ns) handed (delivery (handle_packet c p))
    handle_packet-IsInOrder same sent late (low, high, b, missing, queue) =
        elim (Bool-cases (contains ns n)) [
          | inl h ↦
              let seen = seen_again ns high c.reliable_ordered_received_packets b.known n late h in
              subst (IsInOrder log (n ∷ ns) handed) (sym (delivery_seen (seen_if ∙ seen)))
                (again-IsInOrder n h (low, high, b, missing, queue))
          | inr h ↦
              let new = unseen ns high c.reliable_ordered_received_packets b.known n sent h in
              let (low', b', missing', ms, queued, joined) =
                deliver-IsBuffered log (n ∷ ns) low (high_after high n) (stored n p (delivery c))
                  (stored-IsBuffered log ns low high (delivery c) b n p sent missing h same) in
              subst (IsInOrder log (n ∷ ns) handed) (sym (delivery_store (seen_if ∙ new))) (
                low',
                high_after high n,
                b',
                missing',
                ap (λ q. handed ++ q) queued
                    ∙ sym (append_assoc handed c.ordered_recv_queue ms)
                    ∙ ap (λ q. q ++ ms) queue
                    ∙ sym joined,
              )
        ]
