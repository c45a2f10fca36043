-- ===== src/Inner/Flush/Reliable.antt =====
-- The loop of the function `flush_messages` over a buffer of reliable packets.
use mini_udp.Prelude.{
  ℕ, zero, suc, ◌+◌, ◌≤◌, ◌<◌, ◌≡◌, refl, sym, ap, ◌∙◌, arith, Bool, true, false, is_some, List, [],
  ◌∷◌, ◌++◌, is_empty, take, take-append-drop, inl, inr, Bool-cases, lt_or_le,
}
use mini_udp.Outcome.{Outcome, done}
use mini_udp.Ring
use mini_udp.Ring.{RingBuffer}
use mini_udp.Ring.Slots.{IsRing}
use mini_udp.Ring.Window.{push-IsRing}
use mini_udp.Packet.{Packet, max_packet_data_len}
use mini_udp.Ack.{num_items, new_ack}
use mini_udp.Ack.Field.{capacity}
use mini_udp.ByteRepr.{ByteRepr}
use mini_udp.Socket.{System}
use mini_udp.Inner.{PendingPacket}
use mini_udp.Inner.Flush.{
  included_msgs, Flushing, pending_packet, flush_round, flush_loop, flush_messages,
}
use mini_udp.Inner.Flush.Packs.{is_empty→[], total, messages_of, total-included}
use mini_udp.Inner.Flush.Packed.{IsFull, IsPacked, included-IsFull}
use mini_udp.Inner.Flush.Room.{FilledTo, push-FilledTo, FilledTo-full, push_keeps}
use mathlib.Core.List.{append_assoc}
use mathlib.Core.Path.{subst}
use mini_udp.Inner.Flush.Pushed.{push_all, packets_of, AreMade, Sent}

module _ {SEND RECV : Type 0} (system : System) (repr : ByteRepr SEND) (max_retries : ℕ)
    (reliable_received : RingBuffer (Unit {0})) (ordered_received : RingBuffer (Packet RECV))
    (ordered : Bool) where
  abbrev step : Flushing SEND → Flushing SEND
  step = flush_round system repr max_retries reliable_received ordered_received ordered

  abbrev loop : ℕ → Flushing SEND → Outcome (Flushing SEND)
  loop = flush_loop system repr max_retries reliable_received ordered_received ordered

  abbrev made_packet : Flushing SEND → PendingPacket SEND
  made_packet = pending_packet system repr max_retries reliable_received ordered_received ordered

  loop_goes_on :
      (fuel : ℕ) (s : Flushing SEND)
      → Ring.push_will_override num_items s.send_packets ≡ false
      → is_empty s.send_queue ≡ false
      → loop (suc fuel) s ≡ loop fuel (step s)
  unfolding flush_loop
  loop_goes_on fuel s full more = rw (full, more)

  loop_full :
      (fuel : ℕ) (s : Flushing SEND)
      → Ring.push_will_override num_items s.send_packets ≡ true
      → loop (suc fuel) s ≡ done s
  unfolding flush_loop
  loop_full fuel s full = rw full

  loop_empty :
      (fuel : ℕ) (s : Flushing SEND)
      → Ring.push_will_override num_items s.send_packets ≡ false
      → is_empty s.send_queue ≡ true
      → loop (suc fuel) s ≡ done s
  unfolding flush_loop
  loop_empty fuel s full more = rw (full, more)

  below_full :
      (s : Flushing SEND) (k : ℕ)
      → IsRing num_items s.send_packets
      → k ≤ 32
      → FilledTo s.send_packets k
      → Ring.push_will_override num_items s.send_packets ≡ false
      → k < 32
  below_full s k v hk filled free = elim (lt_or_le k 32) [
    | inl lt ↦ lt
    | inr le ↦ absurd (cc (free, FilledTo-full s.send_packets v (λ t lt. filled t (omega arith))))
  ]

  -- A round before the ones that the loop has done.
  one_more :
      (s s' : Flushing SEND) (ps : List (PendingPacket SEND))
      → IsRing num_items s.send_packets
      → Ring.push_will_override num_items s.send_packets ≡ false
      → is_empty s.send_queue ≡ false
      → Sent repr max_retries ordered (step s) s' ps
      → Sent repr max_retries ordered s s' (made_packet s ∷ ps)
  unfolding flush_round pending_packet push_all packets_of messages_of AreMade IsPacked Ring.push
      new_ack
  one_more s s' ps v free more sent =
      let q = s.send_queue in
      let n = included_msgs repr q in
      let p = made_packet s in
      let whole : take n q ++ (messages_of repr (packets_of ps) ++ s'.send_queue) ≡ q =
        ap (λ ms. take n q ++ ms) sent.in_order ∙ take-append-drop n q in
      record {
        pushed = sent.pushed;
        kept = λ i hi held.
            let same = push_keeps s.send_packets p i v free hi held in
            sent.kept i hi (ap is_some same ∙ held) ∙ same;
        made = (refl, refl, refl, refl, sent.made);
        in_order = append_assoc (take n q) _ _ ∙ whole;
        small = (total-included repr max_packet_data_len q, sent.small);
        packed = (
          ap is_empty whole ∙ more,
          subst (λ left. IsFull repr max_packet_data_len (total repr (take n q)) left)
              (sym sent.in_order) (included-IsFull repr max_packet_data_len q),
          sent.packed,
        );
        stopped = sent.stopped;
      }

  flush_loop_lem :
      (fuel k : ℕ) (s : Flushing SEND)
      → k + fuel ≡ 33
      → k ≤ 32
      → IsRing num_items s.send_packets
      → FilledTo s.send_packets k
      → (s' : Flushing SEND) × (ps : List (PendingPacket SEND)) × (loop fuel s ≡ done s')
        × Sent repr max_retries ordered s s' ps
        × IsRing num_items s'.send_packets
  unfolding flush_round push_all packets_of messages_of AreMade IsPacked
  flush_loop_lem zero k s h hk v filled = absurd (omega arith)
  flush_loop_lem (suc fuel) k s h hk v filled =
      elim (Bool-cases (Ring.push_will_override num_items s.send_packets)) [
        | inl full ↦ (
          s,
          [],
          loop_full fuel s full,
          record {
            pushed = refl;
            kept = λ i hi held. refl;
            made = tt;
            in_order = refl;
            small = tt;
            packed = tt;
            stopped = inl full;
          },
          v,
        )
        | inr free ↦ elim (Bool-cases (is_empty s.send_queue)) [
          | inl none_left ↦ (
            s,
            [],
            loop_empty fuel s free none_left,
            record {
              pushed = refl;
              kept = λ i hi held. refl;
              made = tt;
              in_order = refl;
              small = tt;
              packed = tt;
              stopped = inr (is_empty→[] s.send_queue none_left);
            },
            v,
          )
          | inr more ↦
              let p =
                pending_packet system repr max_retries reliable_received ordered_received ordered
                  s in
              let room : k < 32 = below_full s k v hk filled free in
              let (s', ps, runs, sent, v') =
                flush_loop_lem fuel (k + 1)
                  (flush_round system repr max_retries reliable_received ordered_received ordered s)
                  (omega arith) (omega arith)
                  (push-IsRing num_items s.send_packets capacity v (
                    pending_packet system repr max_retries reliable_received ordered_received
                      ordered s))
                  (push-FilledTo s.send_packets
                    (pending_packet system repr max_retries reliable_received ordered_received
                      ordered s)
                    k v room filled) in
              (
                s',
                p ∷ ps,
                loop_goes_on fuel s free more ∙ runs,
                one_more s s' ps v free more sent,
                v',
              )
        ]
      ]

  -- With a well-formed buffer of sent packets, the function `flush_messages` ends on every queue
  -- and keeps the buffer well-formed. It has moved a front part of the queue, in order, into
  -- packets of at most 1024 bytes of messages, pushed one after the other with consecutive ids,
  -- the kind and the retries of the call; each was made for messages that waited, and the message
  -- after it did not fit it. Every packet that the buffer held is still there. It stops only
  -- because the queue is empty or because the next push would override an unacknowledged packet.
  pub flush_messages_lem :
      (s : Flushing SEND)
      → IsRing num_items s.send_packets
      → (s' : Flushing SEND) × (ps : List (PendingPacket SEND)) × (flush_messages system repr
            max_retries reliable_received ordered_received ordered s
          ≡ done s')
        × Sent repr max_retries ordered s s' ps
        × IsRing num_items s'.send_packets
  unfolding flush_messages
  flush_messages_lem s v =
      flush_loop_lem 33 0 s (omega arith) (omega arith) v (λ t lt. absurd (omega arith))
