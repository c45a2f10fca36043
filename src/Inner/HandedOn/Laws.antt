-- ===== src/Inner/HandedOn/Laws.antt =====
-- mini_udp/src/communicator/inner.rs: messages are handed on in order and once.
use mini_udp.Prelude.{
  ℕ, ◌<◌, ◌≡◌, refl, sym, ◌∙◌, ap, arith, true, false, if◌then◌else◌, List, [], ◌∷◌, ◌++◌, contains,
  Bool-cases, inl, inr, if_true, if_false,
}
use mini_udp.Packet.{Packet}
use mini_udp.ByteRepr.{ByteRepr}
use mini_udp.Ring.{RingBuffer}
use mini_udp.Socket.{System, Os}
use mini_udp.Inner.{InnerUdpCommunicator, default, write_heartbeat}
use mini_udp.Inner.Receive.{Delivery, handle_packet}
use mini_udp.Inner.Receive.Numbers.{id_of, IsKnown, fresh-IsKnown, again-IsKnown}
use mini_udp.Inner.Receive.Numbers.Seen.{seen_again, unseen}
use mini_udp.Inner.Receive.Numbers.Storing.{high_after, inserted-IsKnown}
use mini_udp.Inner.Receive.Ordered.{logged, delivery}
use mini_udp.Inner.Receive.Ordered.Arrival.{IsInOrder, handle_packet-IsInOrder}
use mini_udp.Inner.HandedOn.Untouched.{reception, send_untouched}
use mini_udp.Inner.HandedOn.Branches.{
  other_untouched, unordered, ordered_untouched, unreliable_handed, seen_if_unordered,
  unordered_seen, unordered_stored,
}
use mini_udp.Communicator.{pop_front, write, write_reliable, write_ordered, read, read_ordered}
use mathlib.Core.List.{append_assoc, append-nil}
use mathlib.Core.Path.{subst}
use mini_udp.Inner.HandedOn.{listed, Trace, nothing_yet, InTime, Run}

pop_front_moved :
    {A : Type 0} (handed queue : List A)
    → (handed ++ listed (pop_front queue).0) ++ (pop_front queue).1 ≡ handed ++ queue
unfolding pop_front
pop_front_moved handed [] = append-nil (handed ++ []) ∙ append-nil handed ∙ sym (append-nil handed)
pop_front_moved handed (x ∷ xs) = append_assoc handed (x ∷ []) xs

handed_moved :
    {A : Type 0} (handed queue owed ms : List A)
    → handed ++ queue ≡ owed
    → handed ++ (queue ++ ms) ≡ owed ++ ms
handed_moved handed queue owed ms e = sym (append_assoc handed queue ms) ∙ ap (λ xs. xs ++ ms) e

module _ {SEND RECV : Type 0} (system : System) (checksum : List ℕ → ℕ) (repr : ByteRepr SEND)
    (send_repr : ByteRepr (Packet SEND)) (log : ℕ → List RECV) where
  -- What a run keeps of the ordered packets, and of the others.
  abbrev KeepsOrdered : Trace RECV → Delivery RECV → Type 0
  KeepsOrdered t d = IsInOrder log t.ordered_came t.was_read_ordered d

  abbrev KeepsUnordered : Trace RECV → RingBuffer (Unit {0}) × List RECV → Type 0
  KeepsUnordered t arrivals =
      (high : ℕ) × IsKnown t.unordered_came high arrivals.0 × (t.was_read ++ arrivals.1 ≡ t.owed)

  record Kept (t : Trace RECV) (c : InnerUdpCommunicator SEND RECV) : Type 0 where
    in_order : KeepsOrdered t (delivery c)
    once : KeepsUnordered t (unordered c)

  module _ (t : Trace RECV) (c : InnerUdpCommunicator SEND RECV) (k : Kept t c) where
    same-Kept : (c' : InnerUdpCommunicator SEND RECV) → reception c' ≡ reception c → Kept t c'
    same-Kept c' e = record {
      in_order = subst (KeepsOrdered t) (sym (ap (λ r. r.0) e)) k.in_order;
      once = subst (KeepsUnordered t) (sym (ap (λ r. (r.1, r.2)) e)) k.once;
    }

    read_ordered-Kept :
        Kept
          (record t { was_read_ordered = t.was_read_ordered ++ listed (read_ordered c).0 })
          (read_ordered c).1
    unfolding read_ordered
    read_ordered-Kept =
        let (low, high, b, missing, same) = k.in_order in
        record {
          in_order = (
            low,
            high,
            record {
              known = b.known;
              head = b.head;
              above = b.above;
              near = b.near;
              came = b.came;
              messages = b.messages;
            },
            missing,
            pop_front_moved t.was_read_ordered c.ordered_recv_queue ∙ same,
          );
          once = k.once;
        }

    read-Kept : Kept (record t { was_read = t.was_read ++ listed (read c).0 }) (read c).1
    unfolding read
    read-Kept =
        let (high, b, same) = k.once in
        record {
          in_order = k.in_order;
          once = (high, b, pop_front_moved t.was_read c.unordered_recv_queue ∙ same);
        }

    unreliable-Kept :
        (p : Packet RECV)
        → p.reliable ≡ false
        → Kept (record t { owed = t.owed ++ p.messages }) (handle_packet c p)
    unreliable-Kept p r =
        let (high, b, same) = k.once in
        record {
          in_order =
              subst (KeepsOrdered t) (sym (other_untouched c p (ground (arith, r)))) k.in_order;
          once =
              subst (KeepsUnordered (record t { owed = t.owed ++ p.messages }))
                (sym (unreliable_handed c p r))
                (high, b, handed_moved t.was_read c.unordered_recv_queue t.owed p.messages same);
        }

    ordered-Kept :
        (n : ℕ) (p : Packet RECV)
        → p.reliable ≡ true
        → p.ordered ≡ true
        → p.ack.sequence_id ≡ id_of n
        → p.messages ≡ log n
        → InTime t.ordered_came n
        → Kept (record t { ordered_came = n ∷ t.ordered_came }) (handle_packet c p)
    ordered-Kept n p r o id same (before, after) = record {
      in_order =
          handle_packet-IsInOrder log t.ordered_came t.was_read_ordered c n p r o id same before
            after k.in_order;
      once = subst (KeepsUnordered t) (sym (ordered_untouched c p r o)) k.once;
    }

    unordered-Kept :
        (n : ℕ) (p : Packet RECV)
        → p.reliable ≡ true
        → p.ordered ≡ false
        → p.ack.sequence_id ≡ id_of n
        → InTime t.unordered_came n
        → Kept
            (record t {
              unordered_came = n ∷ t.unordered_came;
              owed = if contains t.unordered_came n then t.owed else t.owed ++ p.messages;
            })
            (handle_packet c p)
    unordered-Kept n p r o id (before, after) =
        let (high, b, same) = k.once in
        let ring = c.reliable_received_packets in
        let t' : Trace RECV = record t {
          unordered_came = n ∷ t.unordered_came;
          owed = if contains t.unordered_came n then t.owed else t.owed ++ p.messages;
        } in
        record {
          in_order =
              subst (KeepsOrdered t) (sym (other_untouched c p (ground (arith, o)))) k.in_order;
          once = elim (Bool-cases (contains t.unordered_came n)) [
            | inl h ↦
                let seen = seen_again t.unordered_came high ring b n after h in
                subst (KeepsUnordered t')
                  (sym (unordered_seen c p r o (seen_if_unordered c p r o ∙ rw id seen)))
                  (
                    high,
                    again-IsKnown t.unordered_came high ring n h b,
                    same ∙ sym (if_true (contains t.unordered_came n) _ _ h),
                  )
            | inr h ↦
                let new = unseen t.unordered_came high ring b n before h in
                subst (KeepsUnordered t')
                  (sym
                    (unordered_stored c p r o (seen_if_unordered c p r o ∙ rw id new) ∙ rw id refl))
                  (
                    high_after high n,
                    inserted-IsKnown t.unordered_came high ring b n tt before h,
                    handed_moved t.was_read c.unordered_recv_queue t.owed p.messages same
                        ∙ sym (if_false (contains t.unordered_came n) _ _ h),
                  )
          ];
        }

  default-Kept : (os : Os) → Kept nothing_yet (default {SEND = SEND} {RECV = RECV} system os).0
  unfolding default logged
  default-Kept os = record {
    in_order = (
      0,
      0,
      record {
        known = fresh-IsKnown;
        head = refl;
        above = omega arith;
        near = omega arith;
        came = λ k lt. absurd (omega arith);
        messages = λ k p le lt e. absurd (omega arith);
      },
      refl,
      refl,
    );
    once = (0, fresh-IsKnown, refl);
  }

  Run-Kept :
      {t : Trace RECV} {c : InnerUdpCommunicator SEND RECV}
      → Run system checksum repr send_repr log t c
      → Kept t c
  unfolding write write_reliable write_ordered write_heartbeat
  Run-Kept (Run.new os) = default-Kept os
  Run-Kept (Run.ordered_arrived {t} {c} time n p r o id same timely run) =
      ordered-Kept t (record c { last_seen = time }) (same-Kept t c (Run-Kept run) _ refl) n p r o
        id same timely
  Run-Kept (Run.unordered_arrived {t} {c} time n p r o id timely run) =
      unordered-Kept t (record c { last_seen = time }) (same-Kept t c (Run-Kept run) _ refl) n p r o
        id timely
  Run-Kept (Run.unreliable_arrived {t} {c} time p r run) =
      unreliable-Kept t (record c { last_seen = time }) (same-Kept t c (Run-Kept run) _ refl) p r
  Run-Kept (Run.called_read_ordered {t} {c} run) = read_ordered-Kept t c (Run-Kept run)
  Run-Kept (Run.called_read {t} {c} run) = read-Kept t c (Run-Kept run)
  Run-Kept (Run.wrote {t} {c} m run) = same-Kept t c (Run-Kept run) _ refl
  Run-Kept (Run.wrote_reliable {t} {c} m run) = same-Kept t c (Run-Kept run) _ refl
  Run-Kept (Run.wrote_ordered {t} {c} m run) = same-Kept t c (Run-Kept run) _ refl
  Run-Kept (Run.wrote_heartbeat {t} {c} run) = same-Kept t c (Run-Kept run) _ refl
  Run-Kept (Run.sent {t} {c} {c'} addr socket socket' answer e run) =
      same-Kept t c (Run-Kept run) c'
        (send_untouched system checksum repr send_repr addr socket c (answer, c', socket') e)

  -- Let a new connection go through packets handled in any order, calls of `read`, `read_ordered`
  -- and the `write` methods, and of `send` that returned. The id of a reliable packet is its
  -- number modulo 65536; it comes only when all packets of its kind that are 32 or more before it
  -- have come, and before any that is 96 or more after it; an ordered one has the messages of its
  -- number in `log`. Then what `read_ordered` has returned and what is still queued for it are
  -- the messages of the ordered packets before the first number that has not come, which have all
  -- come, in the order of the numbers and each once.
  pub handed_on_in_order :
      (t : Trace RECV) (c : InnerUdpCommunicator SEND RECV)
      → Run system checksum repr send_repr log t c
      → (low : ℕ) × (contains t.ordered_came low ≡ false)
        × ((k : ℕ) → k < low → contains t.ordered_came k ≡ true)
        × (t.was_read_ordered ++ c.ordered_recv_queue ≡ logged log low)
  handed_on_in_order t c run =
      let (low, high, b, missing, same) = (Run-Kept run).in_order in (low, missing, b.came, same)

  -- Let a new connection go through packets handled in any order, calls of `read`, `read_ordered`
  -- and the `write` methods, and of `send` that returned. The id of a reliable packet is its
  -- number modulo 65536; it comes only when all packets of its kind that are 32 or more before it
  -- have come, and before any that is 96 or more after it; an ordered one has the messages of its
  -- number in `log`. Then what `read` has returned and what is still queued for it are the
  -- messages of the unreliable packets and of the reliable ones that are not ordered at their
  -- first arrival, in the order of arrival.
  pub handed_on_once :
      (t : Trace RECV) (c : InnerUdpCommunicator SEND RECV)
      → Run system checksum repr send_repr log t c
      → t.was_read ++ c.unordered_recv_queue ≡ t.owed
  handed_on_once t c run = let (high, b, same) = (Run-Kept run).once in same
