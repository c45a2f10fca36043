-- ===== src/Inner/Flush/Packs.antt =====
-- The loop of `flush_messages` over the unreliable queue.
use mini_udp.Prelude.{
  ℕ, zero, suc, ◌+◌, ◌-◌, ◌≤◌, ◌<◌, ◌≡◌, refl, sym, ap, ◌∙◌, arith, true, false, List, [], ◌∷◌,
  ◌++◌, is_empty, take, drop, length, length-drop, take-append-drop, All, inl, inr, Bool-cases,
}
use mini_udp.Word.{IsU16, wrapping_add}
use mini_udp.Outcome.{done, out_of_fuel}
use mini_udp.Packet.{Packet, max_packet_data_len}
use mini_udp.ByteRepr.{ByteRepr}
use mini_udp.Socket.{System}
use mini_udp.Inner.{InnerUdpCommunicator}
use mini_udp.Inner.Flush.{
  included, included_msgs, unreliable_packet, flush_unreliable_round, flush_unreliable,
}
use mathlib.Core.List.{append_assoc, append-nil}

module _ {M : Type 0} (repr : ByteRepr M) where
  -- The bytes of a list of messages.
  unfoldable pub total : List M → ℕ
  total [] = 0
  total (m ∷ ms) = repr.byte_len m + total ms

  abbrev pub Fits : M → Type 0
  Fits m = repr.byte_len m ≤ max_packet_data_len

  pub total-included : (avail : ℕ) (q : List M) → total (take (included repr avail q) q) ≤ avail
  unfolding total included
  total-included avail [] = omega arith
  total-included avail (m ∷ ms) = ground (arith, total-included (avail - repr.byte_len m) ms)

  included_pos :
      (avail : ℕ) (m : M) (ms : List M) → repr.byte_len m ≤ avail → 0 < included repr avail (m ∷ ms)
  unfolding included
  included_pos avail m ms h = ground arith

  included_none :
      (avail : ℕ) (m : M) (ms : List M) → avail < repr.byte_len m → included repr avail (m ∷ ms) ≡ 0
  unfolding included
  included_none avail m ms h = ground arith

  All-drop : (n : ℕ) (q : List M) → All Fits q → All Fits (drop n q)
  All-drop zero q h = h
  All-drop (suc n) [] h = tt
  All-drop (suc n) (m ∷ ms) (h, hs) = All-drop n ms hs

  -- The messages of a list of packets, in order.
  unfoldable pub messages_of : List (Packet M) → List M
  messages_of [] = []
  messages_of (p ∷ ps) = p.messages ++ messages_of ps

  abbrev pub IsSmall : Packet M → Type 0
  IsSmall p = total p.messages ≤ max_packet_data_len

pub is_empty→[] : {A : Type 0} (xs : List A) → is_empty xs ≡ true → xs ≡ []
is_empty→[] [] h = refl
is_empty→[] (x ∷ xs) h = cc

-- A round takes a message at least.
round_takes :
    {SEND : Type 0} (repr : ByteRepr SEND) (q : List SEND)
    → is_empty q ≡ false
    → All (Fits repr) q
    → length (drop (included_msgs repr q) q) < length q
round_takes repr [] e h = cc
round_takes repr (m ∷ ms) e (h, hs) = omega (
  arith,
  length-drop (included_msgs repr (m ∷ ms)) (m ∷ ms),
  included_pos repr max_packet_data_len m ms h,
)

-- What the unreliable queue becomes: packets at the end of the ones to send.
pub record Flushed {SEND RECV : Type 0} (repr : ByteRepr SEND)
    (c c' : InnerUdpCommunicator SEND RECV) (packets : List (Packet SEND)) : Type 0 where
  pub all_taken : c'.unreliable_send_queue ≡ []
  pub added : c'.unreliable_send_packets ≡ c.unreliable_send_packets ++ packets
  pub in_order : messages_of repr packets ≡ c.unreliable_send_queue
  pub small : All (IsSmall repr) packets
  pub ids : c'.unreliable_send_packet_id ≡ wrapping_add c.unreliable_send_packet_id (length packets)
  pub rest_kept :
      record c' {
        unreliable_send_queue = c.unreliable_send_queue;
        unreliable_send_packets = c.unreliable_send_packets;
        unreliable_send_packet_id = c.unreliable_send_packet_id;
      }
      ≡ c

module _ {SEND RECV : Type 0} (system : System) (repr : ByteRepr SEND) where
  unreliable_goes_on :
      (fuel : ℕ) (c : InnerUdpCommunicator SEND RECV)
      → is_empty c.unreliable_send_queue ≡ false
      → flush_unreliable system repr (suc fuel) c
        ≡ flush_unreliable system repr fuel (flush_unreliable_round system repr c)
  unfolding flush_unreliable
  unreliable_goes_on fuel c e = rw e

  unreliable_stops :
      (fuel : ℕ) (c : InnerUdpCommunicator SEND RECV)
      → is_empty c.unreliable_send_queue ≡ true
      → flush_unreliable system repr (suc fuel) c ≡ done c
  unfolding flush_unreliable
  unreliable_stops fuel c e = rw e

  -- If the first message of the unreliable queue is too large for a packet, the loop never ends:
  -- no number of rounds is enough.
  pub flush_unreliable_oversized :
      (fuel : ℕ) (c : InnerUdpCommunicator SEND RECV) (m : SEND) (ms : List SEND)
      → c.unreliable_send_queue ≡ m ∷ ms
      → max_packet_data_len < repr.byte_len m
      → flush_unreliable system repr fuel c ≡ out_of_fuel
  unfolding flush_unreliable_round
  flush_unreliable_oversized zero c m ms e h = unfold flush_unreliable in refl
  flush_unreliable_oversized (suc fuel) c m ms e h =
      let stays : (flush_unreliable_round system repr c).unreliable_send_queue ≡ m ∷ ms =
        rw (e, included_none repr max_packet_data_len m ms h) in
      unreliable_goes_on fuel c (ap is_empty e)
      ∙ flush_unreliable_oversized fuel (flush_unreliable_round system repr c) m ms stays h

  -- If every message fits a packet, the next id is a `u16` and there is fuel for more rounds than
  -- there are messages, the loop over the unreliable queue ends. It has moved the whole queue, in
  -- order, into packets of at most 1024 bytes of messages, whose number the next id grows by, and
  -- changed nothing else.
  pub flush_unreliable_lem :
      (fuel : ℕ) (c : InnerUdpCommunicator SEND RECV)
      → length c.unreliable_send_queue < fuel
      → IsU16 c.unreliable_send_packet_id
      → All (Fits repr) c.unreliable_send_queue
      → (c' : InnerUdpCommunicator SEND RECV) × (packets : List (Packet SEND)) × (flush_unreliable
            system repr fuel c
          ≡ done c')
        × Flushed repr c c' packets
  unfolding flush_unreliable_round messages_of
  flush_unreliable_lem zero c lt hi h = absurd (omega arith)
  flush_unreliable_lem (suc fuel) c lt hi h = elim (Bool-cases (is_empty c.unreliable_send_queue)) [
    | inl e ↦ (
      c,
      [],
      unreliable_stops fuel c e,
      record {
        all_taken = is_empty→[] c.unreliable_send_queue e;
        added = sym (append-nil c.unreliable_send_packets);
        in_order = sym (is_empty→[] c.unreliable_send_queue e);
        small = tt;
        ids = omega arith;
        rest_kept = refl;
      },
    )
    | inr e ↦
        let q = c.unreliable_send_queue in
        let c1 = flush_unreliable_round system repr c in
        let p = unreliable_packet system repr c in
        let (c', ps, runs, f) =
          flush_unreliable_lem fuel (flush_unreliable_round system repr c)
            (omega (arith, round_takes repr c.unreliable_send_queue e h)) (omega arith)
            (All-drop repr (included_msgs repr c.unreliable_send_queue) c.unreliable_send_queue
              h) in
        (
          c',
          p ∷ ps,
          unreliable_goes_on fuel c e ∙ runs,
          record {
            all_taken = f.all_taken;
            added = f.added ∙ append_assoc c.unreliable_send_packets (p ∷ []) ps;
            in_order =
                ap (λ ms. take (included_msgs repr q) q ++ ms) f.in_order
                ∙ take-append-drop (included_msgs repr q) q;
            small = (total-included repr max_packet_data_len q, f.small);
            ids = omega (arith, f.ids);
            rest_kept =
                ap {A = InnerUdpCommunicator SEND RECV}
                  (λ d. record d {
                    unreliable_send_queue = c.unreliable_send_queue;
                    unreliable_send_packets = c.unreliable_send_packets;
                    unreliable_send_packet_id = c.unreliable_send_packet_id;
                  })
                  f.rest_kept;
          },
        )
  ]
