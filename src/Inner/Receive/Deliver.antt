-- ===== src/Inner/Receive/Deliver.antt =====
-- The loop of `read_packet` that hands ordered packets on, as a whole.
use mini_udp.Prelude.{
  ℕ, zero, suc, ◌+◌, ◌≤◌, ◌<◌, ◌≡◌, ◌≢◌, refl, sym, ◌∙◌, arith, ◌==◌, if◌then◌else◌, some, List, [],
  ◌∷◌, length, Option-cases, inl, inr, eq_or_ne, eq→==, ne→==,
}
use mini_udp.Word.{IsU16, wrapping_add, wrapping_sub}
use mini_udp.Ring
use mini_udp.Ring.{RingBuffer}
use mini_udp.Ring.Slots.{IsRing}
use mini_udp.Ring.Window.{get_out, get-set_mut, set_mut-IsRing}
use mini_udp.Ring.Iter.Runs.{ids, range-ids}
use mini_udp.Packet.{Packet}
use mini_udp.Ack.{num_items}
use mini_udp.Ack.Field.{capacity}
use mini_udp.Inner.Receive.{Delivery, deliver_packet, deliver_in, deliver}
use mathlib.Core.List.{append_assoc, append-nil}
use mini_udp.Inner.Receive.Steps.{
  found, IsRun, contents, Delivered, step_none, step_next, ahead, behind,
}

module _ {RECV : Type 0} where
  -- A run does not depend on ids before it.
  IsRun-move :
      (r r' : RingBuffer (Packet RECV)) (id x : ℕ) (ps : List (Packet RECV))
      → IsU16 id
      → IsU16 x
      → ((j : ℕ) → IsU16 j → id ≢ j → found r' j ≡ found r j)
      → 0 < wrapping_sub x id
      → wrapping_sub x id + length ps ≤ 65536
      → IsRun r' x ps
      → IsRun r x ps
  IsRun-move r r' id x [] hid hx same pos h run = tt
  IsRun-move r r' id x (p ∷ []) hid hx same pos h (e, run) = (sym (same x hx (omega arith)) ∙ e, tt)
  IsRun-move r r' id x (p ∷ q ∷ ps) hid hx same pos h (e, run) = (
    sym (same x hx (omega arith)) ∙ e,
    IsRun-move r r' id (wrapping_add x 1) (q ∷ ps) hid (omega arith) same (omega arith)
        (omega arith) run,
  )

  -- Delivering one packet empties it, and leaves the other ids alone.
  module _ (d : Delivery RECV) (v : IsRing num_items d.received) (hd : IsU16 d.head)
      (p : Packet RECV) (inside : wrapping_sub d.received.newest d.head < 32) where
    packet-IsRing : IsRing num_items (deliver_packet d d.head p).received
    unfolding deliver_packet
    packet-IsRing =
        set_mut-IsRing num_items d.received capacity v d.head (record p { messages = [] })

    packet-newest : (deliver_packet d d.head p).received.newest ≡ d.received.newest
    unfolding deliver_packet Ring.set_mut
    packet-newest = refl

    packet-found :
        (j : ℕ)
        → IsU16 j
        → found (deliver_packet d d.head p).received j
          ≡ (if d.head == j then some (record p { messages = [] }) else found d.received j)
    unfolding deliver_packet
    packet-found j hj =
        get-set_mut num_items d.received capacity v d.head j (record p { messages = [] }) hd hj
          inside

    -- One more packet in front of a run.
    extend :
        (there : found d.received d.head ≡ some p) (d' : Delivery RECV) (ps : List (Packet RECV))
        → length ps ≤ 32
        → Delivered (deliver_packet d d.head p) d' ps
        → Delivered d d' (p ∷ ps)
    unfolding contents
    extend there d' ps short rest =
        let r1 = (deliver_packet d d.head p).received in
        record {
          run = (
            there,
            IsRun-move d.received r1 d.head (wrapping_add d.head 1) ps hd (omega arith)
                (λ j hj ne. packet-found j hj ∙ rw (ne→== d.head j ne)) (omega arith) (omega arith)
                (unfold deliver_packet in rest.run),
          );
          maximal = rest.maximal;
          queued =
              rest.queued ∙ unfold deliver_packet in append_assoc d.queue p.messages (contents ps);
          head_moved = rest.head_moved ∙ unfold deliver_packet in omega arith;
          still_valid = rest.still_valid;
          same_newest = rest.same_newest ∙ packet-newest;
          same_ids = λ j hj. rest.same_ids j hj ∙ elim (eq_or_ne d.head j) [
            | inl e ↦
                let here : found d.received j ≡ some p = rw e at there in
                rw (packet-found j hj, eq→== d.head j e, here)
            | inr ne ↦ rw (packet-found j hj, ne→== d.head j ne)
          ];
          later = λ j hj h.
              rest.later j hj (unfold deliver_packet in omega arith)
              ∙ packet-found j hj
              ∙ rw (ne→== d.head j (omega arith));
        }

  first_step :
      (d : Delivery RECV) (len : ℕ) (p : Packet RECV)
      → found d.received d.head ≡ some p
      → deliver_in d (ids d.head (suc len))
        ≡ deliver_in (deliver_packet d d.head p) (ids (deliver_packet d d.head p).head len)
  unfolding ids deliver_packet
  first_step d len p there = step_next d d.head (ids (wrapping_add d.head 1) len) p there refl

  at_head :
      (len : ℕ) (d : Delivery RECV)
      → IsRing num_items d.received
      → IsU16 d.head
      → wrapping_sub (wrapping_add d.received.newest 1) d.head ≡ len
      → len ≤ 32
      → (ps : List (Packet RECV)) × (length ps ≤ len)
        × Delivered d (deliver_in d (ids d.head len)) ps
  unfolding contents
  at_head zero d v hd e hk = (
    [],
    omega arith,
    unfold ids deliver_in in
        record {
          run = tt;
          maximal = get_out num_items d.received d.head (omega arith);
          queued = sym (append-nil d.queue);
          head_moved = omega arith;
          still_valid = v;
          same_newest = refl;
          same_ids = λ j hj. refl;
          later = λ j hj h. refl;
        },
  )
  at_head (suc len) d v hd e hk = elim (Option-cases (found d.received d.head)) [
    | inl none_there ↦
        let stops : deliver_in d (ids d.head (suc len)) ≡ d =
          unfold ids in
          step_none d d.head (ids (wrapping_add d.head 1) len) none_there
          ∙ ahead len (wrapping_add d.head 1) d (omega arith) hd (omega arith) (omega arith) in
        (
          [],
          omega arith,
          rw stops (record {
            run = tt;
            maximal = none_there;
            queued = sym (append-nil d.queue);
            head_moved = omega arith;
            still_valid = v;
            same_newest = refl;
            same_ids = λ j hj. refl;
            later = λ j hj h. refl;
          }),
        )
    | inr (p, there) ↦
        let inside : wrapping_sub d.received.newest d.head < 32 = omega arith in
        let steps : deliver_in d (ids d.head (suc len))
            ≡ deliver_in (deliver_packet d d.head p) (ids (deliver_packet d d.head p).head len) =
          first_step d len p there in
        let (ps, short, rest) =
          at_head len (deliver_packet d d.head p) (packet-IsRing d v hd p inside)
            (unfold deliver_packet in omega arith)
            (unfold deliver_packet Ring.set_mut in omega arith) (omega arith) in
        (p ∷ ps, omega arith, rw steps (extend d v hd p inside there _ ps (omega arith) rest))
  ]

  -- In a well-formed buffer whose newest id is at most 31 past the next id to deliver, or just
  -- before it, the loop delivers the longest run of packets that starts at the next id, in the
  -- order of their ids and each once: the messages join the queue, the next id moves past them,
  -- and the buffer keeps its ids.
  pub deliver_lem :
      (d : Delivery RECV)
      → IsRing num_items d.received
      → IsU16 d.head
      → wrapping_sub (wrapping_add d.received.newest 1) d.head ≤ 32
      → (ps : List (Packet RECV)) × (length ps ≤ 32) × Delivered d (deliver d) ps
  unfolding deliver
  deliver_lem d v hd h =
      let start = wrapping_sub d.received.newest 31 in
      let end = wrapping_add d.received.newest 1 in
      let len = wrapping_sub end d.head in
      let (ps, short, delivered) = at_head len d v hd refl h in
      (
        ps,
        omega arith,
        rw
            (
              range-ids start end 32 (omega arith) (omega arith),
              behind (wrapping_sub d.head start) start len 32 d (omega arith) hd refl (omega arith)
                  (omega arith),
            )
            delivered,
      )
