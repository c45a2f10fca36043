-- ===== src/Inner/Receive/Steps.antt =====
-- The delivery loop over the ids before the next one, and over those after it; and what it is to
-- have delivered a run of packets.
use mini_udp.Prelude.{
  ℕ, zero, suc, ◌+◌, ◌≤◌, ◌<◌, ◌≡◌, ◌≢◌, refl, ◌∙◌, arith, true, false, is_some, Option, none, some,
  List, [], ◌∷◌, ◌++◌, length, Option-cases, inl, inr, eq→==, ne→==,
}
use mini_udp.Word.{IsU16, wrapping_add, wrapping_sub}
use mini_udp.Serial.{wrapping_gt}
use mini_udp.Serial.Order.{wrapping_gt_ahead, wrapping_gt_behind}
use mini_udp.Ring
use mini_udp.Ring.{RingBuffer}
use mini_udp.Ring.Slots.{IsRing}
use mini_udp.Ring.Iter.Runs.{ids}
use mini_udp.Packet.{Packet}
use mini_udp.Ack.{num_items}
use mini_udp.Inner.Receive.{Delivery, deliver_packet, deliver_in}

module _ {RECV : Type 0} where
  abbrev pub found : RingBuffer (Packet RECV) → ℕ → Option (Packet RECV)
  found r j = Ring.get num_items r j

  -- The buffer has these packets under consecutive ids from `id` on.
  abbrev pub IsRun : RingBuffer (Packet RECV) → ℕ → List (Packet RECV) → Type 0
  IsRun r id [] = Unit {0}
  IsRun r id (p ∷ ps) = (Ring.get num_items r id ≡ some p) × IsRun r (wrapping_add id 1) ps

  unfoldable pub contents : List (Packet RECV) → List RECV
  contents [] = []
  contents (p ∷ ps) = p.messages ++ contents ps

  -- What the loop does with a run of packets.
  pub record Delivered (d d' : Delivery RECV) (ps : List (Packet RECV)) : Type 0 where
    pub run : IsRun d.received d.head ps
    pub maximal : Ring.get num_items d'.received d'.head ≡ none
    pub queued : d'.queue ≡ d.queue ++ contents ps
    pub head_moved : d'.head ≡ wrapping_add d.head (length ps)
    pub still_valid : IsRing num_items d'.received
    pub same_newest : d'.received.newest ≡ d.received.newest
    pub same_ids :
        (j : ℕ)
        → IsU16 j
        → is_some (Ring.get num_items d'.received j) ≡ is_some (Ring.get num_items d.received j)
    pub later :
        (j : ℕ)
        → IsU16 j
        → length ps ≤ wrapping_sub j d.head
        → Ring.get num_items d'.received j ≡ Ring.get num_items d.received j

  pub step_none :
      (d : Delivery RECV) (id : ℕ) (is : List ℕ)
      → found d.received id ≡ none
      → deliver_in d (id ∷ is) ≡ deliver_in d is
  unfolding deliver_in
  step_none d id is e = rw (e, deliver_in)

  pub step_next :
      (d : Delivery RECV) (id : ℕ) (is : List ℕ) (p : Packet RECV)
      → found d.received id ≡ some p
      → id ≡ d.head
      → deliver_in d (id ∷ is) ≡ deliver_in (deliver_packet d id p) is
  unfolding deliver_in
  step_next d id is p e h = rw (e, deliver_in) (rw (eq→== id d.head h))

  pub step_passed :
      (d : Delivery RECV) (id : ℕ) (is : List ℕ) (p : Packet RECV)
      → found d.received id ≡ some p
      → id ≢ d.head
      → wrapping_gt id d.head 32 ≡ false
      → deliver_in d (id ∷ is) ≡ deliver_in d is
  unfolding deliver_in
  step_passed d id is p e h gt = rw (e, deliver_in) (rw (ne→== id d.head h, gt))

  pub step_break :
      (d : Delivery RECV) (id : ℕ) (is : List ℕ) (p : Packet RECV)
      → found d.received id ≡ some p
      → id ≢ d.head
      → wrapping_gt id d.head 32 ≡ true
      → deliver_in d (id ∷ is) ≡ d
  unfolding deliver_in
  step_break d id is p e h gt = rw (e, deliver_in) (rw (ne→== id d.head h, gt))

  -- Ids ahead of the next one change nothing.
  pub ahead :
      (len i : ℕ) (d : Delivery RECV)
      → IsU16 i
      → IsU16 d.head
      → 0 < wrapping_sub i d.head
      → wrapping_sub i d.head + len ≤ 33
      → deliver_in d (ids i len) ≡ d
  unfolding ids
  ahead zero i d hi hd pos h = unfold deliver_in in refl
  ahead (suc len) i d hi hd pos h = elim (Option-cases (found d.received i)) [
    | inl e ↦
        step_none d i (ids (wrapping_add i 1) len) e
        ∙ ahead len (wrapping_add i 1) d (omega arith) hd (omega arith) (omega arith)
    | inr (p, e) ↦
        step_break d i (ids (wrapping_add i 1) len) p e (omega arith)
          (wrapping_gt_ahead i d.head 32 hi hd (omega arith) (omega arith) (omega arith))
  ]

  -- Ids behind the next one are passed over.
  pub behind :
      (k i len all : ℕ) (d : Delivery RECV)
      → IsU16 i
      → IsU16 d.head
      → wrapping_sub d.head i ≡ k
      → k ≤ 32
      → all ≡ k + len
      → deliver_in d (ids i all) ≡ deliver_in d (ids d.head len)
  unfolding ids
  behind zero i len all d hi hd e hk h =
      let here : i ≡ d.head = omega arith in let same : all ≡ len = omega arith in rw (here, same)
  behind (suc k) i len zero d hi hd e hk h = absurd (omega arith)
  behind (suc k) i len (suc all) d hi hd e hk h =
      one (Ring.get num_items d.received i) refl
      ∙ behind k (wrapping_add i 1) len all d (omega arith) hd (omega arith) (omega arith)
          (omega arith)
    where
      one :
          (o : Option (Packet RECV))
          → Ring.get num_items d.received i ≡ o
          → deliver_in d (ids i (suc all)) ≡ deliver_in d (ids (wrapping_add i 1) all)
      one none e' = step_none d i (ids (wrapping_add i 1) all) e'
      one (some p) e' =
          step_passed d i (ids (wrapping_add i 1) all) p e' (omega arith)
            (wrapping_gt_behind i d.head 32 hi hd (omega arith) (omega arith))
