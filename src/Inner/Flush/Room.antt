-- ===== src/Inner/Flush/Room.antt =====
-- The room for reliable packets: what a push onto the buffer of `flush_messages` in
-- mini_udp/src/communicator/inner.rs does to the packets that it holds.
use mini_udp.Prelude.{
  ℕ, zero, suc, ◌+◌, ◌<◌, ◌≡◌, ◌≢◌, refl, ap, sym, ◌∙◌, arith, true, false, is_some, Option-cases,
  inl, inr, eq→==, ne→==, lt→ltb,
}
use mini_udp.Word.{IsU16, wrapping_add, wrapping_sub}
use mini_udp.Ring
use mini_udp.Ring.{RingBuffer}
use mini_udp.Ring.Slots.{IsRing}
use mini_udp.Ring.Window.{get-push, push_will_override_lem, get-some-in_window}
use mini_udp.Ack.{num_items}
use mini_udp.Ack.Field.{capacity}

-- The `k` newest ids all have an item.
abbrev pub FilledTo : {T : Type 0} → RingBuffer T → ℕ → Type 0
FilledTo r k = (t : ℕ) → t < k → is_some (Ring.get num_items r (wrapping_sub r.newest t)) ≡ true

pub push-FilledTo :
    {T : Type 0} (r : RingBuffer T) (x : T) (k : ℕ)
    → IsRing num_items r
    → k < 32
    → FilledTo r k
    → FilledTo (Ring.push num_items r x).0 (k + 1)
unfolding Ring.push
push-FilledTo r x k v hk h zero ht =
    let j = wrapping_sub (wrapping_add r.newest 1) 0 in
    let (id, kept, found) = get-push num_items r capacity v x j (omega arith) in
    let same : wrapping_add r.newest 1 ≡ j = omega arith in
    ap is_some found ∙ rw (eq→== (wrapping_add r.newest 1) j same)
push-FilledTo r x k v hk h (suc t) ht =
    let j = wrapping_sub (wrapping_add r.newest 1) (suc t) in
    let (id, kept, found) = get-push num_items r capacity v x j (omega arith) in
    let same : j ≡ wrapping_sub r.newest t = omega arith in
    let differs : wrapping_add r.newest 1 ≢ j = omega arith in
    let near : wrapping_sub (wrapping_add r.newest 1) j < 32 = omega arith in
    ap is_some found
    ∙ rw (ne→== (wrapping_add r.newest 1) j differs, lt→ltb _ _ near, same) (h t (omega arith))

-- A whole window of items leaves no room.
pub FilledTo-full :
    {T : Type 0} (r : RingBuffer T)
    → IsRing num_items r
    → FilledTo r 32
    → Ring.push_will_override num_items r ≡ true
FilledTo-full r v h = push_will_override_lem num_items r capacity v ∙ h 31 (omega arith)

-- A packet that the buffer holds.
abbrev pub Held : {T : Type 0} → RingBuffer T → ℕ → Type 0
Held r i = is_some (Ring.get num_items r i) ≡ true

oldest_free :
    {T : Type 0} (r : RingBuffer T) (i : ℕ)
    → IsRing num_items r
    → Ring.push_will_override num_items r ≡ false
    → Held r i
    → i ≢ wrapping_sub r.newest 31
oldest_free r i v free held e =
    let at_oldest : is_some (Ring.get num_items r (wrapping_sub r.newest 31)) ≡ true =
      ap (λ k. is_some (Ring.get num_items r k)) (sym e) ∙ held in
    cc (free, at_oldest, push_will_override_lem num_items r capacity v)

Held-in_window : {T : Type 0} (r : RingBuffer T) (i : ℕ) → Held r i → wrapping_sub r.newest i < 32
Held-in_window r i held = elim (Option-cases (Ring.get num_items r i)) [
  | inl e ↦ absurd (cc (held, ap is_some e))
  | inr (x, e) ↦ get-some-in_window num_items r i x e
]

-- A push that does not override keeps every packet.
pub push_keeps :
    {T : Type 0} (r : RingBuffer T) (x : T) (i : ℕ)
    → IsRing num_items r
    → Ring.push_will_override num_items r ≡ false
    → IsU16 i
    → Held r i
    → Ring.get num_items (Ring.push num_items r x).0 i ≡ Ring.get num_items r i
push_keeps r x i v free hi held =
    let next = wrapping_add r.newest 1 in
    let inside = Held-in_window r i held in
    let not_oldest = oldest_free r i v free held in
    let id_range = v.id_range in
    let (id, newest, found) = get-push num_items r capacity v x i hi in
    let found' = rw id at found in
    let differs : next ≢ i = omega arith in
    let near : wrapping_sub next i < 32 = omega arith in
    found' ∙ rw (ne→== next i differs, lt→ltb _ _ near) refl
