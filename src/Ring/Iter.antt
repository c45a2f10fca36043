-- ===== src/Ring/Iter.antt =====
-- mini_udp/src/ring_buffer.rs: the iterators `Iter`, `IterMut`, `IterValues`, `IterValuesMut` and
-- `IterKeys`. A shared reference to the buffer is the buffer itself.
pub mod Runs
pub mod Counts
pub mod Sizes
use mini_udp.Prelude.{
  ℕ, zero, suc, ◌+◌, ◌-◌, min, Bool, true, false, ◌||◌, ltb, ◌==◌, if◌then◌else◌, Option, none,
  some, List, [], ◌∷◌,
}
use mini_udp.Word.{wrapping_add, wrapping_sub}
use mini_udp.Serial.{wrapping_range, wrapping_gt}
use mini_udp.Ring.{RingBuffer, get, len}
use mathlib.Core.Option

pub record Iter (T : Type 0) : Type 0 where
  pub i : ℕ
  pub ring : RingBuffer T

-- The loop of every `next`: the ids are those of `wrapping_range(self.i, self.ring.newest + 1)`,
-- `at` is `self.i`, and `found` is what the body returns at an id.
unfoldable pub next_in : {B : Type 0} → (ℕ → Option B) → List ℕ → ℕ → Option B × ℕ
next_in found [] at = (none, at)
next_in found (i ∷ is) at =
    let rest = next_in found is (wrapping_add at 1) in
    elim (found i) [ some b ↦ (some b, wrapping_add at 1) | none ↦ rest ]

module _ {T : Type 0} (num_items : ℕ) where
  -- `iter`, `iter_mut`, `values`, `values_mut` and `keys` all start at the oldest id.
  unfoldable pub iter : RingBuffer T → Iter T
  iter ring = record { i = wrapping_sub ring.newest (num_items - 1); ring = ring }

  unfoldable pub next_by : {B : Type 0} → (ℕ → Option B) → Iter T → Option B × Iter T
  unfolding next_in
  next_by found it =
      let (out, i) = next_in found (wrapping_range it.i (wrapping_add it.ring.newest 1)) it.i in
      (out, record it { i = i })

  -- `Iter::next` and `IterMut::next`
  abbrev pub item_at : RingBuffer T → ℕ → Option (ℕ × T)
  item_at ring i = Option.map (λ x. (i, x)) (get num_items ring i)

  unfoldable pub next : Iter T → Option (ℕ × T) × Iter T
  unfolding next_by
  next it = next_by (item_at it.ring) it

  -- `IterValues::next` and `IterValuesMut::next`
  unfoldable pub next_value : Iter T → Option T × Iter T
  unfolding next_by
  next_value it = next_by (get num_items it.ring) it

  -- `IterKeys::next`
  abbrev pub key_at : RingBuffer T → ℕ → Option ℕ
  key_at ring i = elim (get num_items ring i) [ some x ↦ some i | none ↦ none ]

  unfoldable pub next_key : Iter T → Option ℕ × Iter T
  unfolding next_by
  next_key it = next_by (key_at it.ring) it

  -- `size_hint` of every iterator: the bounds below and above.
  unfoldable pub size_hint : Iter T → ℕ × ℕ
  size_hint it =
      let len = len it.ring in
      if len == 0 || wrapping_gt (wrapping_sub it.i 1) it.ring.newest num_items
      then (0, 0)
      else let unvisited = wrapping_add (wrapping_sub it.ring.newest it.i) 1 in
        (len - (num_items - unvisited), min unvisited len)

  -- One round of a `for` loop: stop at `None`, or go on with the rest of the loop.
  unfoldable pub round :
      {B : Type 0} → Option B × Iter T → (Iter T → Option (List B)) → Option (List B)
  round (none, it) loop = some []
  round (some b, it) loop = Option.map (λ bs. b ∷ bs) (loop it)

  -- A `for` loop takes items until `next` returns `None`; the fuel bounds the number of calls.
  unfoldable pub collect :
      {B : Type 0} → (Iter T → Option B × Iter T) → ℕ → Iter T → Option (List B)
  unfolding round
  collect step zero it = none
  collect step (suc fuel) it = round (step it) (collect step fuel)

-- The ids of `keys()` in order, as the loops of the program run through them.
unfoldable pub keys : {T : Type 0} → ℕ → RingBuffer T → Option (List ℕ)
unfolding collect next_key iter
keys num_items ring = collect num_items (next_key num_items) (num_items + 1) (iter num_items ring)
