-- ===== src/Ring.antt =====
-- mini_udp/src/ring_buffer.rs: the ring buffer of sent and received packets, addressed by `u16`
-- sequence ids. The const generic `NUM_ITEMS` is the section's parameter `num_items`.
pub mod Slots
pub mod Window
pub mod Insert
pub mod Iter
pub mod Retain
pub mod Refinement
use mini_udp.Prelude.{
  ℕ, zero, suc, ◌+◌, ◌-◌, ◌*◌, ◌%◌, Bool, true, false, not, ◌&&◌, ◌||◌, ltb, leb, ◌==◌,
  if◌then◌else◌, is_some, Option, none, some, List, [], ◌∷◌, foldl, get_or, set, replicate, min,
}
use mini_udp.Word.{u16_max, u16_mod, wrapping_add, wrapping_sub}
use mini_udp.Serial.{wrapping_range, wrapping_gt}

-- The items are in `Type 0`, as the program's are: the tactics split on numbers only below it.
pub record RingBuffer (T : Type 0) : Type 0 where
  pub newest : ℕ
  pub items : List (Option T)

-- An index out of range panics in the source, and reads nothing or writes nothing here. The
-- operations take theirs modulo the length.
module _ {T : Type 0} where
  abbrev pub slot : RingBuffer T → ℕ → Option T
  slot r i = get_or r.items i none

  abbrev pub set_slot : RingBuffer T → ℕ → Option T → RingBuffer T
  set_slot r i v = record r { items = set r.items i v }

-- `self.items.iter().filter(|i| i.is_some()).count()`
unfoldable pub count_some : {T : Type 0} → List (Option T) → ℕ
count_some [] = 0
count_some (none ∷ xs) = count_some xs
count_some (some x ∷ xs) = suc (count_some xs)

-- `for item in &mut self.items { item.take(); }`
unfoldable pub clear : {T : Type 0} → List (Option T) → List (Option T)
clear [] = []
clear (x ∷ xs) = none ∷ clear xs

module _ (num_items : ℕ) where
  -- The buffer that `default` builds once its assertions have passed.
  unfoldable pub fresh : {T : Type 0} → RingBuffer T
  fresh = record { newest = u16_max; items = replicate num_items none }

  -- `default`, and so `new`: `none` is a panic, by an assertion or by `% 0`.
  unfoldable pub new : {T : Type 0} → Option (RingBuffer T)
  new =
      if ltb num_items u16_max
        && (ltb 0 (num_items % u16_mod)
            && (u16_max % (num_items % u16_mod) == num_items % u16_mod - 1))
      then some fresh
      else none

module _ {T : Type 0} (num_items : ℕ) where
  unfoldable pub get : RingBuffer T → ℕ → Option T
  get r index =
      let i = wrapping_sub r.newest index in
      if ltb i num_items then slot r (index % num_items) else none

  -- `*get_mut(index) = item` on an item that is there: what a caller's write through the
  -- reference does.
  unfoldable pub set_mut : RingBuffer T → ℕ → T → RingBuffer T
  set_mut r index item = set_slot r (index % num_items) (some item)

  -- The new state and the id of the item.
  unfoldable pub push : RingBuffer T → T → RingBuffer T × ℕ
  push r item =
      let i = wrapping_add r.newest 1 in
      (record { newest = i; items = set r.items (i % num_items) (some item) }, i)

  unfoldable pub take : RingBuffer T → ℕ → RingBuffer T × Option T
  take r index =
      let i = wrapping_sub r.newest index in
      if ltb i num_items
      then (set_slot r (index % num_items) none, slot r (index % num_items))
      else (r, none)

  -- `for i in ids { self.take(i); }`
  unfoldable pub take_all : RingBuffer T → List ℕ → RingBuffer T
  take_all r [] = r
  take_all r (i ∷ is) = take_all (take r i).0 is

  -- `NUM_ITEMS as u16 * 2` does not overflow up to 32767.
  unfoldable pub insert : RingBuffer T → ℕ → T → RingBuffer T
  insert r index item =
      let prev_oldest = wrapping_sub r.newest (num_items - 1) in
      if wrapping_gt prev_oldest index (num_items * 2)
        || wrapping_gt index (wrapping_add r.newest (num_items - 1)) (num_items * 2)
      then record { newest = index; items = set (clear r.items) (index % num_items) (some item) }
      else if wrapping_gt (wrapping_add r.newest 1) index num_items
          && wrapping_gt index (wrapping_sub r.newest num_items) num_items
      then set_slot r (index % num_items) (some item)
      else let purged = take_all r (
          wrapping_range (wrapping_sub r.newest (num_items - 1))
            (wrapping_sub index (num_items - 1))) in
        record { newest = index; items = set purged.items (index % num_items) (some item) }

  unfoldable pub push_will_override : RingBuffer T → Bool
  push_will_override r = let i = wrapping_add r.newest 1 in is_some (slot r (i % num_items))

abbrev pub get_newest_index : {T : Type 0} → RingBuffer T → ℕ
get_newest_index r = r.newest

abbrev pub get_next_index : {T : Type 0} → RingBuffer T → ℕ
get_next_index r = wrapping_add r.newest 1

unfoldable pub len : {T : Type 0} → RingBuffer T → ℕ
unfolding count_some
len r = count_some r.items

unfoldable pub is_empty : {T : Type 0} → RingBuffer T → Bool
unfolding len
is_empty r = len r == 0
