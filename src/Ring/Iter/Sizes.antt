-- ===== src/Ring/Iter/Sizes.antt =====
-- mini_udp/src/ring_buffer.rs: `len` and `size_hint` of the iterators, against what `get` finds.
use mini_udp.Prelude.{
  ℕ, zero, suc, ◌+◌, ◌-◌, ◌%◌, ◌≤◌, ◌<◌, ◌≡◌, refl, sym, ap, ◌∙◌, arith, false, ◌||◌, ◌==◌, min,
  none, some, List, [], ◌∷◌, length, get_or, take, drop, take-append-drop, length-drop, if_cases,
  ==→eq,
}
use mini_udp.Word.{IsU16, wrapping_add, wrapping_sub}
use mini_udp.Serial.Order.{wrapping_gt_behind}
use mini_udp.Ring.{RingBuffer, get, len, count_some}
use mini_udp.Ring.Slots.{IsRing}
use mini_udp.Ring.Window.{get_in}
use mini_udp.Ring.Iter.{Iter, iter, next_value, collect, size_hint}
use mini_udp.Ring.Iter.Runs.{hits, ids, end, collect-ids}
use mini_udp.Ring.Iter.Counts.{
  hit_count, hit_count-suc, hit_count_bound, hit_count_split, count_some-append, drop-slot,
  count_some-cons, take_all,
}

module _ {T : Type 0} (r : RingBuffer T) (v : IsRing 32 r) where
  one_slot :
      (m i : ℕ)
      → i % 32 < 32
      → wrapping_sub r.newest i < 32
      → hit_count (get 32 r) (wrapping_add i 1) m
        ≡ count_some (take m (drop (suc (i % 32)) r.items))
      → hit_count (get 32 r) i (suc m) ≡ count_some (take (suc m) (drop (i % 32) r.items))
  one_slot m i room inside rest =
      let opened = drop-slot r.items (i % 32) (omega arith) in
      let here : count_some (get 32 r i ∷ []) ≡ count_some (get_or r.items (i % 32) none ∷ []) =
        ap (λ o. count_some (o ∷ [])) (get_in 32 r i inside) in
      rw opened (
        omega (
          arith,
          hit_count-suc (get 32 r) i m,
          here,
          rest,
          count_some-cons (get_or r.items (i % 32) none) (take m (drop (suc (i % 32)) r.items)),
        ))

  -- Ids of the window that do not pass the end of the array.
  slots_in_row :
      (m i : ℕ)
      → IsU16 i
      → i % 32 + m ≤ 32
      → wrapping_sub r.newest i < 32
      → m ≤ wrapping_sub r.newest i + 1
      → hit_count (get 32 r) i m ≡ count_some (take m (drop (i % 32) r.items))
  slots_in_row zero i hi room inside fits = unfold ids hits count_some in refl
  slots_in_row (suc zero) i hi room inside fits =
      one_slot 0 i (omega arith) inside (unfold ids hits count_some in refl)
  slots_in_row (suc (suc k)) i hi room inside fits =
      let newest = v.id_range in
      let next =
        slots_in_row (suc k) (wrapping_add i 1) (omega arith) (omega arith) (omega arith)
          (omega arith) in
      let at : wrapping_add i 1 % 32 ≡ suc (i % 32) = omega arith in
      one_slot (suc k) i (omega arith) inside (rw at at next)

  -- Those that come after the end of the array.
  second_row :
      (s start : ℕ)
      → s ≡ start % 32
      → start ≡ wrapping_sub r.newest 31
      → hit_count (get 32 r) (wrapping_add start (32 - s)) s ≡ count_some (take s r.items)
  second_row zero start e h = unfold ids hits count_some in refl
  second_row (suc s) start e h =
      let newest = v.id_range in
      let row =
        slots_in_row (suc s) (wrapping_add start (32 - suc s)) (omega arith) (omega arith)
          (omega arith) (omega arith) in
      let at : wrapping_add start (32 - suc s) % 32 ≡ 0 = omega arith in rw at at row

  -- `len` counts the ids of the window at which `get` finds an item.
  len-window :
      (start : ℕ) → start ≡ wrapping_sub r.newest 31 → len r ≡ hit_count (get 32 r) start 32
  unfolding len
  len-window start e =
      let newest = v.id_range in
      let s = start % 32 in
      let first_row =
        slots_in_row (32 - s) start (omega arith) (omega arith) (omega arith) (omega arith) in
      let all : take (32 - s) (drop s r.items) ≡ drop s r.items =
        take_all (drop s r.items) (32 - s) (omega (arith, length-drop s r.items, v.full_width)) in
      let parts : count_some r.items ≡ count_some (take s r.items) + count_some (drop s r.items) =
        ap count_some (sym (take-append-drop s r.items))
        ∙ count_some-append (take s r.items) (drop s r.items) in
      let whole : hit_count (get 32 r) start ((32 - s) + s) ≡ hit_count (get 32 r) start 32 =
        ap (hit_count (get 32 r) start) (omega arith) in
      omega (
        arith,
        first_row,
        ap count_some all,
        parts,
        whole,
        hit_count_split (get 32 r) (32 - s) s start (omega arith),
        second_row s start refl e,
      )

  -- The ids that an iterator has not visited.
  left_bounds :
      (i unvisited : ℕ)
      → IsU16 i
      → wrapping_sub (wrapping_add r.newest 1) i ≡ unvisited
      → unvisited ≤ 32
      → (len r ≤ hit_count (get 32 r) i unvisited + (32 - unvisited))
        × (hit_count (get 32 r) i unvisited ≤ len r)
        × (hit_count (get 32 r) i unvisited ≤ unvisited)
  left_bounds i unvisited hi e h =
      let newest = v.id_range in
      let start = wrapping_sub r.newest 31 in
      let visited = 32 - unvisited in
      let at : wrapping_add start visited ≡ i = omega arith in
      let split_there = hit_count_split (get 32 r) visited unvisited start (omega arith) in
      let split = rw at at split_there in
      let whole : hit_count (get 32 r) start (visited + unvisited) ≡ hit_count (get 32 r) start 32 =
        ap (hit_count (get 32 r) start) (omega arith) in
      let window_count = len-window start refl in
      let visited_few = hit_count_bound (get 32 r) start visited in
      let left_few = hit_count_bound (get 32 r) i unvisited in
      (omega arith, omega arith, omega arith)

  size_hint_bounds :
      (i unvisited : ℕ)
      → IsU16 i
      → wrapping_sub (wrapping_add r.newest 1) i ≡ unvisited
      → unvisited ≤ 32
      → let (lower, upper) = size_hint 32 (record { i = i; ring = r }) in
        (lower ≤ hit_count (get 32 r) i unvisited) × (hit_count (get 32 r) i unvisited ≤ upper)
  unfolding size_hint
  size_hint_bounds i unvisited hi e h =
      let newest = v.id_range in
      let (least, most, few) = left_bounds i unvisited hi e h in
      let in_window =
        wrapping_gt_behind (wrapping_sub i 1) r.newest 32 (omega arith) newest (omega arith)
          (omega arith) in
      let to_come : wrapping_add (wrapping_sub r.newest i) 1 ≡ unvisited = omega arith in
      rw (in_window, to_come)
        (if_cases
          (λ (bounds : ℕ × ℕ).
            (bounds.0 ≤ hit_count (get 32 r) i unvisited)
            × (hit_count (get 32 r) i unvisited ≤ bounds.1))
          (len r == 0 || false) (0, 0) (len r - (32 - unvisited), min unvisited (len r))
          (λ zero_len.
            let none_there = ==→eq (len r) 0 (ground (arith, zero_len)) in
            (omega arith, omega arith))
          (λ some_len. (omega arith, omega arith)))

  -- In a well-formed buffer of 32 places, `len` is the number of items that a loop over `values`
  -- from the start takes, and for an iterator with at most 32 ids still to visit the bounds of
  -- `size_hint` hold the number of items that the loop still takes.
  pub size_hint_lem :
      (i unvisited : ℕ)
      → IsU16 i
      → wrapping_sub (wrapping_add r.newest 1) i ≡ unvisited
      → unvisited ≤ 32
      → let it : Iter T = record { i = i; ring = r } in
        let (lower, upper) = size_hint 32 it in
        ((all : List T) × (collect 32 (next_value 32) 33 (iter 32 r) ≡ some all)
          × (len r ≡ length all))
        × ((left : List T) × (collect 32 (next_value 32) 33 it ≡ some left)
            × (lower ≤ length left)
            × (length left ≤ upper))
  unfolding iter next_value
  size_hint_lem i unvisited hi e h =
      let newest = v.id_range in
      let start = wrapping_sub r.newest 31 in
      let (least, most) = size_hint_bounds i unvisited hi e h in
      let collected = collect-ids 32 (get 32 r) (next_value 32) r v.id_range (λ i. refl) 33 in
      (
        (
          hits (get 32 r) (ids start 32),
          collected 32 start (omega arith) (omega arith) (unfold end in omega arith),
          len-window start refl,
        ),
        (
          hits (get 32 r) (ids i unvisited),
          collected unvisited i (omega arith) hi (unfold end in e),
          least,
          most,
        ),
      )
