-- ===== src/Ring/Refinement.antt =====
-- The buffer as a map: a sequence of calls on it answers as the same calls on a map from ids to
-- items that forgets what leaves the window.
use mini_udp.Prelude.{
  ℕ, ◌-◌, ◌≡◌, refl, ap, ◌∙◌, arith, Bool, ltb, ◌==◌, if◌then◌else◌, is_some, Option, none, some,
  List, [], ◌∷◌, All,
}
use mini_udp.Word.{IsU16, u16_max, wrapping_add, wrapping_sub}
use mini_udp.Ring.{RingBuffer, fresh, get, push, take, insert, push_will_override}
use mini_udp.Ring.Slots.{IsCapacity, IsRing}
use mini_udp.Ring.Window.{
  get-push, push-IsRing, get-take, take-IsRing, push_will_override_lem, get-fresh, fresh-IsRing,
}
use mini_udp.Ring.Insert.{newest_after, get-insert, insert-IsRing}

-- The calls, and what they return.
pub data Call (T : Type 0) : Type 0 where
  push_item : T → Call T
  insert_item : ℕ → T → Call T
  take_item get_item : ℕ → Call T
  ask_override : Call T

pub data Answer (T : Type 0) : Type 0 where
  id_given : ℕ → Answer T
  nothing_told : Answer T
  item_found : Option T → Answer T
  told : Bool → Answer T

abbrev pub IsTyped : {T : Type 0} → Call T → Type 0
IsTyped (push_item x) = Unit {0}
IsTyped (insert_item i x) = IsU16 i
IsTyped (take_item i) = IsU16 i
IsTyped (get_item i) = IsU16 i
IsTyped ask_override = Unit {0}

-- The map, and the newest id.
pub record Window (T : Type 0) : Type 0 where
  pub newest : ℕ
  pub at : ℕ → Option T

abbrev pub empty_window : {T : Type 0} → Window T
empty_window = record { newest = u16_max; at = λ j. none }

module _ {T : Type 0} (n : ℕ) where
  abbrev pub call_ring : RingBuffer T → Call T → RingBuffer T × Answer T
  call_ring r (push_item x) = let (r', i) = push n r x in (r', id_given i)
  call_ring r (insert_item i x) = (insert n r i x, nothing_told)
  call_ring r (take_item i) = let (r', out) = take n r i in (r', item_found out)
  call_ring r (get_item i) = (r, item_found (get n r i))
  call_ring r ask_override = (r, told (push_will_override n r))

  -- The item at an id, once the window ends at `newest`.
  abbrev pub stored : Window T → ℕ → ℕ → T → Window T
  stored w newest i x = record {
    newest = newest;
    at = λ j. if i == j then some x else if ltb (wrapping_sub newest j) n then w.at j else none;
  }

  abbrev pub call_window : Window T → Call T → Window T × Answer T
  call_window w (push_item x) = let i = wrapping_add w.newest 1 in (stored w i i x, id_given i)
  call_window w (insert_item i x) = (stored w (newest_after n w.newest i) i x, nothing_told)
  call_window w (take_item i) =
      (record w { at = λ j. if i == j then none else w.at j }, item_found (w.at i))
  call_window w (get_item i) = (w, item_found (w.at i))
  call_window w ask_override = (w, told (is_some (w.at (wrapping_sub w.newest (n - 1)))))

  abbrev pub run_ring : RingBuffer T → List (Call T) → RingBuffer T × List (Answer T)
  run_ring r [] = (r, [])
  run_ring r (c ∷ cs) =
      let (r', a) = call_ring r c in let (end, answers) = run_ring r' cs in (end, a ∷ answers)

  abbrev pub run_window : Window T → List (Call T) → Window T × List (Answer T)
  run_window w [] = (w, [])
  run_window w (c ∷ cs) =
      let (w', a) = call_window w c in let (end, answers) = run_window w' cs in (end, a ∷ answers)

-- The map of a buffer.
record Refines {T : Type 0} (n : ℕ) (r : RingBuffer T) (w : Window T) : Type 0 where
  same_newest : r.newest ≡ w.newest
  ring : IsRing n r
  same_items : (j : ℕ) → IsU16 j → get n r j ≡ w.at j

module _ {T : Type 0} (n : ℕ) (cap : IsCapacity n) where
  call-Refines :
      (r : RingBuffer T) (w : Window T) (c : Call T)
      → Refines n r w
      → IsTyped c
      → Refines n (call_ring n r c).0 (call_window n w c).0
        × ((call_ring n r c).1 ≡ (call_window n w c).1)
  call-Refines r w (push_item x) f typed =
      let pushed = λ (j : ℕ) (hj : IsU16 j). get-push n r cap f.ring x j hj in
      let id : (push n r x).1 ≡ wrapping_add w.newest 1 =
        (pushed 0 (omega arith)).0 ∙ ap (λ k. wrapping_add k 1) f.same_newest in
      (
        record {
          same_newest = (pushed 0 (omega arith)).1 ∙ id;
          ring = push-IsRing n r cap f.ring x;
          same_items = λ j hj. (pushed j hj).2 ∙ rw (id, f.same_items j hj) refl;
        },
        ap id_given id,
      )
  call-Refines r w (insert_item i x) f typed =
      let inserted = λ (j : ℕ) (hj : IsU16 j). get-insert n r i x cap f.ring typed j hj in
      (
        record {
          same_newest = (inserted 0 (omega arith)).0 ∙ ap (λ k. newest_after n k i) f.same_newest;
          ring = insert-IsRing n r i x cap f.ring typed;
          same_items = λ j hj. (inserted j hj).1 ∙ rw (f.same_items j hj, f.same_newest) refl;
        },
        refl,
      )
  call-Refines r w (take_item i) f typed =
      let taken = λ (j : ℕ) (hj : IsU16 j). get-take n r cap f.ring i j typed hj in
      (
        record {
          same_newest = (taken 0 (omega arith)).1 ∙ f.same_newest;
          ring = take-IsRing n r cap f.ring i;
          same_items = λ j hj. (taken j hj).2 ∙ rw (f.same_items j hj) refl;
        },
        ap item_found ((taken 0 (omega arith)).0 ∙ f.same_items i typed),
      )
  call-Refines r w (get_item i) f typed = (f, ap item_found (f.same_items i typed))
  call-Refines r w ask_override f typed = (
    f,
    ap told (
        push_will_override_lem n r cap f.ring
        ∙ rw (f.same_items (wrapping_sub r.newest (n - 1)) (omega arith), f.same_newest) refl),
  )

  run-Refines :
      (r : RingBuffer T) (w : Window T) (calls : List (Call T))
      → Refines n r w
      → All IsTyped calls
      → Refines n (run_ring n r calls).0 (run_window n w calls).0
        × ((run_ring n r calls).1 ≡ (run_window n w calls).1)
  run-Refines r w [] f typed = (f, refl)
  run-Refines r w (c ∷ cs) f typed =
      let step = call-Refines r w c f typed.0 in
      let rest = run-Refines (call_ring n r c).0 (call_window n w c).0 cs step.0 typed.1 in
      (rest.0, rw (step.1, rest.1) refl)

  fresh-Refines : Refines {T = T} n (fresh n) empty_window
  unfolding fresh
  fresh-Refines = record {
    same_newest = refl;
    ring = fresh-IsRing n;
    same_items = λ j hj. get-fresh n j;
  }

  -- On a new buffer every sequence of calls of `push`, `insert`, `take`, `get` and
  -- `push_will_override` with `u16` ids returns what it returns on a map from ids to items that
  -- forgets the ids that leave the window, and ends with the same newest id and the same item at
  -- every id.
  pub ring_refines_window :
      (calls : List (Call T)) (j : ℕ)
      → All IsTyped calls
      → IsU16 j
      → ((run_ring n (fresh n) calls).1 ≡ (run_window n empty_window calls).1)
        × ((run_ring n (fresh n) calls).0.newest ≡ (run_window n empty_window calls).0.newest)
        × (get n (run_ring n (fresh n) calls).0 j ≡ (run_window n empty_window calls).0.at j)
  ring_refines_window calls j typed hj =
      let runs = run-Refines (fresh n) empty_window calls fresh-Refines typed in
      (runs.1, runs.0.same_newest, runs.0.same_items j hj)
