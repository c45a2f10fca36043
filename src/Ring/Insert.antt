-- ===== src/Ring/Insert.antt =====
-- `insert`: an id in the window, an id less than a buffer ahead of it, and any other.
use mini_udp.Prelude.{
  ℕ, ◌-◌, ◌*◌, ◌%◌, ◌≤◌, ◌<◌, ◌≡◌, ◌≢◌, refl, sym, ◌∙◌, arith, Option, none, some, Bool, true,
  false, inl, inr, lt_or_le, ltb, ◌==◌, if◌then◌else◌, List, [], ◌∷◌, set, length-set, contains,
  All, ◌&&◌, ◌||◌, lt→ltb, le→ltb,
}
use mini_udp.Word.{IsU16, wrapping_add, wrapping_sub}
use mini_udp.Serial.{wrapping_range, wrapping_gt}
use mini_udp.Serial.Order.{contains-wrapping_range, wrapping_range-IsU16}
use mini_udp.Ring.{RingBuffer, slot, set_slot, clear, get, take, take_all, insert}
use mini_udp.Ring.Slots.{IsCapacity, IsRing, slot_periodic}
use mini_udp.Ring.Window.{
  get_in, get_out, get-write, get-clear, length-clear, get-take, take-IsRing,
}

-- The tests of `insert`, by how far the id is from the newest.
module _ (n : ℕ) (c : IsCapacity n) (newest i : ℕ) (hn : IsU16 newest) (hi : IsU16 i) where
  abbrev is_far : Bool
  is_far =
      wrapping_gt (wrapping_sub newest (n - 1)) i (n * 2)
      || wrapping_gt i (wrapping_add newest (n - 1)) (n * 2)

  abbrev is_inside : Bool
  is_inside = wrapping_gt (wrapping_add newest 1) i n && wrapping_gt i (wrapping_sub newest n) n

  far_lem : n ≤ wrapping_sub newest i → n ≤ wrapping_sub i newest → is_far ≡ true
  unfolding wrapping_gt
  far_lem h k = ground arith

  near_lem : wrapping_sub newest i < n → (is_far ≡ false) × (is_inside ≡ true)
  unfolding wrapping_gt
  near_lem h = ground arith

  ahead_lem : wrapping_sub i newest < n → i ≢ newest → (is_far ≡ false) × (is_inside ≡ false)
  unfolding wrapping_gt
  ahead_lem h = ground arith

module _ {T : Type 0} (n : ℕ) (c : IsCapacity n) where
  -- Taking a list of ids removes those ids alone.
  get-take_all :
      (is : List ℕ) (r : RingBuffer T) (j : ℕ)
      → IsRing n r
      → All IsU16 is
      → IsU16 j
      → let r' = take_all n r is in
        IsRing n r'
        × (r'.newest ≡ r.newest)
        × (get n r' j ≡ (if contains is j then none else get n r j))
  unfolding take_all
  get-take_all [] r j v hs hj = (v, refl, refl)
  get-take_all (i ∷ is) r j v (hi, hs) hj =
      let (out, kept, found) = get-take n r c v i j hi hj in
      let (v', kept', found') = get-take_all is (take n r i).0 j (take-IsRing n r c v i) hs hj in
      (v', kept' ∙ kept, rw (found', found) (join (i == j) (contains is j) (get n r j)))
    where
      join :
          (a b : Bool) (o : Option T)
          → (if b then none else if a then none else o) ≡ (if a || b then none else o)
      join true true o = refl
      join true false o = refl
      join false true o = refl
      join false false o = refl

-- The newest id after an insertion: the inserted one, unless it lies in the window.
abbrev pub newest_after : ℕ → ℕ → ℕ → ℕ
newest_after n newest i = if ltb (wrapping_sub newest i) n then newest else i

module _ {T : Type 0} (n : ℕ) (r : RingBuffer T) (i : ℕ) (item : T) (c : IsCapacity n)
    (v : IsRing n r) (hi : IsU16 i) where
  purged : RingBuffer T
  purged = take_all n r (wrapping_range (wrapping_sub r.newest (n - 1)) (wrapping_sub i (n - 1)))

  insert_near : wrapping_sub r.newest i < n → insert n r i item ≡ set_slot r (i % n) (some item)
  unfolding insert
  insert_near h = let (far, inside) = near_lem n c r.newest i v.id_range hi h in rw (far, inside)

  insert_ahead :
      wrapping_sub i r.newest < n
      → i ≢ r.newest
      → insert n r i item ≡ record { newest = i; items = set purged.items (i % n) (some item) }
  unfolding insert purged
  insert_ahead h ne =
      let (far, inside) = ahead_lem n c r.newest i v.id_range hi h ne in rw (far, inside)

  insert_far :
      n ≤ wrapping_sub r.newest i
      → n ≤ wrapping_sub i r.newest
      → insert n r i item ≡ record { newest = i; items = set (clear r.items) (i % n) (some item) }
  unfolding insert
  insert_far h k = rw (far_lem n c r.newest i v.id_range hi h k)

  -- The purge removes the ids that leave the window.
  purged_lem :
      (j : ℕ)
      → wrapping_sub i r.newest < n
      → IsU16 j
      → IsRing n purged
        × (purged.newest ≡ r.newest)
        × (get n purged j ≡ (
            if ltb (wrapping_sub j (wrapping_sub r.newest (n - 1))) (wrapping_sub i r.newest)
            then none
            else get n r j))
  unfolding purged
  purged_lem j h hj =
      let start = wrapping_sub r.newest (n - 1) in
      let end = wrapping_sub i (n - 1) in
      let (v', kept, found) =
        get-take_all n c (wrapping_range start end) r j v (wrapping_range-IsU16 start end) hj in
      let gap : wrapping_sub end start ≡ wrapping_sub i r.newest = omega arith in
      (
        v',
        kept,
        rw (contains-wrapping_range start end j (omega arith) (omega arith) hj, gap) at found,
      )

  -- In the new window the purged slots hold what `r` has there.
  ahead_slots :
      (j : ℕ)
      → wrapping_sub i r.newest < n
      → i ≢ r.newest
      → IsU16 j
      → i ≢ j
      → wrapping_sub i j < n
      → slot purged (j % n) ≡ get n r j
  ahead_slots j h ne hj ij w = elim (lt_or_le (wrapping_sub r.newest j) n) [
    | inl old ↦
        let (v', kept, found) = purged_lem j h hj in
        let stays : wrapping_sub i r.newest ≤ wrapping_sub j (wrapping_sub r.newest (n - 1)) =
          omega arith in
        sym (get_in n purged j (rw kept old)) ∙ found ∙ rw (le→ltb _ _ stays)
    | inr out ↦
        let k = wrapping_sub j n in
        let (v', kept, found) = purged_lem k h (omega arith) in
        let in_reach : wrapping_sub r.newest k < n = omega arith in
        let leaves : wrapping_sub k (wrapping_sub r.newest (n - 1)) < wrapping_sub i r.newest =
          omega arith in
        rw (← slot_periodic n j c hj) (sym (get_in n purged k (rw kept in_reach)))
        ∙ found
        ∙ rw (lt→ltb _ _ leaves) (sym (get_out n r j out))
  ]

  -- In a well-formed buffer `insert` stores its item under its id. The window moves, to end at
  -- the id, just if the id is outside of it, and every other item that both windows hold is kept.
  pub get-insert :
      (j : ℕ)
      → IsU16 j
      → let newest = newest_after n r.newest i in
        ((insert n r i item).newest ≡ newest)
        × (get n (insert n r i item) j ≡ (
            if i == j
            then some item
            else if ltb (wrapping_sub newest j) n
            then get n r j
            else none))
  get-insert j hj = elim (lt_or_le (wrapping_sub r.newest i) n) [
    | inl inside ↦
        rw (insert_near inside, lt→ltb _ _ inside)
          (
            refl,
            ground (
              arith,
              get-write n r.newest r.items i j (some item) c v.full_width v.id_range hi hj inside,
              get_out n r j,
            ),
          )
    | inr outside ↦ elim (lt_or_le (wrapping_sub i r.newest) n) [
      | inl ahead ↦
          let differs : i ≢ r.newest = omega arith in
          let moved : RingBuffer T = record { newest = i; items = purged.items } in
          rw (insert_ahead ahead differs, le→ltb _ _ outside)
            (
              refl,
              ground (
                arith,
                get-write n i purged.items i j (some item) c (purged_lem j ahead hj).0.full_width hi
                    hi hj,
                get_in n moved j,
                get_out n moved j,
                ahead_slots j ahead differs hj,
              ),
            )
      | inr far ↦
          rw (insert_far outside far, le→ltb _ _ outside)
            (
              refl,
              ground (
                arith,
                get-write n i (clear r.items) i j (some item) c
                    (length-clear n r.items ∙ v.full_width) hi hi hj,
                get_out n r j,
                get-clear n i r.items j,
              ),
            )
    ]
  ]

  -- `insert` keeps a well-formed buffer well-formed, wherever the id lies.
  pub insert-IsRing : IsRing n (insert n r i item)
  insert-IsRing = elim (lt_or_le (wrapping_sub r.newest i) n) [
    | inl inside ↦ rw (insert_near inside) (record {
      full_width = length-set r.items (i % n) (some item) ∙ v.full_width;
      id_range = v.id_range;
    })
    | inr outside ↦ elim (lt_or_le (wrapping_sub i r.newest) n) [
      | inl ahead ↦ rw (insert_ahead ahead (omega arith)) (record {
        full_width =
            length-set purged.items (i % n) (some item) ∙ (purged_lem i ahead hi).0.full_width;
        id_range = hi;
      })
      | inr far ↦ rw (insert_far outside far) (record {
        full_width =
            length-set (clear r.items) (i % n) (some item) ∙ length-clear n r.items ∙ v.full_width;
        id_range = hi;
      })
    ]
  ]
