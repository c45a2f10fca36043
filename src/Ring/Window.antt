-- ===== src/Ring/Window.antt =====
-- What `get` finds after each operation that keeps or moves the window by one: the buffer as a
-- map from the ids of its window.
use mini_udp.Prelude.{
  ℕ, zero, suc, ◌-◌, ◌%◌, ◌≤◌, ◌<◌, ◌≡◌, refl, sym, ap, arith, length, Option, none, some, inl, inr,
  lt_or_le, ltb, ◌==◌, if◌then◌else◌, is_some, List, [], ◌∷◌, get_or, set, length-set,
  get_or-set_self, get_or-set_ne, eq_or_ne, length-replicate, get_or-replicate, lt→ltb, le→ltb,
  eq→==, ne→==,
}
use mini_udp.Word.{IsU16, wrapping_add, wrapping_sub}
use mini_udp.Ring.{
  RingBuffer, slot, set_slot, fresh, clear, get, set_mut, push, take, push_will_override,
}
use mini_udp.Ring.Slots.{IsCapacity, IsRing, slot_injective, slot_periodic}

-- Every access of the buffer is in range.
pub slot_in_bounds :
    {T : Type 0} (n i : ℕ) {r : RingBuffer T} → IsCapacity n → IsRing n r → i % n < length r.items
slot_in_bounds n i c v = omega arith

-- A slot write, seen through another slot.
pub slot-set :
    {T : Type 0} (xs : List (Option T)) (i j : ℕ) (v : Option T)
    → i < length xs
    → get_or (set xs i v) j none ≡ (if i == j then v else get_or xs j none)
slot-set xs i j v h = elim (eq_or_ne i j) [
  | inl e ↦ rw (eq→== i j e, ← e) (get_or-set_self xs i v none h)
  | inr ne ↦ rw (ne→== i j ne) (get_or-set_ne xs i j v none ne)
]

module _ {T : Type 0} (n : ℕ) where
  pub get_in : (r : RingBuffer T) (j : ℕ) → wrapping_sub r.newest j < n → get n r j ≡ slot r (j % n)
  unfolding get
  get_in r j h = rw (lt→ltb _ _ h)

  pub get_out : (r : RingBuffer T) (j : ℕ) → n ≤ wrapping_sub r.newest j → get n r j ≡ none
  unfolding get
  get_out r j h = rw (le→ltb _ _ h)

  -- An item is found in the window only.
  pub get-some-in_window :
      (r : RingBuffer T) (i : ℕ) (x : T) → get n r i ≡ some x → wrapping_sub r.newest i < n
  get-some-in_window r i x e = elim (lt_or_le (wrapping_sub r.newest i) n) [
    | inl w ↦ w
    | inr out ↦ absurd (cc (e, get_out r i out))
  ]

  -- A write to the slot of an id of the window is a write to that id alone.
  pub get-write :
      (newest : ℕ) (xs : List (Option T)) (i j : ℕ) (v : Option T)
      → IsCapacity n
      → length xs ≡ n
      → IsU16 newest
      → IsU16 i
      → IsU16 j
      → wrapping_sub newest i < n
      → get n (record { newest = newest; items = set xs (i % n) v }) j
        ≡ (if i == j then v else get n (record { newest = newest; items = xs }) j)
  unfolding get
  get-write newest xs i j v c w hn hi hj wi =
      ground (arith, slot-set xs (i % n) (j % n) v, slot_injective n i j newest c)

  -- In both windows a slot is read under the same id.
  pub get-move :
      (newest : ℕ) (r : RingBuffer T) (j : ℕ)
      → wrapping_sub newest j < n
      → wrapping_sub r.newest j < n
      → get n (record { newest = newest; items = r.items }) j ≡ get n r j
  unfolding get
  get-move newest r j h k = rw (lt→ltb _ _ h, lt→ltb _ _ k)

  clear-none : (xs : List (Option T)) (i : ℕ) → get_or (clear xs) i none ≡ none
  unfolding clear
  clear-none [] i = refl
  clear-none (x ∷ xs) zero = refl
  clear-none (x ∷ xs) (suc i) = clear-none xs i

  pub length-clear : (xs : List (Option T)) → length (clear xs) ≡ length xs
  unfolding clear
  length-clear [] = refl
  length-clear (x ∷ xs) = ap suc (length-clear xs)

  pub get-clear :
      (newest : ℕ) (xs : List (Option T)) (j : ℕ)
      → get n (record { newest = newest; items = clear xs }) j ≡ none
  unfolding get
  get-clear newest xs j = ground (arith, clear-none xs (j % n))

  -- The ids of the empty buffer.
  pub get-fresh : (j : ℕ) → get n (fresh n {T = T}) j ≡ none
  unfolding get fresh
  get-fresh j = ground (arith, get_or-replicate {A = Option T} n (j % n) none)

  pub fresh-IsRing : IsRing n (fresh n {T = T})
  unfolding fresh
  fresh-IsRing = record { full_width = length-replicate n none; id_range = omega arith }

module _ {T : Type 0} (n : ℕ) (r : RingBuffer T) (c : IsCapacity n) (v : IsRing n r) where
  -- In a well-formed buffer `push` gives its item the id after the newest. Of the other ids it
  -- hides the one that leaves the window, and no more.
  pub get-push :
      (item : T) (j : ℕ)
      → IsU16 j
      → let (r', i) = push n r item in
        (i ≡ wrapping_add r.newest 1)
        × (r'.newest ≡ i)
        × (get n r' j
            ≡ (if i == j then some item else if ltb (wrapping_sub i j) n then get n r j else none))
  unfolding push
  get-push item j hj = (
    refl,
    refl,
    ground (
      arith,
      get-write n (wrapping_add r.newest 1) r.items (wrapping_add r.newest 1) j (some item) c
          v.full_width,
      get-move n (wrapping_add r.newest 1) r j,
      get_out n (record { newest = wrapping_add r.newest 1; items = r.items }) j,
    ),
  )

  pub push-IsRing : (item : T) → IsRing n (push n r item).0
  unfolding push
  push-IsRing item = ground (arith, v, length-set r.items (wrapping_add r.newest 1 % n) (some item))

  -- In a well-formed buffer `take` returns what `get` finds, and removes that id alone.
  pub get-take :
      (i j : ℕ)
      → IsU16 i
      → IsU16 j
      → let (r', out) = take n r i in
        (out ≡ get n r i)
        × (r'.newest ≡ r.newest)
        × (get n r' j ≡ (if i == j then none else get n r j))
  get-take i j hi hj = elim (lt_or_le (wrapping_sub r.newest i) n) [
    | inl h ↦
        let opened : take n r i ≡ (set_slot r (i % n) none, slot r (i % n)) =
          unfold take in rw (lt→ltb _ _ h) in
        rw opened (
          sym (get_in n r i h),
          refl,
          get-write n r.newest r.items i j none c v.full_width v.id_range hi hj h,
        )
    | inr h ↦
        let opened : take n r i ≡ (r, none) = unfold take in rw (le→ltb _ _ h) in
        rw opened (sym (get_out n r i h), refl, ground (arith, get_out n r j))
  ]

  pub take-IsRing : (i : ℕ) → IsRing n (take n r i).0
  unfolding take
  take-IsRing i = ground (arith, v, length-set r.items (i % n) none)

  -- A write through `get_mut` changes the item at that id alone.
  pub get-set_mut :
      (i j : ℕ) (item : T)
      → IsU16 i
      → IsU16 j
      → wrapping_sub r.newest i < n
      → get n (set_mut n r i item) j ≡ (if i == j then some item else get n r j)
  unfolding set_mut
  get-set_mut i j item hi hj h =
      get-write n r.newest r.items i j (some item) c v.full_width v.id_range hi hj h

  pub set_mut-IsRing : (i : ℕ) (item : T) → IsRing n (set_mut n r i item)
  unfolding set_mut
  set_mut-IsRing i item = ground (arith, v, length-set r.items (i % n) (some item))

  -- In a well-formed buffer `push_will_override` tells whether the oldest id of the window, the
  -- one that a push hides, still has an item.
  pub push_will_override_lem :
      push_will_override n r ≡ is_some (get n r (wrapping_sub r.newest (n - 1)))
  unfolding push_will_override
  push_will_override_lem =
      let oldest = wrapping_sub r.newest (n - 1) in
      let same : wrapping_sub (wrapping_add r.newest 1) n ≡ oldest = omega arith in
      let shared : oldest % n ≡ wrapping_add r.newest 1 % n =
        rw same at (slot_periodic n (wrapping_add r.newest 1) c (omega arith)) in
      rw (get_in n r oldest (omega arith), shared)
