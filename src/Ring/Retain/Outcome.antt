-- ===== src/Ring/Retain/Outcome.antt =====
-- mini_udp/src/ring_buffer.rs: what the buffer and the closure's state are after `retain`.
use mini_udp.Prelude.{
  ℕ, zero, suc, ◌+◌, ◌%◌, ◌≤◌, ◌≡◌, refl, ap, ◌∙◌, arith, Bool, false, ◌==◌, if◌then◌else◌, Option,
  none, some, List, [], ◌∷◌, Option-cases, inl, inr, contains, All, lt→ltb, le→ltb, eq_or_ne, eq→==,
  ne→==, length-set, lt_or_le,
}
use mini_udp.Word.{IsU16, wrapping_add, wrapping_sub}
use mini_udp.Serial.{offsets, wrapping_range}
use mini_udp.Serial.Order.{contains-offsets, wrapping_range-IsU16}
use mini_udp.Ring.{RingBuffer, set_slot, get}
use mini_udp.Ring.Slots.{IsCapacity, IsRing}
use mini_udp.Ring.Window.{get_in, get_out, get-some-in_window, get-write}
use mini_udp.Ring.Iter.Runs.{window}
use mini_udp.Ring.Retain.{retain_item, retain_at, retain_in, retain}

module _ {T S : Type 0} (f : S → ℕ → T → Bool × T × S) where
  -- What the closure leaves of the item at an id, and the state it leaves.
  abbrev pub left : S → ℕ → Option T → Option T
  left s i none = none
  left s i (some x) = let (keep, x', s') = f s i x in if keep then some x' else none

  abbrev pub visited : S → ℕ → Option T → S
  visited s i none = s
  visited s i (some x) = let (keep, x', s') = f s i x in s'

  -- The state after a list of ids, whose items `found` has.
  unfoldable pub state_after : (ℕ → Option T) → S → List ℕ → S
  state_after found s [] = s
  state_after found s (i ∷ is) = state_after found (visited s i (found i)) is

  -- What is left at the id `j` after a list of ids.
  unfoldable pub outcome : (ℕ → Option T) → S → List ℕ → ℕ → Option T
  outcome found s [] j = found j
  outcome found s (i ∷ is) j =
      let rest = outcome found (visited s i (found i)) is j in
      if i == j then left s i (found i) else rest

  state_after-Agree :
      (found found' : ℕ → Option T) (s : S) (is : List ℕ)
      → All (λ i. found i ≡ found' i) is
      → state_after found s is ≡ state_after found' s is
  unfolding state_after
  state_after-Agree found found' s [] h = refl
  state_after-Agree found found' s (i ∷ is) (e, h) =
      rw e (state_after-Agree found found' (visited s i (found' i)) is h)

  outcome-Agree :
      (found found' : ℕ → Option T) (s : S) (is : List ℕ) (j : ℕ)
      → All (λ i. found i ≡ found' i) is
      → found j ≡ found' j
      → outcome found s is j ≡ outcome found' s is j
  unfolding outcome
  outcome-Agree found found' s [] j h k = k
  outcome-Agree found found' s (i ∷ is) j (e, h) k =
      rw (e, outcome-Agree found found' (visited s i (found' i)) is j h k)

  outcome_absent :
      (found : ℕ → Option T) (s : S) (is : List ℕ) (j : ℕ)
      → contains is j ≡ false
      → outcome found s is j ≡ found j
  unfolding outcome
  outcome_absent found s [] j h = refl
  outcome_absent found s (i ∷ is) j h =
      ground (arith, outcome_absent found (visited s i (found i)) is j)

  module _ (n : ℕ) (c : IsCapacity n) where
    retain_at-eq :
        (r : RingBuffer T) (s : S) (i : ℕ) → retain_at n f r s i ≡ retain_item n f r s i (get n r i)
    unfolding retain_at
    retain_at-eq r s i = elim (lt_or_le (wrapping_sub r.newest i) n) [
      | inl w ↦ rw (lt→ltb _ _ w, get_in n r i w)
      | inr out ↦ rw (le→ltb _ _ out, get_out n r i out)
    ]

    retain_at-none :
        (r : RingBuffer T) (s : S) (i : ℕ) → get n r i ≡ none → retain_at n f r s i ≡ (r, s)
    unfolding retain_item
    retain_at-none r s i e = retain_at-eq r s i ∙ rw e

    retain_at-some :
        (r : RingBuffer T) (s : S) (i : ℕ) (x : T)
        → get n r i ≡ some x
        → retain_at n f r s i ≡ (set_slot r (i % n) (left s i (some x)), visited s i (some x))
    unfolding retain_item
    retain_at-some r s i x e = retain_at-eq r s i ∙ rw e

    -- One id.
    get-retain_at :
        (r : RingBuffer T) (s : S) (i j : ℕ)
        → IsRing n r
        → IsU16 i
        → IsU16 j
        → let (r', s') = retain_at n f r s i in
          IsRing n r'
          × (r'.newest ≡ r.newest)
          × (s' ≡ visited s i (get n r i))
          × (get n r' j ≡ (if i == j then left s i (get n r i) else get n r j))
    get-retain_at r s i j v hi hj = elim (Option-cases (get n r i)) [
      | inl e ↦ rw (retain_at-none r s i e, e) (v, refl, refl, ground (arith, e))
      | inr (x, e) ↦
          rw (retain_at-some r s i x e, e)
            (
              record {
                full_width = length-set r.items (i % n) (left s i (some x)) ∙ v.full_width;
                id_range = v.id_range;
              },
              refl,
              refl,
              get-write n r.newest r.items i j (left s i (some x)) c v.full_width v.id_range hi hj
                  (get-some-in_window n r i x e),
            )
    ]

    abbrev Distinct : List ℕ → Type 0
    Distinct [] = Unit {0}
    Distinct (i ∷ is) = (contains is i ≡ false) × Distinct is

    -- What was found at the ids still to come is found after one step.
    later_ids :
        (r : RingBuffer T) (s : S) (i : ℕ) (is : List ℕ)
        → IsRing n r
        → IsU16 i
        → All IsU16 is
        → contains is i ≡ false
        → All (λ k. get n (retain_at n f r s i).0 k ≡ get n r k) is
    later_ids r s i [] v hi hs d = tt
    later_ids r s i (k ∷ is) v hi (hk, hs) d =
        (ground (arith, get-retain_at r s i k v hi hk), later_ids r s i is v hi hs (ground (arith)))

    get-retain_in :
        (is : List ℕ) (r : RingBuffer T) (s : S) (j : ℕ)
        → IsRing n r
        → All IsU16 is
        → Distinct is
        → IsU16 j
        → let (r', s') = retain_in n f r s is in
          IsRing n r'
          × (r'.newest ≡ r.newest)
          × (s' ≡ state_after (get n r) s is)
          × (get n r' j ≡ outcome (get n r) s is j)
    unfolding retain_in
    get-retain_in [] r s j v hs d hj = unfold state_after outcome in (v, refl, refl, refl)
    get-retain_in (i ∷ is) r s j v (hi, hs) (new, d) hj =
        let s1 = (retain_at n f r s i).1 in
        let found = get n r in
        let found1 = get n (retain_at n f r s i).0 in
        let (v1, kept, visits, one) = get-retain_at r s i j v hi hj in
        let (v', kept', state, rest) =
          get-retain_in is (retain_at n f r s i).0 (retain_at n f r s i).1 j v1 hs d hj in
        let same : All (λ k. found1 k ≡ found k) is = later_ids r s i is v hi hs new in
        (
          v',
          kept' ∙ kept,
          state
              ∙ state_after-Agree found1 found s1 is same
              ∙ unfold state_after in ap (λ t. state_after found t is) visits,
          rest ∙ elim (eq_or_ne i j) [
            | inl e ↦
                outcome_absent found1 s1 is j (rw (← e) new)
                ∙ one
                ∙ unfold outcome in rw (eq→== i j e)
            | inr ne ↦
                outcome-Agree found1 found s1 is j same (one ∙ rw (ne→== i j ne))
                ∙ unfold outcome in rw (ne→== i j ne, visits)
          ],
        )

    offsets-Distinct : (s k len : ℕ) → IsU16 s → k + len ≤ 65536 → Distinct (offsets s k len)
    unfolding offsets
    offsets-Distinct s k zero hs h = tt
    offsets-Distinct s k (suc len) hs h = (
      rw (contains-offsets s (k + 1) len (wrapping_add s k) hs (omega arith) (omega arith))
          (ground arith),
      offsets-Distinct s (k + 1) len hs (omega arith),
    )

    -- On a well-formed buffer `retain` calls the closure once for each item, oldest first, each
    -- time with the state that the call before left. At every id it keeps what the closure left
    -- of the item there, and the buffer stays well-formed.
    pub get-retain :
        (r : RingBuffer T) (s : S) (j : ℕ)
        → IsRing n r
        → IsU16 j
        → let (r', s') = retain n f r s in
          IsRing n r'
          × (r'.newest ≡ r.newest)
          × (s' ≡ state_after (get n r) s (window n r))
          × (get n r' j ≡ outcome (get n r) s (window n r) j)
    unfolding retain
    get-retain r s j v hj =
        get-retain_in (window n r) r s j v (wrapping_range-IsU16 _ _)
          (unfold wrapping_range in offsets-Distinct _ 0 _ (omega arith) (omega arith)) hj
