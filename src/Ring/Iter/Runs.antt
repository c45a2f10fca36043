-- ===== src/Ring/Iter/Runs.antt =====
-- mini_udp/src/ring_buffer.rs: what loops over the iterators run through.
use mini_udp.Prelude.{
  ℕ, zero, suc, ◌+◌, ◌-◌, ◌<◌, ◌≡◌, refl, ap, ◌∙◌, arith, Option, none, some, List, [], ◌∷◌,
  Option-cases, inl, inr, ◌⊎◌,
}
use mini_udp.Word.{IsU16, wrapping_add, wrapping_sub}
use mini_udp.Serial.{offsets, wrapping_range}
use mini_udp.Ring.{RingBuffer, get}
use mini_udp.Ring.Slots.{IsCapacity, IsRing}
use mini_udp.Ring.Iter.{
  Iter, iter, next_in, next_by, next, next_value, next_key, item_at, key_at, collect, round, keys,
}
use mathlib.Core.Option

-- The results that a list of ids has, in order.
unfoldable pub hits : {B : Type 0} → (ℕ → Option B) → List ℕ → List B
hits found [] = []
hits found (i ∷ is) = elim (found i) [ some b ↦ b ∷ hits found is | none ↦ hits found is ]

module _ {B : Type 0} (found : ℕ → Option B) (i : ℕ) (is : List ℕ) where
  pub hits-some : (b : B) → found i ≡ some b → hits found (i ∷ is) ≡ b ∷ hits found is
  unfolding hits
  hits-some b e = rw (e, hits)

  pub hits-none : found i ≡ none → hits found (i ∷ is) ≡ hits found is
  unfolding hits
  hits-none e = rw (e, hits)

-- The ids of the window, oldest first.
abbrev pub window : {T : Type 0} → ℕ → RingBuffer T → List ℕ
window n r = wrapping_range (wrapping_sub r.newest (n - 1)) (wrapping_add r.newest 1)

-- `offsets` from the first id on, by steps of one.
unfoldable pub ids : ℕ → ℕ → List ℕ
ids i zero = []
ids i (suc len) = i ∷ ids (wrapping_add i 1) len

offsets-ids : (s k len i : ℕ) → IsU16 i → wrapping_add s k ≡ i → offsets s k len ≡ ids i len
unfolding offsets ids
offsets-ids s k zero i hi e = refl
offsets-ids s k (suc len) i hi e =
    rw (e, offsets-ids s (k + 1) len (wrapping_add i 1) (omega arith) (omega arith))

pub range-ids : (i e len : ℕ) → IsU16 i → wrapping_sub e i ≡ len → wrapping_range i e ≡ ids i len
unfolding wrapping_range
range-ids i e len hi h = rw h (offsets-ids i 0 len i hi (omega arith))

-- One `next` over the last `len` ids before `end`: no hit is left, or the first hit, with the ids
-- after it still to come.
record Hit {B : Type 0} (found : ℕ → Option B) (len i end : ℕ) : Type 0 where
  value : B
  at : ℕ
  left : ℕ
  fewer : left < len
  in_range : IsU16 at
  distance : wrapping_sub end at ≡ left
  stops : next_in found (ids i len) i ≡ (some value, at)
  splits : hits found (ids i len) ≡ value ∷ hits found (ids at left)

record Done {B : Type 0} (found : ℕ → Option B) (len i : ℕ) : Type 0 where
  ends : (next_in found (ids i len) i).0 ≡ none
  empty : hits found (ids i len) ≡ []

module _ {B : Type 0} (found : ℕ → Option B) (end : ℕ) (he : IsU16 end) where
  next_in_cases :
      (len i : ℕ) → IsU16 i → wrapping_sub end i ≡ len → Done found len i ⊎ Hit found len i end
  unfolding next_in hits ids
  next_in_cases zero i hi h = inl (record { ends = refl; empty = refl })
  next_in_cases (suc len) i hi h = elim (Option-cases (found i)) [
    | inr (b, e) ↦ inr (record {
      value = b;
      at = wrapping_add i 1;
      left = len;
      fewer = omega arith;
      in_range = omega arith;
      distance = omega arith;
      stops = rw e;
      splits = rw e;
    })
    | inl e ↦ elim (next_in_cases len (wrapping_add i 1) (omega arith) (omega arith)) [
      | inl d ↦ inl (record { ends = rw e d.ends; empty = rw e d.empty })
      | inr h ↦ inr (record {
        value = h.value;
        at = h.at;
        left = h.left;
        fewer = omega arith;
        in_range = h.in_range;
        distance = h.distance;
        stops = rw e h.stops;
        splits = rw e h.splits;
      })
    ]
  ]

module _ {T B : Type 0} (n : ℕ) (found : ℕ → Option B) (step : Iter T → Option B × Iter T)
    (ring : RingBuffer T) (hr : IsU16 ring.newest)
    (steps : (i : ℕ)
      → step (record { i = i; ring = ring })
        ≡ next_by n found (record { i = i; ring = ring })) where
  unfoldable pub end : ℕ
  end = wrapping_add ring.newest 1

  step-Done :
      (len i : ℕ)
      → IsU16 i
      → wrapping_sub end i ≡ len
      → Done found len i
      → (step (record { i = i; ring = ring })).0 ≡ none
  unfolding next_by end
  step-Done len i hi h d = rw (steps i, range-ids i end len hi h) d.ends

  step-Hit :
      (len i : ℕ)
      → IsU16 i
      → wrapping_sub end i ≡ len
      → (t : Hit found len i end)
      → step (record { i = i; ring = ring }) ≡ (some t.value, record { i = t.at; ring = ring })
  unfolding next_by end
  step-Hit len i hi h t = rw (steps i, range-ids i end len hi h, t.stops)

  round_done :
      (out : Option B × Iter T) (loop : Iter T → Option (List B))
      → out.0 ≡ none
      → round n out loop ≡ some []
  unfolding round
  round_done (none, it) loop e = refl
  round_done (some b, it) loop e = cc

  pub collect-ids :
      (fuel len i : ℕ)
      → len < fuel
      → IsU16 i
      → wrapping_sub end i ≡ len
      → collect n step fuel (record { i = i; ring = ring }) ≡ some (hits found (ids i len))
  unfolding collect end
  collect-ids zero len i lt hi h = absurd (omega arith)
  collect-ids (suc fuel) len i lt hi h = elim (next_in_cases found end (omega arith) len i hi h) [
    | inl d ↦ rw d.empty (round_done _ _ (step-Done len i hi h d))
    | inr t ↦ rw t.splits (
        ap (λ out. round n out (collect n step fuel)) (step-Hit len i hi h t)
        ∙ ap (Option.map (λ bs. t.value ∷ bs))
            (collect-ids fuel t.left t.at (omega arith) t.in_range t.distance))
  ]

  collect-iter :
      IsCapacity n → collect n step (n + 1) (iter n ring) ≡ some (hits found (window n ring))
  unfolding iter end
  collect-iter c =
      let start = wrapping_sub ring.newest (n - 1) in
      rw (range-ids start end n (omega arith) (omega arith))
        (collect-ids (n + 1) n start (omega arith) (omega arith) (omega arith))

-- A loop over a well-formed buffer of capacity `n` by `iter`, `values` or `keys`, or by their
-- mutable twins, ends within `n + 1` calls of `next`. It sees what `get` finds in the window,
-- once for each id, oldest first.
pub iterators_lem :
    {T : Type 0} (n : ℕ) (r : RingBuffer T)
    → IsCapacity n
    → IsRing n r
    → (collect n (next n) (n + 1) (iter n r) ≡ some (hits (item_at n r) (window n r)))
      × (collect n (next_value n) (n + 1) (iter n r) ≡ some (hits (get n r) (window n r)))
      × (collect n (next_key n) (n + 1) (iter n r) ≡ some (hits (key_at n r) (window n r)))
unfolding next next_value next_key
iterators_lem n r c v = (
  collect-iter n (item_at n r) (next n) r v.id_range (λ i. refl) c,
  collect-iter n (get n r) (next_value n) r v.id_range (λ i. refl) c,
  collect-iter n (key_at n r) (next_key n) r v.id_range (λ i. refl) c,
)

pub keys_lem :
    {T : Type 0} (n : ℕ) (r : RingBuffer T)
    → IsCapacity n
    → IsRing n r
    → keys n r ≡ some (hits (key_at n r) (window n r))
unfolding keys
keys_lem n r c v = (iterators_lem n r c v).2
