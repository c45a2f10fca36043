-- ===== src/Ring/Iter/Counts.antt =====
-- mini_udp/src/ring_buffer.rs: how many items the ids of a row, and the places of an array, have.
use mini_udp.Prelude.{
  ℕ, zero, suc, ◌+◌, ◌≤◌, ◌<◌, ◌≡◌, refl, ap, arith, Option, none, some, List, [], ◌∷◌, ◌++◌,
  length, get_or, take, drop, Option-cases, inl, inr,
}
use mini_udp.Word.{IsU16, wrapping_add}
use mini_udp.Ring.{count_some}
use mini_udp.Ring.Iter.Runs.{hits, hits-some, hits-none, ids}

module _ {B : Type 0} (found : ℕ → Option B) where
  -- How many of some consecutive ids have an item.
  abbrev pub hit_count : ℕ → ℕ → ℕ
  hit_count i m = length (hits found (ids i m))

  pub hit_count-suc :
      (i m : ℕ) → hit_count i (suc m) ≡ count_some (found i ∷ []) + hit_count (wrapping_add i 1) m
  unfolding ids count_some
  hit_count-suc i m = elim (Option-cases (found i)) [
    | inl e ↦ rw (hits-none found i (ids (wrapping_add i 1) m) e, e) (omega arith)
    | inr (b, e) ↦ rw (hits-some found i (ids (wrapping_add i 1) m) b e, e) (omega arith)
  ]

  pub hit_count_bound : (i m : ℕ) → hit_count i m ≤ m
  unfolding ids hits
  hit_count_bound i zero = omega arith
  hit_count_bound i (suc m) = elim (Option-cases (found i)) [
    | inl e ↦ rw e (omega (arith, hit_count_bound (wrapping_add i 1) m))
    | inr (b, e) ↦ rw e (omega (arith, hit_count_bound (wrapping_add i 1) m))
  ]

  pub hit_count_split :
      (a b i : ℕ) → IsU16 i → hit_count i (a + b) ≡ hit_count i a + hit_count (wrapping_add i a) b
  unfolding ids hits
  hit_count_split zero b i h =
      let same : wrapping_add i 0 ≡ i = omega arith in
      let none_first : 0 + b ≡ b = omega arith in rw (same, none_first) (omega arith)
  hit_count_split (suc a) b i h =
      let more : suc a + b ≡ suc (a + b) = omega arith in
      let later : wrapping_add (wrapping_add i 1) a ≡ wrapping_add i (suc a) = omega arith in
      let next = hit_count_split a b (wrapping_add i 1) (omega arith) in
      let rest : hit_count (wrapping_add i 1) (a + b)
          ≡ hit_count (wrapping_add i 1) a + hit_count (wrapping_add i (suc a)) b =
        rw later at next in
      let whole : hit_count i (suc a + b) ≡ hit_count i (suc (a + b)) = ap (hit_count i) more in
      omega (arith, whole, hit_count-suc i (a + b), hit_count-suc i a, rest)

module _ {T : Type 0} where
  pub count_some-append :
      (xs ys : List (Option T)) → count_some (xs ++ ys) ≡ count_some xs + count_some ys
  unfolding count_some
  count_some-append [] ys = omega arith
  count_some-append (none ∷ xs) ys = count_some-append xs ys
  count_some-append (some x ∷ xs) ys = omega (arith, count_some-append xs ys)

  pub drop-slot :
      (xs : List (Option T)) (k : ℕ)
      → k < length xs
      → drop k xs ≡ get_or xs k none ∷ drop (suc k) xs
  drop-slot [] k h = absurd (omega arith)
  drop-slot (x ∷ xs) zero h = refl
  drop-slot (x ∷ xs) (suc k) h = drop-slot xs k (omega arith)

  pub count_some-cons :
      (o : Option T) (xs : List (Option T))
      → count_some (o ∷ xs) ≡ count_some (o ∷ []) + count_some xs
  unfolding count_some
  count_some-cons none xs = omega arith
  count_some-cons (some x) xs = omega arith

  pub take_all : (xs : List (Option T)) (m : ℕ) → length xs ≤ m → take m xs ≡ xs
  take_all [] zero h = refl
  take_all [] (suc m) h = refl
  take_all (x ∷ xs) zero h = absurd (omega arith)
  take_all (x ∷ xs) (suc m) h = ap (λ ys. x ∷ ys) (take_all xs m (omega arith))
