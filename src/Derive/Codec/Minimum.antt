-- ===== src/Derive/Codec/Minimum.antt =====
-- The shortest length that the macro computes for an enum is one that every variant has or exceeds.
use mini_udp.Prelude.{
  ℕ, ◌+◌, ◌≤◌, ◌≡◌, refl, sym, ap, arith, leb, ◌&&◌, min, Bool, true, false, if◌then◌else◌, Option,
  none, some, List, [], ◌∷◌, inl, inr,
}
use mini_udp.Derive.Length.{as_const_min_length, known_min_length, plus}
use mini_udp.Derive.Value.{Value}
use mini_udp.Derive.Fields.{length_of}
use mini_udp.Derive.Variants.{
  Choice, const_min_max_list, all, known, unknown, minimum, usize_max, lowest_min_len, mins,
  match_len, max, maximum,
}
use mini_udp.Derive.Codec.Structs.{GoodAll, ValidAll, min_len-fields}

abbrev pub GoodVariants : List (List Value) → Type 1
GoodVariants [] = Unit {1}
GoodVariants (vs ∷ vars) = GoodAll vs × GoodVariants vars

module _ (lossy : List ℕ → List ℕ) where
  abbrev pub ValidChoice : (vars : List (List Value)) → GoodVariants vars → Choice vars → Type 0
  ValidChoice [] g m = ⊥
  ValidChoice (vs ∷ vars) g (inl ms) = ValidAll lossy vs g.0 ms
  ValidChoice (vs ∷ vars) g (inr m) = ValidChoice vars g.1 m

-- The nested `if`s and the minimum and maximum of a list.
and_leb : (x y z : ℕ) → (leb x y && leb x z) ≡ leb x (min y z)
and_leb x y z = ground arith

and_true : (b : Bool) → (b && true) ≡ b
and_true true = refl
and_true false = refl

all-minimum : (x y : ℕ) (ys : List ℕ) → all (leb x) (y ∷ ys) ≡ leb x (minimum 0 (y ∷ ys))
all-minimum x y [] = and_true (leb x y)
all-minimum x y (z ∷ ys) = rw (all-minimum x z ys) (and_leb x y (minimum 0 (z ∷ ys)))

if_leb-min : (x y : ℕ) → (if leb x y then x else y) ≡ min x y
if_leb-min x y = ground arith

const_min_max_list-minimum : (xs : List ℕ) → const_min_max_list leb xs ≡ minimum 0 xs
unfolding const_min_max_list
const_min_max_list-minimum [] = refl
const_min_max_list-minimum (x ∷ []) = refl
const_min_max_list-minimum (x ∷ y ∷ ys) =
    rw (all-minimum x y ys, const_min_max_list-minimum (y ∷ ys)) (if_leb-min x (minimum 0 (y ∷ ys)))

and_geb : (x y z : ℕ) → (leb y x && leb z x) ≡ leb (max y z) x
and_geb x y z = ground arith

all-maximum : (x : ℕ) (ys : List ℕ) → all (λ y. leb y x) ys ≡ leb (maximum ys) x
all-maximum x [] = ground arith
all-maximum x (y ∷ ys) = rw (all-maximum x ys) (and_geb x y (maximum ys))

if_geb-max : (x y : ℕ) → (if leb y x then x else y) ≡ max x y
if_geb-max x y = ground arith

max_zero : (x : ℕ) → max x 0 ≡ x
max_zero x = ground arith

const_min_max_list-maximum : (xs : List ℕ) → const_min_max_list (λ x y. leb y x) xs ≡ maximum xs
unfolding const_min_max_list
const_min_max_list-maximum [] = refl
const_min_max_list-maximum (x ∷ []) = sym (max_zero x)
const_min_max_list-maximum (x ∷ y ∷ ys) =
    rw (all-maximum x (y ∷ ys), const_min_max_list-maximum (y ∷ ys))
      (if_geb-max x (maximum (y ∷ ys)))

-- The nested tests that `const_min_max_list` generates find the minimum of the options by `<=`,
-- and their maximum by `>=`.
pub const_min_max_list_lem :
    (xs : List ℕ)
    → (const_min_max_list leb xs ≡ minimum 0 xs)
      × (const_min_max_list (λ x y. leb y x) xs ≡ maximum xs)
const_min_max_list_lem xs = (const_min_max_list-minimum xs, const_min_max_list-maximum xs)

-- The unknown part of a variant's length decides which of the two lists it is in.
data In {A : Type 0} (x : A) : List A → Type 0 where
  here : {xs : List A} → In x (x ∷ xs)
  there : {y : A} {xs : List A} → In x xs → In x (y ∷ xs)

le_trans : {a b c : ℕ} → a ≤ b → b ≤ c → a ≤ c
le_trans h k = omega arith

minimum-In : (d x : ℕ) (xs : List ℕ) → In x xs → minimum d xs ≤ x
minimum-In d x [] i = elim i [ ]
minimum-In d x (_ ∷ []) here = omega arith
minimum-In d x (_ ∷ y ∷ ys) here = omega arith
minimum-In d x (z ∷ []) (there i) = elim i [ ]
minimum-In d x (z ∷ y ∷ ys) (there i) = omega (arith, minimum-In d x (y ∷ ys) i)

known-In : (n : ℕ) (ls : List (ℕ × Option ℕ)) → In (n, none) ls → In n (known ls)
known-In n [] i = elim i [ ]
known-In n (_ ∷ ls) here = here
known-In n ((k, none) ∷ ls) (there i) = there (known-In n ls i)
known-In n ((k, some m) ∷ ls) (there i) = known-In n ls i

unknown-In : (n m : ℕ) (ls : List (ℕ × Option ℕ)) → In (n, some m) ls → In (n + m) (unknown ls)
unknown-In n m [] i = elim i [ ]
unknown-In n m (_ ∷ ls) here = here
unknown-In n m ((k, none) ∷ ls) (there i) = unknown-In n m ls i
unknown-In n m ((k, some l) ∷ ls) (there i) = there (unknown-In n m ls i)

lowest : List (ℕ × Option ℕ) → ℕ
lowest ls = minimum 0 (minimum usize_max (known ls) ∷ unknown ls)

lowest-In : (n : ℕ) (o : Option ℕ) (ls : List (ℕ × Option ℕ)) → In (n, o) ls → lowest ls ≤ plus n o
unfolding lowest
lowest-In n none ls i = omega (
  arith,
  minimum-In 0 (minimum usize_max (known ls)) (minimum usize_max (known ls) ∷ unknown ls) here,
  minimum-In usize_max n (known ls) (known-In n ls i),
)
lowest-In n (some m) ls i =
    minimum-In 0 (n + m) (minimum usize_max (known ls) ∷ unknown ls) (there (unknown-In n m ls i))

lowest_min_len-lowest :
    (ls : List (ℕ × Option ℕ)) (variant_len : ℕ)
    → lowest_min_len ls variant_len ≡ lowest ls + variant_len
unfolding lowest_min_len lowest
lowest_min_len-lowest ls variant_len =
    ap (λ n. n + variant_len)
      (const_min_max_list-minimum (minimum usize_max (known ls) ∷ unknown ls))

module _ (lossy : List ℕ → List ℕ) where
  -- A lower bound of all that are in the list is one of every variant's length.
  choice_bound :
      (vars : List (List Value)) (g : GoodVariants vars) (m : Choice vars) (low : ℕ)
      → ((n : ℕ) (o : Option ℕ) → In (n, o) (mins lossy vars) → low ≤ plus n o)
      → ValidChoice lossy vars g m
      → low ≤ match_len lossy vars m
  unfolding match_len as_const_min_length
  choice_bound [] g m low bound valid = absurd m
  choice_bound (vs ∷ vars) g (inl ms) low bound valid =
      le_trans (bound (known_min_length (length_of lossy vs)) (length_of lossy vs).unknown_min here)
        (min_len-fields lossy vs g.0 ms valid)
  choice_bound (vs ∷ vars) g (inr m) low bound valid =
      choice_bound vars g.1 m low (λ n o i. bound n o (there i)) valid

  pub min_len-choice :
      (vars : List (List Value)) (g : GoodVariants vars) (m : Choice vars) (variant_len : ℕ)
      → ValidChoice lossy vars g m
      → lowest_min_len (mins lossy vars) variant_len ≤ match_len lossy vars m + variant_len
  min_len-choice vars g m variant_len valid = omega (
    arith,
    lowest_min_len-lowest (mins lossy vars) variant_len,
    choice_bound vars g m (lowest (mins lossy vars)) (λ n o i. lowest-In n o (mins lossy vars) i)
        valid,
  )
