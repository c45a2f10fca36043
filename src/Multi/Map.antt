-- ===== src/Multi/Map.antt =====
-- A hash map as a list of entries: the operations of `std::collections::HashMap` that
-- mini_udp/src/communicator/multi.rs uses, with what they promise of a look-up.
pub mod Keys
use mini_udp.Prelude.{
  ℕ, ◌≡◌, refl, arith, Bool, ◌==◌, if◌then◌else◌, Option, none, some, List, [], ◌∷◌,
}

module _ {V : Type 0} where
  unfoldable pub lookup : List (ℕ × V) → ℕ → Option V
  lookup [] k = none
  lookup ((k', v) ∷ es) k = if k' == k then some v else lookup es k

  -- The value of a key set: in place, or by a new entry.
  unfoldable pub assign : List (ℕ × V) → ℕ → V → List (ℕ × V)
  assign [] k v = (k, v) ∷ []
  assign ((k', v') ∷ es) k v = if k' == k then (k, v) ∷ es else (k', v') ∷ assign es k v

  unfoldable pub delete : List (ℕ × V) → ℕ → List (ℕ × V)
  delete [] k = []
  delete ((k', v') ∷ es) k = if k' == k then delete es k else (k', v') ∷ delete es k

  -- A loop over `iter_mut()` that sets each value.
  unfoldable pub for_each_in : List (ℕ × V) → (ℕ → V → V) → List (ℕ × V)
  for_each_in [] f = []
  for_each_in ((k, v) ∷ es) f = (k, f k v) ∷ for_each_in es f

  -- `retain`, whose closure may change the values it keeps.
  unfoldable pub retain_in : List (ℕ × V) → (ℕ → V → Bool × V) → List (ℕ × V)
  retain_in [] f = []
  retain_in ((k, v) ∷ es) f =
      let (keep, v') = f k v in if keep then (k, v') ∷ retain_in es f else retain_in es f

  pub lookup-assign :
      (es : List (ℕ × V)) (k : ℕ) (v : V) (j : ℕ)
      → lookup (assign es k v) j ≡ (if k == j then some v else lookup es j)
  unfolding lookup assign
  lookup-assign [] k v j = refl
  lookup-assign ((k', v') ∷ es) k v j = ground (arith, lookup-assign es k v j)

  pub lookup-delete :
      (es : List (ℕ × V)) (k j : ℕ)
      → lookup (delete es k) j ≡ (if k == j then none else lookup es j)
  unfolding lookup delete
  lookup-delete [] k j = ground arith
  lookup-delete ((k', v') ∷ es) k j = ground (arith, lookup-delete es k j)
