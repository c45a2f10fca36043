-- ===== src/Multi/Map/Keys.antt =====
-- A hash map as a list of entries: one entry for a key, and a property of all values.
use mini_udp.Prelude.{
  ℕ, ◌≡◌, ◌≢◌, refl, sym, ap, ◌∙◌, is_some, arith, Bool, ◌==◌, if_cases, if_true, if_false, Option,
  none, some, List, [], ◌∷◌, All, Bool-cases, inl, inr, eq_or_ne, eq→==, ne→==,
}
use mathlib.Core.Path.{subst}
use mini_udp.Multi.Map.{
  lookup, assign, delete, for_each_in, retain_in, lookup-assign, lookup-delete,
}

abbrev value_of : {V : Type 0} → V → Option V → V
value_of d none = d
value_of d (some v) = v

module _ {V : Type 0} where
  abbrev pub IsMap : List (ℕ × V) → Type 0
  IsMap [] = Unit {0}
  IsMap ((k, v) ∷ es) = (lookup es k ≡ none) × IsMap es

  -- A key and its value.
  abbrev pub EveryValue : (V → Type 0) → List (ℕ × V) → Type 0
  EveryValue P es = All (λ (e : ℕ × V). P e.1) es

  -- Both at once: what the operations keep.
  abbrev pub IsMapOf : (V → Type 0) → List (ℕ × V) → Type 0
  IsMapOf P es = IsMap es × EveryValue P es

  pub lookup-EveryValue :
      (P : V → Type 0) (es : List (ℕ × V)) (k : ℕ) (v : V)
      → EveryValue P es
      → lookup es k ≡ some v
      → P v
  unfolding lookup
  lookup-EveryValue P [] k v h e = ground (arith, e)
  lookup-EveryValue P ((k', v') ∷ es) k v (p, ps) e = elim (Bool-cases (k' == k)) [
    | inl same ↦ subst P (ap (value_of v') (sym (if_true (k' == k) _ _ same) ∙ e)) p
    | inr differs ↦ lookup-EveryValue P es k v ps (sym (if_false (k' == k) _ _ differs) ∙ e)
  ]

  pub assign-IsMapOf :
      (P : V → Type 0) (es : List (ℕ × V)) (k : ℕ) (v : V)
      → P v
      → IsMapOf P es
      → IsMapOf P (assign es k v)
  unfolding assign lookup
  assign-IsMapOf P [] k v p h = ((refl, tt), (p, tt))
  assign-IsMapOf P ((k', v') ∷ es) k v p ((one, keys), (q, qs)) = elim (eq_or_ne k' k) [
    | inl same ↦
        let here : lookup es k ≡ none = rw same at one in
        rw (eq→== k' k same) ((here, keys), (p, qs))
    | inr ne ↦
        let (keys', qs') = assign-IsMapOf P es k v p (keys, qs) in
        let still : lookup (assign es k v) k' ≡ none =
          lookup-assign es k v k' ∙ rw (ne→== k k' (λ e. ne (sym e))) one in
        rw (ne→== k' k ne) ((still, keys'), (q, qs'))
  ]

  pub delete-IsMapOf :
      (P : V → Type 0) (es : List (ℕ × V)) (k : ℕ) → IsMapOf P es → IsMapOf P (delete es k)
  unfolding delete
  delete-IsMapOf P [] k h = h
  delete-IsMapOf P ((k', v') ∷ es) k ((one, keys), (q, qs)) =
      let (keys', qs') = delete-IsMapOf P es k (keys, qs) in
      elim (eq_or_ne k' k) [
        | inl same ↦ rw (eq→== k' k same) (keys', qs')
        | inr ne ↦
            let still : lookup (delete es k) k' ≡ none =
              lookup-delete es k k' ∙ rw (ne→== k k' (λ e. ne (sym e))) one in
            rw (ne→== k' k ne) ((still, keys'), (q, qs'))
      ]

  lookup-for_each_in :
      (es : List (ℕ × V)) (f : ℕ → V → V) (k : ℕ)
      → lookup es k ≡ none
      → lookup (for_each_in es f) k ≡ none
  unfolding lookup for_each_in
  lookup-for_each_in [] f k e = refl
  lookup-for_each_in ((k', v') ∷ es) f k e = ground (arith, e, lookup-for_each_in es f k)

  pub for_each_in-IsMapOf :
      (P : V → Type 0) (es : List (ℕ × V)) (f : ℕ → V → V)
      → ((k : ℕ) (v : V) → P v → P (f k v))
      → IsMapOf P es
      → IsMapOf P (for_each_in es f)
  unfolding for_each_in
  for_each_in-IsMapOf P [] f keep h = h
  for_each_in-IsMapOf P ((k, v) ∷ es) f keep ((one, keys), (q, qs)) =
      let (keys', qs') = for_each_in-IsMapOf P es f keep (keys, qs) in
      ((lookup-for_each_in es f k one, keys'), (keep k v q, qs'))

  missing :
      (es : List (ℕ × V)) (k' k : ℕ) (v : V)
      → lookup ((k', v) ∷ es) k ≡ none
      → (k' ≢ k) × (lookup es k ≡ none)
  unfolding lookup
  missing es k' k v e = elim (eq_or_ne k' k) [
    | inl same ↦ absurd (
        ground (
          arith,
          ap is_some (sym (if_true (k' == k) (some v) (lookup es k) (eq→== k' k same)) ∙ e),
        ))
    | inr ne ↦ (ne, sym (if_false (k' == k) (some v) (lookup es k) (ne→== k' k ne)) ∙ e)
  ]

  -- A value replaced, and what comes after it.
  pub lookup_kept :
      (es es' : List (ℕ × V)) (k' k : ℕ) (v v' : V)
      → (lookup es k ≡ none → lookup es' k ≡ none)
      → lookup ((k', v) ∷ es) k ≡ none
      → lookup ((k', v') ∷ es') k ≡ none
  unfolding lookup
  lookup_kept es es' k' k v v' h e =
      let (ne, rest) = missing es k' k v e in
      if_false (k' == k) (some v') (lookup es' k) (ne→== k' k ne) ∙ h rest

  lookup-retain_in :
      (es : List (ℕ × V)) (f : ℕ → V → Bool × V) (k : ℕ)
      → lookup es k ≡ none
      → lookup (retain_in es f) k ≡ none
  unfolding retain_in
  lookup-retain_in [] f k e = e
  lookup-retain_in ((k', v') ∷ es) f k e =
      if_cases (λ (xs : List (ℕ × V)). lookup xs k ≡ none) (f k' v').0 _ _
        (λ h. lookup_kept es (retain_in es f) k' k v' (f k' v').1 (lookup-retain_in es f k) e)
        (λ h. lookup-retain_in es f k (missing es k' k v' e).1)

  pub retain_in-IsMapOf :
      (P : V → Type 0) (es : List (ℕ × V)) (f : ℕ → V → Bool × V)
      → ((k : ℕ) (v : V) → P v → P (f k v).1)
      → IsMapOf P es
      → IsMapOf P (retain_in es f)
  unfolding retain_in
  retain_in-IsMapOf P [] f keep h = h
  retain_in-IsMapOf P ((k, v) ∷ es) f keep ((one, keys), (q, qs)) =
      let (keys', qs') = retain_in-IsMapOf P es f keep (keys, qs) in
      if_cases (IsMapOf P) (f k v).0 _ _
        (λ e. ((lookup-retain_in es f k one, keys'), (keep k v q, qs'))) (λ e. (keys', qs'))
