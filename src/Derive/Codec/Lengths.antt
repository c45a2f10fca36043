-- ===== src/Derive/Codec/Lengths.antt =====
-- Lengths whose parts agree, and their sums.
use mini_udp.Prelude.{ℕ, ◌+◌, ◌≡◌, ◌≢◌, refl, ap, ◌∙◌, arith, Option, none, some}
use mini_udp.Derive.Length.{
  ByteLen, fully_static, fully_unknown, known_fixed_unknown_length, known_min_length, plus,
  plus_opt, as_const_min_length, as_length, plus_length, add,
}
use mini_udp.Derive.Codec.{or_zero, at_value, variable_length, IsTidy}

some_ne_none : {A : Type 0} (a : A) → some a ≢ none
some_ne_none a e = omega (arith, ap {B = ℕ} (λ o. elim o [ none ↦ 0 | some x ↦ 1 ]) e)

pub fully_static-IsTidy : {M : Type 0} (n : ℕ) → IsTidy (fully_static {M = M} n)
unfolding fully_static
fully_static-IsTidy n = record {
  no_min = refl;
  no_max = refl;
  static_min = λ e. refl;
  static_max = λ e. refl;
}

pub fully_unknown-IsTidy : {M : Type 0} (n k : ℕ) (f : M → ℕ) → IsTidy (fully_unknown n k f)
unfolding fully_unknown
fully_unknown-IsTidy n k f = record {
  no_min = refl;
  no_max = refl;
  static_min = λ e. absurd (some_ne_none f e);
  static_max = λ e. absurd (some_ne_none f e);
}

pub known_fixed-IsTidy :
    {M : Type 0} (n k : ℕ) (f : M → ℕ) → IsTidy (known_fixed_unknown_length n k f)
unfolding known_fixed_unknown_length
known_fixed-IsTidy n k f = record {
  no_min = refl;
  no_max = refl;
  static_min = λ e. refl;
  static_max = λ e. absurd (some_ne_none f e);
}

length_cases :
    {M : Type 0} (fixed min : ℕ) (umin umax : Option ℕ) (ulen : Option (M → ℕ)) (m : M)
    → min ≡ 0
    → (ulen ≡ none → umin ≡ none)
    → (ulen ≡ none → umax ≡ none)
    → (elim ulen [ some unknown ↦ fixed + unknown m | none ↦ plus (plus (fixed + min) umin) umax ])
      ≡ fixed + at_value ulen m
length_cases fixed min umin umax (some f) m e s t = refl
length_cases fixed min umin umax none m e s t = rw (s refl, t refl, e) (omega arith)

pub as_length-IsTidy :
    {M : Type 0} (l : ByteLen M) (m : M)
    → IsTidy l
    → as_length l m ≡ l.fixed_bytes + variable_length l m
unfolding as_length known_min_length
as_length-IsTidy l m t =
    length_cases l.fixed_bytes l.min_length l.unknown_min l.unknown_max l.unknown_length m t.no_min
      t.static_min t.static_max

plus-or_zero : (n : ℕ) (o : Option ℕ) → plus n o ≡ n + or_zero o
plus-or_zero n none = omega arith
plus-or_zero n (some m) = refl

pub as_const_min_length-IsTidy :
    {M : Type 0} (l : ByteLen M)
    → IsTidy l
    → as_const_min_length l ≡ l.fixed_bytes + or_zero l.unknown_min
unfolding as_const_min_length known_min_length
as_const_min_length-IsTidy l t =
    plus-or_zero (l.fixed_bytes + l.min_length) l.unknown_min ∙ rw t.no_min (omega arith)

or_zero-plus_opt : (a b : Option ℕ) → or_zero (plus_opt a b) ≡ or_zero a + or_zero b
or_zero-plus_opt none b = omega arith
or_zero-plus_opt (some a) none = omega arith
or_zero-plus_opt (some a) (some b) = refl

at_value-plus_length :
    {A B : Type 0} (f : Option (A → ℕ)) (g : Option (B → ℕ)) (a : A) (b : B)
    → at_value (plus_length f g) (a, b) ≡ at_value f a + at_value g b
at_value-plus_length none none a b = refl
at_value-plus_length (some f) none a b = omega arith
at_value-plus_length none (some g) a b = omega arith
at_value-plus_length (some f) (some g) a b = refl

module _ {A B : Type 0} (a : ByteLen A) (b : ByteLen B) where
  pub fixed_bytes-add : (add a b).fixed_bytes ≡ a.fixed_bytes + b.fixed_bytes
  unfolding add
  fixed_bytes-add = refl

  pub variable_length-add :
      (x : A) (y : B) → variable_length (add a b) (x, y) ≡ variable_length a x + variable_length b y
  unfolding add
  variable_length-add x y = at_value-plus_length a.unknown_length b.unknown_length x y

  pub unknown_min-add :
      or_zero (add a b).unknown_min ≡ or_zero a.unknown_min + or_zero b.unknown_min
  unfolding add
  unknown_min-add = or_zero-plus_opt a.unknown_min b.unknown_min

none_first :
    {A B : Type 0} (f : Option (A → ℕ)) (g : Option (B → ℕ)) → plus_length f g ≡ none → f ≡ none
none_first none g e = refl
none_first (some f) none e = absurd (some_ne_none _ e)
none_first (some f) (some g) e = absurd (some_ne_none _ e)

none_second :
    {A B : Type 0} (f : Option (A → ℕ)) (g : Option (B → ℕ)) → plus_length f g ≡ none → g ≡ none
none_second f none e = refl
none_second none (some g) e = absurd (some_ne_none _ e)
none_second (some f) (some g) e = absurd (some_ne_none _ e)

plus_opt-none : (a b : Option ℕ) → a ≡ none → b ≡ none → plus_opt a b ≡ none
plus_opt-none a b e f = rw (e, f) refl

pub add-IsTidy :
    {A B : Type 0} (a : ByteLen A) (b : ByteLen B) → IsTidy a → IsTidy b → IsTidy (add a b)
unfolding add
add-IsTidy a b s t = record {
  no_min = rw (s.no_min, t.no_min) refl;
  no_max = rw (s.no_max, t.no_max) refl;
  static_min = λ e.
      plus_opt-none a.unknown_min b.unknown_min
        (s.static_min (none_first a.unknown_length b.unknown_length e))
        (t.static_min (none_second a.unknown_length b.unknown_length e));
  static_max = λ e.
      plus_opt-none a.unknown_max b.unknown_max
        (s.static_max (none_first a.unknown_length b.unknown_length e))
        (t.static_max (none_second a.unknown_length b.unknown_length e));
}
