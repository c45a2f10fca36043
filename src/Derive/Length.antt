-- ===== src/Derive/Length.antt =====
-- derive/src/data.rs: `ByteLen`, the length of a field in parts. Tokens that may be empty are
-- `Option`s, and the code of the length itself depends on the field's value.
use mini_udp.Prelude.{ℕ, ◌+◌, Bool, ◌&&◌, not, is_some, Option, none, some}

pub record ByteLen (M : Type 0) : Type 0 where
  pub fixed_bytes : ℕ
  pub min_length : ℕ
  pub max_length : ℕ
  pub unknown_min : Option ℕ
  pub unknown_max : Option ℕ
  pub unknown_length : Option (M → ℕ)

module _ {M : Type 0} where
  unfoldable pub fully_static : ℕ → ByteLen M
  fully_static length = record {
    fixed_bytes = length;
    min_length = 0;
    max_length = 0;
    unknown_min = none;
    unknown_max = none;
    unknown_length = none;
  }

  unfoldable pub fully_unknown : ℕ → ℕ → (M → ℕ) → ByteLen M
  fully_unknown unknown_min unknown_max unknown_length = record {
    fixed_bytes = 0;
    min_length = 0;
    max_length = 0;
    unknown_min = some unknown_min;
    unknown_max = some unknown_max;
    unknown_length = some unknown_length;
  }

  unfoldable pub known_fixed_unknown_length : ℕ → ℕ → (M → ℕ) → ByteLen M
  known_fixed_unknown_length fixed_bytes unknown_max unknown_length = record {
    fixed_bytes = fixed_bytes;
    min_length = 0;
    max_length = 0;
    unknown_min = none;
    unknown_max = some unknown_max;
    unknown_length = some unknown_length;
  }

  unfoldable pub is_static : ByteLen M → Bool
  is_static l =
      not (is_some l.unknown_min) && not (is_some l.unknown_max) && not (is_some l.unknown_length)

  unfoldable pub known_min_length : ByteLen M → ℕ
  known_min_length l = l.fixed_bytes + l.min_length

  unfoldable pub known_max_length : ByteLen M → ℕ
  known_max_length l = l.fixed_bytes + l.max_length

-- Tokens in a sum: those that are empty are left out.
abbrev pub plus : ℕ → Option ℕ → ℕ
plus n none = n
plus n (some m) = n + m

abbrev pub plus_opt : Option ℕ → Option ℕ → Option ℕ
plus_opt none b = b
plus_opt (some a) none = some a
plus_opt (some a) (some b) = some (a + b)

module _ {M : Type 0} where
  unfoldable pub as_const_min_length : ByteLen M → ℕ
  unfolding known_min_length
  as_const_min_length l = plus (known_min_length l) l.unknown_min

  unfoldable pub as_const_max_length : ByteLen M → ℕ
  unfolding known_max_length
  as_const_max_length l = plus (known_max_length l) l.unknown_max

  -- Without code for the length its known parts are equal, or an assertion of the macro fails.
  unfoldable pub as_length : ByteLen M → M → ℕ
  unfolding known_min_length
  as_length l m = elim l.unknown_length [
    | some unknown ↦ l.fixed_bytes + unknown m
    | none ↦ plus (plus (known_min_length l) l.unknown_min) l.unknown_max
  ]

-- The sum of the code of two lengths, each at its own field.
abbrev pub plus_length : {A B : Type 0} → Option (A → ℕ) → Option (B → ℕ) → Option (A × B → ℕ)
plus_length none none = none
plus_length (some f) none = some (λ m. f m.0)
plus_length none (some g) = some (λ m. g m.1)
plus_length (some f) (some g) = some (λ m. f m.0 + g m.1)

-- `Add`, of the lengths of a field and of those after it.
unfoldable pub add : {A B : Type 0} → ByteLen A → ByteLen B → ByteLen (A × B)
add a b = record {
  fixed_bytes = a.fixed_bytes + b.fixed_bytes;
  min_length = a.min_length + b.min_length;
  max_length = a.max_length + b.max_length;
  unknown_min = plus_opt a.unknown_min b.unknown_min;
  unknown_max = plus_opt a.unknown_max b.unknown_max;
  unknown_length = plus_length a.unknown_length b.unknown_length;
}
