-- ===== src/Derive/Static.antt =====
-- derive/src/lib.rs: the structs for which the macro implements `StaticByteRepr`.
use mini_udp.Prelude.{
  ℕ, ◌≡◌, refl, sym, ap, ◌∙◌, arith, true, false, not, ◌&&◌, is_some, Option, none, some, List,
}
use mini_udp.Derive.Length.{
  ByteLen, is_static, as_const_min_length, as_const_max_length, as_length, known_min_length,
  known_max_length,
}
use mini_udp.Derive.Value.{Value}
use mini_udp.Derive.Fields.{Els, length_of, impl_for_struct, static_byte_len}
use mini_udp.Derive.Codec.{IsTidy, at_value}
use mini_udp.Derive.Codec.Lengths.{as_length-IsTidy}
use mini_udp.Derive.Codec.Structs.{GoodAll, length_of-IsTidy}

false≢true : {A : Type 0} → false ≡ true → A
false≢true e = ground (arith, e)

all_none :
    {A : Type 0} (a b : Option ℕ) (f : Option A)
    → (not (is_some a) && not (is_some b) && not (is_some f)) ≡ true
    → (a ≡ none) × (b ≡ none) × (f ≡ none)
all_none none none none e = (refl, refl, refl)
all_none none none (some f) e = false≢true e
all_none none (some b) f e = false≢true e
all_none (some a) b f e = false≢true e

module _ {M : Type 0} (l : ByteLen M) (tidy : IsTidy l) (static : is_static l ≡ true) where
  parts : (l.unknown_min ≡ none) × (l.unknown_max ≡ none) × (l.unknown_length ≡ none)
  unfolding is_static
  parts = all_none l.unknown_min l.unknown_max l.unknown_length static

  as_length-static : (m : M) → as_length l m ≡ l.fixed_bytes
  as_length-static m =
      let none_at : at_value l.unknown_length m ≡ 0 = ap (λ o. at_value o m) parts.2 in
      as_length-IsTidy l m tidy ∙ omega (arith, none_at)

  as_const_min_length-static : as_const_min_length l ≡ l.fixed_bytes
  unfolding as_const_min_length known_min_length
  as_const_min_length-static = rw (parts.0, tidy.no_min) (omega arith)

  as_const_max_length-static : as_const_max_length l ≡ l.fixed_bytes
  unfolding as_const_max_length known_max_length
  as_const_max_length-static = rw (parts.1, tidy.no_max) (omega arith)

module _ (lossy : List ℕ → List ℕ) where
  -- A struct of fields of every kind but `Cow`, directly or in an option, for which the macro
  -- implements `StaticByteRepr`: `BYTE_LEN`, `MIN_BYTE_LEN` and `MAX_BYTE_LEN` are `byte_len` of
  -- every value.
  pub static_struct :
      (vs : List Value) (g : GoodAll vs) (ms : Els vs)
      → is_static (length_of lossy vs) ≡ true
      → let repr = impl_for_struct lossy vs in
        (static_byte_len lossy vs ≡ some (repr.byte_len ms))
        × (repr.min_byte_len ≡ repr.byte_len ms)
        × (repr.max_byte_len ≡ repr.byte_len ms)
  unfolding impl_for_struct static_byte_len
  static_struct vs g ms static =
      let l = length_of lossy vs in
      let tidy = length_of-IsTidy lossy vs g in
      let whole = as_length-static l tidy static ms in
      let least = as_const_min_length-static l tidy static in
      let most = as_const_max_length-static l tidy static in
      (rw (static, whole, most) refl, least ∙ sym whole, most ∙ sym whole)
