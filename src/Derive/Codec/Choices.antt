-- ===== src/Derive/Codec/Choices.antt =====
-- The variants of an enum: their ids, and the code of the fields of the chosen one.
use mini_udp.Prelude.{
  ℕ, suc, ◌+◌, ◌≤◌, ◌<◌, ◌≡◌, refl, arith, ◌==◌, true, false, List, [], ◌∷◌, length, inl, inr,
}
use mini_udp.ByteRepr.{ok}
use mini_udp.Derive.Bytes.{patch}
use mini_udp.Derive.Value.{Value}
use mini_udp.Derive.Variants.{Choice, match_len, match_write, match_read}
use mini_udp.Derive.Patch.{At}
use mini_udp.Derive.Codec.Structs.{fields_code, fields_code_len, write_fields_lem, read_fields_lem}
use mini_udp.Derive.Codec.Minimum.{GoodVariants, ValidChoice}

unfoldable pub id_of : (vars : List (List Value)) → Choice vars → ℕ
id_of [] m = absurd m
id_of (vs ∷ vars) (inl ms) = 0
id_of (vs ∷ vars) (inr m) = suc (id_of vars m)

pub id_of-length : (vars : List (List Value)) (m : Choice vars) → id_of vars m < length vars
unfolding id_of
id_of-length [] m = absurd m
id_of-length (vs ∷ vars) (inl ms) = omega arith
id_of-length (vs ∷ vars) (inr m) = omega (arith, id_of-length vars m)

later_id : (id n : ℕ) → (id + suc n == id) ≡ false
later_id id n = ground arith

same_id : (id : ℕ) → (id + 0 == id) ≡ true
same_id id = ground arith

module _ (lossy : List ℕ → List ℕ) where
  unfoldable pub choice_code : (vars : List (List Value)) → GoodVariants vars → Choice vars → List ℕ
  choice_code [] g m = absurd m
  choice_code (vs ∷ vars) g (inl ms) = fields_code lossy vs g.0 ms
  choice_code (vs ∷ vars) g (inr m) = choice_code vars g.1 m

  pub match_len_lem :
      (vars : List (List Value)) (g : GoodVariants vars) (m : Choice vars)
      → ValidChoice lossy vars g m
      → length (choice_code vars g m) ≡ match_len lossy vars m
  unfolding choice_code match_len
  match_len_lem [] g m valid = absurd m
  match_len_lem (vs ∷ vars) g (inl ms) valid = fields_code_len lossy vs g.0 ms valid
  match_len_lem (vs ∷ vars) g (inr m) valid = match_len_lem vars g.1 m valid

  pub match_write_lem :
      (vars : List (List Value)) (g : GoodVariants vars) (offset id : ℕ) (m : Choice vars)
      (bytes : List ℕ)
      → ValidChoice lossy vars g m
      → offset + length (choice_code vars g m) ≤ length bytes
      → match_write lossy vars offset id m bytes
        ≡ ok (patch offset (choice_code vars g m) bytes, id + id_of vars m)
  unfolding choice_code match_write id_of
  match_write_lem [] g offset id m bytes valid h = absurd m
  match_write_lem (vs ∷ vars) g offset id (inl ms) bytes valid h =
      let same : id + 0 ≡ id = omega arith in
      rw (write_fields_lem lossy vs g.0 ms offset bytes valid h, same) refl
  match_write_lem (vs ∷ vars) g offset id (inr m) bytes valid h =
      let same : id + suc (id_of vars m) ≡ id + 1 + id_of vars m = omega arith in
      rw same (match_write_lem vars g.1 offset (id + 1) m bytes valid h)

  pub match_read_lem :
      (vars : List (List Value)) (g : GoodVariants vars) (offset id : ℕ) (m : Choice vars)
      (bytes : List ℕ)
      → ValidChoice lossy vars g m
      → At bytes offset (choice_code vars g m)
      → match_read lossy vars offset id (id + id_of vars m) bytes ≡ ok m
  unfolding choice_code match_read id_of
  match_read_lem [] g offset id m bytes valid a = absurd m
  match_read_lem (vs ∷ vars) g offset id (inl ms) bytes valid a =
      rw (same_id id, read_fields_lem lossy vs g.0 ms offset bytes valid a) refl
  match_read_lem (vs ∷ vars) g offset id (inr m) bytes valid a =
      let same : id + suc (id_of vars m) ≡ id + 1 + id_of vars m = omega arith in
      rw (later_id id (id_of vars m), same, match_read_lem vars g.1 offset (id + 1) m bytes valid a)
        refl
