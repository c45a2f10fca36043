-- ===== src/Derive/Codec/Structs.antt =====
-- The fields of a struct or of a variant: all fixed parts, then all variable parts.
use mini_udp.Prelude.{
  ℕ, ◌+◌, ◌≤◌, ◌≡◌, refl, sym, ◌∙◌, arith, List, [], ◌∷◌, ◌++◌, length, length-append,
}
use mini_udp.ByteRepr.{ok}
use mini_udp.Derive.Bytes.{patch, static}
use mini_udp.Derive.Length.{as_const_min_length, as_length, fully_static}
use mini_udp.Derive.Value.{Value, field_of}
use mini_udp.Derive.Fields.{
  Els, Fixeds, length_of, write_fixed_parts, write_variable_parts, read_fixed_parts,
  read_variable_parts, write_fields, read_fields,
}
use mini_udp.Derive.Patch.{At, length-patch, patch-append, At-first, At-second}
use mini_udp.Derive.Access.{patch-nil}
use mini_udp.Derive.Codec.{IsLawful, IsTidy, or_zero, variable_length}
use mini_udp.Derive.Codec.Lengths.{
  fully_static-IsTidy, add-IsTidy, as_length-IsTidy, as_const_min_length-IsTidy, fixed_bytes-add,
  variable_length-add, unknown_min-add,
}
use mini_udp.Derive.Codec.Scalars.{plus_zero}
use mini_udp.Derive.Codec.Values.{in_field, Good, Valid, field_of-IsLawful}

abbrev pub GoodAll : List Value → Type 1
GoodAll [] = Unit {1}
GoodAll (v ∷ vs) = Good in_field v × GoodAll vs

module _ (lossy : List ℕ → List ℕ) where
  abbrev pub ValidAll : (vs : List Value) → GoodAll vs → Els vs → Type 0
  ValidAll [] g ms = Unit {0}
  ValidAll (v ∷ vs) g ms = Valid lossy in_field v g.0 ms.0 × ValidAll vs g.1 ms.1

  abbrev law :
      (v : Value) (g : Good in_field v) → IsLawful (field_of lossy v) (Valid lossy in_field v g)
  law v g = field_of-IsLawful lossy v g

  unfoldable pub fixed_codes : (vs : List Value) → GoodAll vs → Els vs → List ℕ
  fixed_codes [] g ms = []
  fixed_codes (v ∷ vs) g ms = (law v g.0).fixed_code ms.0 ++ fixed_codes vs g.1 ms.1

  unfoldable pub variable_codes : (vs : List Value) → GoodAll vs → Els vs → List ℕ
  variable_codes [] g ms = []
  variable_codes (v ∷ vs) g ms = (law v g.0).variable_code ms.0 ++ variable_codes vs g.1 ms.1

  fixeds : (vs : List Value) → GoodAll vs → Els vs → Fixeds lossy vs
  fixeds [] g ms = tt
  fixeds (v ∷ vs) g ms = ((law v g.0).fixed_of ms.0, fixeds vs g.1 ms.1)

  pub length_of-IsTidy : (vs : List Value) → GoodAll vs → IsTidy (length_of lossy vs)
  unfolding length_of
  length_of-IsTidy [] g = fully_static-IsTidy 0
  length_of-IsTidy (v ∷ vs) g = add-IsTidy _ _ (law v g.0).tidy (length_of-IsTidy vs g.1)

  fixed_codes_len :
      (vs : List Value) (g : GoodAll vs) (ms : Els vs)
      → length (fixed_codes vs g ms) ≡ (length_of lossy vs).fixed_bytes
  unfolding fixed_codes length_of fully_static
  fixed_codes_len [] g ms = refl
  fixed_codes_len (v ∷ vs) g ms =
      length-append ((law v g.0).fixed_code ms.0) (fixed_codes vs g.1 ms.1)
      ∙ rw ((law v g.0).fixed_len ms.0, fixed_codes_len vs g.1 ms.1)
          (sym (fixed_bytes-add (field_of lossy v).length (length_of lossy vs)))

  variable_codes_len :
      (vs : List Value) (g : GoodAll vs) (ms : Els vs)
      → ValidAll vs g ms
      → length (variable_codes vs g ms) ≡ variable_length (length_of lossy vs) ms
  unfolding variable_codes length_of fully_static
  variable_codes_len [] g ms valid = refl
  variable_codes_len (v ∷ vs) g ms valid =
      length-append ((law v g.0).variable_code ms.0) (variable_codes vs g.1 ms.1)
      ∙ rw ((law v g.0).variable_len ms.0 valid.0, variable_codes_len vs g.1 ms.1 valid.1)
          (sym (variable_length-add (field_of lossy v).length (length_of lossy vs) ms.0 ms.1))

  min_len-variable :
      (vs : List Value) (g : GoodAll vs) (ms : Els vs)
      → ValidAll vs g ms
      → or_zero (length_of lossy vs).unknown_min ≤ variable_length (length_of lossy vs) ms
  unfolding length_of fully_static
  min_len-variable [] g ms valid = omega arith
  min_len-variable (v ∷ vs) g ms valid = omega (
    arith,
    unknown_min-add (field_of lossy v).length (length_of lossy vs),
    variable_length-add (field_of lossy v).length (length_of lossy vs) ms.0 ms.1,
    (law v g.0).min_len ms.0 valid.0,
    min_len-variable vs g.1 ms.1 valid.1,
  )

  write_fixed_parts_lem :
      (vs : List Value) (g : GoodAll vs) (ms : Els vs) (offset : ℕ) (bytes : List ℕ) (p : ℕ)
      → ValidAll vs g ms
      → offset + length (fixed_codes vs g ms) ≤ length bytes
      → write_fixed_parts lossy vs offset ms (bytes, p)
        ≡ ok (patch offset (fixed_codes vs g ms) bytes, p)
  unfolding write_fixed_parts fixed_codes
  write_fixed_parts_lem [] g ms offset bytes p valid h = rw (patch-nil offset bytes) refl
  write_fixed_parts_lem (v ∷ vs) g ms offset bytes p valid h =
      let F = (law v g.0).fixed_code ms.0 in
      let G = fixed_codes vs g.1 ms.1 in
      let whole = length-append F G in
      let fits : offset + length F ≤ length bytes = omega (arith, whole) in
      rw
        (
          (law v g.0).write_fixed (static offset) ms.0 bytes p valid.0 fits,
          sym ((law v g.0).fixed_len ms.0),
        )
        (write_fixed_parts_lem vs g.1 ms.1 (offset + length F) (patch offset F bytes) p valid.1
            (omega (arith, whole, length-patch offset F bytes fits))
          ∙ rw (patch-append offset F G bytes (omega (arith, whole))) refl)

  write_variable_parts_lem :
      (vs : List Value) (g : GoodAll vs) (ms : Els vs) (offset : ℕ) (bytes : List ℕ) (p : ℕ)
      → ValidAll vs g ms
      → p + length (variable_codes vs g ms) ≤ length bytes
      → write_variable_parts lossy vs offset ms (bytes, p)
        ≡ ok (patch p (variable_codes vs g ms) bytes, p + length (variable_codes vs g ms))
  unfolding write_variable_parts variable_codes
  write_variable_parts_lem [] g ms offset bytes p valid h = rw (patch-nil p bytes, plus_zero p) refl
  write_variable_parts_lem (v ∷ vs) g ms offset bytes p valid h =
      let V = (law v g.0).variable_code ms.0 in
      let W = variable_codes vs g.1 ms.1 in
      let whole = length-append V W in
      let fits : p + length V ≤ length bytes = omega (arith, whole) in
      let regroup : p + length V + length W ≡ p + length (V ++ W) = omega (arith, whole) in
      rw ((law v g.0).write_variable (static offset) ms.0 bytes p valid.0 fits) (
        write_variable_parts_lem vs g.1 ms.1 _ (patch p V bytes) (p + length V) valid.1
          (omega (arith, whole, length-patch p V bytes fits))
        ∙ rw (patch-append p V W bytes (omega (arith, whole)), regroup) refl)

  read_fixed_parts_lem :
      (vs : List Value) (g : GoodAll vs) (ms : Els vs) (offset : ℕ) (bytes : List ℕ)
      → ValidAll vs g ms
      → At bytes offset (fixed_codes vs g ms)
      → read_fixed_parts lossy vs offset bytes ≡ ok (fixeds vs g ms)
  unfolding read_fixed_parts fixed_codes fixeds
  read_fixed_parts_lem [] g ms offset bytes valid a = refl
  read_fixed_parts_lem (v ∷ vs) g ms offset bytes valid a =
      let F = (law v g.0).fixed_code ms.0 in
      let G = fixed_codes vs g.1 ms.1 in
      rw
        (
          (law v g.0).read_fixed (static offset) ms.0 bytes 0 valid.0 (At-first bytes offset F G a),
          sym ((law v g.0).fixed_len ms.0),
          read_fixed_parts_lem vs g.1 ms.1 (offset + length F) bytes valid.1
              (At-second bytes offset F G a),
        )
        refl

  read_variable_parts_lem :
      (vs : List Value) (g : GoodAll vs) (ms : Els vs) (offset : ℕ) (bytes : List ℕ) (p : ℕ)
      → ValidAll vs g ms
      → At bytes p (variable_codes vs g ms)
      → read_variable_parts lossy vs offset (fixeds vs g ms) bytes p ≡ ok ms
  unfolding read_variable_parts variable_codes fixeds
  read_variable_parts_lem [] g ms offset bytes p valid a = refl
  read_variable_parts_lem (v ∷ vs) g ms offset bytes p valid a =
      let V = (law v g.0).variable_code ms.0 in
      let W = variable_codes vs g.1 ms.1 in
      rw
        (
          (law v g.0).read_variable (static offset) ms.0 bytes p valid.0 (At-first bytes p V W a),
          read_variable_parts_lem vs g.1 ms.1 _ bytes (p + length V) valid.1
              (At-second bytes p V W a),
        )
        refl

  unfoldable pub fields_code : (vs : List Value) → GoodAll vs → Els vs → List ℕ
  fields_code vs g ms = fixed_codes vs g ms ++ variable_codes vs g ms

  pub fields_code_len :
      (vs : List Value) (g : GoodAll vs) (ms : Els vs)
      → ValidAll vs g ms
      → length (fields_code vs g ms) ≡ as_length (length_of lossy vs) ms
  unfolding fields_code
  fields_code_len vs g ms valid =
      length-append (fixed_codes vs g ms) (variable_codes vs g ms)
      ∙ rw (fixed_codes_len vs g ms, variable_codes_len vs g ms valid)
          (sym (as_length-IsTidy (length_of lossy vs) ms (length_of-IsTidy vs g)))

  pub min_len-fields :
      (vs : List Value) (g : GoodAll vs) (ms : Els vs)
      → ValidAll vs g ms
      → as_const_min_length (length_of lossy vs) ≤ as_length (length_of lossy vs) ms
  min_len-fields vs g ms valid = omega (
    arith,
    as_const_min_length-IsTidy (length_of lossy vs) (length_of-IsTidy vs g),
    as_length-IsTidy (length_of lossy vs) ms (length_of-IsTidy vs g),
    min_len-variable vs g ms valid,
  )

  pub write_fields_lem :
      (vs : List Value) (g : GoodAll vs) (ms : Els vs) (offset : ℕ) (bytes : List ℕ)
      → ValidAll vs g ms
      → offset + length (fields_code vs g ms) ≤ length bytes
      → write_fields lossy vs offset ms bytes ≡ ok (patch offset (fields_code vs g ms) bytes)
  unfolding write_fields fields_code
  write_fields_lem vs g ms offset bytes valid h =
      let F = fixed_codes vs g ms in
      let V = variable_codes vs g ms in
      let whole = length-append F V in
      let fits : offset + length F ≤ length bytes = omega (arith, whole) in
      rw
        (
          write_fixed_parts_lem vs g ms offset bytes 0 valid fits,
          sym (fixed_codes_len vs g ms),
          write_variable_parts_lem vs g ms offset (patch offset F bytes) (offset + length F) valid
              (omega (arith, whole, length-patch offset F bytes fits)),
          patch-append offset F V bytes (omega (arith, whole)),
        )
        refl

  pub read_fields_lem :
      (vs : List Value) (g : GoodAll vs) (ms : Els vs) (offset : ℕ) (bytes : List ℕ)
      → ValidAll vs g ms
      → At bytes offset (fields_code vs g ms)
      → read_fields lossy vs offset bytes ≡ ok ms
  unfolding read_fields fields_code
  read_fields_lem vs g ms offset bytes valid a =
      let F = fixed_codes vs g ms in
      let V = variable_codes vs g ms in
      rw
        (
          read_fixed_parts_lem vs g ms offset bytes valid (At-first bytes offset F V a),
          sym (fixed_codes_len vs g ms),
          read_variable_parts_lem vs g ms offset bytes (offset + length F) valid
              (At-second bytes offset F V a),
        )
        refl
