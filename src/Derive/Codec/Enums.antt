-- ===== src/Derive/Codec/Enums.antt =====
-- The instances that structs and enums derive.
use mini_udp.Prelude.{
  ℕ, ◌+◌, ◌^◌, ◌≤◌, ◌<◌, ◌≡◌, refl, sym, ap, arith, leb, ◌==◌, false, if◌then◌else◌, lt_or_le, List,
  ◌++◌, length, length-append, inl, inr,
}
use mini_udp.ByteRepr.{ok}
use mini_udp.Derive.Bytes.{patch, static, le_bytes}
use mini_udp.Derive.Value.{Value}
use mini_udp.Derive.Fields.{impl_for_struct}
use mini_udp.Derive.Variants.{Choice, variant_len, match_len, write_enum, read_enum, impl_for_enum}
use mini_udp.Derive.Patch.{At, length-patch, patch-prepend, At-first, At-second}
use mini_udp.Derive.Access.{put_range_lem, get_range_lem, length-le_bytes, from_le-le_bytes, le→leb}
use mini_udp.Derive.Codec.{IsCodec}
use mini_udp.Derive.Codec.Structs.{
  GoodAll, ValidAll, fields_code, fields_code_len, min_len-fields, write_fields_lem,
  read_fields_lem,
}
use mini_udp.Derive.Codec.Choices.{
  choice_code, id_of, id_of-length, match_len_lem, match_write_lem, match_read_lem,
}
use mini_udp.Derive.Codec.Minimum.{GoodVariants, ValidChoice, min_len-choice}

zero_le : {m n : ℕ} → m ≤ n → 0 + m ≤ n
zero_le h = omega arith

lt→leb : (m n : ℕ) → m < n → leb n m ≡ false
lt→leb m n h = ground arith

ne_one : (n : ℕ) → 1 < n → (n == 1) ≡ false
ne_one n h = ground arith

variant_len-one : (n : ℕ) → n ≤ 1 → variant_len n ≡ 0
unfolding variant_len
variant_len-one n h = rw (le→leb n 1 h) refl

variant_len-several : (n : ℕ) → 1 < n → n ≤ 256 → variant_len n ≡ 1
unfolding variant_len
variant_len-several n h k = rw (lt→leb 1 n h, le→leb n 256 k) refl

module _ (lossy : List ℕ → List ℕ) where
  pub impl_for_struct-IsCodec :
      (vs : List Value) (g : GoodAll vs) → IsCodec (impl_for_struct lossy vs) (ValidAll lossy vs g)
  unfolding impl_for_struct
  impl_for_struct-IsCodec vs g = record {
    code = fields_code lossy vs g;
    code_len = fields_code_len lossy vs g;
    min_len = min_len-fields lossy vs g;
    write = λ ms bytes valid h. write_fields_lem lossy vs g ms 0 bytes valid (zero_le h);
    read = λ ms bytes valid a. read_fields_lem lossy vs g ms 0 bytes valid a;
  }

  -- The id is written last, at the front.
  enum_code : (vars : List (List Value)) → GoodVariants vars → Choice vars → List ℕ
  enum_code vars g m =
      if leb (length vars) 1
      then choice_code lossy vars g m
      else le_bytes 1 (id_of vars m) ++ choice_code lossy vars g m

  enum_code-one :
      (vars : List (List Value)) (g : GoodVariants vars) (m : Choice vars)
      → length vars ≤ 1
      → enum_code vars g m ≡ choice_code lossy vars g m
  unfolding enum_code
  enum_code-one vars g m h = rw (le→leb (length vars) 1 h) refl

  enum_code-several :
      (vars : List (List Value)) (g : GoodVariants vars) (m : Choice vars)
      → 1 < length vars
      → enum_code vars g m ≡ le_bytes 1 (id_of vars m) ++ choice_code lossy vars g m
  unfolding enum_code
  enum_code-several vars g m h = rw (lt→leb 1 (length vars) h) refl

  enum_code_len :
      (vars : List (List Value)) (g : GoodVariants vars) (m : Choice vars)
      → length vars ≤ 256
      → ValidChoice lossy vars g m
      → length (enum_code vars g m) ≡ match_len lossy vars m + variant_len (length vars)
  enum_code_len vars g m few valid = elim (lt_or_le 1 (length vars)) [
    | inl many ↦
        rw (enum_code-several vars g m many, variant_len-several (length vars) many few)
          (omega (
            arith,
            length-append (le_bytes 1 (id_of vars m)) (choice_code lossy vars g m),
            length-le_bytes 1 (id_of vars m),
            match_len_lem lossy vars g m valid,
          ))
    | inr one ↦
        rw (enum_code-one vars g m one, variant_len-one (length vars) one)
          (omega (arith, match_len_lem lossy vars g m valid))
  ]

  module _ (vars : List (List Value)) (g : GoodVariants vars) (m : Choice vars) (bytes : List ℕ)
      (valid : ValidChoice lossy vars g m) where
    write_enum-one :
        length vars ≤ 1
        → length (choice_code lossy vars g m) ≤ length bytes
        → write_enum lossy vars m bytes ≡ ok (patch 0 (choice_code lossy vars g m) bytes)
    unfolding write_enum
    write_enum-one one h =
        rw
          (
            variant_len-one (length vars) one,
            match_write_lem lossy vars g 0 0 m bytes valid (zero_le h),
            le→leb (length vars) 1 one,
          )
          refl

    write_enum-several :
        1 < length vars
        → length vars ≤ 256
        → length (le_bytes 1 (id_of vars m) ++ choice_code lossy vars g m) ≤ length bytes
        → write_enum lossy vars m bytes
          ≡ ok (patch 0 (le_bytes 1 (id_of vars m) ++ choice_code lossy vars g m) bytes)
    unfolding write_enum
    write_enum-several many few h =
        let I = le_bytes 1 (id_of vars m) in
        let C = choice_code lossy vars g m in
        let whole = length-append I C in
        let one = length-le_bytes 1 (id_of vars m) in
        let fits : 1 + length C ≤ length bytes = omega (arith, whole, one) in
        let room : 0 + length I ≤ length (patch 1 C bytes) =
          omega (arith, one, length-patch 1 C bytes fits) in
        let start : 1 ≡ 0 + length I = omega (arith, one) in
        let id : 0 + id_of vars m ≡ id_of vars m = omega arith in
        rw
          (
            variant_len-several (length vars) many few,
            match_write_lem lossy vars g 1 0 m bytes valid fits,
            lt→leb 1 (length vars) many,
            id,
            put_range_lem (static 0) I (patch 1 C bytes) 0 room,
          )
          (ap ok (rw (sym start) at (patch-prepend 0 I C bytes (omega (arith, whole)))))

    read_enum-one :
        length vars ≤ 1
        → At bytes 0 (choice_code lossy vars g m)
        → read_enum lossy vars bytes ≡ ok m
    unfolding read_enum
    read_enum-one one a =
        let single : length vars ≡ 1 = omega (arith, id_of-length vars m) in
        let first : 0 + id_of vars m ≡ 0 = omega (arith, id_of-length vars m) in
        rw (variant_len-one (length vars) one, single)
          (rw first at (match_read_lem lossy vars g 0 0 m bytes valid a))

    read_enum-several :
        1 < length vars
        → length vars ≤ 256
        → At bytes 0 (le_bytes 1 (id_of vars m) ++ choice_code lossy vars g m)
        → read_enum lossy vars bytes ≡ ok m
    unfolding read_enum
    read_enum-several many few a =
        let I = le_bytes 1 (id_of vars m) in
        let C = choice_code lossy vars g m in
        let one = length-le_bytes 1 (id_of vars m) in
        let id : 0 + id_of vars m ≡ id_of vars m = omega arith in
        let start : 0 + length I ≡ 1 = omega (arith, one) in
        let small : id_of vars m < 256 ^ 1 = omega (arith, id_of-length vars m) in
        rw
          (
            variant_len-several (length vars) many few,
            ne_one (length vars) many,
            rw one at (get_range_lem (static 0) I bytes 0 (At-first bytes 0 I C a)),
            from_le-le_bytes 1 (id_of vars m) small,
          )
          (rw id at
            (match_read_lem lossy vars g 1 0 m bytes valid (rw start at (At-second bytes 0 I C a))))

  pub impl_for_enum-IsCodec :
      (vars : List (List Value)) (g : GoodVariants vars)
      → length vars ≤ 256
      → IsCodec (impl_for_enum lossy vars) (ValidChoice lossy vars g)
  unfolding impl_for_enum
  impl_for_enum-IsCodec vars g few = record {
    code = enum_code vars g;
    code_len = λ m valid. enum_code_len vars g m few valid;
    min_len = λ m valid. min_len-choice lossy vars g m (variant_len (length vars)) valid;
    write = λ m bytes valid h. elim (lt_or_le 1 (length vars)) [
      | inl many ↦ rw (enum_code-several vars g m many) (
          write_enum-several vars g m bytes valid many few
            (rw (enum_code-several vars g m many) at h))
      | inr one ↦
          rw (enum_code-one vars g m one)
            (write_enum-one vars g m bytes valid one (rw (enum_code-one vars g m one) at h))
    ];
    read = λ m bytes valid a. elim (lt_or_le 1 (length vars)) [
      | inl many ↦
          read_enum-several vars g m bytes valid many few
            (rw (enum_code-several vars g m many) at a)
      | inr one ↦ read_enum-one vars g m bytes valid one (rw (enum_code-one vars g m one) at a)
    ];
  }
