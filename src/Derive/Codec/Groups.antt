-- ===== src/Derive/Codec/Groups.antt =====
-- The fields that go back to an instance or to another field: other types, arrays, vectors and
-- options; and the instance that `derive_for` makes of a field.
use mini_udp.Prelude.{
  ℕ, suc, ◌+◌, ◌*◌, ◌%◌, ◌^◌, ◌≤◌, ◌<◌, ◌≡◌, refl, sym, ◌∙◌, arith, if◌then◌else◌, Option, none,
  some, is_some, List, [], ◌∷◌, ◌++◌, length, length-append, All,
}
use mini_udp.ByteRepr.{ByteRepr, ok}
use mini_udp.Derive.Bytes.{ByteOffset, patch, static, dynamic}
use mini_udp.Derive.Length.{
  fully_unknown, known_fixed_unknown_length, as_const_max_length, as_length,
}
use mini_udp.Derive.Field.{
  Field, delegated_field, array_field, vec_field, option_field, write_option, read_option,
  option_len, len_bytes, sum_len,
}
use native.Mathlib.Nat.{mul-suc}
use mini_udp.Derive.Value.{derive_for}
use mini_udp.Derive.Patch.{At, length-patch, patch-append, At-first, At-second}
use mini_udp.Derive.Access.{put_range_lem, patch-nil, length-le_bytes}
use mini_udp.Derive.Codec.{IsCodec, IsLawful, variable_length}
use mini_udp.Derive.Codec.Lengths.{
  fully_unknown-IsTidy, known_fixed-IsTidy, as_length-IsTidy, as_const_min_length-IsTidy,
}
use mini_udp.Derive.Codec.Items.{
  write_item_lem, read_item_lem, codes, codes_len, write_items_lem, read_items_lem,
}
use mini_udp.Derive.Codec.Scalars.{nothing_written, next_of-zero, plus_zero, read_len_lem, read_bit}

zero_add : (n : ℕ) → 0 + n ≡ n
zero_add n = omega arith

module _ {M : Type 0} (repr : ByteRepr M) (Ok : M → Type 0) (codec : IsCodec repr Ok) where
  pub delegated-IsLawful : IsLawful (delegated_field repr) Ok
  unfolding delegated_field fully_unknown
  delegated-IsLawful = record {
    fixed_code = λ m. [];
    variable_code = codec.code;
    fixed_of = λ m. tt;
    tidy = fully_unknown-IsTidy repr.min_byte_len repr.max_byte_len repr.byte_len;
    fixed_len = λ m. refl;
    variable_len = codec.code_len;
    min_len = codec.min_len;
    write_fixed = λ offset m bytes p v h. nothing_written offset bytes p;
    write_variable = λ offset m bytes p v h. write_item_lem repr Ok codec m bytes p v h;
    read_fixed = λ offset m bytes p v a. rw (next_of-zero offset p) refl;
    read_variable = λ offset m bytes p v a. read_item_lem repr Ok codec m bytes p v a;
  }

  min_len-items : (ms : List M) → All Ok ms → repr.min_byte_len * length ms ≤ sum_len repr ms
  unfolding sum_len
  min_len-items [] v = omega arith
  min_len-items (m ∷ ms) (v, vs) =
      let more : repr.min_byte_len * suc (length ms)
          ≡ repr.min_byte_len * length ms + repr.min_byte_len =
        mul-suc _ _ in
      omega (arith, codec.min_len m v, min_len-items ms vs, more)

  pub vec-IsLawful :
      (max max_item : ℕ)
      → IsLawful (vec_field repr max max_item) (λ ms. (length ms < 2 ^ 32) × All Ok ms)
  unfolding vec_field known_fixed_unknown_length
  vec-IsLawful max max_item = record {
    fixed_code = λ ms. len_bytes ms;
    variable_code = λ ms. codes repr Ok codec ms;
    fixed_of = λ ms. length ms;
    tidy = known_fixed-IsTidy 4 (max * max_item) (sum_len repr);
    fixed_len = λ ms. length-le_bytes 4 (length ms % 2 ^ 32);
    variable_len = λ ms v. codes_len repr Ok codec ms v.1;
    min_len = λ ms v. omega arith;
    write_fixed = λ offset ms bytes p v h. put_range_lem offset (len_bytes ms) bytes p h;
    write_variable = λ offset ms bytes p v h. write_items_lem repr Ok codec ms bytes p v.1 h;
    read_fixed = λ offset ms bytes p v a. read_len_lem offset ms bytes p v.0 a;
    read_variable = λ offset ms bytes p v a. read_items_lem repr Ok codec ms bytes p v.1 a;
  }

  pub array-IsLawful :
      (len : ℕ) → IsLawful (array_field repr len) (λ ms. (length ms ≡ len) × All Ok ms)
  unfolding array_field fully_unknown
  array-IsLawful len = record {
    fixed_code = λ ms. [];
    variable_code = λ ms. codes repr Ok codec ms;
    fixed_of = λ ms. tt;
    tidy = fully_unknown-IsTidy (repr.min_byte_len * len) (repr.max_byte_len * len) (sum_len repr);
    fixed_len = λ ms. refl;
    variable_len = λ ms v. codes_len repr Ok codec ms v.1;
    min_len = λ ms v. rw v.0 at (min_len-items ms v.1);
    write_fixed = λ offset ms bytes p v h. nothing_written offset bytes p;
    write_variable = λ offset ms bytes p v h. write_items_lem repr Ok codec ms bytes p v.1 h;
    read_fixed = λ offset ms bytes p v a. rw (next_of-zero offset p) refl;
    read_variable =
        λ offset ms bytes p v a. rw v.0 at (read_items_lem repr Ok codec ms bytes p v.1 a);
  }

abbrev pub OkOption : {M : Type 0} → (M → Type 0) → Option M → Type 0
OkOption Ok none = Unit {0}
OkOption Ok (some m) = Ok m

module _ {M : Type 0} (f : Field M) (Ok : M → Type 0) (law : IsLawful f Ok) where
  -- Both parts one after the other.
  unfoldable pub whole_code : M → List ℕ
  whole_code m = law.fixed_code m ++ law.variable_code m

  pub whole_code_len : (m : M) → Ok m → length (whole_code m) ≡ as_length f.length m
  unfolding whole_code
  whole_code_len m v =
      length-append (law.fixed_code m) (law.variable_code m)
      ∙ rw (law.fixed_len m, law.variable_len m v) (sym (as_length-IsTidy f.length m law.tidy))

  pub write_parts :
      (offset : ByteOffset) (m : M) (bytes : List ℕ) (p : ℕ)
      → Ok m
      → p + length (whole_code m) ≤ length bytes
      → f.write_variable_part offset m
          (patch p (law.fixed_code m) bytes, p + length (law.fixed_code m))
        ≡ ok (patch p (whole_code m) bytes, p + length (whole_code m))
  unfolding whole_code
  write_parts offset m bytes p v h =
      let F = law.fixed_code m in
      let V = law.variable_code m in
      let whole = length-append F V in
      let regroup : p + length F + length V ≡ p + length (F ++ V) = omega (arith, whole) in
      let fits : p + length F ≤ length bytes = omega (arith, whole) in
      law.write_variable offset m (patch p F bytes) (p + length F) v
        (omega (arith, whole, length-patch p F bytes fits))
      ∙ rw (patch-append p F V bytes (omega (arith, whole)), regroup) refl

  first_fits :
      (m : M) (bytes : List ℕ) (p : ℕ)
      → p + length (whole_code m) ≤ length bytes
      → p + length (law.fixed_code m) ≤ length bytes
  unfolding whole_code
  first_fits m bytes p h = omega (arith, length-append (law.fixed_code m) (law.variable_code m))

  option_code : Option M → List ℕ
  option_code none = []
  option_code (some m) = whole_code m

  option_code_len :
      (m : Option M)
      → OkOption Ok m
      → length (option_code m) ≡ variable_length (option_field f).length m
  unfolding option_code option_field known_fixed_unknown_length
  option_code_len none v = refl
  option_code_len (some m) v = whole_code_len m v

  write_option_lem :
      (m : Option M) (bytes : List ℕ) (p : ℕ)
      → OkOption Ok m
      → p + length (option_code m) ≤ length bytes
      → write_option f m (bytes, p) ≡ ok (patch p (option_code m) bytes, p + length (option_code m))
  unfolding write_option option_code
  write_option_lem none bytes p v h = rw (patch-nil p bytes, plus_zero p) refl
  write_option_lem (some m) bytes p v h =
      rw (law.write_fixed dynamic m bytes p v (first_fits m bytes p h))
        (write_parts dynamic m bytes p v h)

  read_option_lem :
      (m : Option M) (bytes : List ℕ) (p : ℕ)
      → OkOption Ok m
      → At bytes p (option_code m)
      → read_option f (is_some m) bytes p ≡ ok (m, p + length (option_code m))
  unfolding read_option option_code whole_code
  read_option_lem none bytes p v a = rw (plus_zero p) refl
  read_option_lem (some m) bytes p v a =
      let F = law.fixed_code m in
      let V = law.variable_code m in
      let regroup : p + length F + length V ≡ p + length (F ++ V) =
        omega (arith, length-append F V) in
      rw
        (
          law.read_fixed dynamic m bytes p v (At-first bytes p F V a),
          law.read_variable dynamic m bytes (p + length F) v (At-second bytes p F V a),
          regroup,
        )
        refl

  pub option-IsLawful : IsLawful (option_field f) (OkOption Ok)
  unfolding option_field known_fixed_unknown_length
  option-IsLawful = record {
    fixed_code = λ m. (if is_some m then 1 else 0) ∷ [];
    variable_code = option_code;
    fixed_of = λ m. is_some m;
    tidy = known_fixed-IsTidy 1 (as_const_max_length f.length) (option_len f);
    fixed_len = λ m. refl;
    variable_len = option_code_len;
    min_len = λ m v. omega arith;
    write_fixed =
        λ offset m bytes p v h. put_range_lem offset ((if is_some m then 1 else 0) ∷ []) bytes p h;
    write_variable = λ offset m bytes p v h. write_option_lem m bytes p v h;
    read_fixed = λ offset m bytes p v a. read_bit offset (is_some m) bytes p a;
    read_variable = λ offset m bytes p v a. read_option_lem m bytes p v a;
  }

  -- `derive_for`
  derive_for-write :
      (m : M) (bytes : List ℕ)
      → Ok m
      → length (whole_code m) ≤ length bytes
      → (derive_for f).write_to_bytes m bytes ≡ ok (patch 0 (whole_code m) bytes)
  unfolding derive_for
  derive_for-write m bytes v h =
      let fits : 0 + length (whole_code m) ≤ length bytes = omega arith in
      rw
        (
          law.write_fixed (static 0) m bytes 0 v (first_fits m bytes 0 fits),
          sym (law.fixed_len m),
          rw zero_add at (write_parts (static 0) m bytes 0 v fits),
        )
        refl

  derive_for-read :
      (m : M) (bytes : List ℕ)
      → Ok m
      → At bytes 0 (whole_code m)
      → (derive_for f).from_bytes bytes ≡ ok m
  unfolding derive_for whole_code
  derive_for-read m bytes v a =
      let F = law.fixed_code m in
      let V = law.variable_code m in
      rw
        (
          law.read_fixed (static 0) m bytes 0 v (At-first bytes 0 F V a),
          sym (law.fixed_len m),
          rw zero_add at
              (law.read_variable (static 0) m bytes (0 + length F) v (At-second bytes 0 F V a)),
        )
        refl

  pub derive_for-IsCodec : IsCodec (derive_for f) Ok
  unfolding derive_for
  derive_for-IsCodec = record {
    code = whole_code;
    code_len = whole_code_len;
    min_len = λ m v. omega (
      arith,
      as_const_min_length-IsTidy f.length law.tidy,
      as_length-IsTidy f.length m law.tidy,
      law.min_len m v,
    );
    write = derive_for-write;
    read = derive_for-read;
  }
