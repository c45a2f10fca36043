-- ===== src/Derive/Refused.antt =====
-- derive/src: the errors of the generated code, and the panic of a string that is cut off.
use mini_udp.Prelude.{
  ℕ, ◌+◌, ◌^◌, ◌%◌, ◌≤◌, ◌<◌, ◌≡◌, refl, arith, leb, ◌==◌, false, if◌then◌else◌, is_some, lt_or_le,
  inl, inr, List, [], ◌∷◌, length, take, drop,
}
use mini_udp.ByteRepr.{ok, err, slice_too_short}
use mini_udp.Derive.Bytes.{patch, put_range, get_range, le_bytes, from_le, static}
use mini_udp.Derive.Length.{fully_static, fully_unknown, known_fixed_unknown_length}
use mini_udp.Derive.Field.{
  Field, empty_tuple_field, bool_field, number_field, string_field, option_field, array_field,
  vec_field, delegated_field, len_bytes,
}
use mini_udp.Derive.Value.{
  Value, field_of, empty_tuple, bool, number, string, cow, option, array, vec, delegated, width,
}
use mini_udp.Derive.Fields.{
  Els, length_of, impl_for_struct, write_fields, read_fields, write_fixed_parts, read_fixed_parts,
}
use mini_udp.Derive.Patch.{length-patch}
use mini_udp.Derive.Access.{le→leb, length-le_bytes}
use mini_udp.Derive.Codec.Values.{in_field, Good, field_of-IsLawful}
use mini_udp.Derive.Codec.Structs.{GoodAll, ValidAll}
use mini_udp.Derive.Codec.Lengths.{fixed_bytes-add}

lt→leb : (a b : ℕ) → a < b → leb b a ≡ false
lt→leb a b h = ground arith

get_range-short :
    (n len : ℕ) (bytes : List ℕ) (p : ℕ)
    → length bytes < n + len
    → get_range (static n) len bytes p ≡ err slice_too_short
unfolding get_range
get_range-short n len bytes p h = rw (lt→leb _ _ h) refl

get_range-fits :
    (n len : ℕ) (bytes : List ℕ) (p : ℕ)
    → n + len ≤ length bytes
    → get_range (static n) len bytes p ≡ ok (take len (drop n bytes), p)
unfolding get_range
get_range-fits n len bytes p h = rw (le→leb _ _ h) refl

put_range-short :
    (n : ℕ) (xs bytes : List ℕ) (p : ℕ)
    → length bytes < n + length xs
    → put_range (static n) xs (bytes, p) ≡ err slice_too_short
unfolding put_range
put_range-short n xs bytes p h = rw (lt→leb _ _ h) refl

-- A field finds out whether the slice holds its fixed part.
record IsGuarded {M : Type 0} (f : Field M) : Type 0 where
  fixed_at : ℕ → List ℕ → f.Fixed
  read_fits :
      (n : ℕ) (bytes : List ℕ)
      → n + f.length.fixed_bytes ≤ length bytes
      → f.read_fixed_part (static n) bytes 0 ≡ ok (fixed_at n bytes, 0)
  read_short :
      (n : ℕ) (bytes : List ℕ)
      → n ≤ length bytes
      → length bytes < n + f.length.fixed_bytes
      → f.read_fixed_part (static n) bytes 0 ≡ err slice_too_short
  write_short :
      (n : ℕ) (m : M) (bytes : List ℕ) (p : ℕ)
      → n ≤ length bytes
      → length bytes < n + f.length.fixed_bytes
      → f.write_fixed_part (static n) m (bytes, p) ≡ err slice_too_short

guarded : (lossy : List ℕ → List ℕ) (v : Value) → Good in_field v → IsGuarded (field_of lossy v)
unfolding field_of fully_static fully_unknown known_fixed_unknown_length empty_tuple_field
    bool_field number_field string_field option_field array_field vec_field delegated_field
guarded lossy empty_tuple g = record {
  fixed_at = λ n bytes. tt;
  read_fits = λ n bytes h. refl;
  read_short = λ n bytes h k. absurd (omega arith);
  write_short = λ n m bytes p h k. absurd (omega arith);
}
guarded lossy bool g = record {
  fixed_at = λ n bytes. from_le (take 1 (drop n bytes)) == 1;
  read_fits = λ n bytes h. rw (get_range-fits n 1 bytes 0 h) refl;
  read_short = λ n bytes h k. rw (get_range-short n 1 bytes 0 k) refl;
  write_short = λ n m bytes p h k. put_range-short n ((if m then 1 else 0) ∷ []) bytes p k;
}
guarded lossy (number k) g = record {
  fixed_at = λ n bytes. from_le (take (width k) (drop n bytes));
  read_fits = λ n bytes h. rw (get_range-fits n (width k) bytes 0 h) refl;
  read_short = λ n bytes h l. rw (get_range-short n (width k) bytes 0 l) refl;
  write_short = λ n m bytes p h l.
      put_range-short n (le_bytes (width k) m) bytes p (rw (length-le_bytes (width k) m) l);
}
guarded lossy (string max) g = record {
  fixed_at = λ n bytes. from_le (take 4 (drop n bytes));
  read_fits = λ n bytes h. rw (get_range-fits n 4 bytes 0 h) refl;
  read_short = λ n bytes h k. rw (get_range-short n 4 bytes 0 k) refl;
  write_short = λ n m bytes p h k.
      put_range-short n (len_bytes m) bytes p (rw (length-le_bytes 4 (length m % 2 ^ 32)) k);
}
guarded lossy (cow ty) g = elim g [ ]
guarded lossy (option ty) g = record {
  fixed_at = λ n bytes. from_le (take 1 (drop n bytes)) == 1;
  read_fits = λ n bytes h. rw (get_range-fits n 1 bytes 0 h) refl;
  read_short = λ n bytes h k. rw (get_range-short n 1 bytes 0 k) refl;
  write_short = λ n m bytes p h k. put_range-short n ((if is_some m then 1 else 0) ∷ []) bytes p k;
}
guarded lossy (array ty len) g = record {
  fixed_at = λ n bytes. tt;
  read_fits = λ n bytes h. refl;
  read_short = λ n bytes h k. absurd (omega arith);
  write_short = λ n m bytes p h k. absurd (omega arith);
}
guarded lossy (vec ty max) g = record {
  fixed_at = λ n bytes. from_le (take 4 (drop n bytes));
  read_fits = λ n bytes h. rw (get_range-fits n 4 bytes 0 h) refl;
  read_short = λ n bytes h k. rw (get_range-short n 4 bytes 0 k) refl;
  write_short = λ n m bytes p h k.
      put_range-short n (len_bytes m) bytes p (rw (length-le_bytes 4 (length m % 2 ^ 32)) k);
}
guarded lossy (delegated M repr) g = record {
  fixed_at = λ n bytes. tt;
  read_fits = λ n bytes h. refl;
  read_short = λ n bytes h k. absurd (omega arith);
  write_short = λ n m bytes p h k. absurd (omega arith);
}

module _ (lossy : List ℕ → List ℕ) where
  read_fixed_parts-short :
      (vs : List Value) (g : GoodAll vs) (n : ℕ) (bytes : List ℕ)
      → n ≤ length bytes
      → length bytes < n + (length_of lossy vs).fixed_bytes
      → read_fixed_parts lossy vs n bytes ≡ err slice_too_short
  unfolding read_fixed_parts length_of fully_static
  read_fixed_parts-short [] g n bytes h k = absurd (omega arith)
  read_fixed_parts-short (v ∷ vs) g n bytes h k =
      let first = guarded lossy v g.0 in
      let sum = fixed_bytes-add (field_of lossy v).length (length_of lossy vs) in
      elim (lt_or_le (length bytes) (n + (field_of lossy v).length.fixed_bytes)) [
        | inl short ↦ rw (first.read_short n bytes h short) refl
        | inr fits ↦
            rw
              (
                first.read_fits n bytes fits,
                read_fixed_parts-short vs g.1 (n + (field_of lossy v).length.fixed_bytes) bytes fits
                    (omega (arith, sum)),
              )
              refl
      ]

  write_fixed_parts-short :
      (vs : List Value) (g : GoodAll vs) (ms : Els vs) (n : ℕ) (bytes : List ℕ) (p : ℕ)
      → ValidAll lossy vs g ms
      → n ≤ length bytes
      → length bytes < n + (length_of lossy vs).fixed_bytes
      → write_fixed_parts lossy vs n ms (bytes, p) ≡ err slice_too_short
  unfolding write_fixed_parts length_of fully_static
  write_fixed_parts-short [] g ms n bytes p valid h k = absurd (omega arith)
  write_fixed_parts-short (v ∷ vs) g ms n bytes p valid h k =
      let first = guarded lossy v g.0 in
      let law = field_of-IsLawful lossy v g.0 in
      let F = law.fixed_code ms.0 in
      let len = law.fixed_len ms.0 in
      let sum = fixed_bytes-add (field_of lossy v).length (length_of lossy vs) in
      elim (lt_or_le (length bytes) (n + (field_of lossy v).length.fixed_bytes)) [
        | inl short ↦ rw (first.write_short n ms.0 bytes p h short) refl
        | inr fits ↦
            let room : n + length F ≤ length bytes = omega (arith, len) in
            let same = length-patch n F bytes room in
            rw
              (
                law.write_fixed (static n) ms.0 bytes p valid.0 room,
                write_fixed_parts-short vs g.1 ms.1 (n + (field_of lossy v).length.fixed_bytes)
                    (patch n F bytes) p valid.1 (omega (arith, same)) (omega (arith, sum, same)),
              )
              refl
      ]

  -- A struct of fields of every kind but `Cow`, directly or in an option, and a value with
  -- numbers of their widths, strings in UTF-8, arrays of their lengths and other lengths below
  -- `2^32`. A slice that does not hold the fixed bytes of all fields is refused with
  -- `SliceTooShort`, by `write_to_bytes` and by `from_bytes`.
  pub struct_too_short :
      (vs : List Value) (g : GoodAll vs) (ms : Els vs) (bytes : List ℕ)
      → ValidAll lossy vs g ms
      → length bytes < (length_of lossy vs).fixed_bytes
      → ((impl_for_struct lossy vs).write_to_bytes ms bytes ≡ err slice_too_short)
        × ((impl_for_struct lossy vs).from_bytes bytes ≡ err slice_too_short)
  unfolding impl_for_struct write_fields read_fields
  struct_too_short vs g ms bytes valid h =
      let short : length bytes < 0 + (length_of lossy vs).fixed_bytes = omega arith in
      (
        rw (write_fixed_parts-short vs g ms 0 bytes 0 valid (omega arith) short) refl,
        rw (read_fixed_parts-short vs g 0 bytes (omega arith) short) refl,
      )
