-- ===== src/Derive/Codec/Items.antt =====
-- Values one after the other, each written and read by its instance at the running index.
use mini_udp.Prelude.{
  ℕ, ◌+◌, ◌≤◌, ◌≡◌, refl, ◌∙◌, arith, List, [], ◌∷◌, ◌++◌, length, take, drop, length-append,
  length-drop, All,
}
use mini_udp.ByteRepr.{ByteRepr, ok}
use mini_udp.Derive.Bytes.{patch}
use mini_udp.Derive.Field.{write_item, read_item, write_items, read_items, sum_len}
use mini_udp.Derive.Patch.{At, drop-drop, length-patch, patch-append, At-first, At-second}
use mini_udp.Derive.Access.{slice_from_lem, patch-nil}
use mini_udp.Derive.Codec.{IsCodec}

pub patch-drop :
    (p : ℕ) (xs bytes : List ℕ) → take p bytes ++ patch 0 xs (drop p bytes) ≡ patch p xs bytes
unfolding patch
patch-drop p xs bytes =
    let same : 0 + length xs ≡ length xs = omega arith in
    rw (same, drop-drop p (length xs) bytes) refl

pub At-drop : (bytes : List ℕ) (p : ℕ) (xs : List ℕ) → At bytes p xs → At (drop p bytes) 0 xs
At-drop bytes p xs a = record { inside = omega arith; post = a.post; found = a.found }

module _ {M : Type 0} (repr : ByteRepr M) (Ok : M → Type 0) (codec : IsCodec repr Ok) where
  open codec use {code}

  pub write_item_lem :
      (m : M) (bytes : List ℕ) (p : ℕ)
      → Ok m
      → p + length (code m) ≤ length bytes
      → write_item repr m (bytes, p) ≡ ok (patch p (code m) bytes, p + length (code m))
  unfolding write_item
  write_item_lem m bytes p valid h =
      rw
        (
          slice_from_lem bytes p (omega arith),
          codec.write m (drop p bytes) valid (omega (arith, length-drop p bytes)),
          patch-drop p (code m) bytes,
          codec.code_len m valid,
        )
        refl

  pub read_item_lem :
      (m : M) (bytes : List ℕ) (p : ℕ)
      → Ok m
      → At bytes p (code m)
      → read_item repr bytes p ≡ ok (m, p + length (code m))
  unfolding read_item
  read_item_lem m bytes p valid a =
      rw
        (
          slice_from_lem bytes p a.inside,
          codec.read m (drop p bytes) valid (At-drop bytes p (code m) a),
          codec.code_len m valid,
        )
        refl

  unfoldable pub codes : List M → List ℕ
  codes [] = []
  codes (m ∷ ms) = code m ++ codes ms

  pub codes_len : (ms : List M) → All Ok ms → length (codes ms) ≡ sum_len repr ms
  unfolding codes sum_len
  codes_len [] valid = refl
  codes_len (m ∷ ms) (valid, rest) =
      length-append (code m) (codes ms) ∙ rw (codec.code_len m valid, codes_len ms rest) refl

  pub write_items_lem :
      (ms : List M) (bytes : List ℕ) (p : ℕ)
      → All Ok ms
      → p + length (codes ms) ≤ length bytes
      → write_items repr ms (bytes, p) ≡ ok (patch p (codes ms) bytes, p + length (codes ms))
  unfolding write_items codes
  write_items_lem [] bytes p valid h =
      let same : p + 0 ≡ p = omega arith in rw (patch-nil p bytes, same) refl
  write_items_lem (m ∷ ms) bytes p (valid, rest) h =
      let whole = length-append (code m) (codes ms) in
      let regroup : p + length (code m) + length (codes ms) ≡ p + length (code m ++ codes ms) =
        omega (arith, whole) in
      let fits : p + length (code m) ≤ length bytes = omega (arith, whole) in
      rw (write_item_lem m bytes p valid fits) (
        write_items_lem ms (patch p (code m) bytes) (p + length (code m)) rest
          (omega (arith, whole, length-patch p (code m) bytes fits))
        ∙ rw (patch-append p (code m) (codes ms) bytes (omega (arith, whole)), regroup) refl)

  pub read_items_lem :
      (ms : List M) (bytes : List ℕ) (p : ℕ)
      → All Ok ms
      → At bytes p (codes ms)
      → read_items repr (length ms) bytes p ≡ ok (ms, p + length (codes ms))
  unfolding read_items codes
  read_items_lem [] bytes p valid a = let same : p + 0 ≡ p = omega arith in rw same refl
  read_items_lem (m ∷ ms) bytes p (valid, rest) a =
      let whole = length-append (code m) (codes ms) in
      let regroup : p + length (code m) + length (codes ms) ≡ p + length (code m ++ codes ms) =
        omega (arith, whole) in
      rw
        (
          read_item_lem m bytes p valid (At-first bytes p (code m) (codes ms) a),
          read_items_lem ms bytes (p + length (code m)) rest
              (At-second bytes p (code m) (codes ms) a),
          regroup,
        )
        refl
