-- ===== src/Derive/Access.antt =====
-- What the accesses of the generated code come to where the slice is long enough.
use mini_udp.Prelude.{
  ℕ, zero, suc, ◌+◌, ◌/◌, ◌^◌, ◌≤◌, ◌<◌, ◌≡◌, refl, ap, arith, leb, List, [], length, drop,
  take-append-drop, true,
}
use mini_udp.ByteRepr.{ok}
use mini_udp.Derive.Bytes.{
  ByteOffset, start_of, next_of, patch, get_range, put_range, slice_from, slice_of, le_bytes,
  from_le,
}
use native.Mathlib.Nat.{pow-suc}
use mini_udp.Derive.Patch.{At, At-length, take-length_append}

pub le→leb : (a b : ℕ) → a ≤ b → leb a b ≡ true
le→leb a b h = ground arith

pub put_range_lem :
    (offset : ByteOffset) (xs bytes : List ℕ) (p : ℕ)
    → start_of offset p + length xs ≤ length bytes
    → put_range offset xs (bytes, p)
      ≡ ok (patch (start_of offset p) xs bytes, next_of offset (length xs) p)
unfolding put_range
put_range_lem offset xs bytes p h = rw (le→leb _ _ h) refl

pub get_range_lem :
    (offset : ByteOffset) (xs bytes : List ℕ) (p : ℕ)
    → At bytes (start_of offset p) xs
    → get_range offset (length xs) bytes p ≡ ok (xs, next_of offset (length xs) p)
unfolding get_range
get_range_lem offset xs bytes p a =
    rw
      (le→leb _ _ (At-length bytes (start_of offset p) xs a), a.found, take-length_append xs a.post)
      refl

pub slice_of_lem :
    (bytes : List ℕ) (p : ℕ) (xs : List ℕ) → At bytes p xs → slice_of bytes p (length xs) ≡ ok xs
unfolding slice_of
slice_of_lem bytes p xs a =
    rw (le→leb _ _ (At-length bytes p xs a), a.found, take-length_append xs a.post) refl

pub slice_from_lem :
    (bytes : List ℕ) (p : ℕ) → p ≤ length bytes → slice_from bytes p ≡ ok (drop p bytes)
unfolding slice_from
slice_from_lem bytes p h = rw (le→leb _ _ h) refl

pub patch-nil : (p : ℕ) (bytes : List ℕ) → patch p [] bytes ≡ bytes
unfolding patch
patch-nil p bytes = let same : p + 0 ≡ p = omega arith in rw same (take-append-drop p bytes)

pub length-le_bytes : (width x : ℕ) → length (le_bytes width x) ≡ width
unfolding le_bytes
length-le_bytes zero x = refl
length-le_bytes (suc width) x = ap suc (length-le_bytes width (x / 256))

pub from_le-le_bytes : (width x : ℕ) → x < 256 ^ width → from_le (le_bytes width x) ≡ x
unfolding le_bytes from_le
from_le-le_bytes zero x h = omega arith
from_le-le_bytes (suc width) x h =
    let smaller : x / 256 < 256 ^ width = omega (arith, rw (pow-suc 256 width) at h) in
    rw (from_le-le_bytes width (x / 256) smaller) (omega arith)
