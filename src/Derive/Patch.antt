-- ===== src/Derive/Patch.antt =====
-- A slice in which some bytes are replaced, and what is then found at their place.
use mini_udp.Prelude.{
  ℕ, zero, suc, ◌+◌, ◌≤◌, ◌≡◌, refl, sym, ap, ◌∙◌, arith, List, [], ◌∷◌, ◌++◌, length, take, drop,
  length-append, length-drop,
}
use mini_udp.Derive.Bytes.{patch}
use mathlib.Core.List.{append_assoc}

pub take-length_append : {A : Type 0} (xs ys : List A) → take (length xs) (xs ++ ys) ≡ xs
take-length_append [] ys = refl
take-length_append (x ∷ xs) ys = ap (λ zs. x ∷ zs) (take-length_append xs ys)

zero_add : (n : ℕ) → 0 + n ≡ n
zero_add n = omega arith

suc_add : (m n : ℕ) → suc m + n ≡ suc (m + n)
suc_add m n = omega arith

drop-nil : {A : Type 0} (n : ℕ) → drop {A = A} n [] ≡ []
drop-nil zero = refl
drop-nil (suc n) = refl

take-nil : {A : Type 0} (n : ℕ) → take {A = A} n [] ≡ []
take-nil zero = refl
take-nil (suc n) = refl

take-add_append :
    {A : Type 0} (xs ys : List A) (n : ℕ) → take (length xs + n) (xs ++ ys) ≡ xs ++ take n ys
take-add_append [] ys n = rw (zero_add n) refl
take-add_append (x ∷ xs) ys n =
    rw (suc_add (length xs) n) (ap (λ zs. x ∷ zs) (take-add_append xs ys n))

drop-add_append :
    {A : Type 0} (xs ys : List A) (n : ℕ) → drop (length xs + n) (xs ++ ys) ≡ drop n ys
drop-add_append [] ys n = rw (zero_add n) refl
drop-add_append (x ∷ xs) ys n = rw (suc_add (length xs) n) (drop-add_append xs ys n)

pub drop-length_append : {A : Type 0} (xs ys : List A) → drop (length xs) (xs ++ ys) ≡ ys
drop-length_append [] ys = refl
drop-length_append (x ∷ xs) ys = drop-length_append xs ys

pub drop-drop : {A : Type 0} (m n : ℕ) (xs : List A) → drop n (drop m xs) ≡ drop (m + n) xs
drop-drop zero n xs = rw (zero_add n) refl
drop-drop (suc m) n [] = rw (suc_add m n) (drop-nil n)
drop-drop (suc m) n (x ∷ xs) = rw (suc_add m n) (drop-drop m n xs)

pub length-take : {A : Type 0} (n : ℕ) (xs : List A) → n ≤ length xs → length (take n xs) ≡ n
length-take zero xs h = refl
length-take (suc n) [] h = absurd (omega arith)
length-take (suc n) (x ∷ xs) h = ap suc (length-take n xs (omega arith))

pub length-patch :
    (p : ℕ) (xs bytes : List ℕ)
    → p + length xs ≤ length bytes
    → length (patch p xs bytes) ≡ length bytes
unfolding patch
length-patch p xs bytes h = omega (
  arith,
  length-append (take p bytes) (xs ++ drop (p + length xs) bytes),
  length-append xs (drop (p + length xs) bytes),
  length-take p bytes (omega arith),
  length-drop (p + length xs) bytes,
)

two_parts :
    (A xs ys C : List ℕ)
    → take (length A + length xs) (A ++ (xs ++ C))
        ++ (ys ++ drop (length A + length xs + length ys) (A ++ (xs ++ C)))
      ≡ A ++ ((xs ++ ys) ++ drop (length ys) C)
two_parts A xs ys C =
    let regroup : length A + length xs + length ys ≡ length A + (length xs + length ys) =
      omega arith in
    rw
      (
        take-add_append A (xs ++ C) (length xs),
        take-length_append xs C,
        regroup,
        drop-add_append A (xs ++ C) (length xs + length ys),
        drop-add_append xs C (length ys),
        append_assoc A xs (ys ++ drop (length ys) C),
        append_assoc xs ys (drop (length ys) C),
      )
      refl

-- Two patches one after the other are one.
pub patch-append :
    (p : ℕ) (xs ys bytes : List ℕ)
    → p + length xs + length ys ≤ length bytes
    → patch (p + length xs) ys (patch p xs bytes) ≡ patch p (xs ++ ys) bytes
unfolding patch
patch-append p xs ys bytes h =
    let A = take p bytes in
    let C = drop (p + length xs) bytes in
    let whole : p + length (xs ++ ys) ≡ p + length xs + length ys =
      omega (arith, length-append xs ys) in
    rw (length-take p bytes (omega arith)) at (two_parts A xs ys C)
    ∙ rw (drop-drop (p + length xs) (length ys) bytes, whole) refl

take-add : {A : Type 0} (m n : ℕ) (xs : List A) → take (m + n) xs ≡ take m xs ++ take n (drop m xs)
take-add zero n xs = rw (zero_add n) refl
take-add (suc m) n [] = rw (suc_add m n) (sym (take-nil n))
take-add (suc m) n (x ∷ xs) = rw (suc_add m n) (ap (λ zs. x ∷ zs) (take-add m n xs))

prepend :
    (A B xs ys D : List ℕ)
    → take (length A) ((A ++ B) ++ (ys ++ D))
        ++ (xs ++ drop (length A + length B) ((A ++ B) ++ (ys ++ D)))
      ≡ A ++ ((xs ++ ys) ++ D)
prepend A B xs ys D =
    rw
      (
        append_assoc A B (ys ++ D),
        take-length_append A (B ++ (ys ++ D)),
        drop-add_append A (B ++ (ys ++ D)) (length B),
        drop-length_append B (ys ++ D),
        append_assoc xs ys D,
      )
      refl

-- And so in the other order.
pub patch-prepend :
    (p : ℕ) (xs ys bytes : List ℕ)
    → p + length xs + length ys ≤ length bytes
    → patch p xs (patch (p + length xs) ys bytes) ≡ patch p (xs ++ ys) bytes
unfolding patch
patch-prepend p xs ys bytes h =
    let A = take p bytes in
    let B = take (length xs) (drop p bytes) in
    let D = drop (p + length xs + length ys) bytes in
    let whole : p + length (xs ++ ys) ≡ p + length xs + length ys =
      omega (arith, length-append xs ys) in
    rw (take-add p (length xs) bytes, whole)
      (rw
        (
          length-take p bytes (omega arith),
          length-take (length xs) (drop p bytes) (omega (arith, length-drop p bytes)),
        )
        at (prepend A B xs ys D))

-- The bytes at an index.
pub record At (bytes : List ℕ) (p : ℕ) (xs : List ℕ) : Type 0 where
  pub inside : p ≤ length bytes
  pub post : List ℕ
  pub found : drop p bytes ≡ xs ++ post

pub At-patch :
    (p : ℕ) (xs bytes : List ℕ) → p + length xs ≤ length bytes → At (patch p xs bytes) p xs
unfolding patch
At-patch p xs bytes h = record {
  inside = omega (arith, length-patch p xs bytes h);
  post = drop (p + length xs) bytes;
  found =
      rw (length-take p bytes (omega arith)) at
        (drop-length_append (take p bytes) (xs ++ drop (p + length xs) bytes));
}

pub At-first : (bytes : List ℕ) (p : ℕ) (xs ys : List ℕ) → At bytes p (xs ++ ys) → At bytes p xs
At-first bytes p xs ys a = record {
  inside = a.inside;
  post = ys ++ a.post;
  found = a.found ∙ append_assoc xs ys a.post;
}

pub At-length :
    (bytes : List ℕ) (p : ℕ) (xs : List ℕ) → At bytes p xs → p + length xs ≤ length bytes
At-length bytes p xs a =
    omega (arith, a.inside, length-drop p bytes, ap length a.found, length-append xs a.post)

pub At-second :
    (bytes : List ℕ) (p : ℕ) (xs ys : List ℕ) → At bytes p (xs ++ ys) → At bytes (p + length xs) ys
At-second bytes p xs ys a = record {
  inside = omega (arith, At-length bytes p (xs ++ ys) a, length-append xs ys);
  post = a.post;
  found =
      sym (drop-drop p (length xs) bytes)
      ∙ rw (a.found, append_assoc xs ys a.post) (drop-length_append xs (ys ++ a.post));
}
