-- ===== src/ByteRepr/Many.antt =====
-- mini_udp/src/byte_repr.rs: what `write_many` writes is what `read_many` reads.
use mini_udp.Prelude.{
  ℕ, zero, suc, ◌+◌, ◌-◌, ◌<◌, ◌≤◌, ◌≡◌, refl, sym, ◌∙◌, arith, false, leb, lt_or_le, inl, inr,
  if◌then◌else◌, List, [], ◌∷◌, ◌++◌, length, length-append, length-drop, take, drop, All, lt→ltb,
  le→ltb,
}
use mini_udp.Outcome.{done}
use mini_udp.ByteRepr.{ByteRepr, ok, write_many_from, write_many, read_many_from, read_many}
use mini_udp.Derive.Bytes.{patch}
use mini_udp.Derive.Field.{sum_len}
use mini_udp.Derive.Patch.{
  At, At-first, At-second, At-length, length-patch, patch-append, take-length_append,
}
use mini_udp.Derive.Access.{le→leb, patch-nil}
use mini_udp.Derive.Codec.{IsCodec}
use mini_udp.Derive.Codec.Items.{codes, codes_len, patch-drop, At-drop}
use mini_udp.Derive.RoundTrip.{patch-front}
use mathlib.Core.List.{append_assoc, append-nil}

-- The values at the front that fit together.
unfoldable pub fitting : {M : Type 0} → ByteRepr M → ℕ → List M → List M
fitting repr room [] = []
fitting repr room (m ∷ ms) =
    let rest = fitting repr (room - repr.byte_len m) ms in
    if leb (repr.byte_len m) room then m ∷ rest else []

fitting_full :
    {M : Type 0} (repr : ByteRepr M) (room : ℕ) (m : M) (ms : List M)
    → room < repr.byte_len m
    → fitting repr room (m ∷ ms) ≡ []
unfolding fitting
fitting_full repr room m ms h = rw (lt→leb _ _ h) refl
  where
    lt→leb : (a b : ℕ) → a < b → leb b a ≡ false
    lt→leb a b h = ground arith

fitting_next :
    {M : Type 0} (repr : ByteRepr M) (room : ℕ) (m : M) (ms : List M)
    → repr.byte_len m ≤ room
    → fitting repr room (m ∷ ms) ≡ m ∷ fitting repr (room - repr.byte_len m) ms
unfolding fitting
fitting_next repr room m ms h = rw (le→leb _ _ h) refl

fitting-All :
    {M : Type 0} (P : M → Type 0) (repr : ByteRepr M) (room : ℕ) (ms : List M)
    → All P ms
    → All P (fitting repr room ms)
fitting-All P repr room [] h = unfold fitting in tt
fitting-All P repr room (m ∷ ms) h = elim (lt_or_le room (repr.byte_len m)) [
  | inl full ↦ rw (fitting_full repr room m ms full) tt
  | inr fits ↦
      rw (fitting_next repr room m ms fits)
        (h.0, fitting-All P repr (room - repr.byte_len m) ms h.1)
]

sum_len-fitting :
    {M : Type 0} (repr : ByteRepr M) (room : ℕ) (ms : List M)
    → sum_len repr (fitting repr room ms) ≤ room
unfolding sum_len
sum_len-fitting repr room [] = unfold fitting in omega arith
sum_len-fitting repr room (m ∷ ms) = elim (lt_or_le room (repr.byte_len m)) [
  | inl full ↦ rw (fitting_full repr room m ms full) (omega arith)
  | inr fits ↦
      rw (fitting_next repr room m ms fits)
        (omega (arith, sum_len-fitting repr (room - repr.byte_len m) ms))
]

module _ {M : Type 0} (repr : ByteRepr M) (Ok : M → Type 0) (codec : IsCodec repr Ok) where
  write_full :
      (m : M) (ms : List M) (bytes : List ℕ) (i p : ℕ)
      → length bytes - p < repr.byte_len m
      → write_many_from repr (m ∷ ms) bytes i p ≡ done ((i, p), bytes)
  unfolding write_many_from
  write_full m ms bytes i p h = rw (lt→ltb _ _ h) refl

  write_next :
      (m : M) (ms : List M) (bytes : List ℕ) (i p : ℕ)
      → Ok m
      → repr.byte_len m ≤ length bytes - p
      → write_many_from repr (m ∷ ms) bytes i p
        ≡ write_many_from repr ms (patch p (codec.code m) bytes) (i + 1) (p + length (codec.code m))
  unfolding write_many_from
  write_next m ms bytes i p v h =
      let len = codec.code_len m v in
      rw
        (
          le→ltb _ _ h,
          codec.write m (drop p bytes) v (omega (arith, len, length-drop p bytes)),
          patch-drop p (codec.code m) bytes,
          len,
        )
        refl

  write_many_from_lem :
      (ms : List M) (bytes : List ℕ) (i p : ℕ)
      → All Ok ms
      → p ≤ length bytes
      → let ws = fitting repr (length bytes - p) ms in
        write_many_from repr ms bytes i p
        ≡ done (
          (i + length ws, p + length (codes repr Ok codec ws)),
          patch p (codes repr Ok codec ws) bytes,
        )
  unfolding codes
  write_many_from_lem [] bytes i p valid h =
      let a : i + 0 ≡ i = omega arith in
      let b : p + 0 ≡ p = omega arith in
      unfold write_many_from fitting in rw (patch-nil p bytes, a, b) refl
  write_many_from_lem (m ∷ ms) bytes i p (v, vs) h =
      elim (lt_or_le (length bytes - p) (repr.byte_len m)) [
        | inl full ↦
            let a : i + 0 ≡ i = omega arith in
            let b : p + 0 ≡ p = omega arith in
            rw
              (
                fitting_full repr (length bytes - p) m ms full,
                write_full m ms bytes i p full,
                patch-nil p bytes,
                a,
                b,
              )
              refl
        | inr fits ↦
            let C = codec.code m in
            let len = codec.code_len m v in
            let ws = fitting repr (length bytes - p - repr.byte_len m) ms in
            let room : p + length C ≤ length bytes = omega (arith, len) in
            let kept = length-patch p C bytes room in
            let left : length (patch p C bytes) - (p + length C)
                ≡ length bytes - p - repr.byte_len m =
              omega (arith, kept, len) in
            let whole = length-append C (codes repr Ok codec ws) in
            let count : i + 1 + length ws ≡ i + suc (length ws) = omega arith in
            let size : p + length C + length (codes repr Ok codec ws)
                ≡ p + length (C ++ codes repr Ok codec ws) =
              omega (arith, whole) in
            rw (fitting_next repr (length bytes - p) m ms fits, write_next m ms bytes i p v fits)
              (rw (left, count, size) at
                  (write_many_from_lem ms (patch p C bytes) (i + 1) (p + length C) vs
                    (omega (arith, kept)))
                ∙ rw
                    (patch-append p C (codes repr Ok codec ws) bytes (
                      omega (
                        arith,
                        len,
                        codes_len repr Ok codec ws (fitting-All Ok repr _ ms vs),
                        sum_len-fitting repr (length bytes - p - repr.byte_len m) ms,
                      )))
                    refl)
      ]

  read_next :
      (fuel : ℕ) (m : M) (bytes : List ℕ) (out : List M) (p : ℕ)
      → Ok m
      → 0 < repr.byte_len m
      → At bytes p (codec.code m)
      → read_many_from repr (suc fuel) bytes out p
        ≡ read_many_from repr fuel bytes (out ++ (m ∷ [])) (p + length (codec.code m))
  unfolding read_many_from
  read_next fuel m bytes out p v pos a =
      let len = codec.code_len m v in
      let room = At-length bytes p (codec.code m) a in
      let enough = codec.min_len m v in
      rw
        (
          lt→ltb p (length bytes) (omega arith),
          le→leb repr.min_byte_len (length bytes - p) (omega arith),
          codec.read m (drop p bytes) v (At-drop bytes p (codec.code m) a),
          len,
        )
        refl

  read_end :
      (fuel : ℕ) (bytes : List ℕ) (out : List M)
      → read_many_from repr (suc fuel) bytes out (length bytes) ≡ done (ok (out, length bytes))
  unfolding read_many_from
  read_end fuel bytes out = rw (le→ltb (length bytes) (length bytes) (omega arith)) refl

  read_many_from_lem :
      (ws : List M) (fuel : ℕ) (bytes : List ℕ) (out : List M) (p : ℕ)
      → All Ok ws
      → All (λ m. 0 < repr.byte_len m) ws
      → At bytes p (codes repr Ok codec ws)
      → p + length (codes repr Ok codec ws) ≡ length bytes
      → length ws < fuel
      → read_many_from repr fuel bytes out p ≡ done (ok (out ++ ws, length bytes))
  unfolding codes
  read_many_from_lem ws zero bytes out p v pos a end enough = absurd (omega arith)
  read_many_from_lem [] (suc fuel) bytes out p v pos a end enough =
      let at_end : p ≡ length bytes = omega arith in
      rw (at_end, append-nil out) (read_end fuel bytes out)
  read_many_from_lem (m ∷ ws) (suc fuel) bytes out p (v, vs) (pos, ps) a end enough =
      let C = codec.code m in
      let D = codes repr Ok codec ws in
      let later : p + length C + length D ≡ length bytes = omega (arith, length-append C D) in
      rw (read_next fuel m bytes out p v pos (At-first bytes p C D a)) (
        rw (append_assoc out (m ∷ []) ws) at (
          read_many_from_lem ws fuel bytes (out ++ (m ∷ [])) (p + length C) vs ps
            (At-second bytes p C D a) later (omega arith)))

  positive_len : (ws : List M) → All (λ m. 0 < repr.byte_len m) ws → length ws ≤ sum_len repr ws
  unfolding sum_len
  positive_len [] pos = omega arith
  positive_len (m ∷ ws) (pos, ps) = omega (arith, positive_len ws ps)

  write_many_lem :
      (values : List M) (bytes : List ℕ)
      → All Ok values
      → let ws = fitting repr (length bytes) values in
        write_many repr values bytes
        ≡ done ((length ws, sum_len repr ws), patch 0 (codes repr Ok codec ws) bytes)
  unfolding write_many
  write_many_lem values bytes valid =
      let ws = fitting repr (length bytes) values in
      let room : length bytes - 0 ≡ length bytes = omega arith in
      let size : 0 + length (codes repr Ok codec ws) ≡ sum_len repr ws =
        omega
          (arith, codes_len repr Ok codec ws (fitting-All Ok repr (length bytes) values valid)) in
      let count : 0 + length ws ≡ length ws = omega arith in
      rw (room, size, count) at (write_many_from_lem values bytes 0 0 valid (omega arith))

  read_codes :
      (ws : List M)
      → All Ok ws
      → All (λ m. 0 < repr.byte_len m) ws
      → read_many repr (codes repr Ok codec ws) ≡ done (ok (ws, sum_len repr ws))
  unfolding read_many
  read_codes ws valid pos =
      let D = codes repr Ok codec ws in
      let len = codes_len repr Ok codec ws valid in
      let front : At D 0 D = record {
        inside = omega arith;
        post = [];
        found = sym (append-nil D);
      } in
      read_many_from_lem ws (length D + 1) D [] 0 valid pos front (omega arith)
        (omega (arith, len, positive_len ws pos))
      ∙ rw len refl

  -- Let the codec be right for each of the values, and each have a byte at least. Then
  -- `write_many` writes the values at the front that fit the slice together, returns their number
  -- and length and keeps the length of the slice, and `read_many` of the bytes written returns
  -- just these values.
  pub read_many-write_many :
      (values : List M) (bytes : List ℕ)
      → All Ok values
      → All (λ m. 0 < repr.byte_len m) values
      → let ws = fitting repr (length bytes) values in
        (out : List ℕ) × (write_many repr values bytes ≡ done ((length ws, sum_len repr ws), out))
        × (length out ≡ length bytes)
        × (read_many repr (take (sum_len repr ws) out) ≡ done (ok (ws, sum_len repr ws)))
  read_many-write_many values bytes valid pos =
      let ws = fitting repr (length bytes) values in
      let D = codes repr Ok codec ws in
      let good = fitting-All Ok repr (length bytes) values valid in
      let len = codes_len repr Ok codec ws good in
      let small = sum_len-fitting repr (length bytes) values in
      let cut : take (sum_len repr ws) (patch 0 D bytes) ≡ D =
        rw (← len, patch-front D bytes) (take-length_append D (drop (length D) bytes)) in
      (
        patch 0 D bytes,
        write_many_lem values bytes valid,
        length-patch 0 D bytes (omega (arith, len, small)),
        rw cut (
            read_codes ws good
              (fitting-All (λ m. 0 < repr.byte_len m) repr (length bytes) values pos)),
      )
