-- ===== src/Inner/Receive/Numbers/Storing.antt =====
-- `insert` of an item for a packet that is new, by the number of the packet.
use mini_udp.Prelude.{
  ℕ, suc, ◌+◌, ◌≤◌, ◌<◌, ◌≡◌, ◌≢◌, refl, sym, ◌∙◌, arith, true, false, ltb, if◌then◌else◌, some,
  none, List, ◌∷◌, contains, inl, inr, ◌⊎◌, lt_or_le, eq_or_ne, eq→==, ne→==, lt→ltb, le→ltb,
}
use mini_udp.Word.{wrapping_sub}
use mini_udp.Ring
use mini_udp.Ring.{RingBuffer}
use mini_udp.Ring.Window.{get_out}
use mini_udp.Ring.Insert.{newest_after, get-insert, insert-IsRing}
use mini_udp.Ack.{num_items}
use mini_udp.Ack.Field.{capacity}
use mini_udp.Inner.Receive.Numbers.{id_of, IsKnown}
use mini_udp.Inner.Receive.Numbers.Seen

-- One after the highest number.
abbrev pub high_after : ℕ → ℕ → ℕ
high_after high n = if ltb n high then high else suc n

module _ {T : Type 0} (ns : List ℕ) (high : ℕ) (r : RingBuffer T) (b : IsKnown ns high r) (n : ℕ)
    (item : T) (sent : (j : ℕ) → j + 32 ≤ n → contains ns j ≡ true)
    (fresh : contains ns n ≡ false) where
  abbrev inserted : RingBuffer T
  inserted = Ring.insert num_items r (id_of n) item

  from : high ≤ n + 32
  from = Seen.recent ns high r b n sent fresh

  to : n < high + 32
  to = Seen.near ns high r b n sent fresh

  moved :
      (n < high × (newest_after 32 r.newest (id_of n) ≡ id_of (high + 65535)))
      ⊎ (high ≤ n × (newest_after 32 r.newest (id_of n) ≡ id_of (suc n + 65535)))
  moved =
      let newest = b.newest in
      let recent = from in
      let near = to in
      elim (lt_or_le n high) [
        | inl inside ↦
            inl (inside, rw (lt→ltb (wrapping_sub r.newest (id_of n)) 32 (omega arith)) newest)
        | inr past ↦
            inr (past, rw (le→ltb (wrapping_sub r.newest (id_of n)) 32 (omega arith)) (omega arith))
      ]

  newest_inserted : inserted.newest ≡ id_of (high_after high n + 65535)
  newest_inserted =
      (get-insert num_items r (id_of n) item capacity b.valid (omega arith) 0 (omega arith)).0
      ∙ elim moved [
        | inl (inside, e) ↦ rw (lt→ltb n high inside) e
        | inr (past, e) ↦ rw (le→ltb n high past) e
      ]

  pub high_bounds :
      (high ≤ high_after high n)
      × (n < high_after high n)
      × (high_after high n ≤ n + 32)
      × (high_after high n ≤ high + 32)
  high_bounds =
      let recent = from in
      let near = to in
      elim (lt_or_le n high) [
        | inl inside ↦ rw (lt→ltb n high inside) (omega arith, inside, recent, omega arith)
        | inr past ↦ rw (le→ltb n high past) (omega arith, omega arith, omega arith, omega arith)
      ]

  pub other_found :
      (k : ℕ)
      → k < high_after high n
      → high_after high n ≤ k + 32
      → n ≢ k
      → Ring.get num_items inserted (id_of k) ≡ Ring.get num_items r (id_of k)
  other_found k lt le ne =
      let bounds = high_bounds in
      let recent = from in
      let newest = newest_inserted in
      let differs : id_of n ≢ id_of k = omega arith in
      let (same, at) =
        get-insert num_items r (id_of n) item capacity b.valid (omega arith) (id_of k)
          (omega arith) in
      let inside : wrapping_sub (newest_after 32 r.newest (id_of n)) (id_of k) < 32 = omega arith in
      at ∙ rw (ne→== (id_of n) (id_of k) differs, lt→ltb _ _ inside) refl

  pub here_found : Ring.get num_items inserted (id_of n) ≡ some item
  here_found =
      (get-insert num_items r (id_of n) item capacity b.valid (omega arith) (id_of n)
        (omega arith)).1
      ∙ rw (eq→== (id_of n) (id_of n) refl) refl

  pub none_past : (k : ℕ) → high ≤ k → k < high_after high n → Ring.get num_items r (id_of k) ≡ none
  none_past k h lt =
      let newest = b.newest in
      let bounds = high_bounds in get_out num_items r (id_of k) (omega arith)

  pub inserted-IsKnown : IsKnown (n ∷ ns) (high_after high n) inserted
  inserted-IsKnown =
      let bounds = high_bounds in
      record {
        valid = insert-IsRing num_items r (id_of n) item capacity b.valid (omega arith);
        newest = newest_inserted;
        ahead = λ k h. ground (arith, b.ahead k (omega arith));
        newest_came = λ k e. elim (lt_or_le n high) [
          | inl inside ↦
              let top : high ≡ suc k = sym (rw (lt→ltb n high inside) refl) ∙ e in
              ground (arith, b.newest_came k top)
          | inr past ↦
              let top : suc n ≡ suc k = sym (rw (le→ltb n high past) refl) ∙ e in ground arith
        ];
        old = λ k lt. elim (lt_or_le n high) [
          | inl inside ↦
              let top : high_after high n ≡ high = rw (lt→ltb n high inside) refl in
              ground (arith, b.old k (omega (arith, lt, top)))
          | inr past ↦
              let top : high_after high n ≡ suc n = rw (le→ltb n high past) refl in
              ground (arith, sent k (omega (arith, lt, top)))
        ];
        window = λ k lt le. elim (eq_or_ne n k) [
          | inl e ↦ rw (sym e, here_found, eq→== n n refl) refl
          | inr ne ↦
              rw (other_found k lt le ne, ne→== n k ne)
                (elim (lt_or_le k high) [
                  | inl inside ↦ b.window k inside (omega arith)
                  | inr past ↦ rw (none_past k past lt, b.ahead k past) refl
                ])
        ];
      }
