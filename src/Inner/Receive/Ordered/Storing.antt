-- ===== src/Inner/Receive/Ordered/Storing.antt =====
-- `insert` of an ordered packet that is new, and its messages.
use mini_udp.Prelude.{
  ℕ, ◌+◌, ◌≤◌, ◌<◌, ◌≡◌, sym, ◌∙◌, arith, true, false, List, ◌∷◌, contains, inl, inr, lt_or_le,
  eq_or_ne, lt→ltb, le→ltb,
}
use mini_udp.Ring
use mini_udp.Packet.{Packet}
use mini_udp.Ack.{num_items}
use mini_udp.Inner.Receive.{Delivery}
use mini_udp.Inner.Receive.Numbers.{id_of}
use mini_udp.Inner.Receive.Numbers.Storing.{
  high_after, high_bounds, other_found, here_found, none_past, inserted-IsKnown,
}
use mini_udp.Inner.Receive.Ordered.{IsBuffered}

abbrev pub stored : {RECV : Type 0} → ℕ → Packet RECV → Delivery RECV → Delivery RECV
stored n p d = record d { received = Ring.insert num_items d.received (id_of n) p }

module _ {RECV : Type 0} (log : ℕ → List RECV) (ns : List ℕ) (low high : ℕ) (d : Delivery RECV)
    (b : IsBuffered log ns low high d) (n : ℕ) (p : Packet RECV)
    (sent : (j : ℕ) → j + 32 ≤ n → contains ns j ≡ true) (missing : contains ns low ≡ false)
    (fresh : contains ns n ≡ false) where
  within_reach : n < low + 32
  within_reach = elim (lt_or_le n (low + 32)) [
    | inl lt ↦ lt
    | inr le ↦ absurd (grind (arith, missing, sent low le))
  ]

  not_before : low ≤ n
  not_before = elim (lt_or_le n low) [
    | inl before ↦ absurd (grind (arith, fresh, b.came n before))
    | inr h ↦ h
  ]

  -- The buffer as it is before the loop hands packets on.
  pub stored-IsBuffered :
      p.messages ≡ log n → IsBuffered log (n ∷ ns) low (high_after high n) (stored n p d)
  stored-IsBuffered same =
      let bounds = high_bounds ns high d.received b.known n p sent fresh in
      let above = b.above in
      let close' = close in
      let after = not_before in
      let reach = within_reach in
      record {
        known = inserted-IsKnown ns high d.received b.known n p sent fresh;
        head = b.head;
        above = omega arith;
        near = close;
        came = λ k lt. ground (arith, b.came k lt);
        messages = λ k q h lt e. elim (eq_or_ne n k) [
          | inl at ↦
              grind (arith, at, same, e, here_found ns high d.received b.known n p sent fresh)
          | inr ne ↦
              let before =
                sym (other_found ns high d.received b.known n p sent fresh k lt (omega arith) ne)
                ∙ e in
              elim (lt_or_le k high) [
                | inl inside ↦ b.messages k q h inside before
                | inr past ↦
                    absurd
                      (cc (before, none_past ns high d.received b.known n p sent fresh k past lt))
              ]
        ];
      }
    where
      close : high_after high n ≤ low + 32
      close =
          let near = b.near in
          let reach = within_reach in
          elim (lt_or_le n high) [
            | inl inside ↦ rw (lt→ltb n high inside) near
            | inr past ↦ rw (le→ltb n high past) (omega arith)
          ]
