-- ===== src/Inner/Receive/Numbers.antt =====
-- mini_udp/src/communicator/inner.rs: a buffer of received packets, against the packets that the
-- peer numbered 0, 1, 2, ... and whose numbers wrap on the wire.
pub mod Storing
pub mod Seen
use mini_udp.Prelude.{
  ℕ, suc, ◌+◌, ◌%◌, ◌≤◌, ◌<◌, ◌≡◌, refl, sym, ◌∙◌, arith, true, false, is_some, List, [], ◌∷◌,
  contains, inl, inr, eq_or_ne, eq→==, ne→==,
}
use mini_udp.Word.{u16_mod}
use mini_udp.Ring
use mini_udp.Ring.{RingBuffer}
use mini_udp.Ring.Slots.{IsRing}
use mini_udp.Ring.Window.{fresh-IsRing}
use mini_udp.Ack.{num_items}

-- The id of the packet with a number.
abbrev pub id_of : ℕ → ℕ
id_of n = n % u16_mod

-- The numbers in `ns` have arrived: none from `high` on, but all that are out of the window, and
-- the buffer has an item for those in it.
pub record IsKnown {T : Type 0} (ns : List ℕ) (high : ℕ) (r : RingBuffer T) : Type 0 where
  pub valid : IsRing num_items r
  pub newest : r.newest ≡ id_of (high + 65535)
  pub ahead : (k : ℕ) → high ≤ k → contains ns k ≡ false
  pub newest_came : (k : ℕ) → high ≡ suc k → contains ns k ≡ true
  pub old : (k : ℕ) → k + 32 < high → contains ns k ≡ true
  pub window :
      (k : ℕ) → k < high → high ≤ k + 32 → is_some (Ring.get num_items r (id_of k)) ≡ contains ns k

pub contains-again :
    (ns : List ℕ) (n k : ℕ) → contains ns n ≡ true → contains (n ∷ ns) k ≡ contains ns k
contains-again ns n k h = elim (eq_or_ne n k) [
  | inl e ↦ rw (eq→== n k e) (sym (rw e at h))
  | inr ne ↦ rw (ne→== n k ne) refl
]

-- A number that arrives again.
pub again-IsKnown :
    {T : Type 0} (ns : List ℕ) (high : ℕ) (r : RingBuffer T) (n : ℕ)
    → contains ns n ≡ true
    → IsKnown ns high r
    → IsKnown (n ∷ ns) high r
again-IsKnown ns high r n h b =
    let again : (k : ℕ) → contains (n ∷ ns) k ≡ contains ns k = λ k. contains-again ns n k h in
    record {
      valid = b.valid;
      newest = b.newest;
      ahead = λ k le. again k ∙ b.ahead k le;
      newest_came = λ k e. again k ∙ b.newest_came k e;
      old = λ k lt. again k ∙ b.old k lt;
      window = λ k lt le. b.window k lt le ∙ sym (again k);
    }

pub fresh-IsKnown : {T : Type 0} → IsKnown [] 0 (Ring.fresh num_items {T = T})
unfolding Ring.fresh
fresh-IsKnown = record {
  valid = fresh-IsRing num_items;
  newest = refl;
  ahead = λ k le. refl;
  newest_came = λ k e. absurd (omega arith);
  old = λ k lt. absurd (omega arith);
  window = λ k lt le. absurd (omega arith);
}
