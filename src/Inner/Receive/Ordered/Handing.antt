-- ===== src/Inner/Receive/Ordered/Handing.antt =====
-- The loop of `read_packet` that hands ordered packets on, by the numbers of the packets.
use mini_udp.Prelude.{
  ℕ, suc, ◌+◌, ◌≤◌, ◌<◌, ◌≡◌, sym, ap, ◌∙◌, arith, true, false, is_some, some, none, List, [], ◌∷◌,
  ◌++◌, length, contains, inl, inr, lt_or_le,
}
use mini_udp.Word.{wrapping_add}
use mini_udp.Ring.Window.{get-some-in_window}
use mini_udp.Packet.{Packet}
use mini_udp.Ack.{num_items}
use mini_udp.Inner.Receive.{Delivery, deliver}
use mini_udp.Inner.Receive.Steps.{found, IsRun, contents}
use mini_udp.Inner.Receive.Deliver.{deliver_lem}
use mini_udp.Inner.Receive.Ordered.{logged, IsBuffered}
use mini_udp.Inner.Receive.Numbers.{id_of}
use mathlib.Core.List.{append_assoc, append-nil}

module _ {RECV : Type 0} (log : ℕ → List RECV) (ns : List ℕ) (low high : ℕ) (d : Delivery RECV)
    (b : IsBuffered log ns low high d) where
  -- A packet that is found from `low` on is before `high`.
  found_below :
      (k : ℕ) (p : Packet RECV)
      → low ≤ k
      → k < low + 32
      → found d.received (id_of k) ≡ some p
      → k < high
  found_below k p h near e =
      let inside = get-some-in_window num_items d.received (id_of k) p e in
      let newest = b.known.newest in let above = b.above in omega arith

  record HasRun (k : ℕ) (ps : List (Packet RECV)) : Type 0 where
    within : k + length ps ≤ high
    came : (j : ℕ) → k ≤ j → j < k + length ps → contains ns j ≡ true
    joined : logged log (k + length ps) ≡ logged log k ++ contents ps

  run_lem :
      (ps : List (Packet RECV)) (k id : ℕ)
      → id ≡ id_of k
      → low ≤ k
      → k ≤ high
      → k + length ps ≤ low + 32
      → IsRun d.received id ps
      → HasRun k ps
  unfolding contents logged
  run_lem [] k id e h le near run = record {
    within = omega arith;
    came = λ j lo hi. absurd (omega arith);
    joined =
        let same : k + 0 ≡ k = omega arith in
        ap (logged log) same ∙ sym (append-nil (logged log k));
  }
  run_lem (p ∷ ps) k id e h le near (here, run) =
      let there : found d.received (id_of k) ≡ some p = rw e at here in
      let below = found_below k p h (omega arith) there in
      let rest =
        run_lem ps (suc k) (wrapping_add id 1) (omega arith) (omega arith) (omega arith)
          (omega arith) run in
      let same : k + suc (length ps) ≡ suc k + length ps = omega arith in
      let above = b.above in
      let near' = b.near in
      record {
        within = omega (arith, rest.within);
        came = λ j lo hi. elim (lt_or_le k j) [
          | inl after ↦ rest.came j (omega arith) (omega arith)
          | inr before ↦
              let at_k : j ≡ k = omega arith in
              rw at_k (sym (b.known.window k below (omega arith)) ∙ rw there)
        ];
        joined =
            ap (logged log) same
            ∙ rest.joined
            ∙ ap (λ ms. (logged log k ++ ms) ++ contents ps) (sym (b.messages k p h below there))
            ∙ append_assoc (logged log k) p.messages (contents ps);
      }

  -- The loop hands on the messages from `low` to the first number that has not arrived.
  pub deliver-IsBuffered :
      (low' : ℕ) × IsBuffered log ns low' high (deliver d)
      × (contains ns low' ≡ false)
      × (ms : List RECV) × ((deliver d).queue ≡ d.queue ++ ms)
      × (logged log low' ≡ logged log low ++ ms)
  deliver-IsBuffered =
      let head = b.head in
      let newest = b.known.newest in
      let above = b.above in
      let near = b.near in
      let (ps, short, done) = deliver_lem d b.known.valid (omega arith) (omega arith) in
      let r = run_lem ps low d.head head (omega arith) above (omega arith) done.run in
      let within = r.within in
      let moved = done.head_moved in
      let at : (deliver d).head ≡ id_of (low + length ps) = omega arith in
      let still : found (deliver d).received (id_of (low + length ps)) ≡ none =
        rw at at done.maximal in
      let kept : (k : ℕ)
          → k < high
          → high ≤ k + 32
          → is_some (found (deliver d).received (id_of k)) ≡ contains ns k =
        λ k lt le. done.same_ids (id_of k) (omega arith) ∙ b.known.window k lt le in
      (
        low + length ps,
        record {
          known = record {
            valid = done.still_valid;
            newest = done.same_newest ∙ newest;
            ahead = b.known.ahead;
            newest_came = b.known.newest_came;
            old = b.known.old;
            window = kept;
          };
          head = at;
          above = within;
          near = omega arith;
          came = λ k lt. elim (lt_or_le k low) [
            | inl before ↦ b.came k before
            | inr after ↦ r.came k after lt
          ];
          messages = λ k p le lt e.
              b.messages k p (omega arith) lt
                (sym (done.later (id_of k) (omega arith) (omega arith)) ∙ e);
        },
        elim (lt_or_le (low + length ps) high) [
          | inl inside ↦ sym (kept (low + length ps) inside (omega arith)) ∙ rw still
          | inr outside ↦ b.known.ahead (low + length ps) outside
        ],
        contents ps,
        done.queued,
        r.joined,
      )
