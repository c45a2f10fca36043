-- ===== src/Debug/Held.antt =====
-- mini_udp/src/communicator/debug.rs: what `read_delayed` takes from the packets held back.
use mini_udp.Prelude.{
  ℕ, zero, suc, ◌+◌, ◌-◌, ◌<◌, ◌≤◌, ◌≡◌, refl, arith, true, false, ◌==◌, if_cases, Option, none,
  some, List, [], ◌∷◌, length, take, get_or, set,
}
use mini_udp.Socket.{clock, System, Os, UdpCommunicatorSocket, now}
use mini_udp.Debug.{DelayedPacket, Fakes, position_due, swap_remove, read_delayed}
use mathlib.Core.List.{Perm}
use mathlib.Core.List.Perm

module _ {A : Type 0} (d : A) where
  last-Perm :
      (y : A) (ys : List A)
      → Perm (y ∷ ys) (get_or (y ∷ ys) (length ys) d ∷ take (length ys) (y ∷ ys))
  last-Perm y [] = Perm.refl _
  last-Perm y (z ∷ zs) = Perm.trans (Perm.cons y (last-Perm z zs)) (Perm.swap _ _ _)

  removed-Perm :
      (y : A) (ys : List A) (i : ℕ)
      → i ≤ length ys
      → Perm
          (y ∷ ys)
          (get_or (y ∷ ys) i d ∷ take (length ys) (set (y ∷ ys) i (get_or (y ∷ ys) (length ys) d)))
  removed-Perm y [] zero h = Perm.refl _
  removed-Perm y [] (suc i) h = absurd (omega arith)
  removed-Perm y (z ∷ zs) zero h = Perm.cons y (last-Perm z zs)
  removed-Perm y (z ∷ zs) (suc i) h =
      Perm.trans (Perm.cons y (removed-Perm z zs i (omega arith))) (Perm.swap _ _ _)

  swap_remove-Perm :
      (xs : List A) (i : ℕ)
      → i < length xs
      → Perm xs ((swap_remove d xs i).0 ∷ (swap_remove d xs i).1)
  unfolding swap_remove
  swap_remove-Perm [] i h = absurd (omega arith)
  swap_remove-Perm (y ∷ ys) i h =
      let last : suc (length ys) - 1 ≡ length ys = omega arith in
      rw last (removed-Perm y ys i (omega arith))

module _ (system : System) where
  -- None of the packets has come due, the clock read once for each of them.
  abbrev pub Waiting : ℕ → List DelayedPacket → Type 0
  Waiting r [] = Unit {0}
  Waiting r (x ∷ xs) = (clock system r < x.due) × Waiting (r + 1) xs

module _ (system : System) (d : DelayedPacket) where
  -- An index that is found is one of a packet whose time has come.
  abbrev Found : ℕ → List DelayedPacket → ℕ → Option ℕ → Type 0
  Found r xs k none = Waiting system r xs
  Found r xs k (some i) =
      (k ≤ i) × (i - k < length xs) × ((at : ℕ) × ((get_or xs (i - k) d).due ≤ clock system at))

  later-Found :
      (r : ℕ) (x : DelayedPacket) (xs : List DelayedPacket) (k : ℕ) (found : Option ℕ)
      → clock system r < x.due
      → Found (r + 1) xs (k + 1) found
      → Found r (x ∷ xs) k found
  later-Found r x xs k none early f = (early, f)
  later-Found r x xs k (some i) early (h, inside, (at, due)) =
      let step : i - k ≡ suc (i - (k + 1)) = omega arith in
      (omega arith, omega arith, (at, rw step due))

  position_due-Found :
      (os : Os) (xs : List DelayedPacket) (k : ℕ)
      → Found os.reads xs k (position_due system os xs k).0
  unfolding position_due now
  position_due-Found os [] k = tt
  position_due-Found os (x ∷ xs) k =
      let (time, os') = now system os in
      let here : k - k ≡ 0 = omega arith in
      if_cases (λ (r : Option ℕ × Os). Found os.reads (x ∷ xs) k r.0) (x.due - time == 0)
        (some k, os') (position_due system os' xs (k + 1))
        (λ e. (omega arith, omega arith, (os.reads, rw here (due_now x.due time e))))
        (λ e.
          later-Found os.reads x xs k (position_due system os' xs (k + 1)).0 (not_yet x.due time e)
            (position_due-Found os' xs (k + 1)))
    where
      due_now : (due time : ℕ) → (due - time == 0) ≡ true → due ≤ time
      due_now due time e = ground arith

      not_yet : (due time : ℕ) → (due - time == 0) ≡ false → time < due
      not_yet due time e = ground arith

-- What comes out, and what is still held: nothing is lost and nothing made up.
pub data Taken (system : System) (f f' : Fakes) (s s' : UdpCommunicatorSocket)
    : Option (ℕ × Option ℕ) → Type 0 where
  all_wait :
      Waiting system s.os.reads f.delayed → f'.delayed ≡ f.delayed → Taken system f f' s s' none
  one_due :
      (packet : DelayedPacket) (at : ℕ)
      → packet.due ≤ clock system at
      → Perm f.delayed (packet ∷ f'.delayed)
      → s'.data_buffer ≡ packet.buffer
      → Taken system f f' s s' (some (packet.n, packet.addr))

abbrev no_packet : DelayedPacket
no_packet = record { addr = none; buffer = []; n = 0; due = 0 }

hand_out :
    (system : System) (f : Fakes) (s : UdpCommunicatorSocket) (os : Os) (found : Option ℕ)
    → Found system no_packet s.os.reads f.delayed 0 found
    → let out : Option (ℕ × Option ℕ) × Fakes × UdpCommunicatorSocket = elim found [
      | none ↦ (none, f, record s { os = os })
      | some i ↦
          let (packet, left) = swap_remove no_packet f.delayed i in
          (
            some (packet.n, packet.addr),
            record f { delayed = left },
            record s { os = os; data_buffer = packet.buffer },
          )
    ] in
      Taken system f out.1 s out.2 out.0
hand_out system f s os none waiting = all_wait waiting refl
hand_out system f s os (some i) (h, inside, (at, due)) =
    let same : i - 0 ≡ i = omega arith in
    one_due (swap_remove no_packet f.delayed i).0 at (rw taken (rw same at due))
      (swap_remove-Perm no_packet f.delayed i (rw same at inside)) refl
  where
    taken : (swap_remove no_packet f.delayed i).0 ≡ get_or f.delayed i no_packet
    taken = unfold swap_remove in refl

-- `read_delayed` returns nothing and keeps all packets if none of them has come due, the clock
-- read once for each; otherwise it returns a packet whose time has come, with its bytes in the
-- buffer, and what is still held is the other packets, in some order.
pub read_delayed_lem :
    (system : System) (f : Fakes) (s : UdpCommunicatorSocket)
    → let (found, f', s') = read_delayed system f s in Taken system f f' s s' found
unfolding read_delayed
read_delayed_lem system f s =
    hand_out system f s (position_due system s.os f.delayed 0).1
      (position_due system s.os f.delayed 0).0
      (position_due-Found system no_packet s.os f.delayed 0)
