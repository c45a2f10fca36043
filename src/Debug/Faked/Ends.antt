-- ===== src/Debug/Faked/Ends.antt =====
-- `receive` of the feature `debug` ends, whatever it fakes.
use mini_udp.Prelude.{
  ℕ, zero, suc, ◌+◌, ◌<◌, ◌≡◌, ◌≢◌, refl, sym, ◌∙◌, ap, arith, Bool, true, false, ltb, if_lem,
  Bool-cases, inl, inr, Option, none, some, List, [], ◌∷◌, length,
}
use mini_udp.Outcome.{Outcome, done, panicked, out_of_fuel, ◌>>=◌}
use mini_udp.Packet.{Packet}
use mini_udp.ByteRepr.{ByteRepr}
use mini_udp.Socket.{SocketAddr, Datagram, System, UdpCommunicatorSocket, now, recv_from}
use mini_udp.Inner.{InnerUdpCommunicator}
use mini_udp.Debug.{Random, Fakes, delay_packet, read_delayed}
use mini_udp.Debug.Held.{Taken, one_due, read_delayed_lem}
use mini_udp.Debug.Faked.{State, read_packet, receive_loop, delayed_loop, receive}
use mathlib.Core.List.{Perm}
use mathlib.Core.List.Perm
use mathlib.Core.List
use native.Mathlib.Bridge.{from_ℕ}
use mini_udp.Debug.Faked.Over.{Over, Any, Over-bind, SameWaiting, read_packet-Over}

-- The library's length, as a native number.
from_ℕ-length : {A : Type 0} (xs : List A) → from_ℕ (List.length xs) ≡ length xs
from_ℕ-length [] = refl
from_ℕ-length (x ∷ xs) = ap suc (from_ℕ-length xs)

length-Perm : {A : Type 0} (xs ys : List A) → Perm xs ys → length xs ≡ length ys
length-Perm xs ys h = sym (from_ℕ-length xs) ∙ ap from_ℕ (Perm.length-eq h) ∙ from_ℕ-length ys

abbrev ended : {A : Type 0} → Outcome A → Bool
ended (done a) = true
ended panicked = true
ended out_of_fuel = false

in_fuel : {A : Type 0} (x : Outcome A) → Over Any x → x ≢ out_of_fuel
in_fuel (done a) h e = ground (arith, ap ended e)
in_fuel panicked h e = ground (arith, ap ended e)
in_fuel out_of_fuel h e = ground (arith, h)

-- An event that is not an error is one fewer to come.
abbrev Taking : UdpCommunicatorSocket → Option (ℕ × ℕ) × UdpCommunicatorSocket → Type 0
Taking s (none, s') = Unit {0}
Taking s (some e, s') = length s'.os.inbox < length s.os.inbox

recv_from-Taking :
    (events : List (Option (SocketAddr × Datagram))) (s : UdpCommunicatorSocket)
    → s.os.inbox ≡ events
    → Taking s (recv_from s)
unfolding recv_from
recv_from-Taking [] s e = rw e tt
recv_from-Taking (none ∷ events) s e = rw e tt
recv_from-Taking (some (addr, bytes) ∷ events) s e = rw e (omega arith)

delay_packet-inbox :
    (random : Random) (system : System) (f : Fakes) (s : UdpCommunicatorSocket) (n : ℕ)
    → (delay_packet random system f s none n).2.os.inbox ≡ s.os.inbox
unfolding delay_packet now
delay_packet-inbox random system f s n =
    if_lem (λ (r : Bool × Fakes × UdpCommunicatorSocket). r.2.os.inbox ≡ s.os.inbox)
      (ltb f.first f.end) _ _ refl refl

module _ {SEND RECV : Type 0} (random : Random) (system : System) (checksum : List ℕ → ℕ)
    (repr : ByteRepr (Packet RECV)) where
  event_Over :
      (fuel : ℕ) (c : InnerUdpCommunicator SEND RECV) (f : Fakes) (event : Option (ℕ × SocketAddr))
      (s s1 : UdpCommunicatorSocket)
      → length s.os.inbox < suc fuel
      → Taking s (event, s1)
      → ((c' : InnerUdpCommunicator SEND RECV) (s' : UdpCommunicatorSocket) (f' : Fakes)
          → length s'.os.inbox < fuel
          → Over Any (receive_loop random system checksum repr fuel (c', s', f')))
      → Over {A = State SEND RECV} Any (elim event [
        | none ↦ done (c, s1, f)
        | some (n, addr) ↦
            let (held, f', socket2) = delay_packet random system f s1 none n in
            elim held [
              | true ↦ receive_loop random system checksum repr fuel (c, socket2, f')
              | false ↦
                  read_packet random system checksum repr n (c, socket2, f')
                  >>= receive_loop random system checksum repr fuel
            ]
      ])
  unfolding delay_packet now
  event_Over fuel c f none s s1 h taken again = tt
  event_Over fuel c f (some (n, addr)) s s1 h taken again = elim (Bool-cases (ltb f.first f.end)) [
    | inl e ↦
        rw e (again c _ _ (omega (arith, ap length (delay_packet-inbox random system f s1 n))))
    | inr e ↦
        let (held, f2, s2) = delay_packet random system f s1 none n in
        rw e (
          Over-bind (SameWaiting random system checksum repr s2 f2) Any
            (read_packet random system checksum repr n (c, s2, f2))
            (receive_loop random system checksum repr fuel)
            (read_packet-Over random system checksum repr n c s2 f2)
            (λ (c', s', f') same. again c' s' f' (
              omega
                (arith, ap length same.0, ap length (delay_packet-inbox random system f s1 n)))))
  ]

  receive_loop-Over :
      (fuel : ℕ) (c : InnerUdpCommunicator SEND RECV) (s : UdpCommunicatorSocket) (f : Fakes)
      → length s.os.inbox < fuel
      → Over Any (receive_loop random system checksum repr fuel (c, s, f))
  unfolding receive_loop
  receive_loop-Over zero c s f h = absurd (omega arith)
  receive_loop-Over (suc fuel) c s f h =
      event_Over fuel c f (recv_from s).0 s (recv_from s).1 h (recv_from-Taking s.os.inbox s refl)
        (λ c' s' f' less. receive_loop-Over fuel c' s' f' less)

  found_Over :
      (fuel : ℕ) (c : InnerUdpCommunicator SEND RECV) (f f' : Fakes) (s s' : UdpCommunicatorSocket)
      (found : Option (ℕ × Option SocketAddr))
      → length f.delayed < suc fuel
      → Taken system f f' s s' found
      → ((c1 : InnerUdpCommunicator SEND RECV) (s1 : UdpCommunicatorSocket) (f1 : Fakes)
          → length f1.delayed < fuel
          → Over Any (delayed_loop random system checksum repr fuel (c1, s1, f1)))
      → Over {A = State SEND RECV} Any (elim found [
        | none ↦ done (c, s', f')
        | some (n, addr) ↦
            read_packet random system checksum repr n (c, s', f')
            >>= delayed_loop random system checksum repr fuel
      ])
  found_Over fuel c f f' s s' none h taken again = tt
  found_Over fuel c f f' s s' (some _) h (one_due packet at due perm same) again =
      Over-bind (SameWaiting random system checksum repr s' f') Any
        (read_packet random system checksum repr packet.n (c, s', f'))
        (delayed_loop random system checksum repr fuel)
        (read_packet-Over random system checksum repr packet.n c s' f')
        (λ (c1, s1, f1) waiting.
          again c1 s1 f1
            (omega (arith, ap length waiting.1, length-Perm f.delayed (packet ∷ f'.delayed) perm)))

  delayed_loop-Over :
      (fuel : ℕ) (c : InnerUdpCommunicator SEND RECV) (s : UdpCommunicatorSocket) (f : Fakes)
      → length f.delayed < fuel
      → Over Any (delayed_loop random system checksum repr fuel (c, s, f))
  unfolding delayed_loop
  delayed_loop-Over zero c s f h = absurd (omega arith)
  delayed_loop-Over (suc fuel) c s f h =
      let (found, f', s') = read_delayed system f s in
      found_Over fuel c f f' s s' found h (read_delayed_lem system f s)
        (λ c1 s1 f1 less. delayed_loop-Over fuel c1 s1 f1 less)

  -- With the feature `debug`, `receive` ends, by a panic or with a result, from every state of
  -- the connection and of the socket, whatever the datagrams, the fakes and the random numbers
  -- are.
  pub receive_ends :
      (c : InnerUdpCommunicator SEND RECV) (s : UdpCommunicatorSocket) (f : Fakes)
      → receive random system checksum repr (c, s, f) ≢ out_of_fuel
  unfolding receive
  receive_ends c s f = in_fuel _ (
      Over-bind {A = State SEND RECV} Any Any
        (receive_loop random system checksum repr (length s.os.inbox + 1) (c, s, f))
        (λ (c', s', f').
          delayed_loop random system checksum repr (length f'.delayed + 1) (c', s', f'))
        (receive_loop-Over (length s.os.inbox + 1) c s f (omega arith))
        (λ (c', s', f') h. delayed_loop-Over (length f'.delayed + 1) c' s' f' (omega arith)))
