-- ===== src/Debug/Faked/Unfaked.antt =====
-- The feature `debug` with no fakes set, against the code without them.
use mini_udp.Prelude.{
  ℕ, zero, suc, ◌+◌, ◌≡◌, refl, sym, ◌∙◌, ap, Bool, true, false, not, ◌==◌, if◌then◌else◌, Option,
  none, some, List, length, inl, inr, Bool-cases,
}
use mini_udp.Outcome.{Outcome, done, panicked, out_of_fuel, ◌>>=◌}
use mini_udp.Packet.{Packet}
use mini_udp.ByteRepr.{ByteRepr, Result, ok, err, panic}
use mini_udp.Socket.{System, UdpCommunicatorSocket, recv_from}
use mini_udp.Inner.{InnerUdpCommunicator}
use mini_udp.Inner.Receive
use mini_udp.Inner.Receive.{from_le_bytes, slice, debug_unwrap}
use mini_udp.Debug.{Random, Fakes, no_fakes, delay_packet, position_due, read_delayed}
use mini_udp.Debug.Faked.{
  State, corrupt, chance, accept, check, read_packet, receive_loop, delayed_loop, receive,
}

-- As `bind` leaves them, the logs on or off.
abbrev pub as_bound : ℕ → Bool → Fakes
as_bound draws logs = record (no_fakes draws) { debug_logs = logs }

-- An equation of outcomes, by what the first call returns.
pub outcome_cases :
    {A B : Type 0} (x : Outcome A) (f g : A → Outcome B)
    → ((a : A) → x ≡ done a → f a ≡ g a)
    → (x >>= f) ≡ (x >>= g)
outcome_cases (done a) f g h = h a refl
outcome_cases panicked f g h = refl
outcome_cases out_of_fuel f g h = refl

pub bind_assoc :
    {A B C : Type 0} (x : Outcome A) (f : A → Outcome B) (g : B → Outcome C)
    → ((x >>= f) >>= g) ≡ (x >>= λ a. f a >>= g)
bind_assoc (done a) f g = refl
bind_assoc panicked f g = refl
bind_assoc out_of_fuel f g = refl

module _ {SEND RECV : Type 0} (random : Random) (system : System) (checksum : List ℕ → ℕ)
    (repr : ByteRepr (Packet RECV)) (draws : ℕ) (logs : Bool) where
  abbrev beside : InnerUdpCommunicator SEND RECV × UdpCommunicatorSocket → Outcome (State SEND RECV)
  beside next = done (next.0, next.1, as_bound draws logs)

  accept_unfaked :
      (r : Result (Packet RECV)) (c : InnerUdpCommunicator SEND RECV) (s : UdpCommunicatorSocket)
      → accept random system checksum repr r c s (as_bound draws logs) ≡ (
          (Receive.accept true system checksum repr c s.os r >>= λ next.
          done (next.0, record s { os = next.1 }))
          >>= beside)
  unfolding accept chance Receive.accept no_fakes
  accept_unfaked (ok p) c s = refl
  accept_unfaked (err e) c s = refl
  accept_unfaked panic c s = refl

  module _ (n : ℕ) (c : InnerUdpCommunicator SEND RECV) (s : UdpCommunicatorSocket) where
    -- The two functions from the test of the checksum on.
    tested : List ℕ → List ℕ → Outcome (InnerUdpCommunicator SEND RECV × UdpCommunicatorSocket)
    tested bytes crc_bytes =
        if not (checksum bytes == from_le_bytes crc_bytes)
        then done (c, s)
        else (Receive.accept true system checksum repr c s.os (repr.from_bytes bytes) >>= λ next.
            done (next.0, record s { os = next.1 }))

    check_unfaked :
        (bytes : List ℕ)
        → slice s.data_buffer 4 n ≡ done bytes
        → check random system checksum repr n c s (as_bound draws logs)
          ≡ ((slice s.data_buffer 0 4 >>= tested bytes) >>= beside)
    unfolding check tested
    check_unfaked bytes e =
        outcome_cases (slice s.data_buffer 0 4) _ (λ crc_bytes. tested bytes crc_bytes >>= beside)
          (λ crc_bytes h. rw e (elim (Bool-cases (checksum bytes == from_le_bytes crc_bytes)) [
            | inl same ↦ rw same (accept_unfaked (repr.from_bytes bytes) c s)
            | inr differs ↦ rw differs refl
          ]))
        ∙ sym (bind_assoc (slice s.data_buffer 0 4) (tested bytes) beside)

    pub read_packet_unfaked :
        read_packet random system checksum repr n (c, s, as_bound draws logs)
        ≡ (Receive.read_packet true system checksum repr n s c >>= beside)
    unfolding read_packet corrupt chance Receive.read_packet no_fakes tested
    read_packet_unfaked =
        let unwrapped : List ℕ
            → Unit {0}
            → Outcome (InnerUdpCommunicator SEND RECV × UdpCommunicatorSocket) =
          λ bytes u. slice s.data_buffer 0 4 >>= tested bytes in
        let sliced : List ℕ → Outcome (InnerUdpCommunicator SEND RECV × UdpCommunicatorSocket) =
          λ bytes. debug_unwrap true repr bytes >>= unwrapped bytes in
        outcome_cases (slice s.data_buffer 4 n) _ (λ bytes. sliced bytes >>= beside)
          (λ bytes e.
            outcome_cases (debug_unwrap true repr bytes) _ (λ u. unwrapped bytes u >>= beside)
              (λ u h. check_unfaked bytes e)
            ∙ sym (bind_assoc (debug_unwrap true repr bytes) (unwrapped bytes) beside))
        ∙ sym (bind_assoc (slice s.data_buffer 4 n) sliced beside)

  event_unfaked :
      (fuel : ℕ) (c : InnerUdpCommunicator SEND RECV) (event : Option (ℕ × ℕ))
      (s1 : UdpCommunicatorSocket)
      → ((c' : InnerUdpCommunicator SEND RECV) (s' : UdpCommunicatorSocket)
          → receive_loop random system checksum repr fuel (c', s', as_bound draws logs)
            ≡ (Receive.receive_loop true system checksum repr fuel s' c' >>= beside))
      → (elim event [
        | none ↦ done (c, s1, as_bound draws logs)
        | some (n, addr) ↦
            let (held, f', socket2) = delay_packet random system (as_bound draws logs) s1 none n in
            elim held [
              | true ↦ receive_loop random system checksum repr fuel (c, socket2, f')
              | false ↦
                  read_packet random system checksum repr n (c, socket2, f')
                  >>= receive_loop random system checksum repr fuel
            ]
      ])
        ≡ ((elim event [
          | none ↦ done (c, s1)
          | some (n, addr) ↦ Receive.read_packet true system checksum repr n s1 c >>= λ next.
              Receive.receive_loop true system checksum repr fuel next.1 next.0
        ])
            >>= beside)
  unfolding delay_packet no_fakes
  event_unfaked fuel c none s1 again = refl
  event_unfaked fuel c (some (n, addr)) s1 again =
      let rest : InnerUdpCommunicator SEND RECV × UdpCommunicatorSocket
          → Outcome (InnerUdpCommunicator SEND RECV × UdpCommunicatorSocket) =
        λ next. Receive.receive_loop true system checksum repr fuel next.1 next.0 in
      ap (λ x. x >>= receive_loop random system checksum repr fuel) (read_packet_unfaked n c s1)
      ∙ bind_assoc (Receive.read_packet true system checksum repr n s1 c) beside
          (receive_loop random system checksum repr fuel)
      ∙ outcome_cases (Receive.read_packet true system checksum repr n s1 c) _
          (λ next. rest next >>= beside) (λ next h. again next.0 next.1)
      ∙ sym (bind_assoc (Receive.read_packet true system checksum repr n s1 c) rest beside)

  receive_loop_unfaked :
      (fuel : ℕ) (c : InnerUdpCommunicator SEND RECV) (s : UdpCommunicatorSocket)
      → receive_loop random system checksum repr fuel (c, s, as_bound draws logs)
        ≡ (Receive.receive_loop true system checksum repr fuel s c >>= beside)
  unfolding receive_loop Receive.receive_loop delay_packet no_fakes
  receive_loop_unfaked zero c s = refl
  receive_loop_unfaked (suc fuel) c s =
      event_unfaked fuel c (recv_from s).0 (recv_from s).1 (receive_loop_unfaked fuel)

  -- With the feature `debug`, no packets held back, no probabilities and no delay set, the logs
  -- on or off, and whatever random numbers, `receive` does just what it does in the code without
  -- the fakes, in which `read_packet` still unwraps.
  pub receive_unfaked :
      (c : InnerUdpCommunicator SEND RECV) (s : UdpCommunicatorSocket)
      → receive random system checksum repr (c, s, as_bound draws logs) ≡ (
          Receive.receive true system checksum repr s c >>= λ next.
          done (next.0, next.1, as_bound draws logs))
  unfolding receive Receive.receive delayed_loop read_delayed position_due no_fakes
  receive_unfaked c s =
      let first : Outcome (InnerUdpCommunicator SEND RECV × UdpCommunicatorSocket) =
        Receive.receive_loop true system checksum repr (length s.os.inbox + 1) s c in
      let rest : State SEND RECV → Outcome (State SEND RECV) =
        λ state. delayed_loop random system checksum repr (length state.2.delayed + 1) state in
      ap (λ x. x >>= rest) (receive_loop_unfaked (length s.os.inbox + 1) c s)
      ∙ bind_assoc first beside rest
      ∙ outcome_cases first _ beside (λ next h. refl)
