-- ===== src/Inner/Sound.antt =====
-- mini_udp/src/communicator/inner.rs: what `receive` returns is well-formed, if it returns.
pub mod Sends
use mini_udp.Prelude.{
  ℕ, zero, suc, ◌≡◌, refl, ap, arith, Bool, not, ◌==◌, if◌then◌else◌, if_lem, is_empty, Option,
  none, some, List, All,
}
use mathlib.Core.Path.{subst}
use mini_udp.Outcome.{Outcome, done, panicked, out_of_fuel, ◌>>=◌}
use mini_udp.Packet.{Packet}
use mini_udp.ByteRepr.{ByteRepr, Result, ok, err, panic}
use mini_udp.Socket.{System, Os, UdpCommunicatorSocket, recv_from}
use mini_udp.Inner.{InnerUdpCommunicator}
use mini_udp.Inner.Flush.Packs.{Fits}
use mini_udp.Inner.Receive.{
  acknowledge_packet, store, is_duplicate, is_too_old, handle_packet, from_le_bytes, slice,
  debug_unwrap, accept, read_packet, receive_loop,
}
use mini_udp.Inner.Receive.Keeps.{IsWire, IsValid}
use mini_udp.Inner.Receive.Once.{handle_packet-IsValid}

-- A property of what a call returns, if it returns.
abbrev pub Returns : {A : Type 0} → (A → Type 0) → Outcome A → Type 0
Returns {A} P x = (a : A) → x ≡ done a → P a

abbrev pub value_or : {A : Type 0} → A → Outcome A → A
value_or a (done b) = b
value_or a panicked = a
value_or a out_of_fuel = a

pub returns : {A : Type 0} (P : A → Type 0) (a : A) → P a → Returns P (done a)
returns P a h b e = subst P (ap (value_or a) e) h

abbrev pub is_done : {A : Type 0} → Outcome A → ℕ
is_done (done a) = 1
is_done panicked = 0
is_done out_of_fuel = 0

pub no_value : {A : Type 0} {B : Type 0} (x : Outcome A) (a : A) → is_done x ≡ 0 → x ≡ done a → B
no_value x a h e = absurd (omega (arith, h, ap is_done e))

pub Returns-bind :
    {A B : Type 0} (P : A → Type 0) (Q : B → Type 0) (x : Outcome A) (f : A → Outcome B)
    → Returns P x
    → ((a : A) → P a → Returns Q (f a))
    → Returns Q (x >>= f)
Returns-bind P Q (done a) f h k = k a (h a refl)
Returns-bind P Q panicked f h k = λ b e. no_value panicked b refl e
Returns-bind P Q out_of_fuel f h k = λ b e. no_value out_of_fuel b refl e

-- Well-formed, and every unreliable message fits a packet.
pub record IsSound {SEND RECV : Type 0} (repr : ByteRepr SEND) (c : InnerUdpCommunicator SEND RECV)
    : Type 0 where
  pub valid : IsValid c
  pub fit : All (Fits repr) c.unreliable_send_queue

module _ {SEND RECV : Type 0} (c : InnerUdpCommunicator SEND RECV) (p : Packet RECV) where
  abbrev SameQueue : InnerUdpCommunicator SEND RECV → Type 0
  SameQueue d = d.unreliable_send_queue ≡ c.unreliable_send_queue

  handle_packet_queue : SameQueue (handle_packet c p)
  unfolding handle_packet acknowledge_packet store
  handle_packet_queue =
      if_lem SameQueue (not p.reliable) _ _ (if_lem SameQueue (is_empty p.messages) c _ refl refl) (
        if_lem SameQueue (is_duplicate c p) _ _ refl
          (if_lem SameQueue (is_too_old c p) _ _ refl (if_lem SameQueue p.ordered _ _ refl refl)))

module _ {SEND RECV : Type 0} (repr : ByteRepr SEND) where
  seen-IsSound :
      (c : InnerUdpCommunicator SEND RECV) (time : ℕ)
      → IsSound repr c
      → IsSound repr (record c { last_seen = time })
  seen-IsSound c time s = record {
    valid = record {
      reliable_sent = s.valid.reliable_sent;
      ordered_sent = s.valid.ordered_sent;
      reliable_received = s.valid.reliable_received;
      ordered_received = s.valid.ordered_received;
      head = s.valid.head;
      unreliable_id = s.valid.unreliable_id;
    };
    fit = s.fit;
  }

  handle_packet-IsSound :
      (c : InnerUdpCommunicator SEND RECV) (p : Packet RECV)
      → IsSound repr c
      → IsWire p
      → IsSound repr (handle_packet c p)
  handle_packet-IsSound c p s w = record {
    valid = handle_packet-IsValid c p s.valid w;
    fit = rw (handle_packet_queue c p) s.fit;
  }

  module _ (debug : Bool) (system : System) (checksum : List ℕ → ℕ)
      (packet_repr : ByteRepr (Packet RECV))
      (typed : (bytes : List ℕ) (p : Packet RECV)
        → packet_repr.from_bytes bytes ≡ ok p
        → IsWire p) where
    abbrev pub SoundFirst : {B : Type 0} → InnerUdpCommunicator SEND RECV × B → Type 0
    SoundFirst next = IsSound repr next.0

    accept-IsSound :
        (c : InnerUdpCommunicator SEND RECV) (os : Os) (r : Result (Packet RECV))
        → IsSound repr c
        → ((p : Packet RECV) → r ≡ ok p → IsWire p)
        → Returns SoundFirst (accept debug system checksum packet_repr c os r)
    unfolding accept
    accept-IsSound c os (ok p) s w =
        returns SoundFirst _ (handle_packet-IsSound _ p (seen-IsSound c _ s) (w p refl))
    accept-IsSound c os (err e) s w = returns SoundFirst _ s
    accept-IsSound c os panic s w = λ b e. no_value panicked b refl e

    pub read_packet-IsSound :
        (n : ℕ) (socket : UdpCommunicatorSocket) (c : InnerUdpCommunicator SEND RECV)
        → IsSound repr c
        → Returns SoundFirst (read_packet debug system checksum packet_repr n socket c)
    unfolding read_packet
    read_packet-IsSound n socket c s =
        let Answer = InnerUdpCommunicator SEND RECV × UdpCommunicatorSocket in
        let accepted : InnerUdpCommunicator SEND RECV × Os → Outcome Answer =
          λ next. done (next.0, record socket { os = next.1 }) in
        let tested : List ℕ → List ℕ → Outcome Answer = λ bytes crc_bytes.
          if not (checksum bytes == from_le_bytes crc_bytes)
          then done (c, socket)
          else (accept debug system checksum packet_repr c socket.os (packet_repr.from_bytes bytes)
              >>= accepted) in
        let unwrapped : List ℕ → Unit {0} → Outcome Answer =
          λ bytes u. slice socket.data_buffer 0 4 >>= tested bytes in
        let sliced : List ℕ → Outcome Answer =
          λ bytes. debug_unwrap debug packet_repr bytes >>= unwrapped bytes in
        Returns-bind (λ a. Unit {0}) SoundFirst (slice socket.data_buffer 4 n) sliced (λ b e. tt)
          (λ bytes h.
            Returns-bind (λ a. Unit {0}) SoundFirst (debug_unwrap debug packet_repr bytes)
              (unwrapped bytes) (λ b e. tt)
              (λ u k.
                Returns-bind (λ a. Unit {0}) SoundFirst (slice socket.data_buffer 0 4)
                  (tested bytes) (λ b e. tt)
                  (λ crc_bytes l.
                    if_lem (Returns SoundFirst) (not (checksum bytes == from_le_bytes crc_bytes))
                      (done (c, socket)) _ (returns SoundFirst (c, socket) s)
                      (Returns-bind SoundFirst SoundFirst
                        (accept debug system checksum packet_repr c socket.os
                          (packet_repr.from_bytes bytes))
                        accepted
                        (accept-IsSound c socket.os (packet_repr.from_bytes bytes) s
                          (λ p e. typed bytes p e))
                        (λ next sound.
                          returns SoundFirst (next.0, record socket { os = next.1 }) sound)))))

    on_event-IsSound :
        (fuel : ℕ) (socket : UdpCommunicatorSocket) (c : InnerUdpCommunicator SEND RECV)
        (event : Option (ℕ × ℕ))
        → IsSound repr c
        → ((next : InnerUdpCommunicator SEND RECV × UdpCommunicatorSocket)
            → SoundFirst next
            → Returns SoundFirst
                (receive_loop debug system checksum packet_repr fuel next.1 next.0))
        → Returns SoundFirst (elim event [
          | none ↦ done (c, socket)
          | some (n, addr) ↦ read_packet debug system checksum packet_repr n socket c >>= λ next.
              receive_loop debug system checksum packet_repr fuel next.1 next.0
        ])
    on_event-IsSound fuel socket c none s again = returns SoundFirst (c, socket) s
    on_event-IsSound fuel socket c (some (n, addr)) s again =
        Returns-bind SoundFirst SoundFirst
          (read_packet debug system checksum packet_repr n socket c)
          (λ next. receive_loop debug system checksum packet_repr fuel next.1 next.0)
          (read_packet-IsSound n socket c s) again

    pub receive_loop-IsSound :
        (fuel : ℕ) (socket : UdpCommunicatorSocket) (c : InnerUdpCommunicator SEND RECV)
        → IsSound repr c
        → Returns SoundFirst (receive_loop debug system checksum packet_repr fuel socket c)
    unfolding receive_loop
    receive_loop-IsSound zero socket c s = λ b e. no_value out_of_fuel b refl e
    receive_loop-IsSound (suc fuel) socket c s =
        on_event-IsSound fuel (recv_from socket).1 c (recv_from socket).0 s
          (λ next sound. receive_loop-IsSound fuel next.1 next.0 sound)
