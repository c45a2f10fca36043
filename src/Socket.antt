-- ===== src/Socket.antt =====
-- mini_udp/src/communicator/socket.rs: the settings and the buffer that a communicator keeps
-- beside its `std::net::UdpSocket`, and that socket and the clock as the program sees them.
use mini_udp.Prelude.{
  ℕ, ◌+◌, ◌*◌, Bool, true, false, if◌then◌else◌, Option, none, some, List, [], ◌∷◌, ◌++◌, length,
  take, drop, replicate,
}
use mini_udp.Packet.{max_packet_len}

-- Times in nanoseconds.
abbrev pub Instant : Type 0
Instant = ℕ

abbrev pub Duration : Type 0
Duration = ℕ

abbrev pub from_millis : ℕ → Duration
from_millis ms = ms * 1_000_000

abbrev pub one_hour : Duration
one_hour = 3600 * 1_000_000_000

-- Socket addresses are only compared.
abbrev pub SocketAddr : Type 0
SocketAddr = ℕ

-- The implementors of `SocketSendAddr`: `()` for a connected socket, or an address.
pub data SendAddr : Type 0 where
  connected : SendAddr
  address : SocketAddr → SendAddr

abbrev pub Datagram : Type 0
Datagram = List ℕ

-- What the standard library and the system decide: the time from the start to the k-th reading of
-- the clock, and whether a datagram is taken, which may depend on all that went before.
pub record System : Type 0 where
  pub elapsed : ℕ → Duration
  pub takes : List (SendAddr × Datagram) → SendAddr → Datagram → Bool

-- What a reading of the clock yields. Only differences of instants matter; they count from an
-- hour before the start, so that the hour that the program subtracts from one can be.
abbrev pub clock : System → ℕ → Instant
clock system read = system.elapsed read + one_hour

-- The state of the system that a communicator sees: how often the clock was read, what the calls
-- of `recv` will return until they would block (`none` is another error), and what was sent.
pub record Os : Type 0 where
  pub reads : ℕ
  pub inbox : List (Option (SocketAddr × Datagram))
  pub outbox : List (SendAddr × Datagram)

pub record UdpCommunicatorSocket : Type 0 where
  pub os : Os
  pub data_buffer : List ℕ
  pub reliable_unordered_resend_interval : Duration
  pub reliable_ordered_resend_interval : Duration
  pub max_reliable_unordered_retries : ℕ
  pub max_reliable_ordered_retries : ℕ

-- `bind`, where the system grants the address and the nonblocking mode.
unfoldable pub bind : Os → UdpCommunicatorSocket
bind os = record {
  os = os;
  data_buffer = replicate max_packet_len 0;
  reliable_unordered_resend_interval = from_millis 100;
  reliable_ordered_resend_interval = from_millis 100;
  max_reliable_unordered_retries = 100;
  max_reliable_ordered_retries = 100;
}

unfoldable pub with_reliable_unordered_resend_interval :
    UdpCommunicatorSocket → Duration → UdpCommunicatorSocket
with_reliable_unordered_resend_interval s interval = record s {
  reliable_unordered_resend_interval = interval;
}

unfoldable pub with_reliable_ordered_resend_interval :
    UdpCommunicatorSocket → Duration → UdpCommunicatorSocket
with_reliable_ordered_resend_interval s interval = record s {
  reliable_ordered_resend_interval = interval;
}

unfoldable pub with_max_reliable_unordered_retries :
    UdpCommunicatorSocket → ℕ → UdpCommunicatorSocket
with_max_reliable_unordered_retries s retries = record s {
  max_reliable_unordered_retries = retries;
}

unfoldable pub with_max_reliable_ordered_retries : UdpCommunicatorSocket → ℕ → UdpCommunicatorSocket
with_max_reliable_ordered_retries s retries = record s { max_reliable_ordered_retries = retries }

module _ (system : System) where
  -- `Instant::now()`
  unfoldable pub now : Os → Instant × Os
  now os = (clock system os.reads, record os { reads = os.reads + 1 })

  -- `addr.send(socket, ..end)`: whether it succeeded. A datagram that is not taken is gone.
  unfoldable pub send_to : SendAddr → UdpCommunicatorSocket → ℕ → Bool × UdpCommunicatorSocket
  send_to addr s end =
      let datagram = take end s.data_buffer in
      if system.takes s.os.outbox addr datagram
      then (true, record s { os = record s.os { outbox = s.os.outbox ++ ((addr, datagram) ∷ []) } })
      else (false, s)

-- The first bytes of a buffer replaced.
abbrev pub overwrite : List ℕ → List ℕ → List ℕ
overwrite bytes buffer = bytes ++ drop (length bytes) buffer

-- `socket.recv_from(&mut data_buffer)`: the length and the sender, or `none` for an error. A
-- datagram longer than the buffer is cut.
unfoldable pub recv_from : UdpCommunicatorSocket → Option (ℕ × SocketAddr) × UdpCommunicatorSocket
recv_from s = on_event s.os.inbox
  where
    on_event :
        List (Option (SocketAddr × Datagram)) → Option (ℕ × SocketAddr) × UdpCommunicatorSocket
    on_event [] = (none, s)
    on_event (none ∷ events) = (none, record s { os = record s.os { inbox = events } })
    on_event (some (addr, bytes) ∷ events) =
        let stored = take (length s.data_buffer) bytes in
        (
          some (length stored, addr),
          record s {
            os = record s.os { inbox = events };
            data_buffer = overwrite stored s.data_buffer;
          },
        )
