-- ===== src/Communicator.antt =====
-- mini_udp/src/communicator/mod.rs: what a user does with a connection, alone in a
-- `UdpCommunicator` or as one of those of a `MultiUdpCommunicator`.
pub mod Lent
use mini_udp.Prelude.{ℕ, Bool, Option, none, some, List, [], ◌∷◌, ◌++◌}
use mini_udp.Outcome.{Outcome, done, ◌>>=◌}
use mini_udp.Packet.{Packet}
use mini_udp.ByteRepr.{ByteRepr, Result}
use mini_udp.Socket
use mini_udp.Socket.{Instant, Duration, SocketAddr, connected, System, Os, UdpCommunicatorSocket}
use mini_udp.Inner
use mini_udp.Inner.{InnerUdpCommunicator}
use mini_udp.Inner.Receive
use mini_udp.Inner.Send

pub record UdpCommunicator (SEND RECV : Type 0) : Type 0 where
  pub socket : UdpCommunicatorSocket
  pub inner : InnerUdpCommunicator SEND RECV

-- The connection that a method of `MultiUdpCommunicator` lends: what the borrower leaves in
-- `inner` is what the map then holds.
pub record UdpCommunicatorMut (SEND RECV : Type 0) : Type 0 where
  pub addr : SocketAddr
  pub inner : InnerUdpCommunicator SEND RECV

-- `pop_front` of a `VecDeque`.
unfoldable pub pop_front : {A : Type 0} → List A → Option A × List A
pop_front [] = (none, [])
pop_front (x ∷ xs) = (some x, xs)

-- The trait `Communicator` on a `UdpCommunicator`: the bodies, on its field `inner`.
module _ {SEND RECV : Type 0} where
  unfoldable pub write : InnerUdpCommunicator SEND RECV → SEND → InnerUdpCommunicator SEND RECV
  write c message = record c { unreliable_send_queue = c.unreliable_send_queue ++ (message ∷ []) }

  unfoldable pub write_reliable :
      InnerUdpCommunicator SEND RECV → SEND → InnerUdpCommunicator SEND RECV
  write_reliable c message = record c {
    reliable_send_queue = c.reliable_send_queue ++ (message ∷ []);
  }

  unfoldable pub write_ordered :
      InnerUdpCommunicator SEND RECV → SEND → InnerUdpCommunicator SEND RECV
  write_ordered c message = record c {
    reliable_ordered_send_queue = c.reliable_ordered_send_queue ++ (message ∷ []);
  }

  unfoldable pub read :
      InnerUdpCommunicator SEND RECV → Option RECV × InnerUdpCommunicator SEND RECV
  read c =
      let (message, queue) = pop_front c.unordered_recv_queue in
      (message, record c { unordered_recv_queue = queue })

  unfoldable pub read_ordered :
      InnerUdpCommunicator SEND RECV → Option RECV × InnerUdpCommunicator SEND RECV
  read_ordered c =
      let (message, queue) = pop_front c.ordered_recv_queue in
      (message, record c { ordered_recv_queue = queue })

  unfoldable pub write_heartbeat : InnerUdpCommunicator SEND RECV → InnerUdpCommunicator SEND RECV
  write_heartbeat c = Inner.write_heartbeat c

  unfoldable pub has_work : InnerUdpCommunicator SEND RECV → Bool
  has_work c = Inner.has_work c

  unfoldable pub last_seen : InnerUdpCommunicator SEND RECV → Instant
  last_seen c = c.last_seen

  unfoldable pub last_send : InnerUdpCommunicator SEND RECV → Instant
  last_send c = c.last_send

-- `bind`, where the system grants the address.
unfoldable pub bind : {SEND RECV : Type 0} → System → Os → UdpCommunicator SEND RECV
bind system os =
    let (inner, os') = Inner.default system os in record { socket = Socket.bind os'; inner = inner }

-- `default`, which binds to any port.
unfoldable pub default : {SEND RECV : Type 0} → System → Os → UdpCommunicator SEND RECV
default system os =
    let (inner, os') = Inner.default system os in record { socket = Socket.bind os'; inner = inner }

module _ {SEND RECV : Type 0} where
  unfoldable pub with_reliable_unordered_resend_interval :
      UdpCommunicator SEND RECV → Duration → UdpCommunicator SEND RECV
  with_reliable_unordered_resend_interval c interval = record c {
    socket = Socket.with_reliable_unordered_resend_interval c.socket interval;
  }

  unfoldable pub with_reliable_ordered_resend_interval :
      UdpCommunicator SEND RECV → Duration → UdpCommunicator SEND RECV
  with_reliable_ordered_resend_interval c interval = record c {
    socket = Socket.with_reliable_ordered_resend_interval c.socket interval;
  }

  unfoldable pub with_max_reliable_unordered_retries :
      UdpCommunicator SEND RECV → ℕ → UdpCommunicator SEND RECV
  with_max_reliable_unordered_retries c retries = record c {
    socket = Socket.with_max_reliable_unordered_retries c.socket retries;
  }

  unfoldable pub with_max_reliable_ordered_retries :
      UdpCommunicator SEND RECV → ℕ → UdpCommunicator SEND RECV
  with_max_reliable_ordered_retries c retries = record c {
    socket = Socket.with_max_reliable_ordered_retries c.socket retries;
  }

-- `connect`: `connects` is what `std::net::UdpSocket::connect` does with the address, `none` for an
-- error, which drops the communicator.
unfoldable pub connect :
    {SEND RECV : Type 0}
    → (Os → Option Os)
    → UdpCommunicator SEND RECV
    → Option (UdpCommunicator SEND RECV)
connect connects c = elim (connects c.socket.os) [
  | none ↦ none
  | some os ↦ some (record c { socket = record c.socket { os = os } })
]

module _ {SEND RECV : Type 0} (debug : Bool) (system : System) (checksum : List ℕ → ℕ)
    (send_repr : ByteRepr SEND) (send_packet_repr : ByteRepr (Packet SEND))
    (recv_packet_repr : ByteRepr (Packet RECV)) where
  unfoldable pub recv : UdpCommunicator SEND RECV → Outcome (UdpCommunicator SEND RECV)
  recv c = do
    (inner, socket) ← Receive.receive debug system checksum recv_packet_repr c.socket c.inner
    done (record { socket = socket; inner = inner })

  unfoldable pub send :
      UdpCommunicator SEND RECV → Outcome (Result (Unit {0}) × UdpCommunicator SEND RECV)
  send c = do
    (result, inner, socket) ←
        Send.send system checksum send_repr send_packet_repr connected c.socket c.inner
    done (result, record { socket = socket; inner = inner })

  unfoldable pub tick :
      UdpCommunicator SEND RECV → Outcome (Result (Unit {0}) × UdpCommunicator SEND RECV)
  tick c = recv c >>= send
