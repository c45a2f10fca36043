-- ===== src/Communicator/Lent.antt =====
-- mini_udp/src/communicator/mod.rs: the trait `Communicator` on a connection that a
-- `MultiUdpCommunicator` has lent.
use mini_udp.Prelude.{Bool, Option}
use mini_udp.Socket.{Instant}
use mini_udp.Inner
use mini_udp.Communicator
use mini_udp.Communicator.{UdpCommunicatorMut}

module _ {SEND RECV : Type 0} where
  unfoldable pub write : UdpCommunicatorMut SEND RECV → SEND → UdpCommunicatorMut SEND RECV
  write c message = record c { inner = Communicator.write c.inner message }

  unfoldable pub write_reliable : UdpCommunicatorMut SEND RECV → SEND → UdpCommunicatorMut SEND RECV
  write_reliable c message = record c { inner = Communicator.write_reliable c.inner message }

  unfoldable pub write_ordered : UdpCommunicatorMut SEND RECV → SEND → UdpCommunicatorMut SEND RECV
  write_ordered c message = record c { inner = Communicator.write_ordered c.inner message }

  unfoldable pub write_heartbeat : UdpCommunicatorMut SEND RECV → UdpCommunicatorMut SEND RECV
  write_heartbeat c = record c { inner = Inner.write_heartbeat c.inner }

  unfoldable pub read : UdpCommunicatorMut SEND RECV → Option RECV × UdpCommunicatorMut SEND RECV
  read c = let (message, inner) = Communicator.read c.inner in (message, record c { inner = inner })

  unfoldable pub read_ordered :
      UdpCommunicatorMut SEND RECV → Option RECV × UdpCommunicatorMut SEND RECV
  read_ordered c =
      let (message, inner) = Communicator.read_ordered c.inner in
      (message, record c { inner = inner })

  unfoldable pub has_work : UdpCommunicatorMut SEND RECV → Bool
  has_work c = Inner.has_work c.inner

  unfoldable pub last_seen : UdpCommunicatorMut SEND RECV → Instant
  last_seen c = c.inner.last_seen

  unfoldable pub last_send : UdpCommunicatorMut SEND RECV → Instant
  last_send c = c.inner.last_send
