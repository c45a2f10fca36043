-- ===== src/Multi.antt =====
-- mini_udp/src/communicator/multi.rs: many connections on one socket. The hash map is a list with
-- one entry for an address, and its order is the order of iteration.
pub mod Map
pub mod Events
pub mod Laws
pub mod Sound
pub mod Reachable
use mini_udp.Prelude.{
  ℕ, zero, suc, ◌+◌, Bool, true, false, not, ◌==◌, if◌then◌else◌, is_some, Option, none, some, List,
  map, [], ◌∷◌, ◌++◌, length,
}
use mini_udp.Outcome.{Outcome, done, panicked, out_of_fuel, ◌>>=◌}
use mini_udp.Packet.{Packet}
use mini_udp.ByteRepr.{ByteRepr, Result}
use mini_udp.Socket
use mini_udp.Socket.{Duration, SocketAddr, address, System, Os, UdpCommunicatorSocket, recv_from}
use mini_udp.Inner
use mini_udp.Inner.{InnerUdpCommunicator}
use mini_udp.Inner.Receive.{read_packet}
use mini_udp.Inner.Send
use mini_udp.Communicator.{UdpCommunicatorMut, write_reliable}
use mini_udp.Multi.Map.{lookup, assign, delete, retain_in, for_each_in}

pub record MultiUdpCommunicator (SEND RECV : Type 0) : Type 0 where
  pub socket : UdpCommunicatorSocket
  pub coms : List (SocketAddr × InnerUdpCommunicator SEND RECV)

module _ {SEND RECV : Type 0} where
  unfoldable pub bind : Os → MultiUdpCommunicator SEND RECV
  bind os = record { socket = Socket.bind os; coms = [] }

  -- `default`, which binds to any port.
  unfoldable pub default : Os → MultiUdpCommunicator SEND RECV
  unfolding bind
  default os = bind os

  unfoldable pub with_reliable_unordered_resend_interval :
      MultiUdpCommunicator SEND RECV → Duration → MultiUdpCommunicator SEND RECV
  with_reliable_unordered_resend_interval m interval = record m {
    socket = Socket.with_reliable_unordered_resend_interval m.socket interval;
  }

  unfoldable pub with_reliable_ordered_resend_interval :
      MultiUdpCommunicator SEND RECV → Duration → MultiUdpCommunicator SEND RECV
  with_reliable_ordered_resend_interval m interval = record m {
    socket = Socket.with_reliable_ordered_resend_interval m.socket interval;
  }

  unfoldable pub with_max_reliable_unordered_retries :
      MultiUdpCommunicator SEND RECV → ℕ → MultiUdpCommunicator SEND RECV
  with_max_reliable_unordered_retries m retries = record m {
    socket = Socket.with_max_reliable_unordered_retries m.socket retries;
  }

  unfoldable pub with_max_reliable_ordered_retries :
      MultiUdpCommunicator SEND RECV → ℕ → MultiUdpCommunicator SEND RECV
  with_max_reliable_ordered_retries m retries = record m {
    socket = Socket.with_max_reliable_ordered_retries m.socket retries;
  }

  -- `self.coms.entry(addr).or_default()`: the connection, which is made if it is missing.
  unfoldable pub entry :
      System
      → SocketAddr
      → MultiUdpCommunicator SEND RECV
      → InnerUdpCommunicator SEND RECV × MultiUdpCommunicator SEND RECV
  entry system addr m = elim (lookup m.coms addr) [
    | some inner ↦ (inner, m)
    | none ↦
        let (inner, os) = Inner.default system m.socket.os in
        (inner, record { socket = record m.socket { os = os }; coms = assign m.coms addr inner })
  ]

  -- `none` is the error of `to_socket_addrs`, or its empty list of addresses.
  unfoldable pub connect :
      System
      → MultiUdpCommunicator SEND RECV
      → Option SocketAddr
      → Option (UdpCommunicatorMut SEND RECV) × MultiUdpCommunicator SEND RECV
  connect system m none = (none, m)
  connect system m (some addr) =
      let (inner, m') = entry system addr m in (some (record { addr = addr; inner = inner }), m')

  unfoldable pub broadcast : MultiUdpCommunicator SEND RECV → SEND → MultiUdpCommunicator SEND RECV
  broadcast m message = record m {
    coms = for_each_in m.coms (λ addr inner. write_reliable inner message);
  }

  unfoldable pub broadcast_except :
      MultiUdpCommunicator SEND RECV → SEND → SocketAddr → MultiUdpCommunicator SEND RECV
  broadcast_except m message exception = record m {
    coms =
        for_each_in m.coms
          (λ addr inner. if not (addr == exception) then write_reliable inner message else inner);
  }

  -- The closure as the change it makes to the connection that it borrows.
  unfoldable pub for_each :
      MultiUdpCommunicator SEND RECV
      → (UdpCommunicatorMut SEND RECV → InnerUdpCommunicator SEND RECV)
      → MultiUdpCommunicator SEND RECV
  for_each m f = record m {
    coms = for_each_in m.coms (λ addr inner. f (record { addr = addr; inner = inner }));
  }

  unfoldable pub retain :
      MultiUdpCommunicator SEND RECV
      → (UdpCommunicatorMut SEND RECV → Bool × InnerUdpCommunicator SEND RECV)
      → MultiUdpCommunicator SEND RECV
  retain m filter = record m {
    coms = retain_in m.coms (λ addr inner. filter (record { addr = addr; inner = inner }));
  }

  unfoldable pub remove :
      MultiUdpCommunicator SEND RECV → SocketAddr → Bool × MultiUdpCommunicator SEND RECV
  remove m addr = (is_some (lookup m.coms addr), record m { coms = delete m.coms addr })

  unfoldable pub get_mut :
      MultiUdpCommunicator SEND RECV → SocketAddr → Option (UdpCommunicatorMut SEND RECV)
  get_mut m addr = elim (lookup m.coms addr) [
    | none ↦ none
    | some inner ↦ some (record { addr = addr; inner = inner })
  ]

  -- What the iterator of `iter_mut` makes of an entry of the map.
  unfoldable pub lend : SocketAddr × InnerUdpCommunicator SEND RECV → UdpCommunicatorMut SEND RECV
  lend (addr, inner) = record { addr = addr; inner = inner }

  -- What `iter_mut` yields, in its order.
  unfoldable pub iter_mut : MultiUdpCommunicator SEND RECV → List (UdpCommunicatorMut SEND RECV)
  unfolding lend
  iter_mut m = map lend m.coms
