-- ===== src/Debug/Many.antt =====
-- mini_udp/src/communicator/multi.rs: `recv` with the fakes of the feature `debug`.
pub mod Unfaked
use mini_udp.Prelude.{ℕ, zero, suc, ◌+◌, true, false, Option, none, some, List, length}
use mini_udp.Outcome.{Outcome, done, out_of_fuel, ◌>>=◌}
use mini_udp.Packet.{Packet}
use mini_udp.ByteRepr.{ByteRepr}
use mini_udp.Socket.{SocketAddr, System, UdpCommunicatorSocket, recv_from}
use mini_udp.Multi
use mini_udp.Multi.{entry}
use mini_udp.Multi.Events.{OnReceiveCallback}
use mini_udp.Multi.Map.{assign}
use mini_udp.Debug.{Random, Fakes, delay_packet, read_delayed}
use mini_udp.Debug.Faked.{read_packet}
use mini_udp.Debug.Owners.{MultiUdpCommunicator}

module _ {SEND RECV : Type 0} (random : Random) (system : System) (checksum : List ℕ → ℕ)
    (repr : ByteRepr (Packet RECV)) (cb : OnReceiveCallback SEND RECV) where
  -- The body of either loop, from `entry` on.
  unfoldable pub on_packet :
      ℕ
      → SocketAddr
      → MultiUdpCommunicator SEND RECV
      → cb.Self × cb.State
      → Outcome (MultiUdpCommunicator SEND RECV × cb.Self × cb.State)
  on_packet n addr m env =
      let (inner0, m1) = entry system addr m.multi in
      do
        (inner1, socket, fakes) ←
            read_packet random system checksum repr n (inner0, m1.socket, m.fakes)
        (let (inner, self, state) = cb.on_recv (record { addr = addr; inner = inner1 }) env in
            done (
              record {
                multi = record { socket = socket; coms = assign m1.coms addr inner };
                fakes = fakes;
              },
              self,
              state,
            ))

  unfoldable pub recv_loop :
      ℕ
      → MultiUdpCommunicator SEND RECV
      → cb.Self × cb.State
      → Outcome (MultiUdpCommunicator SEND RECV × cb.Self × cb.State)
  recv_loop zero m env = out_of_fuel
  recv_loop (suc fuel) m env =
      let (event, socket) = recv_from m.multi.socket in
      elim event [
        | none ↦ done (record m { multi = record m.multi { socket = socket } }, env.0, env.1)
        | some (n, addr) ↦
            let (held, fakes, socket') = delay_packet random system m.fakes socket (some addr) n in
            let m' : MultiUdpCommunicator SEND RECV = record {
              multi = record m.multi { socket = socket' };
              fakes = fakes;
            } in
            elim held [
              | true ↦ recv_loop fuel m' env
              | false ↦ on_packet n addr m' env >>= λ next. recv_loop fuel next.0 (next.1, next.2)
            ]
      ]

  -- `while let Some((n, Some(addr))) = self.socket.read_delayed()`
  unfoldable pub delayed_loop :
      ℕ
      → MultiUdpCommunicator SEND RECV
      → cb.Self × cb.State
      → Outcome (MultiUdpCommunicator SEND RECV × cb.Self × cb.State)
  delayed_loop zero m env = out_of_fuel
  delayed_loop (suc fuel) m env =
      let (found, fakes, socket) = read_delayed system m.fakes m.multi.socket in
      let m' : MultiUdpCommunicator SEND RECV = record {
        multi = record m.multi { socket = socket };
        fakes = fakes;
      } in
      elim found [
        | none ↦ done (m', env.0, env.1)
        | some (n, none) ↦ done (m', env.0, env.1)
        | some (n, some addr) ↦
            on_packet n addr m' env >>= λ next. delayed_loop fuel next.0 (next.1, next.2)
      ]

  unfoldable pub recv :
      MultiUdpCommunicator SEND RECV → cb.Self → Outcome (MultiUdpCommunicator SEND RECV × cb.Self)
  recv m self =
      let (state, self') = cb.prepare self in
      do
        (m1, self1, state1) ← recv_loop (length m.multi.socket.os.inbox + 1) m (self', state)
        (m2, self2, state2) ← delayed_loop (length m1.fakes.delayed + 1) m1 (self1, state1)
        done (record m2 { multi = cb.finish self2 state2 m2.multi }, self2)
