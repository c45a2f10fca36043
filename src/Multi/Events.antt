-- ===== src/Multi/Events.antt =====
-- mini_udp/src/communicator/multi.rs: `recv`, `send` and `tick`, and the callbacks of `recv`. The
-- feature `debug` fakes no unreliable network, as `bind` leaves it.
use mini_udp.Prelude.{ℕ, zero, suc, ◌+◌, Bool, none, some, List, [], ◌∷◌, ◌++◌, length, foldl}
use mini_udp.Outcome.{Outcome, done, out_of_fuel, ◌>>=◌}
use mini_udp.Packet.{Packet}
use mini_udp.ByteRepr.{ByteRepr}
use mini_udp.Socket.{SocketAddr, address, System, UdpCommunicatorSocket, recv_from}
use mini_udp.Inner.{InnerUdpCommunicator}
use mini_udp.Inner.Receive.{read_packet}
use mini_udp.Inner.Send
use mini_udp.Communicator.{UdpCommunicatorMut}
use mini_udp.Multi.{MultiUdpCommunicator, entry, broadcast, broadcast_except, for_each}
use mini_udp.Multi.Map.{assign}

-- `Self` is what the closure has captured and may change.
pub record OnReceiveCallback (SEND RECV : Type 0) : Type 1 where
  pub Self : Type 0
  pub State : Type 0
  pub prepare : Self → State × Self
  pub on_recv :
      UdpCommunicatorMut SEND RECV → Self × State → InnerUdpCommunicator SEND RECV × Self × State
  pub finish : Self → State → MultiUdpCommunicator SEND RECV → MultiUdpCommunicator SEND RECV

module _ (SEND RECV : Type 0) where
  -- `impl OnReceiveCallback for ()`
  unfoldable pub no_callback : OnReceiveCallback SEND RECV
  no_callback = record {
    Self = Unit;
    State = Unit;
    prepare = λ self. (tt, self);
    on_recv = λ lent env. (lent.inner, env.0, env.1);
    finish = λ self state m. m;
  }

  -- The implementation for closures on the connection alone.
  unfoldable pub on_connection :
      (C : Type 0)
      → (UdpCommunicatorMut SEND RECV → C → InnerUdpCommunicator SEND RECV × C)
      → OnReceiveCallback SEND RECV
  on_connection C f = record {
    Self = C;
    State = Unit;
    prepare = λ self. (tt, self);
    on_recv = λ lent env. let (inner, self) = f lent env.0 in (inner, self, env.1);
    finish = λ self state m. m;
  }

  -- Closures that also queue broadcasts, which `DelayedBroadcast::broadcast` pushes on the state
  -- and `finish` performs in their order.
  unfoldable pub with_delayed_broadcast :
      (C : Type 0)
      → (UdpCommunicatorMut SEND RECV
          → C
          → List SEND
          → InnerUdpCommunicator SEND RECV × C × List SEND)
      → OnReceiveCallback SEND RECV
  with_delayed_broadcast C f = record {
    Self = C;
    State = List SEND;
    prepare = λ self. ([], self);
    on_recv = λ lent env. f lent env.0 env.1;
    finish = λ self state m. foldl broadcast m state;
  }

  unfoldable pub with_delayed_broadcast_except :
      (C : Type 0)
      → (UdpCommunicatorMut SEND RECV
          → C
          → List (SocketAddr × SEND)
          → InnerUdpCommunicator SEND RECV × C × List (SocketAddr × SEND))
      → OnReceiveCallback SEND RECV
  with_delayed_broadcast_except C f = record {
    Self = C;
    State = List (SocketAddr × SEND);
    prepare = λ self. ([], self);
    on_recv = λ lent env. f lent env.0 env.1;
    finish = λ self state m. foldl (λ m' e. broadcast_except m' e.1 e.0) m state;
  }

  unfoldable pub with_delayed_for_each :
      (C : Type 0)
      → (UdpCommunicatorMut SEND RECV
          → C
          → List (UdpCommunicatorMut SEND RECV → InnerUdpCommunicator SEND RECV)
          → InnerUdpCommunicator SEND RECV
            × C
            × List (UdpCommunicatorMut SEND RECV → InnerUdpCommunicator SEND RECV))
      → OnReceiveCallback SEND RECV
  with_delayed_for_each C f = record {
    Self = C;
    State = List (UdpCommunicatorMut SEND RECV → InnerUdpCommunicator SEND RECV);
    prepare = λ self. ([], self);
    on_recv = λ lent env. f lent env.0 env.1;
    finish = λ self state m. foldl for_each m state;
  }

-- `DelayedBroadcast::broadcast`, `DelayedBroadcastExcept::broadcast_except` and
-- `DelayedForEach::for_each`: `push` on the vector.
unfoldable pub delay : {A : Type 0} → List A → A → List A
delay xs x = xs ++ (x ∷ [])

module _ {SEND RECV : Type 0} (debug : Bool) (system : System) (checksum : List ℕ → ℕ)
    (send_repr : ByteRepr SEND) (send_packet_repr : ByteRepr (Packet SEND))
    (recv_packet_repr : ByteRepr (Packet RECV)) where
  -- The body of the loop, for a packet of `n` bytes from `addr`.
  unfoldable pub on_packet :
      (cb : OnReceiveCallback SEND RECV)
      → ℕ
      → SocketAddr
      → MultiUdpCommunicator SEND RECV
      → cb.Self × cb.State
      → Outcome (MultiUdpCommunicator SEND RECV × cb.Self × cb.State)
  on_packet cb n addr m env =
      let (inner0, m1) = entry system addr m in
      do
        (inner1, socket) ← read_packet debug system checksum recv_packet_repr n m1.socket inner0
        (let (inner, self, state) = cb.on_recv (record { addr = addr; inner = inner1 }) env in
            done (record { socket = socket; coms = assign m1.coms addr inner }, self, state))

  unfoldable pub recv_loop :
      (cb : OnReceiveCallback SEND RECV)
      → ℕ
      → MultiUdpCommunicator SEND RECV
      → cb.Self × cb.State
      → Outcome (MultiUdpCommunicator SEND RECV × cb.Self × cb.State)
  recv_loop cb zero m env = out_of_fuel
  recv_loop cb (suc fuel) m env =
      let (event, socket) = recv_from m.socket in
      elim event [
        | none ↦ done (record m { socket = socket }, env.0, env.1)
        | some (n, addr) ↦ on_packet cb n addr (record m { socket = socket }) env >>= λ next.
            recv_loop cb fuel next.0 (next.1, next.2)
      ]

  -- Each round takes an event, and the system then has no more for now.
  unfoldable pub recv :
      (cb : OnReceiveCallback SEND RECV)
      → MultiUdpCommunicator SEND RECV
      → cb.Self
      → Outcome (MultiUdpCommunicator SEND RECV × cb.Self)
  recv cb m self =
      let (state, self') = cb.prepare self in
      do
        (m1, self1, state1) ← recv_loop cb (length m.socket.os.inbox + 1) m (self', state)
        done (cb.finish self1 state1 m1, self1)

  -- An error of a connection is logged, and the loop goes on.
  unfoldable pub send_in :
      List (SocketAddr × InnerUdpCommunicator SEND RECV)
      → UdpCommunicatorSocket
      → Outcome (List (SocketAddr × InnerUdpCommunicator SEND RECV) × UdpCommunicatorSocket)
  send_in [] socket = done ([], socket)
  send_in ((addr, inner) ∷ coms) socket = do
    (result, inner', s1) ←
        Send.send system checksum send_repr send_packet_repr (address addr) socket inner
    (coms', s2) ← send_in coms s1
    done ((addr, inner') ∷ coms', s2)

  unfoldable pub send : MultiUdpCommunicator SEND RECV → Outcome (MultiUdpCommunicator SEND RECV)
  send m = do
    (coms, socket) ← send_in m.coms m.socket
    done (record { socket = socket; coms = coms })

  unfoldable pub tick :
      (cb : OnReceiveCallback SEND RECV)
      → MultiUdpCommunicator SEND RECV
      → cb.Self
      → Outcome (MultiUdpCommunicator SEND RECV × cb.Self)
  tick cb m self = do (m1, self1) ← recv cb m self; m2 ← send m1; done (m2, self1)
