-- ===== src/Debug/Many/Unfaked.antt =====
-- mini_udp/src/communicator/multi.rs: `recv` with the feature `debug` and no fakes set, against the
-- code without them.
use mini_udp.Prelude.{
  ℕ, zero, suc, ◌+◌, ◌≡◌, refl, sym, ◌∙◌, ap, Bool, true, false, Option, none, some, List, length,
}
use mini_udp.Outcome.{Outcome, done, ◌>>=◌}
use mini_udp.Packet.{Packet}
use mini_udp.ByteRepr.{ByteRepr}
use mini_udp.Socket.{SocketAddr, System, UdpCommunicatorSocket, recv_from}
use mini_udp.Inner.{InnerUdpCommunicator}
use mini_udp.Inner.Receive
use mini_udp.Multi
use mini_udp.Multi.{entry}
use mini_udp.Multi.Events
use mini_udp.Multi.Events.{OnReceiveCallback}
use mini_udp.Multi.Map.{assign}
use mini_udp.Debug.{Random, no_fakes, delay_packet, position_due, read_delayed}
use mini_udp.Debug.Faked.{State}
use mini_udp.Debug.Faked.Unfaked.{as_bound, outcome_cases, bind_assoc, read_packet_unfaked}
use mini_udp.Debug.Owners.{MultiUdpCommunicator}
use mini_udp.Debug.Many.{on_packet, recv_loop, delayed_loop, recv}

abbrev pub as_bound_multi :
    {SEND RECV : Type 0}
    → ℕ
    → Bool
    → Multi.MultiUdpCommunicator SEND RECV
    → MultiUdpCommunicator SEND RECV
as_bound_multi draws logs m = record { multi = m; fakes = as_bound draws logs }

module _ {SEND RECV : Type 0} (random : Random) (system : System) (checksum : List ℕ → ℕ)
    (send_repr : ByteRepr SEND) (send_packet_repr : ByteRepr (Packet SEND))
    (repr : ByteRepr (Packet RECV)) (draws : ℕ) (logs : Bool) where
  module _ (cb : OnReceiveCallback SEND RECV) where
    abbrev Plain : Type 0
    Plain = Multi.MultiUdpCommunicator SEND RECV × cb.Self × cb.State

    abbrev Next : Type 0
    Next = MultiUdpCommunicator SEND RECV × cb.Self × cb.State

    abbrev beside : Plain → Outcome Next
    beside (m, self, state) = done (as_bound_multi draws logs m, self, state)

    on_packet_unfaked :
        (n : ℕ) (addr : SocketAddr) (m : Multi.MultiUdpCommunicator SEND RECV)
        (env : cb.Self × cb.State)
        → on_packet random system checksum repr cb n addr (as_bound_multi draws logs m) env ≡ (
            Events.on_packet true system checksum send_repr send_packet_repr repr cb n addr m env
            >>= beside)
    unfolding on_packet Events.on_packet
    on_packet_unfaked n addr m env =
        let (inner0, m1) = entry system addr m in
        let first : Outcome (InnerUdpCommunicator SEND RECV × UdpCommunicatorSocket) =
          Receive.read_packet true system checksum repr n m1.socket inner0 in
        let kept : InnerUdpCommunicator SEND RECV × UdpCommunicatorSocket
            → Outcome (State SEND RECV) =
          λ next. done (next.0, next.1, as_bound draws logs) in
        let handed : State SEND RECV → Outcome Next = λ (inner1, socket, fakes).
          let (inner, self, state) = cb.on_recv (record { addr = addr; inner = inner1 }) env in
          done (
            record {
              multi = record { socket = socket; coms = assign m1.coms addr inner };
              fakes = fakes;
            },
            self,
            state,
          ) in
        let plain : InnerUdpCommunicator SEND RECV × UdpCommunicatorSocket → Outcome Plain =
          λ (inner1, socket).
            let (inner, self, state) = cb.on_recv (record { addr = addr; inner = inner1 }) env in
            done (record { socket = socket; coms = assign m1.coms addr inner }, self, state) in
        ap (λ x. x >>= handed)
          (read_packet_unfaked random system checksum repr draws logs n inner0 m1.socket)
        ∙ bind_assoc first kept handed
        ∙ outcome_cases first _ (λ next. plain next >>= beside) (λ next h. refl)
        ∙ sym (bind_assoc first plain beside)

    event_unfaked :
        (fuel : ℕ) (m : Multi.MultiUdpCommunicator SEND RECV) (env : cb.Self × cb.State)
        (event : Option (ℕ × SocketAddr)) (socket : UdpCommunicatorSocket)
        → ((m' : Multi.MultiUdpCommunicator SEND RECV) (env' : cb.Self × cb.State)
            → recv_loop random system checksum repr cb fuel (as_bound_multi draws logs m') env' ≡ (
                Events.recv_loop true system checksum send_repr send_packet_repr repr cb fuel m'
                  env'
                >>= beside))
        → (elim event [
          | none ↦ done (as_bound_multi draws logs (record m { socket = socket }), env.0, env.1)
          | some (n, addr) ↦
              let (held, fakes, socket') =
                delay_packet random system (as_bound draws logs) socket (some addr) n in
              let m' : MultiUdpCommunicator SEND RECV = record {
                multi = record m { socket = socket' };
                fakes = fakes;
              } in
              elim held [
                | true ↦ recv_loop random system checksum repr cb fuel m' env
                | false ↦ on_packet random system checksum repr cb n addr m' env >>= λ next.
                    recv_loop random system checksum repr cb fuel next.0 (next.1, next.2)
              ]
        ])
          ≡ ((elim event [
            | none ↦ done (record m { socket = socket }, env.0, env.1)
            | some (n, addr) ↦
                Events.on_packet true system checksum send_repr send_packet_repr repr cb n addr
                  (record m { socket = socket })
                  env
                >>= λ next.
                    Events.recv_loop true system checksum send_repr send_packet_repr repr cb fuel
                      next.0
                      (next.1, next.2)
          ])
              >>= beside)
    unfolding delay_packet no_fakes
    event_unfaked fuel m env none socket again = refl
    event_unfaked fuel m env (some (n, addr)) socket again =
        let first : Outcome Plain =
          Events.on_packet true system checksum send_repr send_packet_repr repr cb n addr
            (record m { socket = socket }) env in
        let rest : Next → Outcome Next =
          λ next. recv_loop random system checksum repr cb fuel next.0 (next.1, next.2) in
        let plain : Plain → Outcome Plain = λ next.
          Events.recv_loop true system checksum send_repr send_packet_repr repr cb fuel next.0
            (next.1, next.2) in
        ap (λ x. x >>= rest) (on_packet_unfaked n addr (record m { socket = socket }) env)
        ∙ bind_assoc first beside rest
        ∙ outcome_cases first _ (λ next. plain next >>= beside)
            (λ next h. again next.0 (next.1, next.2))
        ∙ sym (bind_assoc first plain beside)

    recv_loop_unfaked :
        (fuel : ℕ) (m : Multi.MultiUdpCommunicator SEND RECV) (env : cb.Self × cb.State)
        → recv_loop random system checksum repr cb fuel (as_bound_multi draws logs m) env ≡ (
            Events.recv_loop true system checksum send_repr send_packet_repr repr cb fuel m env
            >>= beside)
    unfolding recv_loop Events.recv_loop
    recv_loop_unfaked zero m env = refl
    recv_loop_unfaked (suc fuel) m env =
        event_unfaked fuel m env (recv_from m.socket).0 (recv_from m.socket).1
          (recv_loop_unfaked fuel)

    -- With the feature `debug`, no packets held back, no probabilities and no delay set, the logs
    -- on or off, and whatever random numbers, `recv` with any callback does just what it does in
    -- the code without the fakes, in which `read_packet` still unwraps.
    pub recv_unfaked :
        (m : Multi.MultiUdpCommunicator SEND RECV) (self : cb.Self)
        → recv random system checksum repr cb (as_bound_multi draws logs m) self ≡ (
            Events.recv true system checksum send_repr send_packet_repr repr cb m self >>= λ next.
            done (as_bound_multi draws logs next.0, next.1))
    unfolding recv Events.recv delayed_loop read_delayed position_due no_fakes
    recv_unfaked m self =
        let (state, self') = cb.prepare self in
        let first : Outcome Plain =
          Events.recv_loop true system checksum send_repr send_packet_repr repr cb
            (length m.socket.os.inbox + 1) m (self', state) in
        let rest : Next → Outcome (MultiUdpCommunicator SEND RECV × cb.Self) =
          λ (m1, self1, state1).
            delayed_loop random system checksum repr cb (length m1.fakes.delayed + 1) m1
              (self1, state1)
            >>= λ (m2, self2, state2).
                done (record m2 { multi = cb.finish self2 state2 m2.multi }, self2) in
        let plain : Plain → Outcome (Multi.MultiUdpCommunicator SEND RECV × cb.Self) =
          λ (m1, self1, state1). done (cb.finish self1 state1 m1, self1) in
        let kept : Multi.MultiUdpCommunicator SEND RECV × cb.Self
            → Outcome (MultiUdpCommunicator SEND RECV × cb.Self) =
          λ next. done (as_bound_multi draws logs next.0, next.1) in
        ap (λ x. x >>= rest) (recv_loop_unfaked (length m.socket.os.inbox + 1) m (self', state))
        ∙ bind_assoc first beside rest
        ∙ outcome_cases first _ (λ next. plain next >>= kept) (λ next h. refl)
        ∙ sym (bind_assoc first plain kept)
