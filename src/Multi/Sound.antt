-- ===== src/Multi/Sound.antt =====
-- mini_udp/src/communicator/multi.rs: what `recv` and `send` return is well-formed, if they return.
use mini_udp.Prelude.{
  ℕ, zero, suc, ◌+◌, ◌≡◌, refl, Bool, Option, none, some, List, [], ◌∷◌, length, Option-cases, inl,
  inr,
}
use mini_udp.Outcome.{done, out_of_fuel, ◌>>=◌}
use mini_udp.Packet.{Packet}
use mini_udp.ByteRepr.{ByteRepr, ok}
use mini_udp.Socket.{SocketAddr, address, System, UdpCommunicatorSocket, recv_from}
use mini_udp.Inner
use mini_udp.Inner.{InnerUdpCommunicator}
use mini_udp.Inner.Receive.{read_packet}
use mini_udp.Inner.Receive.Keeps.{IsWire}
use mini_udp.Inner.Send
use mini_udp.Inner.Sound.{Returns, returns, no_value, Returns-bind, IsSound, read_packet-IsSound}
use mini_udp.Inner.Sound.Sends.{SoundSecond, default-IsSound, send-IsSound}
use mini_udp.Communicator.{UdpCommunicatorMut}
use mini_udp.Multi.{MultiUdpCommunicator, entry}
use mini_udp.Multi.Events.{OnReceiveCallback, on_packet, recv_loop, recv, send_in, send}
use mini_udp.Multi.Map.{lookup}
use mini_udp.Multi.Map.Keys.{IsMapOf, lookup-EveryValue, assign-IsMapOf, lookup_kept}

-- One connection for an address, and each well-formed.
abbrev pub IsMulti : {SEND RECV : Type 0} → ByteRepr SEND → MultiUdpCommunicator SEND RECV → Type 0
IsMulti repr m = IsMapOf (IsSound repr) m.coms

-- A callback that leaves the connections well-formed, as the methods of the connection that it
-- borrows do.
pub record IsKeeper {SEND RECV : Type 0} (repr : ByteRepr SEND) (cb : OnReceiveCallback SEND RECV)
    : Type 0 where
  pub on_recv :
      (lent : UdpCommunicatorMut SEND RECV) (env : cb.Self × cb.State)
      → IsSound repr lent.inner
      → IsSound repr (cb.on_recv lent env).0
  pub finish :
      (self : cb.Self) (state : cb.State) (m : MultiUdpCommunicator SEND RECV)
      → IsMulti repr m
      → IsMulti repr (cb.finish self state m)

module _ {SEND RECV : Type 0} (repr : ByteRepr SEND) (system : System) where
  pub entry-IsMulti :
      (addr : SocketAddr) (m : MultiUdpCommunicator SEND RECV)
      → IsMulti repr m
      → IsSound repr (entry system addr m).0 × IsMulti repr (entry system addr m).1
  unfolding entry
  entry-IsMulti addr m h = elim (Option-cases (lookup m.coms addr)) [
    | inl e ↦
        let made = default-IsSound repr system m.socket.os in
        rw (entry, e)
          (
            made,
            assign-IsMapOf (IsSound repr) m.coms addr (Inner.default system m.socket.os).0 made h,
          )
    | inr (inner, e) ↦ rw (entry, e) (lookup-EveryValue (IsSound repr) m.coms addr inner h.1 e, h)
  ]

module _ {SEND RECV : Type 0} (repr : ByteRepr SEND) (debug : Bool) (system : System)
    (checksum : List ℕ → ℕ) (send_packet_repr : ByteRepr (Packet SEND))
    (recv_repr : ByteRepr (Packet RECV)) where
  module _
      (typed : (bytes : List ℕ) (p : Packet RECV) → recv_repr.from_bytes bytes ≡ ok p → IsWire p)
      (cb : OnReceiveCallback SEND RECV) (keeper : IsKeeper repr cb) where
    abbrev MultiFirst : MultiUdpCommunicator SEND RECV × cb.Self × cb.State → Type 0
    MultiFirst next = IsMulti repr next.0

    abbrev pub MultiSelf : MultiUdpCommunicator SEND RECV × cb.Self → Type 0
    MultiSelf next = IsMulti repr next.0

    on_packet-IsMulti :
        (n : ℕ) (addr : SocketAddr) (m : MultiUdpCommunicator SEND RECV) (env : cb.Self × cb.State)
        → IsMulti repr m
        → Returns MultiFirst
            (on_packet debug system checksum repr send_packet_repr recv_repr cb n addr m env)
    unfolding on_packet
    on_packet-IsMulti n addr m env h =
        let (inner0, m1) = entry system addr m in
        let (sound, multi) = entry-IsMulti repr system addr m h in
        Returns-bind
          (λ (next : InnerUdpCommunicator SEND RECV × UdpCommunicatorSocket). IsSound repr next.0)
          MultiFirst (read_packet debug system checksum recv_repr n m1.socket inner0) _
          (read_packet-IsSound repr debug system checksum recv_repr typed n m1.socket inner0 sound)
          (λ (inner1, socket) k.
            let lent : UdpCommunicatorMut SEND RECV = record { addr = addr; inner = inner1 } in
            returns MultiFirst _ (
              assign-IsMapOf (IsSound repr) m1.coms addr (cb.on_recv lent env).0
                (keeper.on_recv lent env k) multi))

    event-IsMulti :
        (fuel : ℕ) (m : MultiUdpCommunicator SEND RECV) (env : cb.Self × cb.State)
        (event : Option (ℕ × SocketAddr)) (socket : UdpCommunicatorSocket)
        → IsMulti repr m
        → ((next : MultiUdpCommunicator SEND RECV × cb.Self × cb.State)
            → IsMulti repr next.0
            → Returns MultiFirst (
                recv_loop debug system checksum repr send_packet_repr recv_repr cb fuel next.0
                  (next.1, next.2)))
        → Returns MultiFirst (elim event [
          | none ↦ done (record m { socket = socket }, env.0, env.1)
          | some (n, addr) ↦
              on_packet debug system checksum repr send_packet_repr recv_repr cb n addr
                (record m { socket = socket })
                env
              >>= λ next.
                  recv_loop debug system checksum repr send_packet_repr recv_repr cb fuel next.0
                    (next.1, next.2)
        ])
    event-IsMulti fuel m env none socket h again =
        returns MultiFirst (record m { socket = socket }, env.0, env.1) h
    event-IsMulti fuel m env (some (n, addr)) socket h again =
        Returns-bind MultiFirst MultiFirst
          (on_packet debug system checksum repr send_packet_repr recv_repr cb n addr
            (record m { socket = socket }) env)
          (λ next.
            recv_loop debug system checksum repr send_packet_repr recv_repr cb fuel next.0
              (next.1, next.2))
          (on_packet-IsMulti n addr (record m { socket = socket }) env h) again

    recv_loop-IsMulti :
        (fuel : ℕ) (m : MultiUdpCommunicator SEND RECV) (env : cb.Self × cb.State)
        → IsMulti repr m
        → Returns MultiFirst
            (recv_loop debug system checksum repr send_packet_repr recv_repr cb fuel m env)
    unfolding recv_loop
    recv_loop-IsMulti zero m env h = λ b e. no_value out_of_fuel b refl e
    recv_loop-IsMulti (suc fuel) m env h =
        event-IsMulti fuel m env (recv_from m.socket).0 (recv_from m.socket).1 h
          (λ next k. recv_loop-IsMulti fuel next.0 (next.1, next.2) k)

    pub recv-IsMulti :
        (m : MultiUdpCommunicator SEND RECV) (self : cb.Self)
        → IsMulti repr m
        → Returns MultiSelf (recv debug system checksum repr send_packet_repr recv_repr cb m self)
    unfolding recv
    recv-IsMulti m self h =
        let (state, self') = cb.prepare self in
        Returns-bind MultiFirst MultiSelf
          (recv_loop debug system checksum repr send_packet_repr recv_repr cb
            (length m.socket.os.inbox + 1) m (self', state))
          _ (recv_loop-IsMulti (length m.socket.os.inbox + 1) m (self', state) h)
          (λ (m1, self1, state1) k.
            returns MultiSelf (cb.finish self1 state1 m1, self1) (keeper.finish self1 state1 m1 k))

  -- `send` keeps the addresses, and what is well-formed.
  abbrev Alike :
      List (SocketAddr × InnerUdpCommunicator SEND RECV)
      → List (SocketAddr × InnerUdpCommunicator SEND RECV) × UdpCommunicatorSocket
      → Type 0
  Alike es next =
      IsMapOf (IsSound repr) next.0 × ((k : ℕ) → lookup es k ≡ none → lookup next.0 k ≡ none)

  send_in-IsMulti :
      (es : List (SocketAddr × InnerUdpCommunicator SEND RECV)) (s : UdpCommunicatorSocket)
      → IsMapOf (IsSound repr) es
      → Returns (Alike es) (send_in debug system checksum repr send_packet_repr recv_repr es s)
  unfolding send_in
  send_in-IsMulti [] s h = returns (Alike []) ([], s) (h, λ k e. e)
  send_in-IsMulti ((addr, inner) ∷ es) s ((one, keys), (q, qs)) =
      Returns-bind (SoundSecond repr system checksum send_packet_repr (address addr))
        (Alike ((addr, inner) ∷ es))
        (Send.send system checksum repr send_packet_repr (address addr) s inner) _
        (send-IsSound repr system checksum send_packet_repr (address addr) s inner q)
        (λ (result, inner', s1) sound.
          Returns-bind (Alike es) (Alike ((addr, inner) ∷ es))
            (send_in debug system checksum repr send_packet_repr recv_repr es s1) _
            (send_in-IsMulti es s1 (keys, qs))
            (λ (coms', s2) alike.
              returns (Alike ((addr, inner) ∷ es)) ((addr, inner') ∷ coms', s2)
                (
                  ((alike.1 addr one, alike.0.0), (sound, alike.0.1)),
                  λ k e. lookup_kept es coms' addr k inner inner' (alike.1 k) e,
                )))

  pub send-IsMulti :
      (m : MultiUdpCommunicator SEND RECV)
      → IsMulti repr m
      → Returns (IsMulti repr) (send debug system checksum repr send_packet_repr recv_repr m)
  unfolding send
  send-IsMulti m h =
      Returns-bind (Alike m.coms) (IsMulti repr)
        (send_in debug system checksum repr send_packet_repr recv_repr m.coms m.socket) _
        (send_in-IsMulti m.coms m.socket h)
        (λ next k. returns (IsMulti repr) (record { socket = next.1; coms = next.0 }) k.0)
