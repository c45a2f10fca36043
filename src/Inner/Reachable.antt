-- ===== src/Inner/Reachable.antt =====
-- mini_udp/src/communicator/inner.rs: the states that a connection reaches, by whatever calls in
-- whatever order.
use mini_udp.Prelude.{ℕ, ◌+◌, ◌≡◌, refl, Bool, List, [], ◌∷◌, ◌++◌, length, All}
use mini_udp.Outcome.{done}
use mini_udp.Packet.{Packet}
use mini_udp.ByteRepr.{ByteRepr, Result, ok}
use mini_udp.Socket.{SendAddr, System, Os, UdpCommunicatorSocket}
use mini_udp.Inner.{InnerUdpCommunicator, default, write_heartbeat}
use mini_udp.Inner.Flush.{flush_all}
use mini_udp.Inner.Flush.Packs.{Fits}
use mini_udp.Inner.Flush.Whole.{flush_all_lem}
use mini_udp.Inner.Receive.{receive}
use mini_udp.Inner.Receive.Keeps.{IsWire, IsValid}
use mini_udp.Inner.Send.{send}
use mini_udp.Inner.Sound.{IsSound, receive_loop-IsSound}
use mini_udp.Communicator.{write, write_reliable, write_ordered, read, read_ordered}
use mini_udp.Inner.Sound.Sends.{
  default-IsSound, write_heartbeat-IsSound, changed-IsSound, send-IsSound,
}

All-snoc :
    {A : Type 0} (P : A → Type 0) (xs : List A) (x : A) → All P xs → P x → All P (xs ++ (x ∷ []))
All-snoc P [] x h p = (p, tt)
All-snoc P (y ∷ xs) x (h, hs) p = (h, All-snoc P xs x hs p)

-- A call on a connection, or what `recv` does to it. Unreliable messages fit a packet.
module _ {SEND RECV : Type 0} (debug : Bool) (system : System) (checksum : List ℕ → ℕ)
    (repr : ByteRepr SEND) (send_repr : ByteRepr (Packet SEND))
    (recv_repr : ByteRepr (Packet RECV)) where
  pub data Step : InnerUdpCommunicator SEND RECV → InnerUdpCommunicator SEND RECV → Type 0 where
    wrote : {c : InnerUdpCommunicator SEND RECV} (m : SEND) → Fits repr m → Step c (write c m)
    wrote_reliable : {c : InnerUdpCommunicator SEND RECV} (m : SEND) → Step c (write_reliable c m)
    wrote_ordered : {c : InnerUdpCommunicator SEND RECV} (m : SEND) → Step c (write_ordered c m)
    wrote_heartbeat : {c : InnerUdpCommunicator SEND RECV} → Step c (write_heartbeat c)
    was_read : {c : InnerUdpCommunicator SEND RECV} → Step c (read c).1
    was_read_ordered : {c : InnerUdpCommunicator SEND RECV} → Step c (read_ordered c).1
    received :
        {c c' : InnerUdpCommunicator SEND RECV} (socket socket' : UdpCommunicatorSocket)
        → receive debug system checksum recv_repr socket c ≡ done (c', socket')
        → Step c c'
    sent :
        {c c' : InnerUdpCommunicator SEND RECV} (addr : SendAddr)
        (socket socket' : UdpCommunicatorSocket) (answer : Result (Unit {0}))
        → send system checksum repr send_repr addr socket c ≡ done (answer, c', socket')
        → Step c c'

  -- From a new connection.
  pub data Reach : InnerUdpCommunicator SEND RECV → Type 0 where
    new : (os : Os) → Reach (default system os).0
    next : {c c' : InnerUdpCommunicator SEND RECV} → Reach c → Step c c' → Reach c'

  module _
      (typed : (bytes : List ℕ) (p : Packet RECV)
        → recv_repr.from_bytes bytes ≡ ok p
        → IsWire p) where
    pub Step-IsSound :
        {c c' : InnerUdpCommunicator SEND RECV} → Step c c' → IsSound repr c → IsSound repr c'
    unfolding write write_reliable write_ordered read read_ordered receive
    Step-IsSound (wrote {c} m h) s =
        changed-IsSound repr c _ s s.valid.reliable_sent s.valid.ordered_sent refl refl refl refl
          (All-snoc (Fits repr) c.unreliable_send_queue m s.fit h)
    Step-IsSound (wrote_reliable {c} m) s =
        changed-IsSound repr c _ s s.valid.reliable_sent s.valid.ordered_sent refl refl refl refl
          s.fit
    Step-IsSound (wrote_ordered {c} m) s =
        changed-IsSound repr c _ s s.valid.reliable_sent s.valid.ordered_sent refl refl refl refl
          s.fit
    Step-IsSound (wrote_heartbeat {c}) s = write_heartbeat-IsSound repr c s
    Step-IsSound (was_read {c}) s =
        changed-IsSound repr c _ s s.valid.reliable_sent s.valid.ordered_sent refl refl refl refl
          s.fit
    Step-IsSound (was_read_ordered {c}) s =
        changed-IsSound repr c _ s s.valid.reliable_sent s.valid.ordered_sent refl refl refl refl
          s.fit
    Step-IsSound (received {c} {c'} socket socket' e) s =
        receive_loop-IsSound repr debug system checksum recv_repr typed (length socket.os.inbox + 1)
          socket c s (c', socket') e
    Step-IsSound (sent {c} {c'} addr socket socket' answer e) s =
        send-IsSound repr system checksum send_repr addr socket c s (answer, c', socket') e

    Reach-IsSound : {c : InnerUdpCommunicator SEND RECV} → Reach c → IsSound repr c
    Reach-IsSound (new os) = default-IsSound repr system os
    Reach-IsSound (next r st) = Step-IsSound st (Reach-IsSound r)

    -- Let the codec parse ids as `u16`. A connection that was new and then went through any
    -- sequence of `write` of messages that fit a packet, `write_reliable`, `write_ordered`,
    -- `write_heartbeat`, `read`, `read_ordered`, and of `receive` and `send` that returned, is
    -- well-formed, and `flush_messages` of it ends.
    pub reachable_lem :
        (c : InnerUdpCommunicator SEND RECV) (socket : UdpCommunicatorSocket)
        → Reach c
        → IsValid c
          × ((c' : InnerUdpCommunicator SEND RECV) × (socket' : UdpCommunicatorSocket) × (flush_all
                  system repr socket c
                ≡ done (c', socket')))
    reachable_lem c socket r =
        let s = Reach-IsSound r in
        let (c', reliable, ordered, ps, ps', packets, run, packed, packed', flushed, valid) =
          flush_all_lem system repr socket c s.valid s.fit in
        (s.valid, (c', record socket { os = ordered.os }, run))
