-- ===== src/Multi/Reachable.antt =====
-- mini_udp/src/communicator/multi.rs: the states that a `MultiUdpCommunicator` reaches, by whatever
-- calls in whatever order.
use mini_udp.Prelude.{ℕ, ◌≡◌, refl, Bool, not, ◌==◌, if_lem, some, List}
use mini_udp.Outcome.{done}
use mini_udp.Packet.{Packet}
use mini_udp.ByteRepr.{ByteRepr, ok}
use mini_udp.Socket.{SocketAddr, System, Os, UdpCommunicatorSocket}
use mini_udp.Inner.{InnerUdpCommunicator}
use mini_udp.Inner.Flush.{flush_all}
use mini_udp.Inner.Flush.Whole.{flush_all_lem}
use mini_udp.Inner.Receive.Keeps.{IsWire, IsValid}
use mini_udp.Inner.Reachable
use mini_udp.Inner.Reachable.{Step-IsSound}
use mini_udp.Inner.Sound.{IsSound}
use mini_udp.Inner.Sound.Sends.{changed-IsSound}
use mini_udp.Communicator.{UdpCommunicatorMut, write_reliable}
use mini_udp.Multi.{
  MultiUdpCommunicator, bind, connect, broadcast, broadcast_except, for_each, retain, remove,
}
use mini_udp.Multi.Events.{OnReceiveCallback, recv, send}
use mini_udp.Multi.Map.{lookup, assign}
use mini_udp.Multi.Map.Keys.{
  IsMap, lookup-EveryValue, assign-IsMapOf, delete-IsMapOf, for_each_in-IsMapOf, retain_in-IsMapOf,
}
use mini_udp.Multi.Sound.{IsMulti, IsKeeper, entry-IsMulti, recv-IsMulti, send-IsMulti}

module _ {SEND RECV : Type 0} (debug : Bool) (system : System) (checksum : List ℕ → ℕ)
    (repr : ByteRepr SEND) (send_repr : ByteRepr (Packet SEND))
    (recv_repr : ByteRepr (Packet RECV)) where
  -- A call, or what a borrower does to the connection of an address. Closures leave connections
  -- well-formed, as the methods of a borrowed connection do.
  pub data Step : MultiUdpCommunicator SEND RECV → MultiUdpCommunicator SEND RECV → Type 1 where
    connected :
        {m : MultiUdpCommunicator SEND RECV} (addr : SocketAddr)
        → Step m (connect system m (some addr)).1
    borrowed :
        {m : MultiUdpCommunicator SEND RECV} (addr : SocketAddr)
        (inner inner' : InnerUdpCommunicator SEND RECV)
        → lookup m.coms addr ≡ some inner
        → Reachable.Step debug system checksum repr send_repr recv_repr inner inner'
        → Step m (record m { coms = assign m.coms addr inner' })
    told_all : {m : MultiUdpCommunicator SEND RECV} (message : SEND) → Step m (broadcast m message)
    told_others :
        {m : MultiUdpCommunicator SEND RECV} (message : SEND) (exception : SocketAddr)
        → Step m (broadcast_except m message exception)
    changed_each :
        {m : MultiUdpCommunicator SEND RECV}
        (f : UdpCommunicatorMut SEND RECV → InnerUdpCommunicator SEND RECV)
        → ((lent : UdpCommunicatorMut SEND RECV) → IsSound repr lent.inner → IsSound repr (f lent))
        → Step m (for_each m f)
    retained :
        {m : MultiUdpCommunicator SEND RECV}
        (f : UdpCommunicatorMut SEND RECV → Bool × InnerUdpCommunicator SEND RECV)
        → ((lent : UdpCommunicatorMut SEND RECV)
            → IsSound repr lent.inner
            → IsSound repr (f lent).1)
        → Step m (retain m f)
    removed : {m : MultiUdpCommunicator SEND RECV} (addr : SocketAddr) → Step m (remove m addr).1
    received :
        {m m' : MultiUdpCommunicator SEND RECV} (cb : OnReceiveCallback SEND RECV)
        (self self' : cb.Self)
        → IsKeeper repr cb
        → recv debug system checksum repr send_repr recv_repr cb m self ≡ done (m', self')
        → Step m m'
    sent :
        {m m' : MultiUdpCommunicator SEND RECV}
        → send debug system checksum repr send_repr recv_repr m ≡ done m'
        → Step m m'

  -- From a new one.
  pub data Reach : MultiUdpCommunicator SEND RECV → Type 1 where
    bound : (os : Os) → Reach (bind os)
    next : {m m' : MultiUdpCommunicator SEND RECV} → Reach m → Step m m' → Reach m'

  module _
      (typed : (bytes : List ℕ) (p : Packet RECV)
        → recv_repr.from_bytes bytes ≡ ok p
        → IsWire p) where
    reliable-IsSound :
        (c : InnerUdpCommunicator SEND RECV) (message : SEND)
        → IsSound repr c
        → IsSound repr (write_reliable c message)
    unfolding write_reliable
    reliable-IsSound c message s =
        changed-IsSound repr c _ s s.valid.reliable_sent s.valid.ordered_sent refl refl refl refl
          s.fit

    Step-IsMulti :
        {m m' : MultiUdpCommunicator SEND RECV} → Step m m' → IsMulti repr m → IsMulti repr m'
    unfolding connect broadcast broadcast_except for_each retain remove
    Step-IsMulti (connected {m} addr) h = (entry-IsMulti repr system addr m h).1
    Step-IsMulti (borrowed {m} addr inner inner' e st) h =
        assign-IsMapOf (IsSound repr) m.coms addr inner'
          (Step-IsSound debug system checksum repr send_repr recv_repr typed st
            (lookup-EveryValue (IsSound repr) m.coms addr inner h.1 e))
          h
    Step-IsMulti (told_all {m} message) h =
        for_each_in-IsMapOf (IsSound repr) m.coms _ (λ addr c s. reliable-IsSound c message s) h
    Step-IsMulti (told_others {m} message exception) h =
        for_each_in-IsMapOf (IsSound repr) m.coms _
          (λ addr c s.
            if_lem (IsSound repr) (not (addr == exception)) _ c (reliable-IsSound c message s) s)
          h
    Step-IsMulti (changed_each {m} f keep) h =
        for_each_in-IsMapOf (IsSound repr) m.coms _ (λ addr c s. keep _ s) h
    Step-IsMulti (retained {m} f keep) h =
        retain_in-IsMapOf (IsSound repr) m.coms _ (λ addr c s. keep _ s) h
    Step-IsMulti (removed {m} addr) h = delete-IsMapOf (IsSound repr) m.coms addr h
    Step-IsMulti (received {m} {m'} cb self self' keeper e) h =
        recv-IsMulti repr debug system checksum send_repr recv_repr typed cb keeper m self h
          (m', self') e
    Step-IsMulti (sent {m} {m'} e) h =
        send-IsMulti repr debug system checksum send_repr recv_repr m h m' e

    Reach-IsMulti : {m : MultiUdpCommunicator SEND RECV} → Reach m → IsMulti repr m
    unfolding bind
    Reach-IsMulti (bound os) = (tt, tt)
    Reach-IsMulti (next r st) = Step-IsMulti st (Reach-IsMulti r)

    -- Let the codec parse ids as `u16`. A `MultiUdpCommunicator` that was new and then went
    -- through any sequence of `connect`, `broadcast`, `broadcast_except`, `for_each`, `retain`,
    -- `remove`, steps of a connection that it lent, and `recv` and `send` that returned, with
    -- closures and callbacks that leave connections well-formed, has one connection for an
    -- address; each is well-formed, and `flush_messages` of it ends.
    pub reachable_multi_lem :
        (m : MultiUdpCommunicator SEND RECV) (addr : SocketAddr)
        (inner : InnerUdpCommunicator SEND RECV)
        → Reach m
        → lookup m.coms addr ≡ some inner
        → IsMap m.coms
          × IsValid inner
          × ((c' : InnerUdpCommunicator SEND RECV) × (socket' : UdpCommunicatorSocket) × (flush_all
                  system repr m.socket inner
                ≡ done (c', socket')))
    reachable_multi_lem m addr inner r e =
        let (keys, every) = Reach-IsMulti r in
        let s = lookup-EveryValue (IsSound repr) m.coms addr inner every e in
        let (c', reliable, ordered, ps, ps', packets, run, packed, packed', flushed, valid) =
          flush_all_lem system repr m.socket inner s.valid s.fit in
        (keys, s.valid, (c', record m.socket { os = ordered.os }, run))
