-- ===== src/Tests/Multis.antt =====
-- A run of a `MultiUdpCommunicator`.
use mini_udp.Prelude.{false, ℕ, ◌≡◌, refl, arith, some, none, Option}
use mini_udp.Outcome.{Outcome, done}
use mini_udp.Socket
use mini_udp.Socket.{UdpCommunicatorSocket}
use mini_udp.Inner
use mini_udp.Inner.{InnerUdpCommunicator}
use mini_udp.Inner.Flush.{flush_all}
use mini_udp.Inner.Receive.Keeps.{IsValid}
use mini_udp.Inner.Reachable
use mini_udp.Communicator.{write, write_reliable}
use mini_udp.Multi.{MultiUdpCommunicator, bind, connect, broadcast_except, entry}
use mini_udp.Multi.Events.{recv, recv_loop, on_packet}
use mini_udp.Inner.Receive.{read_packet, slice, debug_unwrap, accept}
use mini_udp.Socket.{recv_from}
use mini_udp.Inner.Sound.{value_or}
use mini_udp.Tests.Faked.{counting}
use mini_udp.Multi.Map.{lookup, assign, for_each_in}
use mini_udp.Multi.Map.Keys.{IsMap}
use mini_udp.Multi.Sound.{IsKeeper}
use mini_udp.Multi.Reachable.{Step, Reach, reachable_multi_lem}
use mini_udp.Tests.Connections.{clock_system, sized, zero_checksum, letter_repr}
use mini_udp.Tests.Sockets.{busy, letters_typed}

abbrev with_one : MultiUdpCommunicator ℕ ℕ
with_one = (connect clock_system (bind busy.os) (some 1)).1

abbrev told : MultiUdpCommunicator ℕ ℕ
told = broadcast_except with_one 9 2

abbrev first : InnerUdpCommunicator ℕ ℕ
first = write_reliable (Inner.default clock_system busy.os).0 9

abbrev written : MultiUdpCommunicator ℕ ℕ
written = record told { coms = assign told.coms 1 (write first 3) }

told_first : lookup told.coms 1 ≡ some first
unfolding connect bind entry lookup assign broadcast_except for_each_in Socket.bind
told_first = refl

written-Reach : Reach false clock_system zero_checksum sized letter_repr letter_repr written
written-Reach =
    Reach.next
      (Reach.next (Reach.next (Reach.bound busy.os) (Step.connected 1)) (Step.told_others 9 2))
      (Step.borrowed 1 first (write first 3) told_first (Reachable.Step.wrote 3 (omega arith)))

abbrev heard : Outcome (MultiUdpCommunicator ℕ ℕ × ℕ)
heard = recv false clock_system zero_checksum sized letter_repr letter_repr counting written 0

-- After both datagrams, of which the first is a packet.
abbrev after : MultiUdpCommunicator ℕ ℕ
after = (value_or (written, 0) heard).0

heard_lem : heard ≡ done (after, 2)
unfolding recv recv_loop on_packet entry lookup assign read_packet slice debug_unwrap accept
    recv_from Socket.bind connect bind broadcast_except for_each_in Inner.default Socket.now
heard_lem = refl

abbrev inner_or :
    InnerUdpCommunicator ℕ ℕ → Option (InnerUdpCommunicator ℕ ℕ) → InnerUdpCommunicator ℕ ℕ
inner_or c none = c
inner_or c (some d) = d

abbrev spoken : InnerUdpCommunicator ℕ ℕ
spoken = inner_or (write first 3) (lookup after.coms 1)

after_first : lookup after.coms 1 ≡ some spoken
unfolding recv recv_loop on_packet entry lookup assign read_packet slice debug_unwrap accept
    recv_from Socket.bind connect bind broadcast_except for_each_in Inner.default Socket.now
after_first = refl

counting-IsKeeper : IsKeeper sized counting
counting-IsKeeper = record { on_recv = λ lent env s. s; finish = λ self state m h. h }

after-Reach : Reach false clock_system zero_checksum sized letter_repr letter_repr after
after-Reach = Reach.next written-Reach (Step.received counting 0 2 counting-IsKeeper heard_lem)

reachable_multi_lem_example :
    IsMap after.coms
    × IsValid spoken
    × ((c' : InnerUdpCommunicator ℕ ℕ) × (socket' : UdpCommunicatorSocket) × (flush_all clock_system
            sized after.socket spoken
          ≡ done (c', socket')))
reachable_multi_lem_example =
    reachable_multi_lem false clock_system zero_checksum sized letter_repr letter_repr letters_typed
      after 1 spoken after-Reach after_first
