-- ===== src/Tests/Sockets.antt =====
-- Runs of `receive`, and of mini_udp/src/communicator/multi.rs.
use mini_udp.Prelude.{
  ◌+◌, All, ◌≢◌, ℕ, ◌≡◌, refl, ap, arith, true, false, ◌==◌, if◌then◌else◌, none, some, List, [],
  ◌∷◌, replicate, take, foldl, inl,
}
use mini_udp.Outcome.{done, panicked}
use mini_udp.Packet.{Packet}
use mini_udp.ByteRepr.{Result, ok, err, panic}
use mini_udp.Socket.{one_hour, SocketAddr, Datagram, UdpCommunicatorSocket}
use mini_udp.Inner.{PendingPacket, InnerUdpCommunicator}
use mini_udp.Inner.Flush.{Flushing, flush_all}
use mini_udp.Inner.Flush.Packs.{Flushed}
use mini_udp.Inner.Flush.Pushed.{Sent}
use mini_udp.Inner.Flush.Whole.{unordered_part, ordered_part, with_parts, flush_all_lem}
use mini_udp.Inner.Receive.{receive, handle_packet}
use mini_udp.Inner.Send.{write_frame}
use mini_udp.Inner.Wire.{write_frame-arrive}
use mini_udp.Inner.Receive.Keeps.{IsWire, IsValid}
use mini_udp.Inner.Receive.Datagrams.{IsFrame, arrive, receive_lem}
use mini_udp.Inner.Receive.Arrivals.{receive-IsValid, receive_panics}
use mini_udp.Inner.{default}
use mini_udp.Inner.Reachable.{Reach, new, next, wrote, wrote_ordered, received, reachable_lem}
use mini_udp.Debug.{Fakes, read_delayed}
use mini_udp.Debug.Held.{Taken, read_delayed_lem}
use mini_udp.Communicator.{write, write_ordered, write_reliable}
use mini_udp.Multi.{MultiUdpCommunicator, broadcast_except}
use mini_udp.Multi.Map.{lookup}
use mini_udp.Multi.Laws.{map_at, broadcast_except_lem}
use mini_udp.Tests.Connections.{
  clock_system, sized, letter, letter-IsWire, idle, idle-IsValid, socket, zero_checksum,
  letter_repr,
}

-- One frame with the right checksum and one with a wrong one.
abbrev frames : List (SocketAddr × Datagram)
frames = (1, replicate 6 0) ∷ (2, 1 ∷ replicate 5 0) ∷ []

abbrev pub busy : UdpCommunicatorSocket
busy = record socket {
  os = record {
    reads = 0;
    inbox = some (1, replicate 6 0) ∷ some (2, 1 ∷ replicate 5 0) ∷ [];
    outbox = [];
  };
}

ok_ne_panic : {A : Type 0} (a : A) → ok a ≢ panic
ok_ne_panic a e = ground (arith, e)

two_frames : All (IsFrame letter_repr 8) frames
two_frames = (
  (omega arith, omega arith, ok_ne_panic letter),
  ((omega arith, omega arith, ok_ne_panic letter), tt),
)

receive_lem_example :
    (s' : UdpCommunicatorSocket) × (receive false clock_system zero_checksum letter_repr busy idle
      ≡ done ((foldl (arrive clock_system zero_checksum letter_repr) (idle, 0) frames).0, s'))
    × (s'.os.inbox ≡ [])
receive_lem_example =
    receive_lem clock_system zero_checksum letter_repr frames busy idle refl (two_frames)

abbrev packet_or : Packet ℕ → Result (Packet ℕ) → Packet ℕ
packet_or p (ok q) = q
packet_or p (err e) = p
packet_or p panic = p

pub letters_typed : (bytes : List ℕ) (p : Packet ℕ) → letter_repr.from_bytes bytes ≡ ok p → IsWire p
letters_typed bytes p e = rw (← ap (packet_or letter) e) letter-IsWire

receive-IsValid_example :
    (c' : InnerUdpCommunicator ℕ ℕ) × (s' : UdpCommunicatorSocket) × (receive false clock_system
        zero_checksum letter_repr busy idle
      ≡ done (c', s'))
    × IsValid c'
receive-IsValid_example =
    receive-IsValid clock_system zero_checksum letter_repr letters_typed frames busy idle
      idle-IsValid refl (two_frames)

abbrev runt : UdpCommunicatorSocket
runt = record socket { os = record { reads = 0; inbox = some (1, 7 ∷ 7 ∷ []) ∷ []; outbox = [] } }

receive_panics_example : receive false clock_system zero_checksum letter_repr runt idle ≡ panicked
receive_panics_example =
    receive_panics false clock_system zero_checksum letter_repr runt idle 1 (7 ∷ 7 ∷ []) [] refl
      (omega arith) (inl (omega arith))

abbrev pub pair : MultiUdpCommunicator ℕ ℕ
pair = record { socket = socket; coms = (1, idle) ∷ (2, idle) ∷ [] }

broadcast_except_lem_example : lookup (broadcast_except pair 9 2).coms 1 ≡ (
    if 1 == 2
    then lookup pair.coms 1
    else map_at (λ inner. write_reliable inner 9) (lookup pair.coms 1))
broadcast_except_lem_example = broadcast_except_lem pair 9 2 1

write_frame-arrive_example :
    (socket' : UdpCommunicatorSocket) × (write_frame clock_system zero_checksum letter_repr letter
        socket
      ≡ ok socket')
    × (arrive clock_system zero_checksum letter_repr (idle, 3) (1, take 6 socket'.data_buffer)
        ≡ (handle_packet (record idle { last_seen = 8 + one_hour }) letter, 4))
write_frame-arrive_example =
    write_frame-arrive clock_system zero_checksum letter_repr socket letter (replicate 4 0) idle 3 1
      (λ bytes. omega arith) refl refl

abbrev chatty : InnerUdpCommunicator ℕ ℕ
chatty = record idle {
  reliable_send_queue = 1000 ∷ 500 ∷ [];
  unreliable_send_queue = 1000 ∷ 500 ∷ 20 ∷ [];
}

chatty-IsValid : IsValid chatty
chatty-IsValid = record {
  reliable_sent = idle-IsValid.reliable_sent;
  ordered_sent = idle-IsValid.ordered_sent;
  reliable_received = idle-IsValid.reliable_received;
  ordered_received = idle-IsValid.ordered_received;
  head = omega arith;
  unreliable_id = omega arith;
}

flush_all_lem_example :
    (c' : InnerUdpCommunicator ℕ ℕ) × (reliable : Flushing ℕ) × (ordered : Flushing ℕ) × (ps : List
      (PendingPacket ℕ))
    × (ps' : List (PendingPacket ℕ)) × (packets : List (Packet ℕ)) × (flush_all clock_system sized
          socket chatty
        ≡ done (c', record socket { os = ordered.os }))
    × Sent sized socket.max_reliable_unordered_retries false
        (unordered_part chatty socket.os)
        reliable
        ps
    × Sent sized socket.max_reliable_ordered_retries true
        (ordered_part chatty reliable.os)
        ordered
        ps'
    × Flushed sized (with_parts chatty reliable ordered) c' packets
    × IsValid c'
flush_all_lem_example =
    flush_all_lem clock_system sized socket chatty chatty-IsValid
      (omega arith, (omega arith, (omega arith, tt)))

-- A new connection that has queued two messages and read what had arrived.
abbrev writing : InnerUdpCommunicator ℕ ℕ
writing = write_ordered (write (default clock_system socket.os).0 3) 4

abbrev heard : InnerUdpCommunicator ℕ ℕ
heard = (foldl (arrive clock_system zero_checksum letter_repr) (writing, 0) frames).0

heard_reached : Reach false clock_system zero_checksum sized letter_repr letter_repr heard
heard_reached =
    let (s', e, empty) =
      receive_lem clock_system zero_checksum letter_repr frames busy writing refl two_frames in
    next (next (next (new socket.os) (wrote 3 (omega arith))) (wrote_ordered 4))
      (received busy s' e)

reachable_lem_example :
    IsValid heard
    × ((c' : InnerUdpCommunicator ℕ ℕ) × (socket' : UdpCommunicatorSocket) × (flush_all clock_system
            sized socket heard
          ≡ done (c', socket')))
reachable_lem_example =
    reachable_lem false clock_system zero_checksum sized letter_repr letter_repr letters_typed heard
      socket heard_reached

-- The second packet has come due, the first has not.
abbrev holding : Fakes
holding = record {
  drop_probability = none;
  corruption_probability = none;
  debug_logs = false;
  draws = 0;
  first = 1;
  end = 5;
  delayed =
      record { addr = none; buffer = replicate 8 1; n = 6; due = 1000 }
      ∷ record { addr = some 2; buffer = replicate 8 2; n = 7; due = 0 }
      ∷ [];
}

read_delayed_lem_example :
    let (found, f', s') = read_delayed clock_system holding socket in
    Taken clock_system holding f' socket s' found
read_delayed_lem_example = read_delayed_lem clock_system holding socket
