-- ===== src/Tests/Handing.antt =====
-- Runs of mini_udp/src/communicator/inner.rs: packets that arrive late, twice and out of order.
use mini_udp.Prelude.{
  ℕ, ◌+◌, ◌≤◌, ◌<◌, ◌≡◌, refl, arith, true, false, List, [], ◌∷◌, ◌++◌, contains,
}
use mini_udp.Packet.{Packet}
use mini_udp.Socket.{Os}
use mini_udp.Inner.{InnerUdpCommunicator, default}
use mini_udp.Inner.Receive.{handle_packet}
use mini_udp.Inner.Receive.Numbers.{id_of}
use mini_udp.Inner.Receive.Keeps.{IsWire, IsValid}
use mini_udp.Inner.Receive.Ordered.{logged}
use mini_udp.Inner.HandedOn.{Trace, InTime, Run}
use mini_udp.Inner.HandedOn.Laws.{handed_on_in_order, handed_on_once}
use mini_udp.Inner.HandedOn.Late.{late_across_wrap}
use mini_udp.ByteRepr.{ByteRepr, ok}
use mini_udp.Tests.Connections.{clock_system, sized, ack5, idle, idle-IsValid}

-- The n-th ordered packet carries n and n + 10.
abbrev log : ℕ → List ℕ
log n = n ∷ (n + 10) ∷ []

abbrev numbered : ℕ → Packet ℕ
numbered n = record {
  ack = record ack5 { sequence_id = id_of n };
  reliable = true;
  ordered = true;
  messages = log n;
}

abbrev loose : ℕ → Packet ℕ
loose n = record (numbered n) { ordered = false }

abbrev checksum : List ℕ → ℕ
checksum bytes = 0

-- Packets are not written in these runs.
abbrev unwritten : ByteRepr (Packet ℕ)
unwritten = record {
  min_byte_len = 0;
  max_byte_len = 0;
  byte_len = λ p. 0;
  write_to_bytes = λ p bytes. ok [];
  from_bytes = λ bytes. ok (numbered 0);
}

abbrev Runs : Trace ℕ → InnerUdpCommunicator ℕ ℕ → Type 0
Runs t c = Run clock_system checksum sized unwritten log t c

abbrev start : Os
start = record { reads = 0; inbox = []; outbox = [] }

abbrev fresh : InnerUdpCommunicator ℕ ℕ
fresh = (default clock_system start).0

abbrev handle : InnerUdpCommunicator ℕ ℕ → Packet ℕ → InnerUdpCommunicator ℕ ℕ
handle c p = handle_packet (record c { last_seen = 9 }) p

in_time : (ns : List ℕ) (n : ℕ) → n < 32 → ((j : ℕ) → contains ns j ≡ true → j ≤ 95) → InTime ns n
in_time ns n h small = (λ j le. absurd (omega arith), λ j e. omega (arith, small j e))

-- The ordered packets 1, 0 and 1 again, and the other packet 0 twice.
abbrev after : InnerUdpCommunicator ℕ ℕ
after =
    handle
      (handle (handle (handle (handle fresh (numbered 1)) (numbered 0)) (numbered 1)) (loose 0))
      (loose 0)

abbrev story : Trace ℕ
story = record {
  ordered_came = 1 ∷ 0 ∷ 1 ∷ [];
  unordered_came = 0 ∷ 0 ∷ [];
  was_read_ordered = [];
  was_read = [];
  owed = 0 ∷ 10 ∷ [];
}

story-Runs : Runs story after
story-Runs =
    Run.unordered_arrived 9 0 (loose 0) refl refl refl
      (in_time (0 ∷ []) 0 (omega arith) (λ j h. ground arith))
      (Run.unordered_arrived 9 0 (loose 0) refl refl refl
        (in_time [] 0 (omega arith) (λ j h. ground arith))
        (Run.ordered_arrived 9 1 (numbered 1) refl refl refl refl
          (in_time (0 ∷ 1 ∷ []) 1 (omega arith) (λ j h. ground arith))
          (Run.ordered_arrived 9 0 (numbered 0) refl refl refl refl
            (in_time (1 ∷ []) 0 (omega arith) (λ j h. ground arith))
            (Run.ordered_arrived 9 1 (numbered 1) refl refl refl refl
              (in_time [] 1 (omega arith) (λ j h. ground arith)) (Run.new start)))))

handed_on_in_order_example :
    (low : ℕ) × (contains story.ordered_came low ≡ false)
    × ((k : ℕ) → k < low → contains story.ordered_came k ≡ true)
    × (story.was_read_ordered ++ after.ordered_recv_queue ≡ logged log low)
handed_on_in_order_example =
    handed_on_in_order clock_system checksum sized unwritten log story after story-Runs

handed_on_once_example : story.was_read ++ after.unordered_recv_queue ≡ story.owed
handed_on_once_example =
    handed_on_once clock_system checksum sized unwritten log story after story-Runs

-- The newest id is 100, past the wrap.
abbrev wrapped : InnerUdpCommunicator ℕ ℕ
wrapped = record idle {
  reliable_received_packets = record idle.reliable_received_packets { newest = 100 };
}

wrapped-IsValid : IsValid wrapped
wrapped-IsValid = record {
  reliable_sent = idle-IsValid.reliable_sent;
  ordered_sent = idle-IsValid.ordered_sent;
  reliable_received = record { full_width = refl; id_range = omega arith };
  ordered_received = idle-IsValid.ordered_received;
  head = omega arith;
  unreliable_id = omega arith;
}

loose-IsWire : IsWire (loose 65500)
loose-IsWire = record {
  id = omega arith;
  reliable_newest = omega arith;
  ordered_newest = omega arith;
}

late_across_wrap_example :
    ((handle_packet wrapped (loose 65500)).unordered_recv_queue
      ≡ wrapped.unordered_recv_queue ++ (loose 65500).messages)
    × ((handle_packet wrapped (loose 65500)).reliable_received_packets.newest ≡ 65500)
late_across_wrap_example =
    late_across_wrap wrapped (loose 65500) wrapped-IsValid loose-IsWire refl refl (omega arith)
      (omega arith) (omega arith)
