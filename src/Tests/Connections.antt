-- ===== src/Tests/Connections.antt =====
-- Runs of mini_udp/src/communicator/inner.rs: packing, handling and resending packets.
use mini_udp.Prelude.{
  ℕ, ◌+◌, ◌≤◌, ◌<◌, ◌≡◌, refl, arith, Bool, true, false, not, ◌==◌, none, some, List, [], ◌∷◌,
  replicate, length,
}
use mini_udp.Outcome.{done, out_of_fuel}
use mini_udp.Ring.{RingBuffer}
use mini_udp.Ring.Slots.{IsRing}
use mini_udp.Packet.{PacketAck, Packet}
use mini_udp.Ack.{num_items}
use mini_udp.ByteRepr.{ByteRepr, ok}
use mini_udp.Socket.{connected, System, Os, UdpCommunicatorSocket, one_hour, now, send_to}
use mini_udp.Inner.{PendingPacket, InnerUdpCommunicator}
use mini_udp.Inner.Flush.{Flushing, flush_messages, flush_unreliable}
use mini_udp.Inner.Flush.Packs.{Flushed, flush_unreliable_lem, flush_unreliable_oversized}
use mini_udp.Inner.Flush.Pushed.{Sent}
use mini_udp.Inner.Flush.Reliable.{flush_messages_lem}
use mini_udp.Inner.Receive.{Delivery, deliver, handle_packet}
use mini_udp.Inner.Receive.Steps.{Delivered}
use mini_udp.Inner.Receive.Deliver.{deliver_lem}
use mini_udp.Inner.Receive.Keeps.{IsWire, IsValid}
use mini_udp.Inner.Receive.Once.{handle_packet_twice}
use mini_udp.Inner.Send.{write_frame, send_frame, resend}
use mini_udp.Inner.Send.Resend.{Kept, resend_gives_up}

abbrev pub clock_system : System
clock_system = record { elapsed = λ k. k + 5; takes = λ sent addr bytes. true }

-- Messages are their own lengths in bytes, and are written as that many zeros.
abbrev pub sized : ByteRepr ℕ
sized = record {
  min_byte_len = 0;
  max_byte_len = 1024;
  byte_len = λ m. m;
  write_to_bytes = λ m bytes. ok bytes;
  from_bytes = λ bytes. ok (length bytes);
}

abbrev pub ack5 : PacketAck
ack5 = record {
  sequence_id = 0;
  reliable_newest_received = 65535;
  reliable_ack_bits = 0;
  ordered_newest_received = 65535;
  ordered_ack_bits = 0;
}

abbrev pub letter : Packet ℕ
letter = record { ack = ack5; reliable = true; ordered = true; messages = 4 ∷ 6 ∷ [] }

pub letter-IsWire : IsWire letter
letter-IsWire = record {
  id = omega arith;
  reliable_newest = omega arith;
  ordered_newest = omega arith;
}

abbrev pub empty_ring : {T : Type 0} → RingBuffer T
empty_ring = record { newest = 65535; items = replicate 32 none }

abbrev pub idle_for : (M : Type 0) → InnerUdpCommunicator M M
idle_for M = record {
  reliable_send_packets = empty_ring;
  reliable_ordered_send_packets = empty_ring;
  reliable_received_packets = empty_ring;
  reliable_ordered_received_packets = empty_ring;
  ordered_read_packet_head = 0;
  unreliable_send_packet_id = 0;
  unreliable_send_packets = [];
  reliable_send_queue = [];
  reliable_ordered_send_queue = [];
  unreliable_send_queue = [];
  unordered_recv_queue = [];
  ordered_recv_queue = [];
  received_packet_duplicate = false;
  last_seen = 0;
  last_send = 0;
}

abbrev pub idle : InnerUdpCommunicator ℕ ℕ
idle = idle_for ℕ

pub idle-IsValid : IsValid idle
idle-IsValid = record {
  reliable_sent = record { full_width = refl; id_range = omega arith };
  ordered_sent = record { full_width = refl; id_range = omega arith };
  reliable_received = record { full_width = refl; id_range = omega arith };
  ordered_received = record { full_width = refl; id_range = omega arith };
  head = omega arith;
  unreliable_id = omega arith;
}

handle_packet_twice_example :
    handle_packet (handle_packet idle letter) letter
    ≡ record (handle_packet idle letter) { received_packet_duplicate = true }
handle_packet_twice_example = handle_packet_twice idle letter idle-IsValid letter-IsWire refl

-- The packet 0 has arrived, and 1 has not.
abbrev one_arrived : Delivery ℕ
one_arrived = record {
  received = record { newest = 0; items = some letter ∷ replicate 31 none };
  head = 0;
  queue = 3 ∷ [];
}

one_arrived-IsRing : IsRing num_items (one_arrived.received)
one_arrived-IsRing = record { full_width = refl; id_range = omega arith }

deliver_lem_example :
    (ps : List (Packet ℕ)) × (length ps ≤ 32) × Delivered one_arrived (deliver one_arrived) ps
deliver_lem_example = deliver_lem one_arrived one_arrived-IsRing (omega arith) (omega arith)

abbrev os : Os
os = record { reads = 0; inbox = []; outbox = [] }

abbrev queued : Flushing ℕ
queued = record { send_packets = empty_ring; send_queue = 1000 ∷ 500 ∷ 20 ∷ []; os = os }

flush_messages_lem_example :
    (s' : Flushing ℕ) × (ps : List (PendingPacket ℕ)) × (flush_messages clock_system sized 100
        empty_ring
        (empty_ring {T = Packet ℕ})
        false
        queued
      ≡ done s')
    × Sent sized 100 false queued s' ps
    × IsRing num_items s'.send_packets
flush_messages_lem_example =
    flush_messages_lem clock_system sized 100 empty_ring empty_ring false queued
      idle-IsValid.reliable_sent

abbrev pub talking : InnerUdpCommunicator ℕ ℕ
talking = record idle { unreliable_send_queue = 1000 ∷ 500 ∷ 20 ∷ [] }

flush_unreliable_lem_example :
    (c' : InnerUdpCommunicator ℕ ℕ) × (packets : List (Packet ℕ)) × (flush_unreliable clock_system
        sized 4 talking
      ≡ done c')
    × Flushed sized talking c' packets
flush_unreliable_lem_example =
    flush_unreliable_lem clock_system sized 4 talking (omega arith) (omega arith)
      (omega arith, (omega arith, (omega arith, tt)))

abbrev stuck : InnerUdpCommunicator ℕ ℕ
stuck = record idle { unreliable_send_queue = 1025 ∷ 3 ∷ [] }

flush_unreliable_oversized_example : flush_unreliable clock_system sized 1000 stuck ≡ out_of_fuel
flush_unreliable_oversized_example =
    flush_unreliable_oversized clock_system sized 1000 stuck 1025 (3 ∷ []) refl (omega arith)

abbrev pub socket : UdpCommunicatorSocket
socket = record {
  os = os;
  data_buffer = replicate 8 0;
  reliable_unordered_resend_interval = 100;
  reliable_ordered_resend_interval = 100;
  max_reliable_unordered_retries = 2;
  max_reliable_ordered_retries = 2;
}

abbrev pub zero_checksum : List ℕ → ℕ
zero_checksum bytes = 0

-- Packets of two bytes, whatever they say.
abbrev pub letter_repr : ByteRepr (Packet ℕ)
letter_repr = record {
  min_byte_len = 2;
  max_byte_len = 2;
  byte_len = λ p. 2;
  write_to_bytes = λ p bytes. ok bytes;
  from_bytes = λ bytes. ok letter;
}

abbrev two_tries : PendingPacket ℕ
two_tries = record { last_send = 0; remaining_retries = 2; packet = letter }

abbrev last_try : PendingPacket ℕ
last_try = record { last_send = 5 + one_hour; remaining_retries = 1; packet = letter }

abbrev sent_once : UdpCommunicatorSocket × Bool
sent_once = (
  record socket { os = record { reads = 1; inbox = []; outbox = (connected, replicate 6 0) ∷ [] } },
  true,
)

first_try :
    resend clock_system zero_checksum letter_repr connected socket false two_tries
    ≡ (true, last_try, some sent_once)
unfolding resend write_frame send_frame send_to now
first_try = refl

abbrev given_up : PendingPacket ℕ
given_up = record { last_send = 5 + one_hour; remaining_retries = 0; packet = letter }

second_try :
    resend clock_system zero_checksum letter_repr connected socket false last_try
    ≡ (false, given_up, some sent_once)
unfolding resend write_frame send_frame send_to now
second_try = refl

resend_gives_up_example : (1 < 2) × (false ≡ not (1 + 1 == 2)) × (letter ≡ letter)
resend_gives_up_example =
    resend_gives_up clock_system zero_checksum letter_repr {pending = two_tries} {k = 1}
      {q = last_try} (omega arith) (omega arith)
      (Kept.again Kept.start connected socket false sent_once first_try) connected socket false
      false given_up sent_once second_try
