-- ===== src/Inner/Receive.antt =====
-- mini_udp/src/communicator/inner.rs: `receive` and `read_packet`. The fields of the cargo feature
-- `debug` that fake an unreliable network are unset, as `bind` leaves them.

pub mod Steps
pub mod Deliver
pub mod Keeps
pub mod Once
pub mod Datagrams
pub mod Arrivals
pub mod Numbers
pub mod Ordered
use mini_udp.Prelude.{
  ℕ, zero, suc, ◌+◌, ◌-◌, ◌*◌, Bool, true, false, not, ◌&&◌, ◌||◌, ltb, leb, ◌==◌, if◌then◌else◌,
  is_some, Option, none, some, List, [], ◌∷◌, ◌++◌, is_empty, take, drop, length, get_or,
}
use mini_udp.Word.{wrapping_add, wrapping_sub}
use mini_udp.Serial.{wrapping_range, wrapping_gt}
use mini_udp.Outcome.{Outcome, done, panicked, out_of_fuel, ◌>>=◌}
use mini_udp.Ring
use mini_udp.Ring.{RingBuffer}
use mini_udp.Packet.{PacketAck, Packet}
use mini_udp.Ack.{num_items, acknowledge}
use mini_udp.ByteRepr.{ByteRepr, Result, ok, err, panic}
use mini_udp.Socket.{System, Os, UdpCommunicatorSocket, now, recv_from}
use mini_udp.Inner.{InnerUdpCommunicator}

-- `u32::from_le_bytes`, of the first four bytes.
abbrev pub from_le_bytes : List ℕ → ℕ
from_le_bytes bytes =
    get_or bytes 0 0
    + get_or bytes 1 0 * 256
    + get_or bytes 2 0 * 65536
    + get_or bytes 3 0 * 16_777_216

-- `&bytes[start..end]`, which panics out of range.
unfoldable pub slice : List ℕ → ℕ → ℕ → Outcome (List ℕ)
slice bytes start end =
    if leb start end && leb end (length bytes) then done (drop start (take end bytes)) else panicked

-- What the loop over `reliable_ordered_received_packets.iter_mut()` changes.
pub record Delivery (RECV : Type 0) : Type 0 where
  pub received : RingBuffer (Packet RECV)
  pub head : ℕ
  pub queue : List RECV

module _ {RECV : Type 0} where
  -- The body at the packet with the id that is next: `packet.messages.drain(..)` into the queue.
  unfoldable pub deliver_packet : Delivery RECV → ℕ → Packet RECV → Delivery RECV
  deliver_packet d id packet = record {
    received = Ring.set_mut num_items d.received id (record packet { messages = [] });
    head = wrapping_add d.head 1;
    queue = d.queue ++ packet.messages;
  }

  -- The loop over the ids that are left to visit; `iter_mut` passes over those with no packet.
  unfoldable pub deliver_in : Delivery RECV → List ℕ → Delivery RECV
  deliver_in d [] = d
  deliver_in d (id ∷ ids) = elim (Ring.get num_items d.received id) [
    | none ↦ deliver_in d ids
    | some packet ↦
        let delivered = deliver_in (deliver_packet d id packet) ids in
        let passed = deliver_in d ids in
        if id == d.head then delivered else if wrapping_gt id d.head 32 then d else passed
  ]

  unfoldable pub deliver : Delivery RECV → Delivery RECV
  deliver d = deliver_in d (
      wrapping_range (wrapping_sub d.received.newest (num_items - 1))
        (wrapping_add d.received.newest 1))

module _ {SEND RECV : Type 0} where
  -- `self.acknowledge(&packet.ack)`
  unfoldable pub acknowledge_packet :
      InnerUdpCommunicator SEND RECV → PacketAck → InnerUdpCommunicator SEND RECV
  acknowledge_packet c ack =
      let (reliable, ordered) =
        acknowledge ack (c.reliable_send_packets, c.reliable_ordered_send_packets) in
      record c { reliable_send_packets = reliable; reliable_ordered_send_packets = ordered }

  -- The test for a packet that is in its buffer already.
  unfoldable pub is_duplicate : InnerUdpCommunicator SEND RECV → Packet RECV → Bool
  is_duplicate c packet =
      packet.ordered
        && is_some (Ring.get num_items c.reliable_ordered_received_packets packet.ack.sequence_id)
      || not packet.ordered
        && is_some (Ring.get num_items c.reliable_received_packets packet.ack.sequence_id)

  unfoldable pub newest_index : InnerUdpCommunicator SEND RECV → Packet RECV → ℕ
  newest_index c packet =
      if packet.ordered
      then Ring.get_newest_index c.reliable_ordered_received_packets
      else Ring.get_newest_index c.reliable_received_packets

  unfoldable pub is_too_old : InnerUdpCommunicator SEND RECV → Packet RECV → Bool
  unfolding newest_index
  is_too_old c packet =
      wrapping_gt (wrapping_sub (newest_index c packet) 31) packet.ack.sequence_id 64

  -- `if packet.ordered { ... } else { ... }`, for a packet that is new.
  unfoldable pub store :
      InnerUdpCommunicator SEND RECV → Packet RECV → InnerUdpCommunicator SEND RECV
  store c packet =
      if packet.ordered
      then (let d = deliver (record {
        received =
            Ring.insert num_items c.reliable_ordered_received_packets packet.ack.sequence_id packet;
        head = c.ordered_read_packet_head;
        queue = c.ordered_recv_queue;
      }) in
          record c {
            reliable_ordered_received_packets = d.received;
            ordered_read_packet_head = d.head;
            ordered_recv_queue = d.queue;
          })
      else record c {
        reliable_received_packets =
            Ring.insert num_items c.reliable_received_packets packet.ack.sequence_id tt;
        unordered_recv_queue = c.unordered_recv_queue ++ packet.messages;
      }

  -- The arm `Ok(packet)` of `read_packet`, after `last_seen` is set. With no messages the
  -- unreliable packet is a heartbeat, and the queue is not extended.
  unfoldable pub handle_packet :
      InnerUdpCommunicator SEND RECV → Packet RECV → InnerUdpCommunicator SEND RECV
  handle_packet c packet =
      if not packet.reliable
      then acknowledge_packet
          (if is_empty packet.messages
            then c
            else record c { unordered_recv_queue = c.unordered_recv_queue ++ packet.messages })
          packet.ack
      else if is_duplicate c packet
      then record c { received_packet_duplicate = true }
      else if is_too_old c packet
      then record c { received_packet_duplicate = true }
      else store (acknowledge_packet c packet.ack) packet

-- With the feature `debug` the function first parses the packet for its logs, and unwraps.
unfoldable pub debug_unwrap :
    {RECV : Type 0} → Bool → ByteRepr (Packet RECV) → List ℕ → Outcome (Unit {0})
debug_unwrap debug repr bytes =
    if debug
    then elim (repr.from_bytes bytes) [ ok packet ↦ done tt | err e ↦ panicked | panic ↦ panicked ]
    else done tt

-- `debug` says whether the cargo feature is on; `checksum` is `Self::CRC.checksum`.
module _ {SEND RECV : Type 0} (debug : Bool) (system : System) (checksum : List ℕ → ℕ)
    (repr : ByteRepr (Packet RECV)) where
  unfoldable pub accept :
      InnerUdpCommunicator SEND RECV
      → Os
      → Result (Packet RECV)
      → Outcome (InnerUdpCommunicator SEND RECV × Os)
  accept c os (err e) = done (c, os)
  accept c os panic = panicked
  accept c os (ok packet) =
      let (time, os') = now system os in
      done (handle_packet (record c { last_seen = time }) packet, os')

  unfoldable pub read_packet :
      ℕ
      → UdpCommunicatorSocket
      → InnerUdpCommunicator SEND RECV
      → Outcome (InnerUdpCommunicator SEND RECV × UdpCommunicatorSocket)
  read_packet n socket c = do
    bytes ← slice socket.data_buffer 4 n
    _ ← debug_unwrap debug repr bytes
    crc_bytes ← slice socket.data_buffer 0 4
    if not (checksum bytes == from_le_bytes crc_bytes)
        then done (c, socket)
        else (accept c socket.os (repr.from_bytes bytes) >>= λ next.
            done (next.0, record socket { os = next.1 }))

  -- `while let Ok(n) = socket.recv(..) { self.read_packet(n, socket); }`
  unfoldable pub receive_loop :
      ℕ
      → UdpCommunicatorSocket
      → InnerUdpCommunicator SEND RECV
      → Outcome (InnerUdpCommunicator SEND RECV × UdpCommunicatorSocket)
  receive_loop zero socket c = out_of_fuel
  receive_loop (suc fuel) socket c =
      let (event, socket') = recv_from socket in
      elim event [
        | none ↦ done (c, socket')
        | some (n, addr) ↦ read_packet n socket' c >>= λ next. receive_loop fuel next.1 next.0
      ]

  -- Each round takes an event, and the system then has no more for now.
  unfoldable pub receive :
      UdpCommunicatorSocket
      → InnerUdpCommunicator SEND RECV
      → Outcome (InnerUdpCommunicator SEND RECV × UdpCommunicatorSocket)
  receive socket c = receive_loop (length socket.os.inbox + 1) socket c
