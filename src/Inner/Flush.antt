-- ===== src/Inner/Flush.antt =====
-- mini_udp/src/communicator/inner.rs: `flush_messages`, which packs queued messages into packets.
-- The function of that name and the loop of the method of that name are the two loops here.
pub mod Packs
pub mod Packed
pub mod Room
pub mod Pushed
pub mod Reliable
pub mod Whole
use mini_udp.Prelude.{
  ℕ, zero, suc, ◌+◌, ◌-◌, Bool, true, false, not, ◌&&◌, leb, if◌then◌else◌, Option, none, some,
  List, [], ◌∷◌, ◌++◌, is_empty, take, drop, length,
}
use mini_udp.Word.{wrapping_add}
use mini_udp.Outcome.{Outcome, done, panicked, out_of_fuel, ◌>>=◌}
use mini_udp.Ring
use mini_udp.Ring.{RingBuffer}
use mini_udp.Packet.{PacketAck, Packet, max_packet_data_len}
use mini_udp.Ack.{num_items, new_ack}
use mini_udp.ByteRepr.{ByteRepr}
use mini_udp.Socket.{Instant, System, Os, UdpCommunicatorSocket, now, one_hour}
use mini_udp.Inner.{PendingPacket, InnerUdpCommunicator}

module _ {SEND : Type 0} (repr : ByteRepr SEND) where
  -- The `for` loop that counts the messages at the front of the queue that fit.
  unfoldable pub included : ℕ → List SEND → ℕ
  included available_bytes [] = 0
  included available_bytes (msg ∷ msgs) =
      let more = included (available_bytes - repr.byte_len msg) msgs in
      if leb (repr.byte_len msg) available_bytes then suc more else 0

  abbrev pub included_msgs : List SEND → ℕ
  included_msgs queue = included max_packet_data_len queue

-- What the loop of the function `flush_messages` changes.
pub record Flushing (SEND : Type 0) : Type 0 where
  pub send_packets : RingBuffer (PendingPacket SEND)
  pub send_queue : List SEND
  pub os : Os

module _ {SEND RECV : Type 0} (system : System) (repr : ByteRepr SEND) where
  module _ (max_retries : ℕ) (reliable_received : RingBuffer (Unit {0}))
      (ordered_received : RingBuffer (Packet RECV)) (ordered : Bool) where
    -- The packet of one round, with the messages that fit. If the first one does not, the source
    -- logs an error and goes on with none.
    unfoldable pub pending_packet : Flushing SEND → PendingPacket SEND
    pending_packet s =
        let (time, os) = now system s.os in
        record {
          last_send = time - one_hour;
          remaining_retries = max_retries;
          packet = record {
            ack = new_ack (Ring.get_next_index s.send_packets) reliable_received ordered_received;
            reliable = true;
            ordered = ordered;
            messages = take (included_msgs repr s.send_queue) s.send_queue;
          };
        }

    unfoldable pub flush_round : Flushing SEND → Flushing SEND
    unfolding pending_packet
    flush_round s =
        let (time, os) = now system s.os in
        record {
          send_packets = (Ring.push num_items s.send_packets (pending_packet s)).0;
          send_queue = drop (included_msgs repr s.send_queue) s.send_queue;
          os = os;
        }

    -- `while !send_packets.push_will_override() && !send_queue.is_empty()`
    unfoldable pub flush_loop : ℕ → Flushing SEND → Outcome (Flushing SEND)
    flush_loop zero s = out_of_fuel
    flush_loop (suc fuel) s =
        let rest = flush_loop fuel (flush_round s) in
        if not (Ring.push_will_override num_items s.send_packets) && not (is_empty s.send_queue)
        then rest
        else done s

    -- A round fills a slot, so one more than the slots is enough.
    unfoldable pub flush_messages : Flushing SEND → Outcome (Flushing SEND)
    flush_messages s = flush_loop (num_items + 1) s

  -- The loop over the unreliable queue in the method: the packet of one round.
  unfoldable pub unreliable_packet : InnerUdpCommunicator SEND RECV → Packet SEND
  unreliable_packet c = record {
    ack =
        new_ack c.unreliable_send_packet_id c.reliable_received_packets
          c.reliable_ordered_received_packets;
    reliable = false;
    ordered = false;
    messages = take (included_msgs repr c.unreliable_send_queue) c.unreliable_send_queue;
  }

  unfoldable pub flush_unreliable_round :
      InnerUdpCommunicator SEND RECV → InnerUdpCommunicator SEND RECV
  unfolding unreliable_packet
  flush_unreliable_round c = record c {
    unreliable_send_packet_id = wrapping_add c.unreliable_send_packet_id 1;
    unreliable_send_packets = c.unreliable_send_packets ++ (unreliable_packet c ∷ []);
    unreliable_send_queue =
        drop (included_msgs repr c.unreliable_send_queue) c.unreliable_send_queue;
  }

  -- `while !self.unreliable_send_queue.is_empty()`
  unfoldable pub flush_unreliable :
      ℕ → InnerUdpCommunicator SEND RECV → Outcome (InnerUdpCommunicator SEND RECV)
  flush_unreliable zero c = out_of_fuel
  flush_unreliable (suc fuel) c =
      let rest = flush_unreliable fuel (flush_unreliable_round c) in
      if not (is_empty c.unreliable_send_queue) then rest else done c

  -- The method `flush_messages`. Each round of its own loop takes a message, if the first fits.
  unfoldable pub flush_all :
      UdpCommunicatorSocket
      → InnerUdpCommunicator SEND RECV
      → Outcome (InnerUdpCommunicator SEND RECV × UdpCommunicatorSocket)
  flush_all socket c = do
    reliable ←
        flush_messages socket.max_reliable_unordered_retries c.reliable_received_packets
          c.reliable_ordered_received_packets false
          (record {
            send_packets = c.reliable_send_packets;
            send_queue = c.reliable_send_queue;
            os = socket.os;
          })
    ordered ←
        flush_messages socket.max_reliable_ordered_retries c.reliable_received_packets
          c.reliable_ordered_received_packets true
          (record {
            send_packets = c.reliable_ordered_send_packets;
            send_queue = c.reliable_ordered_send_queue;
            os = reliable.os;
          })
    c' ← flush_unreliable (length c.unreliable_send_queue + 1) (record c {
      reliable_send_packets = reliable.send_packets;
      reliable_send_queue = reliable.send_queue;
      reliable_ordered_send_packets = ordered.send_packets;
      reliable_ordered_send_queue = ordered.send_queue;
    })
    done (c', record socket { os = ordered.os })
