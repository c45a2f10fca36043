-- ===== src/Inner.antt =====
-- mini_udp/src/communicator/inner.rs: the state of one connection, and the operations on it that
-- send and receive nothing. Sending and receiving are the modules below.
pub mod Flush
pub mod Receive
pub mod Send
pub mod Frames
pub mod Sound
pub mod Reachable
pub mod HandedOn
pub mod Wire
use mini_udp.Prelude.{
  ℕ, ◌+◌, ◌-◌, Bool, false, not, ◌&&◌, Option, none, some, List, [], ◌∷◌, ◌++◌, is_empty,
}
use mini_udp.Word.{wrapping_add}
use mini_udp.Ring
use mini_udp.Ring.{RingBuffer}
use mini_udp.Packet.{PacketAck, Packet, heartbeat}
use mini_udp.Ack.{num_items, new_ack}
use mini_udp.Socket.{Instant, System, Os, now}

pub record PendingPacket (SEND : Type 0) : Type 0 where
  pub last_send : Instant
  pub remaining_retries : ℕ
  pub packet : Packet SEND

pub record InnerUdpCommunicator (SEND RECV : Type 0) : Type 0 where
  pub reliable_send_packets : RingBuffer (PendingPacket SEND)
  pub reliable_ordered_send_packets : RingBuffer (PendingPacket SEND)
  pub reliable_received_packets : RingBuffer (Unit {0})
  pub reliable_ordered_received_packets : RingBuffer (Packet RECV)
  pub ordered_read_packet_head : ℕ
  pub unreliable_send_packet_id : ℕ
  pub unreliable_send_packets : List (Packet SEND)
  pub reliable_send_queue : List SEND
  pub reliable_ordered_send_queue : List SEND
  pub unreliable_send_queue : List SEND
  pub unordered_recv_queue : List RECV
  pub ordered_recv_queue : List RECV
  pub received_packet_duplicate : Bool
  pub last_seen : Instant
  pub last_send : Instant

module _ {SEND RECV : Type 0} where
  -- `RingBuffer::new()` passes its assertions at 32.
  unfoldable pub default : System → Os → InnerUdpCommunicator SEND RECV × Os
  default system os =
      let (seen, os1) = now system os in
      let (sent, os2) = now system os1 in
      (
        record {
          reliable_send_packets = Ring.fresh num_items;
          reliable_ordered_send_packets = Ring.fresh num_items;
          reliable_received_packets = Ring.fresh num_items;
          reliable_ordered_received_packets = Ring.fresh num_items;
          ordered_read_packet_head = 0;
          unreliable_send_packet_id = 0;
          unreliable_send_packets = [];
          reliable_send_queue = [];
          reliable_ordered_send_queue = [];
          unreliable_send_queue = [];
          unordered_recv_queue = [];
          ordered_recv_queue = [];
          received_packet_duplicate = false;
          last_seen = seen;
          last_send = sent;
        },
        os2,
      )

  unfoldable pub write_heartbeat : InnerUdpCommunicator SEND RECV → InnerUdpCommunicator SEND RECV
  write_heartbeat c =
      let sequence_id = c.unreliable_send_packet_id in
      let packet =
        heartbeat
          (new_ack sequence_id c.reliable_received_packets c.reliable_ordered_received_packets) in
      record c {
        unreliable_send_packet_id = wrapping_add c.unreliable_send_packet_id 1;
        unreliable_send_packets = c.unreliable_send_packets ++ (packet ∷ []);
      }

  unfoldable pub has_work : InnerUdpCommunicator SEND RECV → Bool
  has_work c = not (
      Ring.is_empty c.reliable_send_packets
      && (Ring.is_empty c.reliable_ordered_send_packets
          && (is_empty c.unreliable_send_packets
              && (is_empty c.reliable_send_queue
                  && (is_empty c.reliable_ordered_send_queue
                      && is_empty c.unreliable_send_queue)))))
