-- ===== src/Inner/Flush/Whole.antt =====
-- The method `flush_messages` as a whole, on a well-formed state.
use mini_udp.Prelude.{◌+◌, ◌≡◌, refl, ap, arith, false, true, List, length, All}
use mini_udp.Outcome.{done}
use mini_udp.Packet.{Packet}
use mini_udp.ByteRepr.{ByteRepr}
use mini_udp.Socket.{System, Os, UdpCommunicatorSocket}
use mini_udp.Inner.{PendingPacket, InnerUdpCommunicator}
use mini_udp.Inner.Flush.{Flushing, flush_all}
use mini_udp.Inner.Flush.Packs.{Fits, Flushed, flush_unreliable_lem}
use mini_udp.Inner.Flush.Pushed.{Sent}
use mini_udp.Inner.Flush.Reliable.{flush_messages_lem}
use mini_udp.Inner.Receive.Keeps.{IsValid}

module _ {SEND RECV : Type 0} where
  -- What the two calls of the function `flush_messages` start from.
  abbrev pub unordered_part : InnerUdpCommunicator SEND RECV → Os → Flushing SEND
  unordered_part c os = record {
    send_packets = c.reliable_send_packets;
    send_queue = c.reliable_send_queue;
    os = os;
  }

  abbrev pub ordered_part : InnerUdpCommunicator SEND RECV → Os → Flushing SEND
  ordered_part c os = record {
    send_packets = c.reliable_ordered_send_packets;
    send_queue = c.reliable_ordered_send_queue;
    os = os;
  }

  -- The state with what they leave.
  abbrev pub with_parts :
      InnerUdpCommunicator SEND RECV
      → Flushing SEND
      → Flushing SEND
      → InnerUdpCommunicator SEND RECV
  with_parts c reliable ordered = record c {
    reliable_send_packets = reliable.send_packets;
    reliable_send_queue = reliable.send_queue;
    reliable_ordered_send_packets = ordered.send_packets;
    reliable_ordered_send_queue = ordered.send_queue;
  }

  Flushed-IsValid :
      {repr : ByteRepr SEND} (c c' : InnerUdpCommunicator SEND RECV) (packets : List (Packet SEND))
      → Flushed repr c c' packets
      → IsValid c
      → IsValid c'
  Flushed-IsValid c c' packets f v = record {
    reliable_sent = rw (ap (λ d. d.reliable_send_packets) f.rest_kept) v.reliable_sent;
    ordered_sent = rw (ap (λ d. d.reliable_ordered_send_packets) f.rest_kept) v.ordered_sent;
    reliable_received = rw (ap (λ d. d.reliable_received_packets) f.rest_kept) v.reliable_received;
    ordered_received =
        rw (ap (λ d. d.reliable_ordered_received_packets) f.rest_kept) v.ordered_received;
    head = rw (ap (λ d. d.ordered_read_packet_head) f.rest_kept) v.head;
    unreliable_id = rw f.ids (omega arith);
  }

module _ {SEND RECV : Type 0} (system : System) (repr : ByteRepr SEND) where
  -- In a well-formed state in which every unreliable message fits a packet, the method
  -- `flush_messages` ends and leaves the state well-formed. Each of the two reliable queues is
  -- packed as far as there is room, into packets with all that fits, none of the packets that
  -- were there overridden; the unreliable queue is packed whole.
  pub flush_all_lem :
      (socket : UdpCommunicatorSocket) (c : InnerUdpCommunicator SEND RECV)
      → IsValid c
      → All (Fits repr) c.unreliable_send_queue
      → (c' : InnerUdpCommunicator SEND RECV) × (reliable : Flushing SEND) × (ordered : Flushing
          SEND)
        × (ps : List (PendingPacket SEND)) × (ps' : List (PendingPacket SEND)) × (packets : List
            (Packet SEND))
        × (flush_all system repr socket c ≡ done (c', record socket { os = ordered.os }))
        × Sent repr socket.max_reliable_unordered_retries false
            (unordered_part c socket.os)
            reliable
            ps
        × Sent repr socket.max_reliable_ordered_retries true
            (ordered_part c reliable.os)
            ordered
            ps'
        × Flushed repr (with_parts c reliable ordered) c' packets
        × IsValid c'
  unfolding flush_all
  flush_all_lem socket c v fit =
      let (reliable, ps, run, sent, vr) =
        flush_messages_lem system repr socket.max_reliable_unordered_retries
          c.reliable_received_packets c.reliable_ordered_received_packets false
          (unordered_part c socket.os) v.reliable_sent in
      let (ordered, ps', run', sent', vo) =
        flush_messages_lem system repr socket.max_reliable_ordered_retries
          c.reliable_received_packets c.reliable_ordered_received_packets true
          (ordered_part c reliable.os) v.ordered_sent in
      let (c', packets, run'', flushed) =
        flush_unreliable_lem system repr (length c.unreliable_send_queue + 1)
          (with_parts c reliable ordered) (omega arith) v.unreliable_id fit in
      let packed : IsValid (with_parts c reliable ordered) = record {
        reliable_sent = vr;
        ordered_sent = vo;
        reliable_received = v.reliable_received;
        ordered_received = v.ordered_received;
        head = v.head;
        unreliable_id = v.unreliable_id;
      } in
      (
        c',
        reliable,
        ordered,
        ps,
        ps',
        packets,
        rw (run, run', run'') refl,
        sent,
        sent',
        flushed,
        Flushed-IsValid (with_parts c reliable ordered) c' packets flushed packed,
      )
