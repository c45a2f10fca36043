-- ===== src/Inner/Receive/Ordered.antt =====
-- mini_udp/src/communicator/inner.rs: the ordered packets that arrive at a connection, by their
-- numbers, and what is handed on of them.
pub mod Handing
pub mod Storing
pub mod Arrival
use mini_udp.Prelude.{
  ℕ, zero, suc, ◌+◌, ◌%◌, ◌≤◌, ◌<◌, ◌≡◌, true, false, is_some, some, List, [], ◌++◌, contains,
}
use mini_udp.Word.{u16_mod}
use mini_udp.Ring.Slots.{IsRing}
use mini_udp.Packet.{Packet}
use mini_udp.Ack.{num_items}
use mini_udp.Inner.{InnerUdpCommunicator}
use mini_udp.Inner.Receive.{Delivery}
use mini_udp.Inner.Receive.Steps.{found}
use mini_udp.Inner.Receive.Numbers.{id_of, IsKnown}

-- The messages of the packets before a number, in the order of their numbers.
unfoldable pub logged : {RECV : Type 0} → (ℕ → List RECV) → ℕ → List RECV
logged log zero = []
logged log (suc n) = logged log n ++ log n

-- The numbers in `ns` have arrived, all those before `low` too, and none from `high` on. The
-- packets from `low` on are in the buffer with their messages.
pub record IsBuffered {RECV : Type 0} (log : ℕ → List RECV) (ns : List ℕ) (low high : ℕ)
    (d : Delivery RECV) : Type 0 where
  pub known : IsKnown ns high d.received
  pub head : d.head ≡ id_of low
  pub above : low ≤ high
  pub near : high ≤ low + 32
  pub came : (k : ℕ) → k < low → contains ns k ≡ true
  pub messages :
      (k : ℕ) (p : Packet RECV)
      → low ≤ k
      → k < high
      → found d.received (id_of k) ≡ some p
      → p.messages ≡ log k

-- What the loop hands on next are the packets that the buffer lets through.
abbrev pub delivery : {SEND RECV : Type 0} → InnerUdpCommunicator SEND RECV → Delivery RECV
delivery c = record {
  received = c.reliable_ordered_received_packets;
  head = c.ordered_read_packet_head;
  queue = c.ordered_recv_queue;
}
