-- ===== src/Inner/HandedOn.antt =====
-- mini_udp/src/communicator/inner.rs: what a connection hands on of the packets of its peer, which
-- the network may lose, repeat and reorder.
pub mod Untouched
pub mod Branches
pub mod Laws
pub mod Late
use mini_udp.Prelude.{
  ℕ, ◌+◌, ◌≤◌, ◌<◌, ◌≡◌, refl, sym, ◌∙◌, ap, arith, true, false, if◌then◌else◌, Option, none, some,
  List, [], ◌∷◌, ◌++◌, contains, Bool-cases, inl, inr, if_true, if_false,
}
use mini_udp.Outcome.{done}
use mini_udp.Packet.{Packet}
use mini_udp.ByteRepr.{ByteRepr, Result}
use mini_udp.Ack.{num_items}
use mini_udp.Ring.{RingBuffer}
use mini_udp.Socket.{SendAddr, System, Os, UdpCommunicatorSocket}
use mini_udp.Inner.{InnerUdpCommunicator, default, write_heartbeat}
use mini_udp.Inner.Receive.{Delivery, handle_packet}
use mini_udp.Inner.Receive.Numbers.{id_of, IsKnown, fresh-IsKnown, again-IsKnown}
use mini_udp.Inner.Receive.Numbers.Seen.{seen_again, unseen}
use mini_udp.Inner.Receive.Numbers.Storing.{high_after, inserted-IsKnown}
use mini_udp.Inner.Receive.Ordered.{logged, delivery}
use mini_udp.Inner.Receive.Ordered.Arrival.{IsInOrder, handle_packet-IsInOrder}
use mini_udp.Inner.Send.{send}
use mini_udp.Inner.HandedOn.Untouched.{reception, send_untouched}
use mini_udp.Inner.HandedOn.Branches.{
  other_untouched, unordered, ordered_untouched, unreliable_handed, seen_if_unordered,
  unordered_seen, unordered_stored,
}
use mini_udp.Communicator.{pop_front, write, write_reliable, write_ordered, read, read_ordered}
use mathlib.Core.List.{append_assoc, append-nil}
use mathlib.Core.Path.{subst}

abbrev pub listed : {A : Type 0} → Option A → List A
listed none = []
listed (some a) = a ∷ []

-- What has happened to a connection: the numbers of the ordered and of the other reliable packets
-- that have arrived, the last one first; the messages that `read_ordered` and `read` have
-- returned; and those that `read` owes in all, of each unreliable packet and of each reliable one
-- that arrived for the first time.
pub record Trace (RECV : Type 0) : Type 0 where
  pub ordered_came : List ℕ
  pub unordered_came : List ℕ
  pub was_read_ordered : List RECV
  pub was_read : List RECV
  pub owed : List RECV

abbrev pub nothing_yet : {RECV : Type 0} → Trace RECV
nothing_yet = record {
  ordered_came = [];
  unordered_came = [];
  was_read_ordered = [];
  was_read = [];
  owed = [];
}

-- A reliable packet with a number comes when all that are 32 or more before it have come, since
-- the peer keeps what is not acknowledged in a buffer of 32, and before one that is 96 or more
-- after it.
abbrev pub InTime : List ℕ → ℕ → Type 0
InTime ns n =
    ((j : ℕ) → j + 32 ≤ n → contains ns j ≡ true) × ((j : ℕ) → contains ns j ≡ true → j ≤ n + 95)

-- The peer numbers its ordered and its other reliable packets from 0, and `log` has the messages
-- of the ordered ones.
module _ {SEND RECV : Type 0} (system : System) (checksum : List ℕ → ℕ) (repr : ByteRepr SEND)
    (send_repr : ByteRepr (Packet SEND)) (log : ℕ → List RECV) where
  pub data Run : Trace RECV → InnerUdpCommunicator SEND RECV → Type 0 where
    new : (os : Os) → Run nothing_yet (default system os).0
    ordered_arrived :
        {t : Trace RECV} {c : InnerUdpCommunicator SEND RECV} (time n : ℕ) (p : Packet RECV)
        → p.reliable ≡ true
        → p.ordered ≡ true
        → p.ack.sequence_id ≡ id_of n
        → p.messages ≡ log n
        → InTime t.ordered_came n
        → Run t c
        → Run
            (record t { ordered_came = n ∷ t.ordered_came })
            (handle_packet (record c { last_seen = time }) p)
    unordered_arrived :
        {t : Trace RECV} {c : InnerUdpCommunicator SEND RECV} (time n : ℕ) (p : Packet RECV)
        → p.reliable ≡ true
        → p.ordered ≡ false
        → p.ack.sequence_id ≡ id_of n
        → InTime t.unordered_came n
        → Run t c
        → Run
            (record t {
              unordered_came = n ∷ t.unordered_came;
              owed = if contains t.unordered_came n then t.owed else t.owed ++ p.messages;
            })
            (handle_packet (record c { last_seen = time }) p)
    unreliable_arrived :
        {t : Trace RECV} {c : InnerUdpCommunicator SEND RECV} (time : ℕ) (p : Packet RECV)
        → p.reliable ≡ false
        → Run t c
        → Run
            (record t { owed = t.owed ++ p.messages })
            (handle_packet (record c { last_seen = time }) p)
    called_read_ordered :
        {t : Trace RECV} {c : InnerUdpCommunicator SEND RECV}
        → Run t c
        → Run
            (record t { was_read_ordered = t.was_read_ordered ++ listed (read_ordered c).0 })
            (read_ordered c).1
    called_read :
        {t : Trace RECV} {c : InnerUdpCommunicator SEND RECV}
        → Run t c
        → Run (record t { was_read = t.was_read ++ listed (read c).0 }) (read c).1
    wrote :
        {t : Trace RECV} {c : InnerUdpCommunicator SEND RECV} (m : SEND)
        → Run t c
        → Run t (write c m)
    wrote_reliable :
        {t : Trace RECV} {c : InnerUdpCommunicator SEND RECV} (m : SEND)
        → Run t c
        → Run t (write_reliable c m)
    wrote_ordered :
        {t : Trace RECV} {c : InnerUdpCommunicator SEND RECV} (m : SEND)
        → Run t c
        → Run t (write_ordered c m)
    wrote_heartbeat :
        {t : Trace RECV} {c : InnerUdpCommunicator SEND RECV} → Run t c → Run t (write_heartbeat c)
    sent :
        {t : Trace RECV} {c c' : InnerUdpCommunicator SEND RECV} (addr : SendAddr)
        (socket socket' : UdpCommunicatorSocket) (answer : Result (Unit {0}))
        → send system checksum repr send_repr addr socket c ≡ done (answer, c', socket')
        → Run t c
        → Run t c'
