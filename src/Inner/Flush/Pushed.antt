-- ===== src/Inner/Flush/Pushed.antt =====
-- What the loop of the function `flush_messages` of mini_udp/src/communicator/inner.rs leaves: the
-- packets that it pushed, and the ones that were there.
use mini_udp.Prelude.{ℕ, ◌≡◌, Bool, true, List, [], ◌∷◌, ◌++◌, All, ◌⊎◌}
use mini_udp.Word.{IsU16, wrapping_add}
use mini_udp.Ring
use mini_udp.Ring.{RingBuffer}
use mini_udp.Packet.{Packet}
use mini_udp.Ack.{num_items}
use mini_udp.ByteRepr.{ByteRepr}
use mini_udp.Inner.{PendingPacket}
use mini_udp.Inner.Flush.{Flushing}
use mini_udp.Inner.Flush.Packs.{messages_of, IsSmall}
use mini_udp.Inner.Flush.Packed.{IsPacked}
use mini_udp.Inner.Flush.Room.{Held}

-- `push` for each of a list of items.
unfoldable pub push_all : {T : Type 0} → RingBuffer T → List T → RingBuffer T
push_all r [] = r
push_all r (x ∷ xs) = push_all (Ring.push num_items r x).0 xs

unfoldable pub packets_of : {SEND : Type 0} → List (PendingPacket SEND) → List (Packet SEND)
packets_of [] = []
packets_of (p ∷ ps) = p.packet ∷ packets_of ps

-- Packets for consecutive ids after the newest, made as the arguments of the call say.
unfoldable pub AreMade : {SEND : Type 0} → ℕ → Bool → ℕ → List (PendingPacket SEND) → Type 0
AreMade max_retries ordered newest [] = Unit
AreMade max_retries ordered newest (p ∷ ps) =
    (p.remaining_retries ≡ max_retries)
    × (p.packet.reliable ≡ true)
    × (p.packet.ordered ≡ ordered)
    × (p.packet.ack.sequence_id ≡ wrapping_add newest 1)
    × AreMade max_retries ordered (wrapping_add newest 1) ps

-- What the loop has done: packets pushed with the messages that left the queue, and no packet
-- overridden that was there.
pub record Sent {SEND : Type 0} (repr : ByteRepr SEND) (max_retries : ℕ) (ordered : Bool)
    (s s' : Flushing SEND) (ps : List (PendingPacket SEND)) : Type 0 where
  pub pushed : s'.send_packets ≡ push_all s.send_packets ps
  pub kept :
      (i : ℕ)
      → IsU16 i
      → Held s.send_packets i
      → Ring.get num_items s'.send_packets i ≡ Ring.get num_items s.send_packets i
  pub made : AreMade max_retries ordered s.send_packets.newest ps
  pub in_order : messages_of repr (packets_of ps) ++ s'.send_queue ≡ s.send_queue
  pub small : All (IsSmall repr) (packets_of ps)
  pub packed : IsPacked repr (packets_of ps) s'.send_queue
  pub stopped : (Ring.push_will_override num_items s'.send_packets ≡ true) ⊎ (s'.send_queue ≡ [])
