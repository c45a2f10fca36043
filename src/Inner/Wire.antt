-- ===== src/Inner/Wire.antt =====
-- mini_udp/src/communicator/inner.rs: a frame that `write_frame` builds, read by `read_packet`.
use mini_udp.Prelude.{
  ℕ, suc, ◌+◌, ◌++◌, ◌^◌, ◌<◌, ◌≡◌, refl, sym, arith, eq→==, List, [], ◌∷◌, take, drop,
}
use mini_udp.Packet.{Packet}
use mini_udp.ByteRepr.{ByteRepr, ok}
use mini_udp.Socket.{clock, SocketAddr, System, UdpCommunicatorSocket}
use mini_udp.Inner.{InnerUdpCommunicator}
use mini_udp.Inner.Receive.{from_le_bytes, handle_packet}
use mini_udp.Inner.Receive.Datagrams.{arrive}
use mini_udp.Inner.Send.{to_le_bytes, write_frame}

from_le_bytes-to_le_bytes : (x : ℕ) → x < 2 ^ 32 → from_le_bytes (to_le_bytes x) ≡ x
from_le_bytes-to_le_bytes x h = omega arith

four : (n : ℕ) → 4 + n ≡ suc (suc (suc (suc n)))
four n = omega arith

module _ {SEND RECV : Type 0} (system : System) (checksum : List ℕ → ℕ)
    (repr : ByteRepr (Packet RECV)) where
  arrive_frame :
      (c : InnerUdpCommunicator SEND RECV) (reads : ℕ) (addr : SocketAddr) (p : Packet RECV)
      (bytes : List ℕ) (b0 b1 b2 b3 : ℕ)
      → from_le_bytes (b0 ∷ b1 ∷ b2 ∷ b3 ∷ []) ≡ checksum bytes
      → repr.from_bytes bytes ≡ ok p
      → arrive system checksum repr (c, reads) (addr, b0 ∷ b1 ∷ b2 ∷ b3 ∷ bytes)
        ≡ (handle_packet (record c { last_seen = clock system reads }) p, reads + 1)
  unfolding arrive
  arrive_frame c reads addr p bytes b0 b1 b2 b3 crc parsed =
      rw (arrive, eq→== _ _ (sym crc), parsed) refl

  -- If the codec writes a packet and parses back what it wrote, and the checksum is a `u32`, then
  -- the frame that `write_frame` builds, cut at the length that is sent, makes a receiver handle
  -- just that packet.
  pub write_frame-arrive :
      (socket : UdpCommunicatorSocket) (p : Packet RECV) (tail : List ℕ)
      (c : InnerUdpCommunicator SEND RECV) (reads : ℕ) (addr : SocketAddr)
      → ((bytes : List ℕ) → checksum bytes < 2 ^ 32)
      → repr.write_to_bytes p (drop 4 socket.data_buffer) ≡ ok tail
      → repr.from_bytes (take (repr.byte_len p) tail) ≡ ok p
      → (socket' : UdpCommunicatorSocket) × (write_frame system checksum repr p socket ≡ ok socket')
        × (arrive system checksum repr
              (c, reads)
              (addr, take (4 + repr.byte_len p) socket'.data_buffer)
            ≡ (handle_packet (record c { last_seen = clock system reads }) p, reads + 1))
  unfolding write_frame
  write_frame-arrive socket p tail c reads addr u32 written parsed =
      let bytes = take (repr.byte_len p) tail in
      (
        record socket { data_buffer = to_le_bytes (checksum bytes) ++ tail },
        rw (write_frame, written) refl,
        rw (four (repr.byte_len p)) (
            arrive_frame c reads addr p bytes _ _ _ _
              (from_le_bytes-to_le_bytes (checksum bytes) (u32 bytes)) parsed),
      )
