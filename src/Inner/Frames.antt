-- ===== src/Inner/Frames.antt =====
-- mini_udp/src/communicator/inner.rs: frames with the codec that `Packet` derives.
use mini_udp.Prelude.{
  some, ℕ, ◌+◌, ◌^◌, ◌≤◌, ◌<◌, ◌≡◌, refl, ap, arith, List, [], ◌∷◌, length, take, drop, length-drop,
}
use mini_udp.ByteRepr.{ByteRepr, ok}
use mini_udp.Packet.{
  packet_ack_byte_len, Packet, PacketAck, heartbeat, max_packet_len, packet_header_len,
}
use mini_udp.Packet.Codec.{
  ack_fields, renamed, ack_repr, packet_repr, packet_repr-IsCodec, IsPacket,
}
use mini_udp.Derive.Length.{
  is_static, as_const_max_length, known_max_length, as_length, add, fully_static, fully_unknown,
  known_fixed_unknown_length, known_min_length,
}
use mini_udp.Derive.Field.{number_field, bool_field, vec_field, delegated_field, sum_len}
use mini_udp.Derive.Value.{field_of, instance_of}
use mini_udp.Derive.Fields.{static_byte_len, length_of, impl_for_struct}
use mini_udp.Derive.Codec.{IsCodec}
use mini_udp.Derive.RoundTrip.{IsCodec-RoundTrip}
use mini_udp.Socket.{clock, SocketAddr, System, UdpCommunicatorSocket}
use mini_udp.Inner.{InnerUdpCommunicator}
use mini_udp.Inner.Flush.Packs.{total, IsSmall}
use mini_udp.Inner.Receive.{handle_packet}
use mini_udp.Inner.Receive.Datagrams.{arrive}
use mini_udp.Inner.Send.{write_frame}
use mini_udp.Inner.Wire.{write_frame-arrive}
use mathlib.Core.List.{append-nil}

module _ (lossy : List ℕ → List ℕ) where
  ack_static : static_byte_len lossy ack_fields ≡ some packet_ack_byte_len
  unfolding static_byte_len length_of field_of number_field fully_static add is_static
      as_const_max_length known_max_length
  ack_static = refl

  ack_len : (ack : PacketAck) → (ack_repr lossy).byte_len ack ≡ 14
  unfolding ack_repr renamed impl_for_struct length_of field_of number_field fully_static add
      as_length known_min_length
  ack_len ack = refl

  module _ {M : Type 0} (repr : ByteRepr M) where
    sum_len-total : (ms : List M) → sum_len repr ms ≡ total repr ms
    unfolding sum_len total
    sum_len-total [] = refl
    sum_len-total (m ∷ ms) = ap (λ n. repr.byte_len m + n) (sum_len-total ms)

    packet_len : (p : Packet M) → (packet_repr lossy repr).byte_len p ≡ 20 + total repr p.messages
    unfolding packet_repr renamed impl_for_struct length_of field_of bool_field vec_field
        delegated_field fully_static fully_unknown known_fixed_unknown_length add as_length
        instance_of
    packet_len p = omega (arith, ack_len p.ack, sum_len-total p.messages)

    -- `BYTE_LEN` of `PacketAck` is 14. With the codec that `Packet` derives, four bytes and a
    -- heartbeat have the length `PACKET_HEADER_LEN`, and four bytes and a packet of at most 1024
    -- bytes of messages have at most `MAX_PACKET_LEN`.
    pub packet_fits :
        (ack : PacketAck) (p : Packet M)
        → IsSmall repr p
        → (static_byte_len lossy ack_fields ≡ some packet_ack_byte_len)
          × (4 + (packet_repr lossy repr).byte_len (heartbeat ack) ≡ packet_header_len)
          × (4 + (packet_repr lossy repr).byte_len p ≤ max_packet_len)
    unfolding heartbeat total
    packet_fits ack p small =
        (ack_static, omega (arith, packet_len (heartbeat ack)), omega (arith, packet_len p))

    module _ (Ok : M → Type 0) (codec : IsCodec repr Ok) {SEND : Type 0} (system : System)
        (checksum : List ℕ → ℕ) where
      -- Let the codec of the messages be right, the checksum a `u32`, and the buffer of
      -- `MAX_PACKET_LEN` bytes or more. A packet with a typed acknowledgement and at most 1024
      -- bytes of messages that the codec is right for, fewer than `2^32`, is written by
      -- `write_frame` with the codec that `Packet` derives, and the frame, cut at the length that
      -- is sent, makes a receiver handle just that packet.
      pub frame_arrives :
          (socket : UdpCommunicatorSocket) (p : Packet M) (c : InnerUdpCommunicator SEND M)
          (reads : ℕ) (addr : SocketAddr)
          → ((bytes : List ℕ) → checksum bytes < 2 ^ 32)
          → max_packet_len ≤ length socket.data_buffer
          → IsPacket lossy repr Ok codec p
          → IsSmall repr p
          → (socket' : UdpCommunicatorSocket) × (write_frame system checksum
                (packet_repr lossy repr)
                p
                socket
              ≡ ok socket')
            × (arrive system checksum
                  (packet_repr lossy repr)
                  (c, reads)
                  (addr, take (4 + (packet_repr lossy repr).byte_len p) socket'.data_buffer)
                ≡ (handle_packet (record c { last_seen = clock system reads }) p, reads + 1))
      frame_arrives socket p c reads addr u32 room valid small =
          let rest = drop 4 socket.data_buffer in
          let fits : (packet_repr lossy repr).byte_len p ≤ length rest =
            omega (arith, length-drop 4 socket.data_buffer, (packet_fits p.ack p small).2) in
          let trip =
            IsCodec-RoundTrip _ _ (packet_repr-IsCodec lossy repr Ok codec) p rest [] valid fits in
          write_frame-arrive system checksum (packet_repr lossy repr) socket p trip.written c reads
            addr u32 trip.writes
            (rw (append-nil (take ((packet_repr lossy repr).byte_len p) trip.written)) at
              trip.reads)
