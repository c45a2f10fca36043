-- ===== src/Tests/Frames.antt =====
-- Runs of packets and messages with the codecs that they derive.
use mini_udp.Prelude.{
  All, ℕ, ◌+◌, ◌≤◌, ◌<◌, ◌≡◌, arith, true, false, some, List, [], ◌∷◌, length, take, inl,
}
use mini_udp.ByteRepr.{ByteRepr, ok}
use mini_udp.Packet.{
  packet_ack_byte_len, Packet, PacketAck, heartbeat, max_packet_len, packet_header_len,
}
use mini_udp.Packet.Codec.{ack_fields, packet_repr, IsPacket}
use mini_udp.Derive.Value.{field_of, derive_for, instance_of}
use mini_udp.Derive.Fields.{static_byte_len, length_of, impl_for_struct}
use mini_udp.Derive.Variants.{Choice, impl_for_enum, match_len, variant_len}
use mini_udp.Derive.Codec.{IsCodec}
use mini_udp.Derive.Codec.Minimum.{ValidChoice}
use mini_udp.Derive.Codec.Enums.{impl_for_enum-IsCodec}
use mini_udp.Derive.Length.{
  add, as_length, known_min_length, fully_static, fully_unknown, known_fixed_unknown_length,
}
use mini_udp.Derive.Field.{
  number_field, bool_field, option_field, string_field, vec_field, cow_field, delegated_field,
  sum_len,
}
use mini_udp.Outcome.{done}
use mini_udp.ByteRepr.{write_many, read_many}
use mini_udp.ByteRepr.Many.{fitting, read_many-write_many}
use mini_udp.Socket.{one_hour, UdpCommunicatorSocket}
use mini_udp.Inner.Flush.Packs.{total, IsSmall}
use mini_udp.Inner.Send.{write_frame}
use mini_udp.Inner.Receive.{handle_packet}
use mini_udp.Inner.Receive.Datagrams.{arrive}
use mini_udp.Inner.Frames.{packet_fits, frame_arrives}
use mini_udp.Tests.Connections.{clock_system, idle_for, socket, zero_checksum}
use mini_udp.Tests.Derives.{zeros, same_text, greetings, greetings_good, wave, wave_valid}

abbrev greeting_repr : ByteRepr (Choice greetings)
greeting_repr = impl_for_enum same_text greetings

abbrev first_ack : PacketAck
first_ack = record {
  sequence_id = 1;
  reliable_newest_received = 0;
  reliable_ack_bits = 1;
  ordered_newest_received = 65535;
  ordered_ack_bits = 0;
}

abbrev greeting : Packet (Choice greetings)
greeting = record { ack = first_ack; reliable = true; ordered = false; messages = wave ∷ wave ∷ [] }

greeting-IsSmall : IsSmall greeting_repr greeting
unfolding impl_for_struct impl_for_enum length_of field_of instance_of derive_for add as_length
    known_min_length number_field bool_field option_field string_field vec_field cow_field
    delegated_field fully_static fully_unknown known_fixed_unknown_length sum_len match_len
    variant_len total
greeting-IsSmall = omega arith

packet_fits_example :
    (static_byte_len same_text ack_fields ≡ some packet_ack_byte_len)
    × (4 + (packet_repr same_text greeting_repr).byte_len (heartbeat first_ack) ≡ packet_header_len)
    × (4 + (packet_repr same_text greeting_repr).byte_len greeting ≤ max_packet_len)
packet_fits_example = packet_fits same_text greeting_repr first_ack greeting greeting-IsSmall

abbrev greeting_codec : IsCodec greeting_repr (ValidChoice same_text greetings greetings_good)
greeting_codec = impl_for_enum-IsCodec same_text greetings greetings_good (omega arith)

greeting-IsPacket :
    IsPacket same_text greeting_repr
      (ValidChoice same_text greetings greetings_good)
      greeting_codec
      greeting
greeting-IsPacket = (
  record {
    sequence_id_u16 = omega arith;
    reliable_newest_received_u16 = omega arith;
    reliable_ack_bits_u32 = omega arith;
    ordered_newest_received_u16 = omega arith;
    ordered_ack_bits_u32 = omega arith;
  },
  omega arith,
  (wave_valid, (wave_valid, tt)),
)

abbrev roomy : UdpCommunicatorSocket
roomy = record socket { data_buffer = zeros max_packet_len }

roomy_lem : max_packet_len ≤ length (zeros max_packet_len)
roomy_lem = omega arith

frame_arrives_example :
    (socket' : UdpCommunicatorSocket) × (write_frame clock_system zero_checksum
        (packet_repr same_text greeting_repr)
        greeting
        roomy
      ≡ ok socket')
    × (arrive clock_system zero_checksum
          (packet_repr same_text greeting_repr)
          (idle_for (Choice greetings), 3)
          (
            1,
            take (4 + (packet_repr same_text greeting_repr).byte_len greeting) socket'.data_buffer,
          )
        ≡ (
          handle_packet
              (record (idle_for (Choice greetings)) { last_seen = 8 + one_hour })
              greeting,
          4,
        ))
frame_arrives_example =
    frame_arrives same_text greeting_repr (ValidChoice same_text greetings greetings_good)
      greeting_codec clock_system zero_checksum roomy greeting (idle_for (Choice greetings)) 3 1
      (λ bytes. omega arith) roomy_lem greeting-IsPacket greeting-IsSmall

-- Three greetings take seven bytes; six hold the first two.
abbrev three_greetings : List (Choice greetings)
three_greetings = wave ∷ wave ∷ inl tt ∷ []

greetings_positive : All (λ m. 0 < greeting_repr.byte_len m) three_greetings
unfolding impl_for_struct impl_for_enum length_of field_of instance_of derive_for add as_length
    known_min_length number_field bool_field option_field string_field vec_field cow_field
    delegated_field fully_static fully_unknown known_fixed_unknown_length sum_len match_len
    variant_len
greetings_positive = (omega arith, (omega arith, (omega arith, tt)))

read_many-write_many_example :
    let ws = fitting greeting_repr (length (zeros 6)) three_greetings in
    (out : List ℕ) × (write_many greeting_repr three_greetings (zeros 6)
      ≡ done ((length ws, sum_len greeting_repr ws), out))
    × (length out ≡ length (zeros 6))
    × (read_many greeting_repr (take (sum_len greeting_repr ws) out)
        ≡ done (ok (ws, sum_len greeting_repr ws)))
read_many-write_many_example =
    read_many-write_many greeting_repr (ValidChoice same_text greetings greetings_good)
      greeting_codec three_greetings (zeros 6) (wave_valid, (wave_valid, (tt, tt)))
      greetings_positive
