-- ===== src/Packet.antt =====
-- mini_udp/src/packet.rs and the struct of mini_udp/src/packet_ack.rs: what one datagram carries.
pub mod Codec
use mini_udp.Prelude.{ℕ, ◌+◌, Bool, false, List, []}

abbrev pub max_packet_data_len : ℕ
max_packet_data_len = 1024

-- `PacketAck::BYTE_LEN`: three `u16` and two `u32`.
abbrev pub packet_ack_byte_len : ℕ
packet_ack_byte_len = 14

abbrev pub packet_header_len : ℕ
packet_header_len = 4 + packet_ack_byte_len + 2 + 4

abbrev pub max_packet_len : ℕ
max_packet_len = packet_header_len + max_packet_data_len

pub record PacketAck : Type 0 where
  pub sequence_id : ℕ
  pub reliable_newest_received : ℕ
  pub reliable_ack_bits : ℕ
  pub ordered_newest_received : ℕ
  pub ordered_ack_bits : ℕ

pub record Packet (M : Type 0) : Type 0 where
  pub ack : PacketAck
  pub reliable : Bool
  pub ordered : Bool
  pub messages : List M

unfoldable pub heartbeat : {M : Type 0} → PacketAck → Packet M
heartbeat ack = record { ack = ack; reliable = false; ordered = false; messages = [] }
