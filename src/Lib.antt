-- ===== src/Lib.antt =====
-- mini_udp sends messages over UDP, unreliably, reliably, or reliably and in order. A connection
-- packs its queued messages into packets, keeps the reliable ones in ring buffers until the peer has
-- acknowledged them, and sends them again until then. Every packet carries an acknowledgement: for
-- each of the two kinds of reliable packets the newest id received and a field of 32 bits.
--
-- The parts, and the files that model them:
-- - mini_udp/src/ring_buffer.rs: Ring (`RingBuffer` and its methods), Ring/Iter (the five
--   iterators), Ring/Retain (`retain`) and Serial (`wrapping_range`, `wrapping_gt`). The other files
--   below Ring, and Serial/Order, are proofs. Capacities are those that the assertions of
--   `RingBuffer::default` accept, up to 8192; the program uses 32.
-- - mini_udp/src/packet.rs and mini_udp/src/packet_ack.rs: Packet, Packet/Codec (the instances that
--   the two structs derive) and Ack (`PacketAck::new`, `acknowledge`).
-- - mini_udp/src/byte_repr.rs: ByteRepr, the trait as a record of operations that the users of a
--   message type take as a parameter, and the proofs of ByteRepr/Many.
-- - derive/src/data.rs: Derive/Bytes (`ByteOffset` and the accesses of a slice), Derive/Length
--   (`ByteLen`), Derive/Field (the code for a field of each kind) and Derive/Value (`Value`, and the
--   instances of the base types, by `derive_for` of derive/src/lib.rs).
-- - derive/src/data_group.rs and derive/src/lib.rs: Derive/Fields (`Fields`, `impl_for_struct`) and
--   Derive/Variants (`impl_for_enum`). The other files below Derive are proofs; Derive/Codec says
--   what a right codec is.
-- - mini_udp/src/communicator/socket.rs: Socket, the settings and the shared `data_buffer`. The
--   record `System` says what the clock and the network do; `Os` is the state of both that the
--   program sees, with the datagrams to come in `inbox` and those sent in `outbox`.
-- - mini_udp/src/communicator/inner.rs: Inner (the state of a connection), Inner/Flush
--   (`flush_messages`), Inner/Receive (`receive`, `read_packet`) and Inner/Send (`send`,
--   `send_packets`, `resend_if_needed`). The files below those, Inner/Wire, Inner/Frames,
--   Inner/Sound, Inner/Reachable (the steps that a connection makes) and Inner/HandedOn (runs of a
--   connection with the packets of its peer) are proofs.
-- - mini_udp/src/communicator/mod.rs: Communicator (`UdpCommunicator`) and Communicator/Lent
--   (`UdpCommunicatorMut`).
-- - mini_udp/src/context.rs: Context.
-- - mini_udp/src/communicator/debug.rs: Debug (the fields that the cargo feature `debug` adds, their
--   setters and the buffer of delayed packets) and Debug/Owners (the setters of the communicators).
--   Debug/Faked and Debug/Many are `receive` of a connection and `recv` of many with the fakes. The
--   files below those and Debug/Held are proofs.
-- - mini_udp/src/communicator/multi.rs: Multi and Multi/Events (`MultiUdpCommunicator` and the
--   callbacks of its `recv`), over Multi/Map, a hash map as a list of entries. Multi/Laws, Multi/Sound
--   and Multi/Reachable are proofs.
-- Prelude, Word, Bits and Outcome are shared; Tests holds runs on small inputs.
--
-- Conventions. A `u16` is a natural number below 65536, and its arithmetic wraps in writing. What
-- Rust changes in place is passed and returned. A panic is a value of `Outcome`, as is a loop that
-- outlasts its fuel; a codec returns a `Result`, which can also be a panic. The macro is one with
-- the code that it generates: a token stream is a function of the field's value or of the slice. A
-- struct is the tuple of its fields, a string its bytes, a floating-point number its bits, a pointer
-- has 64 bits, and `String::from_utf8_lossy` is a parameter. The fuel is the number of rounds that
-- the loop can make: a round of `flush_messages` fills a slot of 32, or takes a message, and a round
-- of `receive` takes a datagram, after which the system has no more for now. A round over the
-- unreliable queue takes a message, unless the first one fits no packet. The checksum, the codecs
-- and the clock are parameters. Outside of Debug the cargo feature `debug` is a flag where
-- `read_packet` unwraps for it; the random numbers of Debug are a parameter. A hash map is iterated
-- in the order of its list.
--
-- Not modelled: in derive/src the parsing of types (`Value::from_type`), the handling of tokens and
-- identifiers, and enums with more than 256 variants, whose generated code does not compile; the
-- logs; and types without behaviour. What `connect` of a `UdpCommunicator` does to the system is a
-- parameter.
pub mod Prelude
pub mod Word
pub mod Bits
pub mod Serial
pub mod Ring
pub mod Packet
pub mod Ack
pub mod ByteRepr
pub mod Context
pub mod Derive
pub mod Socket
pub mod Outcome
pub mod Debug
pub mod Inner
pub mod Communicator
pub mod Multi
pub mod Tests
