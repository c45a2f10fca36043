-- ===== src/Inner/Send.antt =====
-- mini_udp/src/communicator/inner.rs: `send`, `send_packets` and `resend_if_needed`.
pub mod Resend
use mini_udp.Prelude.{
  ℕ, ◌+◌, ◌-◌, ◌*◌, ◌/◌, ◌%◌, ◌^◌, Bool, true, false, not, ◌&&◌, ◌||◌, ltb, ◌==◌, if◌then◌else◌,
  Option, none, some, List, [], ◌∷◌, ◌++◌, is_empty, take, drop,
}
use mini_udp.Outcome.{Outcome, done, panicked, ◌>>=◌}
use mini_udp.Ring.{RingBuffer}
use mini_udp.Ring.Retain.{retain}
use mini_udp.Packet.{Packet}
use mini_udp.Ack.{num_items}
use mini_udp.ByteRepr.{ByteRepr, ByteReprError, Result, ok, err, panic}
use mini_udp.Socket.{SendAddr, System, Os, UdpCommunicatorSocket, Duration, now, send_to}
use mini_udp.Inner.{PendingPacket, InnerUdpCommunicator, write_heartbeat}
use mini_udp.Inner.Flush.{flush_all}

-- `u32::to_le_bytes`
abbrev pub to_le_bytes : ℕ → List ℕ
to_le_bytes x = (x % 256) ∷ (x / 256 % 256) ∷ (x / 65536 % 256) ∷ (x / 16_777_216 % 256) ∷ []

-- `remaining_retries -= 1` on a `usize`. At 0 a build with overflow checks panics instead.
abbrev pub decrement : ℕ → ℕ
decrement x = (x + 2 ^ 64 - 1) % 2 ^ 64

-- The socket, and `any_send`. `none` is a panic, which nothing after it undoes.
abbrev pub Sending : Type 0
Sending = Option (UdpCommunicatorSocket × Bool)

module _ {SEND : Type 0} (system : System) (checksum : List ℕ → ℕ)
    (repr : ByteRepr (Packet SEND)) where
  -- The packet, behind its checksum, in the buffer.
  unfoldable pub write_frame : Packet SEND → UdpCommunicatorSocket → Result UdpCommunicatorSocket
  write_frame packet socket = elim (repr.write_to_bytes packet (drop 4 socket.data_buffer)) [
    | err e ↦ err e
    | panic ↦ panic
    | ok tail ↦ ok (record socket {
      data_buffer = to_le_bytes (checksum (take (repr.byte_len packet) tail)) ++ tail;
    })
  ]

  -- `if let Err(e) = addr.send(socket, ..4 + packet.byte_len()) { .. } else { any_send = true }`
  unfoldable pub send_frame :
      SendAddr → Packet SEND → Bool → UdpCommunicatorSocket → UdpCommunicatorSocket × Bool
  send_frame addr packet any_send socket =
      let (taken, socket') = send_to system addr socket (4 + repr.byte_len packet) in
      (socket', taken || any_send)

  unfoldable pub send_cooldown : UdpCommunicatorSocket → Packet SEND → Duration
  send_cooldown socket packet =
      if packet.ordered
      then socket.reliable_ordered_resend_interval
      else socket.reliable_unordered_resend_interval

  -- The body of the `if`: whether to keep the packet, the packet, and the socket.
  unfoldable pub resend :
      SendAddr
      → UdpCommunicatorSocket
      → Bool
      → PendingPacket SEND
      → Bool × PendingPacket SEND × Sending
  resend addr socket any_send pending =
      let (time, os) = now system socket.os in
      elim (write_frame pending.packet (record socket { os = os })) [
        | err e ↦ (true, pending, none)
        | panic ↦ (true, pending, none)
        | ok socket' ↦
            let remaining = decrement pending.remaining_retries in
            (
              not (remaining == 0),
              record pending { last_send = time; remaining_retries = remaining },
              some (send_frame addr pending.packet any_send socket'),
            )
      ]

  unfoldable pub resend_if_needed :
      SendAddr → Sending → ℕ → PendingPacket SEND → Bool × PendingPacket SEND × Sending
  resend_if_needed addr none id pending = (true, pending, none)
  resend_if_needed addr (some (socket, any_send)) id pending =
      let (time, os) = now system socket.os in
      let socket' : UdpCommunicatorSocket = record socket { os = os } in
      if ltb (send_cooldown socket pending.packet) (time - pending.last_send)
      then resend addr socket' any_send pending
      else (true, pending, some (socket', any_send))

  -- `for packet in self.unreliable_send_packets.drain(..)`, which an error leaves.
  unfoldable pub send_unreliable :
      SendAddr
      → List (Packet SEND)
      → UdpCommunicatorSocket
      → Bool
      → Result Bool × UdpCommunicatorSocket
  send_unreliable addr [] socket any_send = (ok any_send, socket)
  send_unreliable addr (packet ∷ packets) socket any_send = elim (write_frame packet socket) [
    | err e ↦ (err e, socket)
    | panic ↦ (panic, socket)
    | ok socket' ↦
        let (socket'', any_send') = send_frame addr packet any_send socket' in
        send_unreliable addr packets socket'' any_send'
  ]

module _ {SEND RECV : Type 0} (system : System) (checksum : List ℕ → ℕ) (repr : ByteRepr SEND)
    (packet_repr : ByteRepr (Packet SEND)) where
  -- After both buffers: `drain(..)` empties the queue even if an error ends the loop early.
  unfoldable pub send_rest :
      SendAddr
      → InnerUdpCommunicator SEND RECV
      → Sending
      → Outcome (Result (Unit {0}) × InnerUdpCommunicator SEND RECV × UdpCommunicatorSocket)
  send_rest addr c none = panicked
  send_rest addr c (some (socket, any_send)) =
      let (result, socket') =
        send_unreliable system checksum packet_repr addr c.unreliable_send_packets socket
          any_send in
      let drained : InnerUdpCommunicator SEND RECV = record c { unreliable_send_packets = [] } in
      let (time, os) = now system socket'.os in
      elim result [
        | err e ↦ done (err e, drained, socket')
        | panic ↦ panicked
        | ok sent ↦
            if sent
            then done (ok tt, record drained { last_send = time }, record socket' { os = os })
            else done (ok tt, drained, socket')
      ]

  unfoldable pub send_packets :
      SendAddr
      → UdpCommunicatorSocket
      → InnerUdpCommunicator SEND RECV
      → Outcome (Result (Unit {0}) × InnerUdpCommunicator SEND RECV × UdpCommunicatorSocket)
  send_packets addr socket c =
      let f = resend_if_needed system checksum packet_repr addr in
      let (reliable, s1) = retain num_items f c.reliable_send_packets (some (socket, false)) in
      let (ordered, s2) = retain num_items f c.reliable_ordered_send_packets s1 in
      send_rest addr
        (record c { reliable_send_packets = reliable; reliable_ordered_send_packets = ordered }) s2

  -- `if self.received_packet_duplicate && ...`: the heartbeat that answers a duplicate.
  unfoldable pub needs_heartbeat : InnerUdpCommunicator SEND RECV → Bool
  needs_heartbeat c =
      c.received_packet_duplicate
      && (is_empty c.reliable_send_queue
          && (is_empty c.reliable_ordered_send_queue && is_empty c.unreliable_send_queue))

  unfoldable pub send :
      SendAddr
      → UdpCommunicatorSocket
      → InnerUdpCommunicator SEND RECV
      → Outcome (Result (Unit {0}) × InnerUdpCommunicator SEND RECV × UdpCommunicatorSocket)
  send addr socket c =
      let beat = if needs_heartbeat c then write_heartbeat c else c in
      do
        flushed ← flush_all system repr socket (record beat { received_packet_duplicate = false })
        send_packets addr flushed.1 flushed.0
