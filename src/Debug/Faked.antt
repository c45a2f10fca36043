-- ===== src/Debug/Faked.antt =====
-- mini_udp/src/communicator/inner.rs: `receive` and `read_packet` with the fakes of the feature
-- `debug`.
pub mod Unfaked
pub mod Over
pub mod Ends
use mini_udp.Prelude.{
  ℕ, zero, suc, ◌+◌, ◌*◌, ◌/◌, ◌%◌, ◌^◌, Bool, true, false, not, ◌==◌, if◌then◌else◌, Option, none,
  some, List, length, get_or, set,
}
use Prim.Native.Nat.{bit_xor}
use mini_udp.Outcome.{Outcome, done, panicked, out_of_fuel, ◌>>=◌}
use mini_udp.Packet.{Packet}
use mini_udp.ByteRepr.{ByteRepr, Result, ok, err, panic}
use mini_udp.Socket.{System, UdpCommunicatorSocket, now, recv_from}
use mini_udp.Inner.{InnerUdpCommunicator}
use mini_udp.Inner.Receive.{from_le_bytes, slice, debug_unwrap, handle_packet}
use mini_udp.Debug.{Probability, Random, Fakes, delay_packet, read_delayed}

-- The loop over `i..i + num` that flips bits.
unfoldable pub corrupt_bits : List ℕ → ℕ → ℕ → List ℕ
corrupt_bits buffer i zero = buffer
corrupt_bits buffer i (suc num) =
    corrupt_bits (set buffer (i / 8) (bit_xor (get_or buffer (i / 8) 0) (2 ^ (i % 8)))) (i + 1) num

-- `if let Some(p) = probability && rand::random_bool(p)`, and the draws after it.
unfoldable pub chance : Random → Option Probability → ℕ → Outcome (Bool × ℕ)
chance random none draws = done (false, draws)
chance random (some p) draws = elim (random.bool draws p) [
  | none ↦ panicked
  | some b ↦ done (b, draws + 1)
]

-- The buffer after the fake corruption of `n` bytes, and the draws.
unfoldable pub corrupt : Random → Fakes → ℕ → List ℕ → Outcome (List ℕ × ℕ)
corrupt random f n buffer = do
  (hit, draws) ← chance random f.corruption_probability f.draws
  if hit
      then done (corrupt_bits buffer 0 (random.range draws 0 (n * 8)), draws + 1)
      else done (buffer, draws)

abbrev pub State : Type 0 → Type 0 → Type 0
State SEND RECV = InnerUdpCommunicator SEND RECV × UdpCommunicatorSocket × Fakes

module _ {SEND RECV : Type 0} (random : Random) (system : System) (checksum : List ℕ → ℕ)
    (repr : ByteRepr (Packet RECV)) where
  -- The match on the packet.
  unfoldable pub accept :
      Result (Packet RECV)
      → InnerUdpCommunicator SEND RECV
      → UdpCommunicatorSocket
      → Fakes
      → Outcome (State SEND RECV)
  accept (err e) c socket f = done (c, socket, f)
  accept panic c socket f = panicked
  accept (ok packet) c socket f = do
    (hit, draws) ← chance random f.drop_probability f.draws
    (let (time, os) = now system socket.os in
        if hit
        then done (c, socket, record f { draws = draws })
        else done (
          handle_packet (record c { last_seen = time }) packet,
          record socket { os = os },
          record f { draws = draws },
        ))

  -- From the checksum on.
  unfoldable pub check :
      ℕ → InnerUdpCommunicator SEND RECV → UdpCommunicatorSocket → Fakes → Outcome (State SEND RECV)
  check n c socket f = do
    crc_bytes ← slice socket.data_buffer 0 4
    bytes ← slice socket.data_buffer 4 n
    if not (checksum bytes == from_le_bytes crc_bytes)
        then done (c, socket, f)
        else accept (repr.from_bytes bytes) c socket f

  unfoldable pub read_packet : ℕ → State SEND RECV → Outcome (State SEND RECV)
  unfolding check
  read_packet n (c, socket, f) = do
    bytes ← slice socket.data_buffer 4 n
    _ ← debug_unwrap true repr bytes
    (buffer, draws) ← corrupt random f n socket.data_buffer
    check n c (record socket { data_buffer = buffer }) (record f { draws = draws })

  -- `while let Ok(n) = socket.recv(..)`
  unfoldable pub receive_loop : ℕ → State SEND RECV → Outcome (State SEND RECV)
  receive_loop zero state = out_of_fuel
  receive_loop (suc fuel) (c, socket, f) =
      let (event, socket1) = recv_from socket in
      elim event [
        | none ↦ done (c, socket1, f)
        | some (n, addr) ↦
            let (held, f', socket2) = delay_packet random system f socket1 none n in
            elim held [
              | true ↦ receive_loop fuel (c, socket2, f')
              | false ↦ read_packet n (c, socket2, f') >>= receive_loop fuel
            ]
      ]

  -- `while let Some((n, _)) = socket.read_delayed()`
  unfoldable pub delayed_loop : ℕ → State SEND RECV → Outcome (State SEND RECV)
  delayed_loop zero state = out_of_fuel
  delayed_loop (suc fuel) (c, socket, f) =
      let (found, f', socket') = read_delayed system f socket in
      elim found [
        | none ↦ done (c, socket', f')
        | some (n, addr) ↦ read_packet n (c, socket', f') >>= delayed_loop fuel
      ]

  -- A round of the first loop takes an event, and the system then has no more for now; one of the
  -- second takes a packet held back.
  unfoldable pub receive : State SEND RECV → Outcome (State SEND RECV)
  receive (c, socket, f) = do
    (c', socket', f') ← receive_loop (length socket.os.inbox + 1) (c, socket, f)
    delayed_loop (length f'.delayed + 1) (c', socket', f')
