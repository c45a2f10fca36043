-- ===== src/Inner/Receive/Arrivals.antt =====
-- `receive` on well-formed states, and on datagrams that are too short or do not parse.
use mini_udp.Prelude.{
  eq→==, ℕ, suc, ◌+◌, ◌≤◌, ◌<◌, ◌≡◌, refl, ap, arith, Bool, true, false, ◌==◌, Option, some, List,
  [], ◌∷◌, ◌++◌, length, take, drop, length-append, lt_or_le, All, map, foldl, Bool-cases, inl, inr,
  ◌⊎◌,
}
use mini_udp.Outcome.{done, panicked}
use mini_udp.Packet.{Packet}
use mini_udp.ByteRepr.{ByteRepr, ByteReprError, ok, err, panic}
use mini_udp.Socket.{clock, SocketAddr, Datagram, System, UdpCommunicatorSocket, recv_from}
use mini_udp.Inner.{InnerUdpCommunicator}
use mini_udp.Inner.Receive.{
  from_le_bytes, slice, debug_unwrap, accept, read_packet, receive_loop, receive,
}
use mini_udp.Inner.Receive.Keeps.{IsWire, IsValid}
use mini_udp.Inner.Receive.Once.{handle_packet-IsValid}
use mini_udp.Inner.Receive.Datagrams.{
  IsFrame, arrive, receive_lem, recv_from_lem, result_cases, slice_lem, take-length_append, take_4,
}

slice_short : (bytes : List ℕ) (start end : ℕ) → end < start → slice bytes start end ≡ panicked
unfolding slice
slice_short bytes start end h = ground arith

body :
    (buffer bytes rest : List ℕ)
    → buffer ≡ bytes ++ rest
    → 4 ≤ length bytes
    → slice buffer 4 (length bytes) ≡ done (drop 4 bytes)
body buffer bytes rest e h =
    rw
      (
        e,
        slice_lem (bytes ++ rest) 4 (length bytes) h (omega (arith, length-append bytes rest)),
        take-length_append bytes rest,
      )
      refl

module _ {SEND RECV : Type 0} (system : System) (checksum : List ℕ → ℕ)
    (repr : ByteRepr (Packet RECV))
    (typed : (bytes : List ℕ) (p : Packet RECV) → repr.from_bytes bytes ≡ ok p → IsWire p) where
  seen-IsValid :
      (c : InnerUdpCommunicator SEND RECV) (time : ℕ)
      → IsValid c
      → IsValid (record c { last_seen = time })
  seen-IsValid c time v = record {
    reliable_sent = v.reliable_sent;
    ordered_sent = v.ordered_sent;
    reliable_received = v.reliable_received;
    ordered_received = v.ordered_received;
    head = v.head;
    unreliable_id = v.unreliable_id;
  }

  arrive-IsValid :
      (c : InnerUdpCommunicator SEND RECV) (reads : ℕ) (frame : SocketAddr × Datagram)
      → IsValid c
      → IsValid (arrive system checksum repr (c, reads) frame).0
  unfolding arrive
  arrive-IsValid c reads (addr, bytes) v =
      elim (Bool-cases (checksum (drop 4 bytes) == from_le_bytes (take 4 bytes))) [
        | inl e ↦ elim (result_cases (repr.from_bytes (drop 4 bytes))) [
          | inl (x, p) ↦ rw (arrive, e, p) v
          | inr (inr p) ↦ rw (arrive, e, p) v
          | inr (inl (x, p)) ↦
              rw (arrive, e, p)
                (handle_packet-IsValid _ x (seen-IsValid c (clock system reads) v) (typed _ x p))
        ]
        | inr e ↦ rw (arrive, e) v
      ]

  arrivals-IsValid :
      (frames : List (SocketAddr × Datagram)) (c : InnerUdpCommunicator SEND RECV) (reads : ℕ)
      → IsValid c
      → IsValid (foldl (arrive system checksum repr) (c, reads) frames).0
  arrivals-IsValid [] c reads v = v
  arrivals-IsValid (frame ∷ frames) c reads v =
      let (c', reads') = arrive system checksum repr (c, reads) frame in
      arrivals-IsValid frames c' reads' (arrive-IsValid c reads frame v)

  -- Without the feature `debug`, if each datagram in the inbox has four bytes or more and fits
  -- the buffer, no other error waits, and the codec panics at none of them and parses ids as
  -- `u16`, then `receive` ends and keeps a well-formed state well-formed.
  pub receive-IsValid :
      (frames : List (SocketAddr × Datagram)) (s : UdpCommunicatorSocket)
      (c : InnerUdpCommunicator SEND RECV)
      → IsValid c
      → s.os.inbox ≡ map some frames
      → All (IsFrame repr (length s.data_buffer)) frames
      → (c' : InnerUdpCommunicator SEND RECV) × (s' : UdpCommunicatorSocket) × (receive false system
            checksum repr s c
          ≡ done (c', s'))
        × IsValid c'
  receive-IsValid frames s c v e fs =
      let (s', run, empty) = receive_lem system checksum repr frames s c e fs in
      (_, s', run, arrivals-IsValid frames c s.os.reads v)

head :
    (buffer bytes rest : List ℕ)
    → buffer ≡ bytes ++ rest
    → 4 ≤ length bytes
    → slice buffer 0 4 ≡ done (take 4 bytes)
head buffer bytes rest e h =
    rw
      (
        e,
        slice_lem (bytes ++ rest) 0 4 (omega arith) (omega (arith, length-append bytes rest)),
        take_4 bytes rest h,
      )
      refl

-- Too short for a checksum; or it does not parse, with the feature `debug`; or parsing it panics,
-- and its checksum is right.
abbrev pub IsFatal :
    {RECV : Type 0} → Bool → (List ℕ → ℕ) → ByteRepr (Packet RECV) → Datagram → Type 0
IsFatal debug checksum repr bytes =
    (length bytes < 4)
    ⊎ (((debug ≡ true) × (x : ByteReprError) × (repr.from_bytes (drop 4 bytes) ≡ err x))
        ⊎ ((checksum (drop 4 bytes) ≡ from_le_bytes (take 4 bytes))
            × (repr.from_bytes (drop 4 bytes) ≡ panic)))

module _ {SEND RECV : Type 0} (debug : Bool) (system : System) (checksum : List ℕ → ℕ)
    (repr : ByteRepr (Packet RECV)) where
  loop_panics :
      (fuel : ℕ) (s s1 : UdpCommunicatorSocket) (c : InnerUdpCommunicator SEND RECV) (n : ℕ)
      (addr : SocketAddr)
      → recv_from s ≡ (some (n, addr), s1)
      → read_packet debug system checksum repr n s1 c ≡ panicked
      → receive_loop debug system checksum repr (suc fuel) s c ≡ panicked
  unfolding receive_loop
  loop_panics fuel s s1 c n addr r p =
      rw (receive_loop, r, ap {B = UdpCommunicatorSocket} (λ x. x.1) r, p) refl

  read_packet_panics :
      (s : UdpCommunicatorSocket) (c : InnerUdpCommunicator SEND RECV) (bytes rest : List ℕ)
      → s.data_buffer ≡ bytes ++ rest
      → IsFatal debug checksum repr bytes
      → read_packet debug system checksum repr (length bytes) s c ≡ panicked
  unfolding read_packet debug_unwrap accept
  read_packet_panics s c bytes rest e h = elim (lt_or_le (length bytes) 4) [
    | inl short ↦ rw (read_packet, slice_short s.data_buffer 4 (length bytes) short) refl
    | inr fits ↦ elim h [
      | inl short ↦ absurd (omega arith)
      | inr (inl (on, x, p)) ↦ rw (read_packet, body s.data_buffer bytes rest e fits, on, p) refl
      | inr (inr (crc, p)) ↦
          let e4 = body s.data_buffer bytes rest e fits in
          let e0 = head s.data_buffer bytes rest e fits in
          elim (Bool-cases debug) [
            | inl on ↦ rw (read_packet, e4, on, p) refl
            | inr off ↦ rw (read_packet, e4, off, e0, eq→== _ _ crc, p) refl
          ]
    ]
  ]

  -- A datagram that comes first and fits the buffer makes `receive` panic if it has fewer than
  -- four bytes, if its checksum is right and the codec panics at it, and with the feature `debug`
  -- also if it does not parse, its checksum right or wrong.
  pub receive_panics :
      (s : UdpCommunicatorSocket) (c : InnerUdpCommunicator SEND RECV) (addr : SocketAddr)
      (bytes : List ℕ) (events : List (Option (SocketAddr × Datagram)))
      → s.os.inbox ≡ some (addr, bytes) ∷ events
      → length bytes ≤ length s.data_buffer
      → IsFatal debug checksum repr bytes
      → receive debug system checksum repr s c ≡ panicked
  unfolding receive
  receive_panics s c addr bytes events e f h =
      let fuel : length s.os.inbox + 1 ≡ suc (length events + 1) = rw e (omega arith) in
      rw fuel (
        loop_panics (length events + 1) s _ c (length bytes) addr
          (recv_from_lem s addr bytes events e f) (read_packet_panics _ c bytes _ refl h))
