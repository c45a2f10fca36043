-- ===== src/Inner/Receive/Datagrams.antt =====
-- `receive` against a definition that reads each datagram by itself, without the buffer that they
-- share and without the loop.
use mini_udp.Prelude.{
  ℕ, zero, suc, ◌+◌, ◌≤◌, ◌<◌, ◌≡◌, refl, ap, ◌∙◌, arith, false, ◌==◌, if◌then◌else◌, Option, none,
  some, List, [], ◌∷◌, ◌++◌, length, take, drop, length-append, length-drop, All, map, foldl,
  Bool-cases, inl, inr, ◌⊎◌, ◌≢◌,
}
use mini_udp.Outcome.{done}
use mini_udp.Packet.{Packet}
use mini_udp.ByteRepr.{ByteRepr, ByteReprError, Result, ok, err, panic}
use mini_udp.Socket.{clock, SocketAddr, Datagram, System, now, UdpCommunicatorSocket, recv_from}
use mini_udp.Inner.{InnerUdpCommunicator}
use mini_udp.Inner.Receive.{
  from_le_bytes, slice, debug_unwrap, accept, handle_packet, read_packet, receive_loop, receive,
}

pub take-length_append : {A : Type 0} (xs ys : List A) → take (length xs) (xs ++ ys) ≡ xs
take-length_append [] ys = refl
take-length_append (x ∷ xs) ys = ap (λ zs. x ∷ zs) (take-length_append xs ys)

take_all : {A : Type 0} (n : ℕ) (xs : List A) → length xs ≤ n → take n xs ≡ xs
take_all zero [] h = refl
take_all zero (x ∷ xs) h = absurd (omega arith)
take_all (suc n) [] h = refl
take_all (suc n) (x ∷ xs) h = ap (λ zs. x ∷ zs) (take_all n xs (omega arith))

pub recv_from_lem :
    (s : UdpCommunicatorSocket) (addr : SocketAddr) (bytes : List ℕ)
    (events : List (Option (SocketAddr × Datagram)))
    → s.os.inbox ≡ some (addr, bytes) ∷ events
    → length bytes ≤ length s.data_buffer
    → recv_from s ≡ (
      some (length bytes, addr),
      record s {
        os = record s.os { inbox = events };
        data_buffer = bytes ++ drop (length bytes) s.data_buffer;
      },
    )
unfolding recv_from
recv_from_lem s addr bytes events e h = rw (e, take_all (length s.data_buffer) bytes h) refl

recv_from_empty : (s : UdpCommunicatorSocket) → s.os.inbox ≡ [] → recv_from s ≡ (none, s)
unfolding recv_from
recv_from_empty s e = rw e refl

pub result_cases :
    {A : Type 0} (r : Result A)
    → ((e : ByteReprError) × (r ≡ err e)) ⊎ (((a : A) × (r ≡ ok a)) ⊎ (r ≡ panic))
result_cases (err e) = inl (e, refl)
result_cases (ok a) = inr (inl (a, refl))
result_cases panic = inr (inr refl)

length-map-some : {A : Type 0} (xs : List A) → length (map some xs) ≡ length xs
length-map-some [] = refl
length-map-some (x ∷ xs) = ap suc (length-map-some xs)

pub take_4 : (bytes rest : List ℕ) → 4 ≤ length bytes → take 4 (bytes ++ rest) ≡ take 4 bytes
take_4 (b0 ∷ b1 ∷ b2 ∷ b3 ∷ bytes) rest h = refl
take_4 (b0 ∷ b1 ∷ b2 ∷ []) rest h = absurd (omega arith)
take_4 (b0 ∷ b1 ∷ []) rest h = absurd (omega arith)
take_4 (b0 ∷ []) rest h = absurd (omega arith)
take_4 [] rest h = absurd (omega arith)

pub slice_lem :
    (bytes : List ℕ) (start end : ℕ)
    → start ≤ end
    → end ≤ length bytes
    → slice bytes start end ≡ done (drop start (take end bytes))
unfolding slice
slice_lem bytes start end h h' = ground arith

-- A length that the buffer can hold, with the checksum, and contents at which the codec does not
-- panic.
abbrev pub IsFrame : {RECV : Type 0} → ByteRepr (Packet RECV) → ℕ → SocketAddr × Datagram → Type 0
IsFrame repr size (addr, bytes) =
    (4 ≤ length bytes) × (length bytes ≤ size) × (repr.from_bytes (drop 4 bytes) ≢ panic)

module _ {SEND RECV : Type 0} (system : System) (checksum : List ℕ → ℕ)
    (repr : ByteRepr (Packet RECV)) where
  -- The state and the readings of the clock after one datagram. One with a wrong checksum or one
  -- that does not parse changes nothing.
  unfoldable pub arrive :
      InnerUdpCommunicator SEND RECV × ℕ
      → SocketAddr × Datagram
      → InnerUdpCommunicator SEND RECV × ℕ
  arrive (c, reads) (addr, bytes) =
      if checksum (drop 4 bytes) == from_le_bytes (take 4 bytes)
      then elim (repr.from_bytes (drop 4 bytes)) [
        | err e ↦ (c, reads)
        | panic ↦ (c, reads)
        | ok packet ↦
            (handle_packet (record c { last_seen = clock system reads }) packet, reads + 1)
      ]
      else (c, reads)

  read_sliced :
      (s : UdpCommunicatorSocket) (c : InnerUdpCommunicator SEND RECV) (addr : SocketAddr) (n : ℕ)
      (bytes : List ℕ)
      → slice s.data_buffer 4 n ≡ done (drop 4 bytes)
      → slice s.data_buffer 0 4 ≡ done (take 4 bytes)
      → repr.from_bytes (drop 4 bytes) ≢ panic
      → let (c', reads') = arrive (c, s.os.reads) (addr, bytes) in
        read_packet false system checksum repr n s c
        ≡ done (c', record s { os = record s.os { reads = reads' } })
  unfolding read_packet arrive debug_unwrap accept now
  read_sliced s c addr n bytes e4 e0 np =
      elim (Bool-cases (checksum (drop 4 bytes) == from_le_bytes (take 4 bytes))) [
        | inl e ↦ elim (result_cases (repr.from_bytes (drop 4 bytes))) [
          | inl (x, p) ↦ rw (e4, e0, e, p) refl
          | inr (inl (x, p)) ↦ rw (e4, e0, e, p) refl
          | inr (inr p) ↦ absurd (np p)
        ]
        | inr e ↦ rw (e4, e0, e) refl
      ]

  read_packet_lem :
      (s : UdpCommunicatorSocket) (c : InnerUdpCommunicator SEND RECV) (addr : SocketAddr)
      (bytes rest : List ℕ)
      → s.data_buffer ≡ bytes ++ rest
      → 4 ≤ length bytes
      → repr.from_bytes (drop 4 bytes) ≢ panic
      → let (c', reads') = arrive (c, s.os.reads) (addr, bytes) in
        read_packet false system checksum repr (length bytes) s c
        ≡ done (c', record s { os = record s.os { reads = reads' } })
  read_packet_lem s c addr bytes rest e h np =
      let fits : length bytes ≤ length (bytes ++ rest) = omega (arith, length-append bytes rest) in
      read_sliced s c addr (length bytes) bytes
        (rw (e, slice_lem (bytes ++ rest) 4 (length bytes) h fits, take-length_append bytes rest)
          refl)
        (rw (e, slice_lem (bytes ++ rest) 0 4 (omega arith) (omega arith), take_4 bytes rest h)
          refl)
        np

  loop_step :
      (fuel : ℕ) (s s1 s2 : UdpCommunicatorSocket) (c c' : InnerUdpCommunicator SEND RECV) (n : ℕ)
      (addr : SocketAddr)
      → recv_from s ≡ (some (n, addr), s1)
      → read_packet false system checksum repr n s1 c ≡ done (c', s2)
      → receive_loop false system checksum repr (suc fuel) s c
        ≡ receive_loop false system checksum repr fuel s2 c'
  unfolding receive_loop
  loop_step fuel s s1 s2 c c' n addr r p =
      rw (receive_loop, r, ap {B = UdpCommunicatorSocket} (λ x. x.1) r, p) refl

  -- Datagrams that are in the inbox are read in their order, until there are no more.
  receive_loop_lem :
      (frames : List (SocketAddr × Datagram)) (fuel : ℕ) (s : UdpCommunicatorSocket)
      (c : InnerUdpCommunicator SEND RECV)
      → length frames < fuel
      → s.os.inbox ≡ map some frames
      → All (IsFrame repr (length s.data_buffer)) frames
      → (s' : UdpCommunicatorSocket) × (receive_loop false system checksum repr fuel s c
          ≡ done ((foldl arrive (c, s.os.reads) frames).0, s'))
        × (s'.os.inbox ≡ [])
  unfolding receive_loop
  receive_loop_lem [] (suc fuel) s c h e fs = (
    s,
    rw
        (
          receive_loop,
          recv_from_empty s e,
          ap {B = UdpCommunicatorSocket} (λ r. r.1) (recv_from_empty s e),
        )
        refl,
    e,
  )
  receive_loop_lem ((addr, bytes) ∷ frames) (suc fuel) s c h e ((f4, f, np), fs) =
      let stored = bytes ++ drop (length bytes) s.data_buffer in
      let s1 : UdpCommunicatorSocket = record s {
        os = record s.os { inbox = map some frames };
        data_buffer = stored;
      } in
      let (c', reads') = arrive (c, s.os.reads) (addr, bytes) in
      let s2 : UdpCommunicatorSocket = record s1 { os = record s1.os { reads = reads' } } in
      let same : length stored ≡ length s.data_buffer = omega (
        arith,
        length-append bytes (drop (length bytes) s.data_buffer),
        length-drop (length bytes) s.data_buffer,
      ) in
      let (s', run, empty) = receive_loop_lem frames fuel s2 c' (omega arith) refl (rw same fs) in
      (
        s',
        loop_step fuel s s1 s2 c c' (length bytes) addr
              (recv_from_lem s addr bytes (map some frames) e f)
              (read_packet_lem s1 c addr bytes (drop (length bytes) s.data_buffer) refl f4 np)
            ∙ run,
        empty,
      )
  receive_loop_lem frames zero s c h e fs = absurd (omega arith)

  -- Without the feature `debug`, if each datagram in the inbox has four bytes or more and fits
  -- the buffer, the codec panics at none of them, and no other error waits, then `receive` reads
  -- all of them, each as `arrive` reads it by itself, and ends.
  pub receive_lem :
      (frames : List (SocketAddr × Datagram)) (s : UdpCommunicatorSocket)
      (c : InnerUdpCommunicator SEND RECV)
      → s.os.inbox ≡ map some frames
      → All (IsFrame repr (length s.data_buffer)) frames
      → (s' : UdpCommunicatorSocket) × (receive false system checksum repr s c
          ≡ done ((foldl arrive (c, s.os.reads) frames).0, s'))
        × (s'.os.inbox ≡ [])
  unfolding receive
  receive_lem frames s c e fs =
      receive_loop_lem frames (length s.os.inbox + 1) s c
        (rw e (omega (arith, length-map-some frames))) e fs
