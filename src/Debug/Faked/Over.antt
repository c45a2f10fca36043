-- ===== src/Debug/Faked/Over.antt =====
-- mini_udp/src/communicator/debug.rs: a packet that is read with the fakes of the feature `debug`.
use mini_udp.Prelude.{
  ℕ, ◌+◌, ◌≡◌, refl, Bool, true, false, not, ◌&&◌, leb, ◌==◌, if_lem, Option, none, some, List,
  length,
}
use mini_udp.Outcome.{Outcome, done, panicked, out_of_fuel, ◌>>=◌}
use mini_udp.Packet.{Packet}
use mini_udp.ByteRepr.{ByteRepr, Result, ok, err, panic}
use mini_udp.Socket.{System, UdpCommunicatorSocket, now}
use mini_udp.Inner.{InnerUdpCommunicator}
use mini_udp.Inner.Receive.{from_le_bytes, slice, debug_unwrap}
use mini_udp.Debug.{Probability, Random, Fakes}
use mini_udp.Debug.Faked.{State, corrupt, chance, accept, check, read_packet}

-- The call ends, and what it returns, if it returns, has the property.
abbrev pub Over : {A : Type 0} → (A → Type 0) → Outcome A → Type 0
Over P (done a) = P a
Over P panicked = Unit {0}
Over P out_of_fuel = false ≡ true

abbrev pub Any : {A : Type 0} → A → Type 0
Any a = Unit {0}

pub Over-bind :
    {A B : Type 0} (P : A → Type 0) (Q : B → Type 0) (x : Outcome A) (f : A → Outcome B)
    → Over P x
    → ((a : A) → P a → Over Q (f a))
    → Over Q (x >>= f)
Over-bind P Q (done a) f h k = k a h
Over-bind P Q panicked f h k = tt
Over-bind P Q out_of_fuel f h k = h

slice-Over : (bytes : List ℕ) (start end : ℕ) → Over Any (slice bytes start end)
unfolding slice
slice-Over bytes start end = if_lem (Over Any) (leb start end && leb end (length bytes)) _ _ tt tt

chance-Over :
    (random : Random) (p : Option Probability) (draws : ℕ) → Over Any (chance random p draws)
unfolding chance
chance-Over random none draws = tt
chance-Over random (some p) draws = drawn (random.bool draws p)
  where
    drawn :
        (o : Option Bool)
        → Over {A = Bool × ℕ} Any (elim o [ none ↦ panicked | some b ↦ done (b, draws + 1) ])
    drawn none = tt
    drawn (some b) = tt

corrupt-Over :
    (random : Random) (f : Fakes) (n : ℕ) (buffer : List ℕ) → Over Any (corrupt random f n buffer)
unfolding corrupt
corrupt-Over random f n buffer =
    Over-bind Any Any (chance random f.corruption_probability f.draws) _
      (chance-Over random f.corruption_probability f.draws)
      (λ (hit, draws) h. if_lem (Over Any) hit _ _ tt tt)

debug_unwrap-Over :
    {RECV : Type 0} (r : Result (Packet RECV))
    → Over {A = Unit {0}} Any (elim r [ ok packet ↦ done tt | err e ↦ panicked | panic ↦ panicked ])
debug_unwrap-Over (ok packet) = tt
debug_unwrap-Over (err e) = tt
debug_unwrap-Over panic = tt

module _ {SEND RECV : Type 0} (random : Random) (system : System) (checksum : List ℕ → ℕ)
    (repr : ByteRepr (Packet RECV)) where
  -- A packet that is read leaves the events to come and the packets held back.
  abbrev pub SameWaiting : UdpCommunicatorSocket → Fakes → State SEND RECV → Type 0
  SameWaiting s f (c, s', f') = (s'.os.inbox ≡ s.os.inbox) × (f'.delayed ≡ f.delayed)

  accept-Over :
      (r : Result (Packet RECV)) (c : InnerUdpCommunicator SEND RECV) (s : UdpCommunicatorSocket)
      (f : Fakes)
      → Over (SameWaiting s f) (accept random system checksum repr r c s f)
  unfolding accept now
  accept-Over (err e) c s f = (refl, refl)
  accept-Over panic c s f = tt
  accept-Over (ok packet) c s f =
      Over-bind Any (SameWaiting s f) (chance random f.drop_probability f.draws) _
        (chance-Over random f.drop_probability f.draws)
        (λ (hit, draws) h. if_lem (Over (SameWaiting s f)) hit _ _ (refl, refl) (refl, refl))

  check-Over :
      (n : ℕ) (c : InnerUdpCommunicator SEND RECV) (s : UdpCommunicatorSocket) (f : Fakes)
      → Over (SameWaiting s f) (check random system checksum repr n c s f)
  unfolding check
  check-Over n c s f =
      Over-bind Any (SameWaiting s f) (slice s.data_buffer 0 4) _ (slice-Over s.data_buffer 0 4)
        (λ crc_bytes h.
          Over-bind Any (SameWaiting s f) (slice s.data_buffer 4 n) _ (slice-Over s.data_buffer 4 n)
            (λ bytes k.
              if_lem (Over (SameWaiting s f)) (not (checksum bytes == from_le_bytes crc_bytes)) _ _
                (refl, refl) (accept-Over (repr.from_bytes bytes) c s f)))

  pub read_packet-Over :
      (n : ℕ) (c : InnerUdpCommunicator SEND RECV) (s : UdpCommunicatorSocket) (f : Fakes)
      → Over (SameWaiting s f) (read_packet random system checksum repr n (c, s, f))
  unfolding read_packet debug_unwrap
  read_packet-Over n c s f =
      Over-bind Any (SameWaiting s f) (slice s.data_buffer 4 n) _ (slice-Over s.data_buffer 4 n)
        (λ bytes h.
          Over-bind Any (SameWaiting s f) (debug_unwrap true repr bytes) _
            (debug_unwrap-Over (repr.from_bytes bytes))
            (λ u k.
              Over-bind Any (SameWaiting s f) (corrupt random f n s.data_buffer) _
                (corrupt-Over random f n s.data_buffer)
                (λ (buffer, draws) l.
                  check-Over n c (record s { data_buffer = buffer }) (record f { draws = draws }))))
