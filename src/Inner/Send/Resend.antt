-- ===== src/Inner/Send/Resend.antt =====
-- One pending packet: when it is sent again, and when it is given up.
use mini_udp.Prelude.{
  ℕ, zero, ◌∙◌, suc, ◌+◌, ◌-◌, ◌≤◌, ◌<◌, ◌≡◌, ◌≢◌, refl, arith, ◌^◌, Bool, true, not, ◌==◌, some,
  List, le→ltb,
}
use mini_udp.Packet.{Packet}
use mini_udp.ByteRepr.{ByteRepr}
use mini_udp.Socket.{clock, SendAddr, System, UdpCommunicatorSocket, now}
use mini_udp.Inner.{PendingPacket}
use mini_udp.Inner.Send.{decrement, send_cooldown, resend, resend_if_needed}

module _ {SEND : Type 0} (system : System) (checksum : List ℕ → ℕ)
    (repr : ByteRepr (Packet SEND)) where
  -- A packet sent no longer ago than its cooldown stays as it is, and nothing is sent: only the
  -- clock is read.
  pub resend_cooling :
      (addr : SendAddr) (socket : UdpCommunicatorSocket) (any_send : Bool) (id : ℕ)
      (pending : PendingPacket SEND)
      → clock system socket.os.reads - pending.last_send
        ≤ send_cooldown system checksum repr socket pending.packet
      → let (keep, pending', sending) =
          resend_if_needed system checksum repr addr (some (socket, any_send)) id pending in
        (keep ≡ true)
        × (pending' ≡ pending)
        × (sending ≡ some (record socket { os = (now system socket.os).1 }, any_send))
  unfolding resend_if_needed now
  resend_cooling addr socket any_send id pending h = rw (le→ltb _ _ h) (refl, refl, refl)

  -- What a resend that did not panic has done.
  resend_lem :
      (addr : SendAddr) (socket : UdpCommunicatorSocket) (any_send : Bool)
      (pending : PendingPacket SEND) (keep : Bool) (pending' : PendingPacket SEND)
      (sent : UdpCommunicatorSocket × Bool)
      → resend system checksum repr addr socket any_send pending ≡ (keep, pending', some sent)
      → (keep ≡ not (decrement pending.remaining_retries == 0))
        × (pending'.remaining_retries ≡ decrement pending.remaining_retries)
        × (pending'.packet ≡ pending.packet)
        × (pending'.last_send ≡ clock system socket.os.reads)
  unfolding resend now
  resend_lem addr socket any_send pending keep pending' sent h = ground arith

  kept_ne_zero : (n : ℕ) → true ≡ not (n == 0) → n ≢ 0
  kept_ne_zero n h = ground arith

  -- `k` resends have kept the packet.
  pub data Kept (pending : PendingPacket SEND) : ℕ → PendingPacket SEND → Type 0 where
    start : Kept pending zero pending
    again :
        {k : ℕ} {q q' : PendingPacket SEND}
        → Kept pending k q
        → (addr : SendAddr) (socket : UdpCommunicatorSocket) (any_send : Bool)
          (sent : UdpCommunicatorSocket × Bool)
        → resend system checksum repr addr socket any_send q ≡ (true, q', some sent)
        → Kept pending (suc k) q'

  Kept-retries :
      {pending : PendingPacket SEND} {k : ℕ} {q : PendingPacket SEND}
      → 0 < pending.remaining_retries
      → pending.remaining_retries < 2 ^ 64
      → Kept pending k q
      → (k < pending.remaining_retries)
        × (q.remaining_retries + k ≡ pending.remaining_retries)
        × (q.packet ≡ pending.packet)
  Kept-retries pos small start = (pos, omega arith, refl)
  Kept-retries pos small (again {k} {q} {q'} kept addr socket any_send sent h) =
      let (lt, sum, same) = Kept-retries pos small kept in
      let (keep, left, packet, time) = resend_lem addr socket any_send q true q' sent h in
      let more : decrement q.remaining_retries ≢ 0 = kept_ne_zero _ keep in
      (omega arith, omega arith, packet ∙ same)

  -- With retries between 1 and `usize::MAX`, a pending packet is sent at most that often, the
  -- first time included: after `k` sends that kept it `k` is less, and the next send that does
  -- not panic gives it up just if that is the last one. The packet itself stays the same.
  pub resend_gives_up :
      {pending : PendingPacket SEND} {k : ℕ} {q : PendingPacket SEND}
      → 0 < pending.remaining_retries
      → pending.remaining_retries < 2 ^ 64
      → Kept pending k q
      → (addr : SendAddr) (socket : UdpCommunicatorSocket) (any_send keep : Bool)
        (q' : PendingPacket SEND) (sent : UdpCommunicatorSocket × Bool)
      → resend system checksum repr addr socket any_send q ≡ (keep, q', some sent)
      → (k < pending.remaining_retries)
        × (keep ≡ not (k + 1 == pending.remaining_retries))
        × (q'.packet ≡ pending.packet)
  resend_gives_up pos small kept addr socket any_send keep q' sent h =
      let (lt, sum, same) = Kept-retries pos small kept in
      let (kept', left, packet, time) = resend_lem addr socket any_send _ keep q' sent h in
      (lt, kept' ∙ ground arith, packet ∙ same)
