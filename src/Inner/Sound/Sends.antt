-- ===== src/Inner/Sound/Sends.antt =====
-- mini_udp/src/communicator/inner.rs: what `send` returns is well-formed, if it returns.
use mini_udp.Prelude.{
  ℕ, ◌≡◌, refl, arith, Bool, false, if_lem, if◌then◌else◌, none, some, List, All,
}
use mini_udp.Outcome.{done, panicked}
use mini_udp.Packet.{Packet}
use mini_udp.ByteRepr.{ByteRepr, Result, ok, err, panic}
use mini_udp.Ack.{num_items}
use mini_udp.Ack.Field.{capacity}
use mini_udp.Ring.Slots.{IsRing}
use mini_udp.Ring.Retain.{retain}
use mini_udp.Ring.Retain.Outcome.{get-retain}
use mini_udp.Socket.{SendAddr, System, Os, UdpCommunicatorSocket}
use mini_udp.Ring.Window.{fresh-IsRing}
use mini_udp.Inner.{InnerUdpCommunicator, default, write_heartbeat}
use mini_udp.Inner.Flush.Packs.{Fits}
use mini_udp.Inner.Flush.Whole.{flush_all_lem}
use mini_udp.Inner.Send.{
  Sending, resend_if_needed, send_unreliable, send_rest, send_packets, needs_heartbeat, send,
}
use mini_udp.Inner.Sound.{Returns, returns, no_value, IsSound}

module _ {SEND RECV : Type 0} (repr : ByteRepr SEND) where
  pub default-IsSound :
      (system : System) (os : Os) → IsSound repr (default {SEND = SEND} {RECV = RECV} system os).0
  unfolding default
  default-IsSound system os = record {
    valid = record {
      reliable_sent = fresh-IsRing num_items;
      ordered_sent = fresh-IsRing num_items;
      reliable_received = fresh-IsRing num_items;
      ordered_received = fresh-IsRing num_items;
      head = omega arith;
      unreliable_id = omega arith;
    };
    fit = tt;
  }

  pub write_heartbeat-IsSound :
      (c : InnerUdpCommunicator SEND RECV) → IsSound repr c → IsSound repr (write_heartbeat c)
  unfolding write_heartbeat
  write_heartbeat-IsSound c s = record {
    valid = record {
      reliable_sent = s.valid.reliable_sent;
      ordered_sent = s.valid.ordered_sent;
      reliable_received = s.valid.reliable_received;
      ordered_received = s.valid.ordered_received;
      head = s.valid.head;
      unreliable_id = omega arith;
    };
    fit = s.fit;
  }

  -- Everything but what well-formedness reads.
  pub changed-IsSound :
      (c d : InnerUdpCommunicator SEND RECV)
      → IsSound repr c
      → IsRing num_items d.reliable_send_packets
      → IsRing num_items d.reliable_ordered_send_packets
      → d.reliable_received_packets ≡ c.reliable_received_packets
      → d.reliable_ordered_received_packets ≡ c.reliable_ordered_received_packets
      → d.ordered_read_packet_head ≡ c.ordered_read_packet_head
      → d.unreliable_send_packet_id ≡ c.unreliable_send_packet_id
      → All (Fits repr) d.unreliable_send_queue
      → IsSound repr d
  changed-IsSound c d s r o rr ro head id fit = record {
    valid = record {
      reliable_sent = r;
      ordered_sent = o;
      reliable_received = rw rr s.valid.reliable_received;
      ordered_received = rw ro s.valid.ordered_received;
      head = rw head s.valid.head;
      unreliable_id = rw id s.valid.unreliable_id;
    };
    fit = fit;
  }

  module _ (system : System) (checksum : List ℕ → ℕ) (packet_repr : ByteRepr (Packet SEND))
      (addr : SendAddr) where
    abbrev pub SoundSecond :
        Result (Unit {0}) × InnerUdpCommunicator SEND RECV × UdpCommunicatorSocket → Type 0
    SoundSecond next = IsSound repr next.1

    answer-IsSound :
        (result : Result Bool) (d : InnerUdpCommunicator SEND RECV) (socket : UdpCommunicatorSocket)
        (os : Os) (time : ℕ)
        → IsSound repr d
        → Returns SoundSecond (elim result [
          | err e ↦ done (err e, d, socket)
          | panic ↦ panicked
          | ok sent ↦
              if sent
              then done (ok tt, record d { last_send = time }, record socket { os = os })
              else done (ok tt, d, socket)
        ])
    answer-IsSound (err e) d socket os time s = returns SoundSecond (err e, d, socket) s
    answer-IsSound panic d socket os time s = λ b e. no_value panicked b refl e
    answer-IsSound (ok sent) d socket os time s =
        if_lem (Returns SoundSecond) sent _ _
          (returns SoundSecond (ok tt, record d { last_send = time }, record socket { os = os })
            (changed-IsSound d _ s s.valid.reliable_sent s.valid.ordered_sent refl refl refl refl
              s.fit))
          (returns SoundSecond (ok tt, d, socket) s)

    send_rest-IsSound :
        (c : InnerUdpCommunicator SEND RECV) (sending : Sending)
        → IsSound repr c
        → Returns SoundSecond (send_rest system checksum repr packet_repr addr c sending)
    unfolding send_rest
    send_rest-IsSound c none s = λ b e. no_value panicked b refl e
    send_rest-IsSound c (some (socket, any_send)) s =
        answer-IsSound
          (send_unreliable system checksum packet_repr addr c.unreliable_send_packets socket
            any_send).0
          _ _ _ _
          (changed-IsSound c _ s s.valid.reliable_sent s.valid.ordered_sent refl refl refl refl
            s.fit)

    send_packets-IsSound :
        (socket : UdpCommunicatorSocket) (c : InnerUdpCommunicator SEND RECV)
        → IsSound repr c
        → Returns SoundSecond (send_packets system checksum repr packet_repr addr socket c)
    unfolding send_packets
    send_packets-IsSound socket c s =
        let f = resend_if_needed system checksum packet_repr addr in
        let reliable =
          get-retain f num_items capacity c.reliable_send_packets (some (socket, false)) 0
            s.valid.reliable_sent (omega arith) in
        let ordered =
          get-retain f num_items capacity c.reliable_ordered_send_packets
            (retain num_items f c.reliable_send_packets (some (socket, false))).1 0
            s.valid.ordered_sent (omega arith) in
        send_rest-IsSound _ _ (changed-IsSound c _ s reliable.0 ordered.0 refl refl refl refl s.fit)

    pub send-IsSound :
        (socket : UdpCommunicatorSocket) (c : InnerUdpCommunicator SEND RECV)
        → IsSound repr c
        → Returns SoundSecond (send system checksum repr packet_repr addr socket c)
    unfolding send
    send-IsSound socket c s =
        let beat =
          if needs_heartbeat system checksum repr packet_repr c then write_heartbeat c else c in
        let b : IsSound repr beat =
          if_lem (IsSound repr) (needs_heartbeat system checksum repr packet_repr c) _ c
            (write_heartbeat-IsSound c s) s in
        let d : InnerUdpCommunicator SEND RECV = record beat {
          received_packet_duplicate = false;
        } in
        let t : IsSound repr d =
          changed-IsSound beat d b b.valid.reliable_sent b.valid.ordered_sent refl refl refl refl
            b.fit in
        let (c', reliable, ordered, ps, ps', packets, run, packed, packed', flushed, valid) =
          flush_all_lem system repr socket d t.valid t.fit in
        rw run (
          send_packets-IsSound (record socket { os = ordered.os }) c'
            (record { valid = valid; fit = rw flushed.all_taken tt }))
