-- ===== src/Inner/HandedOn/Untouched.antt =====
-- mini_udp/src/communicator/inner.rs: what `send` returns has received nothing.
use mini_udp.Prelude.{
  ℕ, zero, suc, ◌+◌, ◌≡◌, refl, Bool, true, false, none, some, not, if_lem, if◌then◌else◌, List,
  is_empty, length,
}
use mini_udp.Outcome.{Outcome, done, panicked, out_of_fuel, ◌>>=◌}
use mini_udp.Packet.{Packet}
use mini_udp.ByteRepr.{ByteRepr, Result, ok, err, panic}
use mini_udp.Socket.{SendAddr, System, Os, UdpCommunicatorSocket}
use mini_udp.Inner.{InnerUdpCommunicator, write_heartbeat}
use mini_udp.Inner.Flush.{
  flush_all, flush_messages, flush_unreliable, flush_unreliable_round, Flushing,
}
use mini_udp.Inner.Receive.{Delivery}
use mini_udp.Ring.{RingBuffer}
use mini_udp.Inner.Receive.Ordered.{delivery}
use mini_udp.Inner.Send.{Sending, send_unreliable, send_rest, send_packets, needs_heartbeat, send}
use mini_udp.Inner.Sound.{Returns, returns, no_value, Returns-bind}

module _ {SEND RECV : Type 0} where
  -- All that `receive` adds to.
  abbrev pub reception :
      InnerUdpCommunicator SEND RECV → Delivery RECV × RingBuffer (Unit {0}) × List RECV
  reception c = (delivery c, c.reliable_received_packets, c.unordered_recv_queue)

  abbrev SameReception : InnerUdpCommunicator SEND RECV → InnerUdpCommunicator SEND RECV → Type 0
  SameReception c d = reception d ≡ reception c

  module _ (system : System) (repr : ByteRepr SEND) (c : InnerUdpCommunicator SEND RECV) where
    flush_unreliable_untouched :
        (fuel : ℕ) (d : InnerUdpCommunicator SEND RECV)
        → SameReception c d
        → Returns (SameReception c) (flush_unreliable system repr fuel d)
    unfolding flush_unreliable flush_unreliable_round
    flush_unreliable_untouched zero d h = λ b e. no_value out_of_fuel b refl e
    flush_unreliable_untouched (suc fuel) d h =
        if_lem (Returns (SameReception c)) (not (is_empty d.unreliable_send_queue)) _ _
          (flush_unreliable_untouched fuel (flush_unreliable_round system repr d) h)
          (returns (SameReception c) d h)

    flush_all_untouched :
        (socket : UdpCommunicatorSocket) (d : InnerUdpCommunicator SEND RECV)
        → SameReception c d
        → Returns (λ next. SameReception c next.0) (flush_all system repr socket d)
    unfolding flush_all
    flush_all_untouched socket d h =
        let Answer = InnerUdpCommunicator SEND RECV × UdpCommunicatorSocket in
        let Same : Answer → Type 0 = λ next. SameReception c next.0 in
        let packed : Bool → ℕ → Flushing SEND → Outcome (Flushing SEND) = λ ordered retries s.
          flush_messages system repr retries d.reliable_received_packets
            d.reliable_ordered_received_packets ordered s in
        let first : Flushing SEND = record {
          send_packets = d.reliable_send_packets;
          send_queue = d.reliable_send_queue;
          os = socket.os;
        } in
        let second : Flushing SEND → Flushing SEND = λ reliable. record {
          send_packets = d.reliable_ordered_send_packets;
          send_queue = d.reliable_ordered_send_queue;
          os = reliable.os;
        } in
        let both : Flushing SEND → Flushing SEND → InnerUdpCommunicator SEND RECV =
          λ reliable ordered. record d {
            reliable_send_packets = reliable.send_packets;
            reliable_send_queue = reliable.send_queue;
            reliable_ordered_send_packets = ordered.send_packets;
            reliable_ordered_send_queue = ordered.send_queue;
          } in
        let all : Flushing SEND → Flushing SEND → Outcome (InnerUdpCommunicator SEND RECV) =
          λ reliable ordered.
            flush_unreliable system repr (length d.unreliable_send_queue + 1)
              (both reliable ordered) in
        let answer : Flushing SEND → InnerUdpCommunicator SEND RECV → Outcome Answer =
          λ ordered c'. done (c', record socket { os = ordered.os }) in
        let rest : Flushing SEND → Outcome Answer = λ reliable.
          packed true socket.max_reliable_ordered_retries (second reliable) >>= λ ordered.
          all reliable ordered >>= answer ordered in
        Returns-bind (λ r. Unit {0}) Same (packed false socket.max_reliable_unordered_retries first)
          rest (λ r e. tt)
          (λ reliable u.
            Returns-bind (λ o. Unit {0}) Same
              (packed true socket.max_reliable_ordered_retries (second reliable))
              (λ ordered. all reliable ordered >>= answer ordered) (λ o e. tt)
              (λ ordered v.
                Returns-bind (SameReception c) Same (all reliable ordered) (answer ordered)
                  (flush_unreliable_untouched (length d.unreliable_send_queue + 1)
                    (both reliable ordered) h)
                  (λ c' k. returns Same (c', record socket { os = ordered.os }) k)))

    module _ (checksum : List ℕ → ℕ) (packet_repr : ByteRepr (Packet SEND)) (addr : SendAddr) where
      abbrev SameSecond :
          Result (Unit {0}) × InnerUdpCommunicator SEND RECV × UdpCommunicatorSocket → Type 0
      SameSecond next = SameReception c next.1

      answer_untouched :
          (result : Result Bool) (d : InnerUdpCommunicator SEND RECV)
          (socket : UdpCommunicatorSocket) (os : Os) (time : ℕ)
          → SameReception c d
          → Returns SameSecond (elim result [
            | err e ↦ done (err e, d, socket)
            | panic ↦ panicked
            | ok sent ↦
                if sent
                then done (ok tt, record d { last_send = time }, record socket { os = os })
                else done (ok tt, d, socket)
          ])
      answer_untouched (err e) d socket os time h = returns SameSecond (err e, d, socket) h
      answer_untouched panic d socket os time h = λ b e. no_value panicked b refl e
      answer_untouched (ok sent) d socket os time h =
          if_lem (Returns SameSecond) sent _ _
            (returns SameSecond (ok tt, record d { last_send = time }, record socket { os = os }) h)
            (returns SameSecond (ok tt, d, socket) h)

      send_rest_untouched :
          (d : InnerUdpCommunicator SEND RECV) (sending : Sending)
          → SameReception c d
          → Returns SameSecond (send_rest system checksum repr packet_repr addr d sending)
      unfolding send_rest
      send_rest_untouched d none h = λ b e. no_value panicked b refl e
      send_rest_untouched d (some (socket, any_send)) h =
          answer_untouched
            (send_unreliable system checksum packet_repr addr d.unreliable_send_packets socket
              any_send).0
            _ _ _ _ h

      send_packets_untouched :
          (socket : UdpCommunicatorSocket) (d : InnerUdpCommunicator SEND RECV)
          → SameReception c d
          → Returns SameSecond (send_packets system checksum repr packet_repr addr socket d)
      unfolding send_packets
      send_packets_untouched socket d h = send_rest_untouched _ _ h

  -- Whatever `send` returns.
  pub send_untouched :
      (system : System) (checksum : List ℕ → ℕ) (repr : ByteRepr SEND)
      (packet_repr : ByteRepr (Packet SEND)) (addr : SendAddr) (socket : UdpCommunicatorSocket)
      (c : InnerUdpCommunicator SEND RECV)
      → Returns
          (λ next. reception next.1 ≡ reception c)
          (send system checksum repr packet_repr addr socket c)
  unfolding send write_heartbeat
  send_untouched system checksum repr packet_repr addr socket c =
      let Flushed = InnerUdpCommunicator SEND RECV × UdpCommunicatorSocket in
      let beat : InnerUdpCommunicator SEND RECV =
        if needs_heartbeat system checksum repr packet_repr c then write_heartbeat c else c in
      let cleared : InnerUdpCommunicator SEND RECV = record beat {
        received_packet_duplicate = false;
      } in
      Returns-bind (λ (flushed : Flushed). SameReception c flushed.0)
        (λ next. SameReception c next.1) (flush_all system repr socket cleared)
        (λ flushed. send_packets system checksum repr packet_repr addr flushed.1 flushed.0)
        (flush_all_untouched system repr c socket cleared (
          if_lem (SameReception c) (needs_heartbeat system checksum repr packet_repr c)
            (write_heartbeat c) c refl refl))
        (λ flushed h.
          send_packets_untouched system repr c checksum packet_repr addr flushed.1 flushed.0 h)
