-- ===== src/Debug.antt =====
-- mini_udp/src/communicator/debug.rs: what the feature `debug` adds to the socket to fake an
-- unreliable network, and the buffer of the packets that it holds back.
pub mod Held
pub mod Faked
pub mod Owners
pub mod Many
use mini_udp.Prelude.{
  ℕ, ◌+◌, ◌-◌, Bool, true, false, ltb, ◌==◌, if◌then◌else◌, Option, none, some, List, [], ◌∷◌, ◌++◌,
  length, take, get_or, set,
}
use mini_udp.Socket.{Instant, SocketAddr, System, Os, UdpCommunicatorSocket, now, from_millis}

pub record DelayedPacket : Type 0 where
  pub addr : Option SocketAddr
  pub buffer : List ℕ
  pub n : ℕ
  pub due : Instant

-- The bits of an `f64`.
abbrev pub Probability : Type 0
Probability = ℕ

-- What the crate `rand` draws at the k-th time: `random_bool`, which panics (`none`) unless its
-- probability is from 0 to 1, and `random_range`, from the first to before the second number.
pub record Random : Type 0 where
  pub bool : ℕ → Probability → Option Bool
  pub range : ℕ → ℕ → ℕ → ℕ

-- The fields of the socket that the feature adds, `fake_delay` as its `first` number of
-- milliseconds and the `end` after its last, and how often random numbers were drawn.
pub record Fakes : Type 0 where
  pub drop_probability : Option Probability
  pub corruption_probability : Option Probability
  pub first : ℕ
  pub end : ℕ
  pub debug_logs : Bool
  pub delayed : List DelayedPacket
  pub draws : ℕ

-- As `bind` sets them.
unfoldable pub no_fakes : ℕ → Fakes
no_fakes draws = record {
  drop_probability = none;
  corruption_probability = none;
  first = 0;
  end = 0;
  debug_logs = false;
  delayed = [];
  draws = draws;
}

unfoldable pub with_fake_drop : Fakes → Probability → Fakes
with_fake_drop f drop_probability = record f { drop_probability = some drop_probability }

unfoldable pub with_fake_corruption : Fakes → Probability → Fakes
with_fake_corruption f corruption_probability = record f {
  corruption_probability = some corruption_probability;
}

unfoldable pub with_fake_delay : Fakes → ℕ → ℕ → Fakes
with_fake_delay f first end = record f { first = first; end = end }

unfoldable pub with_debug_logs : Fakes → Fakes
with_debug_logs f = record f { debug_logs = true }

-- `delay_packet`: whether the packet is held back.
unfoldable pub delay_packet :
    Random
    → System
    → Fakes
    → UdpCommunicatorSocket
    → Option SocketAddr
    → ℕ
    → Bool × Fakes × UdpCommunicatorSocket
delay_packet random system f s addr n =
    let delay_ms = random.range f.draws f.first f.end in
    let (time, os) = now system s.os in
    let packet : DelayedPacket = record {
      addr = addr;
      buffer = s.data_buffer;
      n = n;
      due = time + from_millis delay_ms;
    } in
    if ltb f.first f.end
    then (
      true,
      record f { delayed = f.delayed ++ (packet ∷ []); draws = f.draws + 1 },
      record s { os = os },
    )
    else (false, f, s)

-- `position(..)` from the index `i` on, which reads the clock at each packet.
unfoldable pub position_due : System → Os → List DelayedPacket → ℕ → Option ℕ × Os
position_due system os [] i = (none, os)
position_due system os (packet ∷ packets) i =
    let (time, os') = now system os in
    let rest = position_due system os' packets (i + 1) in
    if packet.due - time == 0 then (some i, os') else rest

-- `swap_remove`, at an index that the vector has: the last item takes the place.
unfoldable pub swap_remove : {A : Type 0} → A → List A → ℕ → A × List A
swap_remove d xs i =
    let last = length xs - 1 in (get_or xs i d, take last (set xs i (get_or xs last d)))

unfoldable pub read_delayed :
    System
    → Fakes
    → UdpCommunicatorSocket
    → Option (ℕ × Option SocketAddr) × Fakes × UdpCommunicatorSocket
unfolding position_due swap_remove
read_delayed system f s =
    let none_here : DelayedPacket = record { addr = none; buffer = []; n = 0; due = 0 } in
    let (found, os) = position_due system s.os f.delayed 0 in
    elim found [
      | none ↦ (none, f, record s { os = os })
      | some i ↦
          let (packet, left) = swap_remove none_here f.delayed i in
          (
            some (packet.n, packet.addr),
            record f { delayed = left },
            record s { os = os; data_buffer = packet.buffer },
          )
    ]
