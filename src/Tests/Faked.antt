-- ===== src/Tests/Faked.antt =====
-- Runs of `receive` and `recv` with the feature `debug`.
use mini_udp.Prelude.{ℕ, ◌+◌, ◌≡◌, ◌≢◌, true, some, []}
use mini_udp.Outcome.{done, out_of_fuel, ◌>>=◌}
use mini_udp.Inner.Receive
use mini_udp.Multi.Events
use mini_udp.Multi.Events.{OnReceiveCallback}
use mini_udp.Debug.{Random, Fakes}
use mini_udp.Debug.Faked.{receive}
use mini_udp.Debug.Faked.Unfaked.{as_bound, receive_unfaked}
use mini_udp.Debug.Faked.Ends.{receive_ends}
use mini_udp.Debug.Many.{recv}
use mini_udp.Debug.Many.Unfaked.{as_bound_multi, recv_unfaked}
use mini_udp.Tests.Connections.{clock_system, sized, idle, zero_checksum, letter_repr}
use mini_udp.Tests.Sockets.{busy, pair}

-- Every chance is taken, and every number the smallest.
abbrev unlucky : Random
unlucky = record { bool = λ k p. some true; range = λ k first end. first }

-- Packets are corrupted, dropped and held back.
abbrev all_fakes : Fakes
all_fakes = record {
  drop_probability = some 9;
  corruption_probability = some 9;
  first = 2;
  end = 5;
  debug_logs = true;
  delayed = [];
  draws = 0;
}

-- Counts the packets.
abbrev pub counting : OnReceiveCallback ℕ ℕ
counting = record {
  Self = ℕ;
  State = Unit;
  prepare = λ self. (tt, self);
  on_recv = λ lent env. (lent.inner, env.0 + 1, env.1);
  finish = λ self state m. m;
}

receive_unfaked_example :
    receive unlucky clock_system zero_checksum letter_repr (idle, busy, as_bound 3 true) ≡ (
      Receive.receive true clock_system zero_checksum letter_repr busy idle >>= λ next.
      done (next.0, next.1, as_bound 3 true))
receive_unfaked_example =
    receive_unfaked unlucky clock_system zero_checksum letter_repr 3 true idle busy

receive_ends_example :
    receive unlucky clock_system zero_checksum letter_repr (idle, busy, all_fakes) ≢ out_of_fuel
receive_ends_example =
    receive_ends unlucky clock_system zero_checksum letter_repr idle busy all_fakes

recv_unfaked_example :
    recv unlucky clock_system zero_checksum letter_repr counting (as_bound_multi 3 true pair) 0 ≡ (
      Events.recv true clock_system zero_checksum sized letter_repr letter_repr counting pair 0
      >>= λ next. done (as_bound_multi 3 true next.0, next.1))
recv_unfaked_example =
    recv_unfaked unlucky clock_system zero_checksum sized letter_repr letter_repr 3 true counting
      pair 0
