-- ===== src/Debug/Owners.antt =====
-- mini_udp/src/communicator/debug.rs: the trait `MiniUdpDebugExt` on the communicators, whose
-- sockets have the fields of the feature `debug`.
use mini_udp.Prelude.{ℕ}
use mini_udp.Communicator
use mini_udp.Multi
use mini_udp.Debug
use mini_udp.Debug.{Probability, Fakes}

-- A communicator, and the fields that the feature adds to its socket.
pub record UdpCommunicator (SEND RECV : Type 0) : Type 0 where
  pub plain : Communicator.UdpCommunicator SEND RECV
  pub fakes : Fakes

pub record MultiUdpCommunicator (SEND RECV : Type 0) : Type 0 where
  pub multi : Multi.MultiUdpCommunicator SEND RECV
  pub fakes : Fakes

module _ {SEND RECV : Type 0} where
  unfoldable pub with_fake_drop :
      UdpCommunicator SEND RECV → Probability → UdpCommunicator SEND RECV
  with_fake_drop c drop_probability = record c {
    fakes = Debug.with_fake_drop c.fakes drop_probability;
  }

  unfoldable pub with_fake_corruption :
      UdpCommunicator SEND RECV → Probability → UdpCommunicator SEND RECV
  with_fake_corruption c corruption_probability = record c {
    fakes = Debug.with_fake_corruption c.fakes corruption_probability;
  }

  unfoldable pub with_fake_delay : UdpCommunicator SEND RECV → ℕ → ℕ → UdpCommunicator SEND RECV
  with_fake_delay c first end = record c { fakes = Debug.with_fake_delay c.fakes first end }

  unfoldable pub with_debug_logs : UdpCommunicator SEND RECV → UdpCommunicator SEND RECV
  with_debug_logs c = record c { fakes = Debug.with_debug_logs c.fakes }

  unfoldable pub multi_with_fake_drop :
      MultiUdpCommunicator SEND RECV → Probability → MultiUdpCommunicator SEND RECV
  multi_with_fake_drop m drop_probability = record m {
    fakes = Debug.with_fake_drop m.fakes drop_probability;
  }

  unfoldable pub multi_with_fake_corruption :
      MultiUdpCommunicator SEND RECV → Probability → MultiUdpCommunicator SEND RECV
  multi_with_fake_corruption m corruption_probability = record m {
    fakes = Debug.with_fake_corruption m.fakes corruption_probability;
  }

  unfoldable pub multi_with_fake_delay :
      MultiUdpCommunicator SEND RECV → ℕ → ℕ → MultiUdpCommunicator SEND RECV
  multi_with_fake_delay m first end = record m { fakes = Debug.with_fake_delay m.fakes first end }

  unfoldable pub multi_with_debug_logs :
      MultiUdpCommunicator SEND RECV → MultiUdpCommunicator SEND RECV
  multi_with_debug_logs m = record m { fakes = Debug.with_debug_logs m.fakes }
