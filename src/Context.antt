-- ===== src/Context.antt =====
-- mini_udp/src/context.rs: the types and the version that a communicator is built for.
use mini_udp.Prelude.{ℕ}
use mini_udp.ByteRepr.{ByteRepr}

-- The bounds `ByteRepr` of the two types are fields.
pub record MiniUdpContext : Type 1 where
  pub SEND : Type 0
  pub RECV : Type 0
  pub send_repr : ByteRepr SEND
  pub recv_repr : ByteRepr RECV
  pub protocol_version : ℕ

-- `UdpContext<SEND, RECV, PROTOCOL_VERSION>`
unfoldable pub udp_context : {S R : Type 0} → ByteRepr S → ByteRepr R → ℕ → MiniUdpContext
udp_context {S} {R} send_repr recv_repr version = record {
  SEND = S;
  RECV = R;
  send_repr = send_repr;
  recv_repr = recv_repr;
  protocol_version = version;
}

-- `UdpContext::REVERSE`, the context of the peer.
unfoldable pub reverse : MiniUdpContext → MiniUdpContext
unfolding udp_context
reverse ctx = udp_context ctx.recv_repr ctx.send_repr ctx.protocol_version
