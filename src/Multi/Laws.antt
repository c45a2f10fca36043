-- ===== src/Multi/Laws.antt =====
-- What the operations on the connections of a `MultiUdpCommunicator` do to each of them.
use mini_udp.Prelude.{
  ℕ, ◌≡◌, refl, ◌==◌, if◌then◌else◌, Option, none, some, List, [], ◌∷◌, ◌∙◌, eq_or_ne, eq→==, ne→==,
  inl, inr,
}
use mini_udp.Socket.{SocketAddr, System}
use mini_udp.Inner
use mini_udp.Inner.{InnerUdpCommunicator}
use mini_udp.Communicator.{UdpCommunicatorMut, write_reliable}
use mini_udp.Multi.{MultiUdpCommunicator, broadcast_except}
use mini_udp.Multi.Map.{lookup, for_each_in}

abbrev pub map_at : {V : Type 0} → (V → V) → Option V → Option V
map_at f none = none
map_at f (some v) = some (f v)

map_at-same : {V : Type 0} (o : Option V) → map_at (λ v. v) o ≡ o
map_at-same none = refl
map_at-same (some v) = refl

lookup-for_each_in :
    {V : Type 0} (es : List (ℕ × V)) (f : ℕ → V → V) (j : ℕ)
    → lookup (for_each_in es f) j ≡ map_at (f j) (lookup es j)
unfolding lookup for_each_in
lookup-for_each_in [] f j = refl
lookup-for_each_in ((k, v) ∷ es) f j = elim (eq_or_ne k j) [
  | inl e ↦ rw (e, eq→== j j refl) refl
  | inr ne ↦ rw (ne→== k j ne) (lookup-for_each_in es f j)
]

module _ {SEND RECV : Type 0} where
  -- `broadcast_except` queues its message, reliably, on each connection but the exception's,
  -- which it leaves as it was.
  pub broadcast_except_lem :
      (m : MultiUdpCommunicator SEND RECV) (message : SEND) (exception addr : SocketAddr)
      → lookup (broadcast_except m message exception).coms addr ≡ (
          if addr == exception
          then lookup m.coms addr
          else map_at (λ inner. write_reliable inner message) (lookup m.coms addr))
  unfolding broadcast_except
  broadcast_except_lem m message exception addr =
      lookup-for_each_in m.coms _ addr ∙ elim (eq_or_ne addr exception) [
        | inl e ↦ rw (eq→== addr exception e) (map_at-same (lookup m.coms addr))
        | inr ne ↦ rw (ne→== addr exception ne) refl
      ]

  abbrev pub lent :
      SocketAddr → Option (InnerUdpCommunicator SEND RECV) → Option (UdpCommunicatorMut SEND RECV)
  lent addr none = none
  lent addr (some inner) = some (record { addr = addr; inner = inner })

  -- The connection that a look-up finds, or else a new one.
  abbrev pub lent_or_new :
      System
      → MultiUdpCommunicator SEND RECV
      → SocketAddr
      → Option (UdpCommunicatorMut SEND RECV)
      → UdpCommunicatorMut SEND RECV
  lent_or_new system m addr none = record {
    addr = addr;
    inner = (Inner.default system m.socket.os).0;
  }
  lent_or_new system m addr (some peer) = peer
