-- ===== src/Inner/Flush/Packed.antt =====
-- How the function `flush_messages` of mini_udp/src/communicator/inner.rs divides a queue into
-- packets: each takes all that fits it.
use mini_udp.Prelude.{
  ℕ, suc, ◌+◌, ◌-◌, ◌≤◌, ◌<◌, ◌≡◌, arith, false, List, [], ◌∷◌, ◌++◌, is_empty, take, drop, inl,
  inr, lt_or_le,
}
use mini_udp.Packet.{Packet}
use mini_udp.ByteRepr.{ByteRepr}
use mini_udp.Inner.Flush.{included}
use mini_udp.Inner.Flush.Packs.{total, messages_of}
use mini_udp.Packet.{max_packet_data_len}

module _ {M : Type 0} (repr : ByteRepr M) where
  -- The next message, if there is one, does not fit after the bytes that are used.
  unfoldable pub IsFull : ℕ → ℕ → List M → Type 0
  IsFull available used [] = Unit
  IsFull available used (m ∷ ms) = available < used + repr.byte_len m

  -- Each packet is made for messages that wait, and what follows it did not fit it.
  unfoldable pub IsPacked : List (Packet M) → List M → Type 0
  IsPacked [] left = Unit
  IsPacked (p ∷ ps) left =
      (is_empty (p.messages ++ (messages_of repr ps ++ left)) ≡ false)
      × IsFull max_packet_data_len (total repr p.messages) (messages_of repr ps ++ left)
      × IsPacked ps left

  IsFull-after :
      (b available used : ℕ) (q : List M)
      → b ≤ available
      → IsFull (available - b) used q
      → IsFull available (b + used) q
  unfolding IsFull
  IsFull-after b available used [] h f = tt
  IsFull-after b available used (m ∷ ms) h f = omega (arith, f)

  -- What the loop over the queue leaves did not fit.
  pub included-IsFull :
      (available : ℕ) (q : List M)
      → IsFull available
          (total repr (take (included repr available q) q))
          (drop (included repr available q) q)
  unfolding total
  included-IsFull available [] = unfold IsFull included in tt
  included-IsFull available (m ∷ ms) = elim (lt_or_le available (repr.byte_len m)) [
    | inl large ↦
        let none_taken : included repr available (m ∷ ms) ≡ 0 =
          unfold included in ground (arith, large) in
        rw none_taken (unfold IsFull total in omega (arith, large))
    | inr fits ↦
        let n = included repr (available - repr.byte_len m) ms in
        let one_more : included repr available (m ∷ ms) ≡ suc n =
          unfold included in ground (arith, fits) in
        rw one_more (
          IsFull-after (repr.byte_len m) available (total repr (take n ms)) (drop n ms) fits
            (included-IsFull (available - repr.byte_len m) ms))
  ]
