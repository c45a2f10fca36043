-- ===== src/Packet/Codec.antt =====
-- mini_udp/src/packet.rs and mini_udp/src/packet_ack.rs: the instances that `Packet` and
-- `PacketAck` derive.
use mini_udp.Prelude.{ℕ, ◌^◌, ◌<◌, ◌≡◌, refl, ap, List, [], ◌∷◌, length, All}
use mini_udp.ByteRepr.{ByteRepr, ok, ◌>>=◌}
use mini_udp.Packet.{Packet, PacketAck}
use mini_udp.Derive.Value.{Value, u16, u32, bool, number, vec, delegated, vec_max}
use mini_udp.Derive.Fields.{Els, impl_for_struct}
use mini_udp.Derive.Codec.{IsCodec}
use mini_udp.Derive.Codec.Structs.{GoodAll, ValidAll}
use mini_udp.Derive.Codec.Enums.{impl_for_struct-IsCodec}

-- A struct with named fields is the tuple of their values.
unfoldable pub renamed : {A B : Type 0} → (A → B) → (B → A) → ByteRepr A → ByteRepr B
renamed make fields repr = record {
  min_byte_len = repr.min_byte_len;
  max_byte_len = repr.max_byte_len;
  byte_len = λ b. repr.byte_len (fields b);
  write_to_bytes = λ b bytes. repr.write_to_bytes (fields b) bytes;
  from_bytes = λ bytes. repr.from_bytes bytes >>= λ a. ok (make a);
}

renamed-IsCodec :
    {A B : Type 0} (make : A → B) (fields : B → A) (repr : ByteRepr A) (Ok : A → Type 0)
    → ((b : B) → make (fields b) ≡ b)
    → IsCodec repr Ok
    → IsCodec (renamed make fields repr) (λ b. Ok (fields b))
unfolding renamed
renamed-IsCodec make fields repr Ok inverse codec = record {
  code = λ b. codec.code (fields b);
  code_len = λ b valid. codec.code_len (fields b) valid;
  min_len = λ b valid. codec.min_len (fields b) valid;
  write = λ b bytes valid h. codec.write (fields b) bytes valid h;
  read = λ b bytes valid a. rw (codec.read (fields b) bytes valid a) (ap ok (inverse b));
}

weaken-IsCodec :
    {M : Type 0} (repr : ByteRepr M) (Ok Ok' : M → Type 0)
    → ((m : M) → Ok m → Ok' m)
    → IsCodec repr Ok'
    → IsCodec repr Ok
weaken-IsCodec repr Ok Ok' to codec = record {
  code = codec.code;
  code_len = λ m v. codec.code_len m (to m v);
  min_len = λ m v. codec.min_len m (to m v);
  write = λ m bytes v h. codec.write m bytes (to m v) h;
  read = λ m bytes v a. codec.read m bytes (to m v) a;
}

abbrev pub ack_fields : List Value
ack_fields = number u16 ∷ number u16 ∷ number u32 ∷ number u16 ∷ number u32 ∷ []

abbrev pub of_ack : PacketAck → Els ack_fields
of_ack ack = (
  ack.sequence_id,
  (
    ack.reliable_newest_received,
    (ack.reliable_ack_bits, (ack.ordered_newest_received, (ack.ordered_ack_bits, tt))),
  ),
)

module _ (lossy : List ℕ → List ℕ) where
  unfoldable pub ack_repr : ByteRepr PacketAck
  unfolding renamed
  ack_repr =
      renamed
        (λ (t : Els ack_fields). record {
          sequence_id = t.0;
          reliable_newest_received = t.1.0;
          reliable_ack_bits = t.1.1.0;
          ordered_newest_received = t.1.1.1.0;
          ordered_ack_bits = t.1.1.1.1.0;
        })
        of_ack (impl_for_struct lossy ack_fields)

  abbrev pub packet_fields : {M : Type 0} → ByteRepr M → List Value
  packet_fields {M} repr =
      delegated PacketAck ack_repr ∷ bool ∷ bool ∷ vec (delegated M repr) vec_max ∷ []

  unfoldable pub packet_repr : {M : Type 0} → ByteRepr M → ByteRepr (Packet M)
  unfolding renamed
  packet_repr {M} repr =
      renamed
        (λ (t : Els (packet_fields repr)). record {
          ack = t.0;
          reliable = t.1.0;
          ordered = t.1.1.0;
          messages = t.1.1.1.0;
        })
        (λ (p : Packet M). (p.ack, (p.reliable, (p.ordered, (p.messages, tt)))))
        (impl_for_struct lossy (packet_fields repr))

-- The fields of an acknowledgement hold what their types hold.
pub record IsAck (ack : PacketAck) : Type 0 where
  pub sequence_id_u16 : ack.sequence_id < 2 ^ 16
  pub reliable_newest_received_u16 : ack.reliable_newest_received < 2 ^ 16
  pub reliable_ack_bits_u32 : ack.reliable_ack_bits < 2 ^ 32
  pub ordered_newest_received_u16 : ack.ordered_newest_received < 2 ^ 16
  pub ordered_ack_bits_u32 : ack.ordered_ack_bits < 2 ^ 32

module _ (lossy : List ℕ → List ℕ) where
  ack_good : GoodAll ack_fields
  ack_good = (tt, (tt, (tt, (tt, (tt, tt)))))

  ack_valid : (ack : PacketAck) → IsAck ack → ValidAll lossy ack_fields ack_good (of_ack ack)
  unfolding ack_good
  ack_valid ack v = (
    v.sequence_id_u16,
    (
      v.reliable_newest_received_u16,
      (v.reliable_ack_bits_u32, (v.ordered_newest_received_u16, (v.ordered_ack_bits_u32, tt))),
    ),
  )

  pub ack_repr-IsCodec : IsCodec (ack_repr lossy) IsAck
  unfolding ack_repr
  ack_repr-IsCodec =
      weaken-IsCodec _ _ _ ack_valid
        (renamed-IsCodec _ _ _ _ (λ ack. refl) (impl_for_struct-IsCodec lossy ack_fields ack_good))

  module _ {M : Type 0} (repr : ByteRepr M) (Ok : M → Type 0) (codec : IsCodec repr Ok) where
    -- The acknowledgement is typed, there are fewer messages than a `u32` counts, and the codec of
    -- the messages is right for each.
    abbrev pub IsPacket : Packet M → Type 0
    IsPacket p = IsAck p.ack × (length p.messages < 2 ^ 32) × All Ok p.messages

    packet_good : GoodAll (packet_fields lossy repr)
    packet_good = (
      record { Ok = IsAck; codec = ack_repr-IsCodec },
      (tt, (tt, (record { Ok = Ok; codec = codec }, tt))),
    )

    pub packet_repr-IsCodec : IsCodec (packet_repr lossy repr) IsPacket
    unfolding packet_repr packet_good
    packet_repr-IsCodec =
        weaken-IsCodec _ _ _ (λ p v. (v.0, (tt, (tt, ((v.1, v.2), tt)))))
          (renamed-IsCodec _ _ _ _ (λ p. refl)
            (impl_for_struct-IsCodec lossy (packet_fields lossy repr) packet_good))
