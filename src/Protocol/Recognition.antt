-- ===== src/Protocol/Recognition.antt =====
-- Which messages are recognised by their magic.
use fastvid.Common.{◌≡◌, ◌↔◌, refl, true, arith}
use fastvid.Protocol.{
  Magic, message_magic, MessageHeader, fill_message_magic, has_valid_message_magic,
}

magic-eq : (a b : Magic) → a.c0 ≡ b.c0 → a.c1 ≡ b.c1 → a.c2 ≡ b.c2 → a.c3 ≡ b.c3 → a ≡ b
magic-eq a b e0 e1 e2 e3 = λ i. record { c0 = e0 i; c1 = e1 i; c2 = e2 i; c3 = e3 i }

has_valid-bytes :
    (h : MessageHeader)
    → has_valid_message_magic h ≡ true
    → (h.head_id.c0 ≡ b'C') × (h.head_id.c1 ≡ b'C') × (h.head_id.c2 ≡ b'T') × (h.head_id.c3 ≡ b'C')
unfolding has_valid_message_magic
has_valid-bytes h valid = ground arith

-- A header counts as one of this protocol exactly if its first four bytes are those that
-- `FillMessageMagic` writes, whatever was in them before, and whatever else it holds.
pub has_valid_message_magic_lem :
    (h : MessageHeader) (buffer : Magic)
    → has_valid_message_magic h ≡ true ↔ h.head_id ≡ fill_message_magic buffer
unfolding fill_message_magic has_valid_message_magic
has_valid_message_magic_lem h buffer = (
  (λ valid.
      let (e0, e1, e2, e3) = has_valid-bytes h valid in
      magic-eq h.head_id message_magic e0 e1 e2 e3),
  (λ e. rw e refl),
)
