-- ===== src/Browsing/QueryLaws.antt =====
-- The layout of the query of BroadcastUtils.java.
use my_stest.Base.{ℕ, ◌+◌, ◌/◌, ◌%◌, ℤ, ◌≡◌, refl, some, Text, [], ◌∷◌, ◌++◌, length}
use my_stest.Browsing.Packets.{to_char, zeros}
use my_stest.Browsing.Queries.{create_packet}

-- Numbers of 16 bits, the more significant byte first.
abbrev pub chars : Text → Text
chars [] = []
chars (c ∷ cs) = (c / 256 % 256) ∷ (c % 256) ∷ chars cs

-- The first-level encoding of names: each half of a byte as a letter from A on.
abbrev pub first_level : Text → Text
first_level [] = []
first_level (b ∷ bs) = (0x41 + b / 16) ∷ (0x41 + b % 16) ∷ first_level bs

-- A question for the node status of the name `*`, in a packet with one question.
abbrev pub question : ℕ → Text
question id =
    chars (id ∷ 0x0010 ∷ 1 ∷ 0 ∷ 0 ∷ 0 ∷ [])
    ++ 32 ∷ (first_level (0x2a ∷ zeros 15) ++ 0 ∷ chars (0x21 ∷ 1 ∷ []))

-- For every id, `createPacket` does not overflow its buffer and fills it: the packet is the encoded
-- question with the low 16 bits of the id, and has 50 bytes.
pub create_packet_lem :
    (x : ℤ) → (create_packet x ≡ some (question (to_char x))) × (length (question (to_char x)) ≡ 50)
unfolding create_packet
create_packet_lem x = (refl, refl)
