-- ===== src/Browsing/AnswerLaws.antt =====
-- `createPacket` and `extractServers` of BroadcastUtils.java together: what a query finds.
use my_stest.Base.{
  ℕ, ◌+◌, ◌*◌, ◌/◌, ◌%◌, ◌^◌, ◌≤◌, ◌<◌, ℤ, pos, negsuc, ◌≡◌, ◌≢◌, refl, Bool, true, false,
  Bool-cases, inl, inr, ltb, ◌==◌, if◌then◌else◌, some, Text, List, [], ◌∷◌, ◌++◌, length, take,
  arith,
}
use my_stest.Browsing.Packets.{get_char, to_char}
use my_stest.Browsing.Queries.{create_packet}
use my_stest.Browsing.QueryLaws.{question, create_packet_lem}
use my_stest.Browsing.Responses.{
  extract_rest, read_servers, same_id, servers, negative_response, extract_servers,
}
use my_stest.Browsing.Exactness.{Reads, >>=-Reads, get_char-Reads}
use my_stest.Browsing.Answers.{
  Answer, HasHead, head_bytes, type_bytes, IsPositiveAnswer, packet_bytes, answer_bytes,
  counted_bytes, file_servers,
}
use my_stest.Browsing.ParseLaws.{
  extract_rest-throws, extract_rest-Reads, extract_rest-Reads_negative,
}

abbrev pub is_char : ℤ → Bool
is_char (pos n) = ltb n (2 ^ 16)
is_char (negsuc n) = false

-- What the parser of the rest reads, `extractServers` finds in a packet of the transaction.
read_servers-Reads :
    (t : ℕ) (v : Text) (found : List Text)
    → Reads extract_rest v found
    → Reads (read_servers (pos t)) (packet_bytes t v) found
unfolding read_servers
read_servers-Reads t v found rest =
    >>=-Reads _ _ ((t / 256) ∷ (t % 256) ∷ []) v _ _ (get_char-Reads (t / 256) (t % 256))
      (let same : (t / 256 * 256 + t % 256) == t ≡ true = ground arith in rw same rest)

module _ (t : ℕ) (v : Text) (found : List Text) (reads : Reads extract_rest v found) where
  found_whole : (rest : Text) → extract_servers (packet_bytes t v ++ rest) (pos t) ≡ servers found
  unfolding extract_servers
  found_whole rest = rw ((read_servers-Reads t v found reads).whole rest, extract_servers)

  found_behind :
      (w rest : Text)
      → w ≡ (t / 256) ∷ (t % 256) ∷ []
      → extract_servers (w ++ v ++ rest) (pos t) ≡ servers found
  found_behind w rest e = rw e (found_whole rest)

  found_cut :
      (k : ℕ)
      → k < length (packet_bytes t v)
      → extract_servers (take k (packet_bytes t v)) (pos t) ≡ servers []
  unfolding extract_servers
  found_cut k h = rw ((read_servers-Reads t v found reads).cut k h, extract_servers)

-- A packet of another transaction.
other_transaction :
    (b c : ℕ) (v : Text) (x : ℤ)
    → same_id (b * 256 + c) x ≡ false
    → extract_servers (b ∷ c ∷ v) x ≡ servers []
unfolding extract_servers read_servers get_char
other_transaction b c v x h = rw (h, extract_servers)

-- The id that `createPacket` puts into a packet.
abbrev id_bytes : ℕ → Text
id_bytes c = (c / 256 % 256) ∷ (c % 256) ∷ []

take_id :
    (x : ℤ) (query : Text) → create_packet x ≡ some query → take 2 query ≡ id_bytes (to_char x)
take_id x query made = let e : query ≡ question (to_char x) = cc (create_packet_lem x).0 in rw e

id_bytes_lem : (t : ℕ) → t < 2 ^ 16 → id_bytes (to_char (pos t)) ≡ (t / 256) ∷ (t % 256) ∷ []
unfolding to_char
id_bytes_lem t h =
    let whole : t % 2 ^ 32 % 2 ^ 16 ≡ t = omega arith in
    let high : t / 256 % 256 ≡ t / 256 = omega arith in rw (whole, high)

other_id :
    (x : ℤ) → is_char x ≡ false → same_id (to_char x / 256 % 256 * 256 + to_char x % 256) x ≡ false
unfolding to_char
other_id (pos t) h = ground arith
other_id (negsuc n) h = refl

-- Whatever bytes follow the answer.
pub extract_servers-answer :
    (t : ℕ) (a : Answer) (rest : Text)
    → IsPositiveAnswer a
    → length a.names < 128
    → extract_servers (packet_bytes t (answer_bytes a) ++ rest) (pos t)
      ≡ servers (file_servers a.names)
extract_servers-answer t a rest p few =
    found_whole t (answer_bytes a) (file_servers a.names) (extract_rest-Reads a p few) rest

-- Of a type that is not known.
pub extract_servers-negative_response :
    (t : ℕ) (a : Answer) (rest : Text)
    → HasHead a
    → a.type_low ≢ 0x20
    → a.type_low ≢ 0x21
    → extract_servers (packet_bytes t (head_bytes a ++ (type_bytes a ++ rest))) (pos t)
      ≡ negative_response
unfolding extract_servers read_servers get_char
extract_servers-negative_response t a rest p no32 no33 =
    let same : (t / 256 * 256 + t % 256) == t ≡ true = ground arith in
    rw (same, extract_servers) (rw (extract_rest-throws a p rest no32 no33))

-- An answer to a query that `createPacket` made for an id, whatever bytes follow it: if it is positive
-- and has fewer than 128 entries with names of up to 15 printable characters, then `extractServers`
-- returns for an id of 16 bits the names of its file servers, in their order, and for any other id,
-- which the packet holds cut to 16 bits, none.
pub extract_servers-create_packet :
    (x : ℤ) (query : Text) (a : Answer) (rest : Text)
    → create_packet x ≡ some query
    → IsPositiveAnswer a
    → length a.names < 128
    → extract_servers (take 2 query ++ answer_bytes a ++ rest) x
      ≡ servers (if is_char x then file_servers a.names else [])
extract_servers-create_packet x query a rest made p few = rw (take_id x query made) (by_id x)
  where
    by_id :
        (y : ℤ)
        → extract_servers (id_bytes (to_char y) ++ answer_bytes a ++ rest) y
          ≡ servers (if is_char y then file_servers a.names else [])
    by_id (negsuc n) = other_transaction _ _ _ (negsuc n) refl
    by_id (pos t) = elim (Bool-cases (ltb t (2 ^ 16))) [
      | inl e ↦ rw e (
          found_behind t (answer_bytes a) (file_servers a.names) (extract_rest-Reads a p few) _ rest
            (id_bytes_lem t (ground arith)))
      | inr e ↦ rw e (other_transaction _ _ _ (pos t) (other_id (pos t) e))
    ]

-- A positive answer with fewer than 128 entries of which the end is lost: wherever it is cut off,
-- `extractServers` returns no server of it, not even those whose entries are whole.
pub extract_servers-take :
    (t : ℕ) (a : Answer) (k : ℕ)
    → IsPositiveAnswer a
    → length a.names < 128
    → k < length (packet_bytes t (answer_bytes a))
    → extract_servers (take k (packet_bytes t (answer_bytes a))) (pos t) ≡ servers []
extract_servers-take t a k p few short =
    found_cut t (answer_bytes a) (file_servers a.names) (extract_rest-Reads a p few) k short

-- A positive answer with a count of entries from 128 on, whatever entries follow: `extractServers`
-- reads the count as a negative number and returns no server.
pub extract_servers-negative :
    (t : ℕ) (a : Answer) (count : ℕ) (rest : Text)
    → IsPositiveAnswer a
    → 128 ≤ count
    → extract_servers (packet_bytes t (counted_bytes a count []) ++ rest) (pos t) ≡ servers []
extract_servers-negative t a count rest p many =
    found_whole t (counted_bytes a count []) [] (extract_rest-Reads_negative a count p many) rest
