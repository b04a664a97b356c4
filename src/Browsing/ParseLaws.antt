-- ===== src/Browsing/ParseLaws.antt =====
-- What `extractServers` of BroadcastUtils.java finds in a response.
use my_stest.Base.{
  ℕ, zero, suc, ◌+◌, ◌-◌, ◌*◌, ◌≤◌, ◌<◌, pos, ◌≡◌, refl, sym, ◌∙◌, true, false, ◌⊎◌, ◌≢◌,
  Bool-cases, inl, inr, ltb, ◌==◌, ◌||◌, if◌then◌else◌, Text, List, [], ◌∷◌, ◌++◌, append_assoc,
  append-nil, length, length-append, drop, arith,
}
use my_stest.Provider.Slices.{length-drop}
use my_stest.Browsing.Packets.{browsing_exception, pure, throw, signed_byte}
use my_stest.Browsing.Responses.{
  entries, rounds, read_name_length, read_node_status, read_list, extract_rest,
  file_server_node_type,
}
use my_stest.Browsing.Exactness.{
  Reads, >>=-parsed, pure-Reads, >>=-Reads, get_byte-Reads, get_char-Reads, get_bytes-Reads,
  skip_bytes-Reads, skip_more-Reads, skip_all-Reads,
}
use my_stest.Browsing.Names.{spaces, trim-padded}
use my_stest.Browsing.Answers.{
  Entry, entry_name, list_bytes, Answer, head_bytes, type_bytes, counted_bytes, answer_bytes,
  HasHead, file_servers, AreNames, IsPositiveAnswer,
}

length-spaces : (n : ℕ) → length (spaces n) ≡ n
length-spaces zero = refl
length-spaces (suc n) = omega (arith, length-spaces n)

length-entry_name : (e : Entry) → length e.name ≤ 15 → length (entry_name e) ≡ 15
length-entry_name e h =
    length-append e.name (spaces (15 - length e.name))
    ∙ omega (arith, length-spaces (15 - length e.name))

-- The rounds behind an entry, whose name is listed if its node serves files.
more_entries-Reads :
    (e : Entry) (es : List Entry) (found : List Text)
    → ((found' : List Text)
        → Reads (entries (length es) found') (list_bytes es) (found' ++ file_servers es))
    → Reads
        (entries
          (length es)
          (if e.kind == file_server_node_type then found ++ e.name ∷ [] else found))
        (list_bytes es)
        (found ++ file_servers (e ∷ es))
more_entries-Reads e es found more = elim (Bool-cases (e.kind == 32)) [
  | inl t ↦ rw t (rw (sym (append_assoc found (e.name ∷ []) (file_servers es))) (more _))
  | inr f ↦ rw f (more found)
]

entries-Reads :
    (es : List Entry) (found : List Text)
    → AreNames es
    → Reads (entries (length es) found) (list_bytes es) (found ++ file_servers es)
unfolding entries
entries-Reads [] found h = rw append-nil (pure-Reads found)
entries-Reads (e ∷ es) found (name, size, h) = rw append_assoc (
    >>=-Reads _ _ (entry_name e) _ _ _
      (get_bytes-Reads 15 (entry_name e) (length-entry_name e size))
      (>>=-Reads _ _ (e.kind ∷ []) _ _ _ (get_byte-Reads e.kind) (
        >>=-Reads _ _ (e.flag_high ∷ e.flag_low ∷ []) _ _ _
          (skip_bytes-Reads 2 (e.flag_high ∷ e.flag_low ∷ []) refl)
          (rw (trim-padded e.name (15 - length e.name) name)
            (more_entries-Reads e es found λ found'. entries-Reads es found' h)))))

signed_byte_lem : (b : ℕ) → b < 128 → signed_byte b ≡ pos b
unfolding signed_byte
signed_byte_lem b h = let e : ltb b 128 ≡ true = ground arith in rw e

status-Reads :
    (t : ℕ)
    → (t ≡ 0x20) ⊎ (t ≡ 0x21)
    → Reads (if (0 * 256 + t == 0x20) || (0 * 256 + t == 0x21) then pure tt else throw) [] tt
status-Reads t (inl e) = rw e (pure-Reads tt)
status-Reads t (inr e) = rw e (pure-Reads tt)

module _ (a : Answer) (p : HasHead a) where
  read_name_length-Reads : Reads read_name_length (head_bytes a) (length a.asked)
  unfolding read_name_length
  read_name_length-Reads =
      let h = a.header in
      let t = p.header_size in
      let l2 = length-drop 2 h in
      let l4 = length-drop 2 (drop 2 h) in
      let l6 = length-drop 2 (drop 2 (drop 2 h)) in
      let l8 = length-drop 2 (drop 2 (drop 2 (drop 2 h))) in
      skip_more-Reads _ 2 h _ _ (omega arith) (
        skip_more-Reads _ 2 (drop 2 h) _ _ (omega arith) (
          skip_more-Reads _ 2 (drop 2 (drop 2 h)) _ _ (omega arith) (
            skip_more-Reads _ 2 (drop 2 (drop 2 (drop 2 h))) _ _ (omega arith) (
              skip_all-Reads _ 2 (drop 2 (drop 2 (drop 2 (drop 2 h)))) _ _ (omega arith)
                (get_byte-Reads (length a.asked))))))

  read_node_status-Reads :
      Reads (read_node_status (length a.asked)) (type_bytes a) (0 * 256 + a.type_low)
  unfolding read_node_status
  read_node_status-Reads = rw (signed_byte_lem (length a.asked) p.asked_size) (
      skip_all-Reads _ (length a.asked) a.asked _ _ refl
        (skip_all-Reads _ 1 (a.null ∷ []) _ _ refl (get_char-Reads 0 a.type_low)))

  -- Another type ends the parser.
  pub extract_rest-throws :
      (rest : Text)
      → a.type_low ≢ 0x20
      → a.type_low ≢ 0x21
      → extract_rest (head_bytes a ++ (type_bytes a ++ rest)) ≡ browsing_exception
  unfolding extract_rest
  extract_rest-throws rest no32 no33 =
      let e : (0 * 256 + a.type_low == 0x20) ≡ false = ground arith in
      let f : (0 * 256 + a.type_low == 0x21) ≡ false = ground arith in
      >>=-parsed _ _ (head_bytes a) _ _ _ read_name_length-Reads
        (>>=-parsed _ _ (type_bytes a) _ _ _ read_node_status-Reads (rw (e, f)))

-- The list of entries, up to the count and then as many as the count says, which is a signed byte.
read_list-Reads :
    (fields : Text) (count : ℕ) (v : Text) (found : List Text)
    → length fields ≡ 8
    → Reads (entries (rounds (signed_byte count)) []) v found
    → Reads read_list (fields ++ count ∷ v) found
unfolding read_list
read_list-Reads f count v found size more =
    let l2 = length-drop 2 f in
    let l6 = length-drop 4 (drop 2 f) in
    skip_more-Reads _ 2 f _ _ (omega arith) (
      skip_more-Reads _ 4 (drop 2 f) _ _ (omega arith) (
        skip_all-Reads _ 2 (drop 4 (drop 2 f)) _ _ (omega arith)
          (>>=-Reads _ _ (count ∷ []) _ _ _ (get_byte-Reads count) more)))

extract_rest-Reads_count :
    (a : Answer) (count : ℕ) (v : Text) (found : List Text)
    → IsPositiveAnswer a
    → Reads (entries (rounds (signed_byte count)) []) v found
    → Reads extract_rest (counted_bytes a count v) found
unfolding extract_rest
extract_rest-Reads_count a count v found p more =
    >>=-Reads _ _ (head_bytes a) _ _ _ (read_name_length-Reads a p.head) (
      >>=-Reads _ _ (type_bytes a) _ _ _ (read_node_status-Reads a p.head) (
        >>=-Reads _ _ [] _ _ _ (status-Reads a.type_low p.type_known)
          (read_list-Reads a.fields count v found p.fields_size more)))

pub extract_rest-Reads :
    (a : Answer)
    → IsPositiveAnswer a
    → length a.names < 128
    → Reads extract_rest (answer_bytes a) (file_servers a.names)
extract_rest-Reads a p few =
    extract_rest-Reads_count a (length a.names) (list_bytes a.names) _ p
      (rw (signed_byte_lem (length a.names) few) (entries-Reads a.names [] p.are_names))

-- A count with the high bit set is negative.
pub extract_rest-Reads_negative :
    (a : Answer) (count : ℕ)
    → IsPositiveAnswer a
    → 128 ≤ count
    → Reads extract_rest (counted_bytes a count []) []
unfolding signed_byte entries
extract_rest-Reads_negative a count p many =
    let e : ltb count 128 ≡ false = ground arith in
    extract_rest-Reads_count a count [] [] p (rw (e, signed_byte) (pure-Reads []))
