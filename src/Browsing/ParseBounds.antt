-- ===== src/Browsing/ParseBounds.antt =====
-- `extractServers` of BroadcastUtils.java on bytes of any kind.
use my_stest.Base.{
  ℕ, zero, suc, ◌+◌, ◌*◌, ◌≤◌, ◌<◌, ℤ, ◌≡◌, ◌⊎◌, refl, sym, ◌∙◌, Bool, true, false, Bool-cases, inl,
  inr, ltb, ◌==◌, ◌||◌, if◌then◌else◌, Text, List, [], ◌∷◌, ◌++◌, length, length-append, arith,
}
use my_stest.Browsing.Packets.{
  Parse, parsed, underflow, browsing_exception, pure, throw, signed_byte,
}
use my_stest.Browsing.Responses.{
  ascii, trim, entries, rounds, read_name_length, read_node_status, read_list, extract_rest,
  same_id, read_servers, Extracted, servers, negative_response, extract_servers,
  file_server_node_type,
}
use my_stest.Browsing.Consumption.{
  Ensures, Consumes, >>=-Consumes, Consumes-mono, Exactly, AtLeast, pure-Consumes,
  get_byte-Consumes, get_char-Consumes, get_bytes-Consumes, skip_bytes-Consumes,
  signed_skip-Consumes,
}

-- The names found, each by 18 bytes of the list.
abbrev Finds : ℕ → ℕ → ℕ → List Text → ℕ → Type 0
Finds had n bytes_before ss k =
    (length ss ≤ had + n) × (18 * length ss + bytes_before ≤ 18 * had + k)

length-listed :
    (b : Bool) (found : List Text) (s : Text)
    → length (if b then found ++ s ∷ [] else found) ≤ length found + 1
length-listed true found s = omega (arith, length-append found (s ∷ []))
length-listed false found s = omega arith

entries-Consumes :
    (n : ℕ) (found : List Text) → Consumes (entries n found) (Finds (length found) n 0)
unfolding entries
entries-Consumes zero found = record { each = λ u. (0, omega arith, (omega arith, omega arith)) }
entries-Consumes (suc n) found =
    >>=-Consumes (Exactly 15) (Finds (length found) (suc n) 0) _ _ (get_bytes-Consumes 15)
      λ name k1 h1. >>=-Consumes (Exactly 1) _ _ _ get_byte-Consumes λ type k2 h2.
        >>=-Consumes (Exactly 2) _ _ _ (skip_bytes-Consumes 2) λ _ k3 h3.
          let b = type == file_server_node_type in
          let s = trim (ascii name) in
          let more = length-listed b found s in
          let rest = if b then found ++ s ∷ [] else found in
          Consumes-mono (Finds (length rest) n 0) _ (entries n rest) (entries-Consumes n rest)
            λ ss k (few, sized). (omega arith, omega arith)

rounds-lt : (b : ℕ) → rounds (signed_byte b) < 128
unfolding signed_byte
rounds-lt b = elim (Bool-cases (ltb b 128)) [
  | inl e ↦ rw e (ground arith)
  | inr e ↦ rw e (omega arith)
]

read_list-Consumes : Consumes read_list (Finds 0 127 9)
unfolding read_list
read_list-Consumes = >>=-Consumes (Exactly 2) (Finds 0 127 9) _ _ (skip_bytes-Consumes 2) λ _ k1 h1.
    >>=-Consumes (Exactly 4) _ _ _ (skip_bytes-Consumes 4) λ _ k2 h2.
      >>=-Consumes (Exactly 2) _ _ _ (skip_bytes-Consumes 2) λ _ k3 h3.
        >>=-Consumes (Exactly 1) _ _ _ get_byte-Consumes λ count k4 h4.
          let few = rounds-lt count in
          Consumes-mono (Finds 0 (rounds (signed_byte count)) 0) _ _
            (entries-Consumes (rounds (signed_byte count)) [])
            λ ss k (less, sized). (omega arith, omega arith)

read_name_length-Consumes : Consumes read_name_length (Exactly 11)
unfolding read_name_length
read_name_length-Consumes =
    >>=-Consumes (Exactly 2) (Exactly 11) _ _ (skip_bytes-Consumes 2) λ _ k1 h1.
      >>=-Consumes (Exactly 2) _ _ _ (skip_bytes-Consumes 2) λ _ k2 h2.
        >>=-Consumes (Exactly 2) _ _ _ (skip_bytes-Consumes 2) λ _ k3 h3.
          >>=-Consumes (Exactly 2) _ _ _ (skip_bytes-Consumes 2) λ _ k4 h4.
            >>=-Consumes (Exactly 2) _ _ _ (skip_bytes-Consumes 2)
              λ _ k5 h5. Consumes-mono (Exactly 1) _ _ get_byte-Consumes λ b k h. omega arith

read_node_status-Consumes : (n : ℕ) → Consumes (read_node_status n) (AtLeast 3)
unfolding read_node_status
read_node_status-Consumes n =
    >>=-Consumes (AtLeast 0) (AtLeast 3) _ _ (signed_skip-Consumes (signed_byte n)) λ _ k1 h1.
      >>=-Consumes (Exactly 1) _ _ _ (skip_bytes-Consumes 1)
        λ _ k2 h2. Consumes-mono (Exactly 2) _ _ get_char-Consumes λ b k h. omega arith

status-Consumes : (b : Bool) → Consumes (if b then pure tt else throw) (Exactly 0)
status-Consumes true = pure-Consumes tt
status-Consumes false = record { each = λ u. tt }

extract_rest-Consumes : Consumes extract_rest (Finds 0 127 23)
unfolding extract_rest
extract_rest-Consumes =
    >>=-Consumes (Exactly 11) (Finds 0 127 23) _ _ read_name_length-Consumes λ n k1 h1.
      >>=-Consumes (AtLeast 3) _ _ _ (read_node_status-Consumes n) λ status k2 h2.
        >>=-Consumes (Exactly 0) _ _ _ (status-Consumes ((status == 0x20) || (status == 0x21)))
          λ _ k3 h3.
            Consumes-mono (Finds 0 127 9) _ _ read_list-Consumes
              λ ss k (less, sized). (omega arith, omega arith)

-- Few names, each from 18 bytes behind 25 others.
abbrev pub AreWithin : ℕ → List Text → Type 0
AreWithin bytes ss = (length ss ≤ 127) × ((ss ≡ []) ⊎ (18 * length ss + 25 ≤ bytes))

read_servers-Consumes : (x : ℤ) → Consumes (read_servers x) (λ ss k. AreWithin k ss)
unfolding read_servers
read_servers-Consumes x =
    >>=-Consumes (Exactly 2) (λ ss k. AreWithin k ss) _ _ get_char-Consumes
      λ id k1 h1. elim (Bool-cases (same_id id x)) [
        | inl e ↦ rw e (
            Consumes-mono (Finds 0 127 23) (λ ss k. AreWithin (k1 + k) ss) _ extract_rest-Consumes
              λ ss k (less, sized). (omega arith, inr (omega arith)))
        | inr e ↦ rw e (record { each = λ u. (0, omega arith, (omega arith, inl refl)) })
      ]

extracted : Parse (List Text) → Extracted
extracted (parsed found rest) = servers found
extracted underflow = servers []
extracted browsing_exception = negative_response

extracted-AreWithin :
    (u : Text) (e : Parse (List Text)) (ss : List Text)
    → Ensures u e (λ found k. AreWithin k found)
    → extracted e ≡ servers ss
    → AreWithin (length u) ss
unfolding extracted
extracted-AreWithin u (parsed found rest) ss (k, e, (few, sized)) h =
    let same : found ≡ ss = cc h in
    rw (← same) (few, elim sized [ inl none ↦ inl none | inr some ↦ inr (omega arith) ])
extracted-AreWithin u underflow ss h e =
    let same : [] ≡ ss = cc e in rw (← same) (omega arith, inl refl)
extracted-AreWithin u browsing_exception ss h e = cc e

extract_servers-extracted : (p : Text) (x : ℤ) → extract_servers p x ≡ extracted (read_servers x p)
unfolding extract_servers extracted
extract_servers-extracted p x = refl

-- Whatever bytes have come and whatever id is expected: if `extractServers` returns and does not throw,
-- it returns no server, or at most 127, each for 18 bytes of the packet behind 25 others.
pub extract_servers-AreWithin :
    (p : Text) (x : ℤ) (ss : List Text) → extract_servers p x ≡ servers ss → AreWithin (length p) ss
extract_servers-AreWithin p x ss e =
    extracted-AreWithin p (read_servers x p) ss ((read_servers-Consumes x).each p)
      (sym (extract_servers-extracted p x) ∙ e)
