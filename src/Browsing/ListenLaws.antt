-- ===== src/Browsing/ListenLaws.antt =====
-- What `listenForServers` of BroadcastBrowsingProvider.java has found when it ends.
use my_stest.Base.{
  ℕ, ◌+◌, ◌-◌, ◌≤◌, ◌<◌, ℤ, pos, ◌≡◌, ◌≢◌, refl, ap, ◌∙◌, Text, List, [], ◌∷◌, ◌++◌, append_assoc,
  append-nil, length, arith,
}
use my_stest.Provider.Slices.{take-long}
use my_stest.Browsing.Packets.{zeros}
use my_stest.Browsing.Responses.{servers, negative_response, extract_servers}
use my_stest.Browsing.Answers.{
  Answer, HasHead, head_bytes, type_bytes, list_bytes, IsPositiveAnswer, packet_bytes, answer_bytes,
  file_servers,
}
use my_stest.Browsing.AnswerLaws.{extract_servers-answer, extract_servers-negative_response}
use my_stest.Browsing.Services.{Services}
use my_stest.Browsing.Listening.{Datagram, received, add_names, listen_for_servers}

-- A datagram that fits the array is received whole, with zeros behind it.
received_lem : (p : Text) → length p ≤ 1024 → received p ≡ p ++ zeros (1024 - length p)
received_lem p h = ap (λ w. w ++ zeros (1024 - length p)) (take-long 1024 p h)

-- The datagram of an answer from an address, to a transaction.
abbrev pub datagram : ℕ → Text × Answer → Datagram
datagram t (address, a) = record { address = address; payload = packet_bytes t (answer_bytes a) }

abbrev pub datagrams : ℕ → List (Text × Answer) → List Datagram
datagrams t [] = []
datagrams t (h ∷ hs) = datagram t h ∷ datagrams t hs

-- An answer that is one datagram.
abbrev pub FitsDatagram : Answer → Type 0
FitsDatagram a = 2 + length (answer_bytes a) ≤ 1024

abbrev pub ArePositive : List (Text × Answer) → Type 0
ArePositive [] = Unit {0}
ArePositive ((address, a) ∷ hs) =
    IsPositiveAnswer a × (length a.names < 128) × FitsDatagram a × ArePositive hs

-- The file servers of the answers, added one after the other.
abbrev pub announced : List (Text × Answer) → Services → Services
announced [] found = found
announced ((address, a) ∷ hs) found = announced hs (add_names address (file_servers a.names) found)

module _ (x : ℤ) (d : Datagram) (more : List Datagram) (found : Services) where
  listen-servers :
      (names : List Text)
      → extract_servers (received d.payload) x ≡ servers names
      → listen_for_servers x (d ∷ more) found
        ≡ listen_for_servers x more (add_names d.address names found)
  unfolding listen_for_servers
  listen-servers names e = rw (e, listen_for_servers)

  listen-negative :
      extract_servers (received d.payload) x ≡ negative_response
      → listen_for_servers x (d ∷ more) found ≡ found
  unfolding listen_for_servers
  listen-negative e = rw (e, listen_for_servers)

extract_servers-received :
    (t : ℕ) (a : Answer)
    → IsPositiveAnswer a
    → length a.names < 128
    → FitsDatagram a
    → extract_servers (received (packet_bytes t (answer_bytes a))) (pos t)
      ≡ servers (file_servers a.names)
extract_servers-received t a p few fits =
    ap (λ w. extract_servers w (pos t))
      (received_lem (packet_bytes t (answer_bytes a)) (omega arith))
    ∙ extract_servers-answer t a (zeros (1024 - length (packet_bytes t (answer_bytes a)))) p few

-- Answers in front of any other datagrams.
listen-datagrams :
    (t : ℕ) (hosts : List (Text × Answer)) (more : List Datagram) (found : Services)
    → ArePositive hosts
    → listen_for_servers (pos t) (datagrams t hosts ++ more) found
      ≡ listen_for_servers (pos t) more (announced hosts found)
listen-datagrams t [] more found h = refl
listen-datagrams t ((address, a) ∷ hosts) more found (p, few, fits, h) =
    listen-servers (pos t) (datagram t (address, a)) (datagrams t hosts ++ more) found
      (file_servers a.names) (extract_servers-received t a p few fits)
    ∙ listen-datagrams t hosts more (add_names address (file_servers a.names) found) h

extract_servers-received_negative :
    (t : ℕ) (a : Answer)
    → HasHead a
    → a.type_low ≢ 0x20
    → a.type_low ≢ 0x21
    → FitsDatagram a
    → extract_servers (received (packet_bytes t (answer_bytes a))) (pos t) ≡ negative_response
extract_servers-received_negative t a p no32 no33 fits =
    let z = zeros (1024 - length (packet_bytes t (answer_bytes a))) in
    let v = a.fields ++ length a.names ∷ list_bytes a.names in
    ap (λ w. extract_servers w (pos t))
      (received_lem (packet_bytes t (answer_bytes a)) (omega arith))
    ∙ ap (λ w. extract_servers (packet_bytes t w) (pos t))
        (append_assoc (head_bytes a) (type_bytes a ++ v) z
          ∙ ap (λ w. head_bytes a ++ w) (append_assoc (type_bytes a) v z))
    ∙ extract_servers-negative_response t a (v ++ z) p no32 no33

-- Datagrams of positive answers, each with fewer than 128 entries and of at most 1024 bytes, that
-- come in this order in the transaction: when `listenForServers` ends, by a time-out or by a first
-- negative answer behind them, whatever datagrams follow it, the services are those from before with
-- the file servers of the answers added one after the other.
pub listen_for_servers-datagrams :
    (t : ℕ) (hosts : List (Text × Answer)) (found : Services)
    → ArePositive hosts
    → (listen_for_servers (pos t) (datagrams t hosts) found ≡ announced hosts found)
      × ((address : Text) (bad : Answer) (more : List Datagram)
          → HasHead bad
          → bad.type_low ≢ 0x20
          → bad.type_low ≢ 0x21
          → FitsDatagram bad
          → listen_for_servers (pos t) (datagrams t hosts ++ datagram t (address, bad) ∷ more) found
            ≡ announced hosts found)
unfolding listen_for_servers
listen_for_servers-datagrams t hosts found h = (
  (rw append-nil at (listen-datagrams t hosts [] found h)),
  λ address bad more p no32 no33 fits.
      listen-datagrams t hosts (datagram t (address, bad) ∷ more) found h
      ∙ listen-negative (pos t) (datagram t (address, bad)) more (announced hosts found)
          (extract_servers-received_negative t bad p no32 no33 fits),
)
