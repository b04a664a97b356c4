-- ===== src/Tests/Discovery.antt =====
-- The theorems on the discovery of servers at concrete inputs.
use my_stest.Base.{
  pos, ◌≡◌, ◌≢◌, inr, refl, none, some, lookup, text_eq, Text, List, [], ◌∷◌, ◌++◌, length, take,
  arith,
}
use my_stest.Browsing.Packets.{to_char, zeros}
use my_stest.Browsing.Queries.{create_packet}
use my_stest.Browsing.QueryLaws.{question, create_packet_lem}
use my_stest.Browsing.Responses.{servers, extract_servers}
use my_stest.Browsing.Answers.{
  Answer, HasHead, IsPositiveAnswer, packet_bytes, answer_bytes, counted_bytes,
}
use my_stest.Browsing.AnswerLaws.{
  extract_servers-create_packet, extract_servers-take, extract_servers-negative,
}
use my_stest.Browsing.ParseBounds.{AreWithin, extract_servers-AreWithin}
use my_stest.Browsing.Services.{contains}
use my_stest.Browsing.ServiceLaws.{known, known-add_names}
use my_stest.Browsing.Listening.{Datagram, add_names, listen_for_servers}
use my_stest.Browsing.ListenLaws.{
  FitsDatagram, ArePositive, datagram, datagrams, announced, listen_for_servers-datagrams,
}
use my_stest.Browsing.Repeats.{copies, listen_for_servers-copies}

create_packet_lem_example :
    (create_packet (pos 70000) ≡ some (question (to_char (pos 70000))))
    × (length (question (to_char (pos 70000))) ≡ 50)
create_packet_lem_example = create_packet_lem (pos 70000)

abbrev nas : Text
nas = 78 ∷ 65 ∷ 83 ∷ []

-- A server with the names NAS, for files, and NAS, as a workstation.
abbrev two_names : Answer
two_names = record {
  header = zeros 10;
  asked = 67 ∷ 75 ∷ [];
  null = 0;
  type_low = 0x21;
  fields = zeros 8;
  names =
      record { name = nas; kind = 0x20; flag_high = 4; flag_low = 0 }
      ∷ record { name = nas; kind = 0; flag_high = 4; flag_low = 0 }
      ∷ [];
}

two_names-HasHead : HasHead two_names
two_names-HasHead = record { header_size = refl; asked_size = omega arith }

two_names-IsPositiveAnswer : IsPositiveAnswer two_names
two_names-IsPositiveAnswer = record {
  head = two_names-HasHead;
  type_known = inr refl;
  fields_size = refl;
  are_names = omega arith;
}

extract_servers-create_packet_example :
    extract_servers
      (take 2 (question (to_char (pos 258))) ++ answer_bytes two_names ++ zeros 5)
      (pos 258)
    ≡ servers (nas ∷ [])
extract_servers-create_packet_example =
    extract_servers-create_packet (pos 258) (question (to_char (pos 258))) two_names (zeros 5)
      (create_packet_lem (pos 258)).0 two_names-IsPositiveAnswer (omega arith)

extract_servers-take_example :
    extract_servers (take 50 (packet_bytes 258 (answer_bytes two_names))) (pos 258) ≡ servers []
extract_servers-take_example =
    extract_servers-take 258 two_names 50 two_names-IsPositiveAnswer (omega arith) (omega arith)

extract_servers-negative_example :
    extract_servers (packet_bytes 258 (counted_bytes two_names 130 []) ++ nas) (pos 258)
    ≡ servers []
extract_servers-negative_example =
    extract_servers-negative 258 two_names 130 nas two_names-IsPositiveAnswer (omega arith)

extract_servers-AreWithin_example :
    AreWithin (length (packet_bytes 258 (answer_bytes two_names) ++ [])) (nas ∷ [])
unfolding to_char
extract_servers-AreWithin_example =
    extract_servers-AreWithin (packet_bytes 258 (answer_bytes two_names) ++ []) (pos 258) (nas ∷ [])
      (extract_servers-create_packet (pos 258) (question (to_char (pos 258))) two_names []
        (create_packet_lem (pos 258)).0 two_names-IsPositiveAnswer (omega arith))

known-add_names_example :
    (known nas (add_names nas ((65 ∷ []) ∷ (66 ∷ []) ∷ []) []) ≡ (65 ∷ []) ∷ (66 ∷ []) ∷ [])
    × ((k : Text) → k ≢ nas → lookup k (add_names nas ((65 ∷ []) ∷ (66 ∷ []) ∷ []) []) ≡ none)
unfolding lookup contains text_eq
known-add_names_example =
    known-add_names nas refl ((65 ∷ []) ∷ (66 ∷ []) ∷ []) [] (refl, refl, (refl, refl, tt))

abbrev host : Text
host = 49 ∷ 46 ∷ 50 ∷ []

two_names-ArePositive : ArePositive ((host, two_names) ∷ [])
two_names-ArePositive = (two_names-IsPositiveAnswer, omega arith, omega arith, tt)

listen_for_servers-datagrams_example :
    (listen_for_servers (pos 258) (datagrams 258 ((host, two_names) ∷ [])) []
      ≡ announced ((host, two_names) ∷ []) [])
    × ((address : Text) (bad : Answer) (more : List Datagram)
        → HasHead bad
        → bad.type_low ≢ 0x20
        → bad.type_low ≢ 0x21
        → FitsDatagram bad
        → listen_for_servers
            (pos 258)
            (datagrams 258 ((host, two_names) ∷ []) ++ datagram 258 (address, bad) ∷ more)
            []
          ≡ announced ((host, two_names) ∷ []) [])
listen_for_servers-datagrams_example =
    listen_for_servers-datagrams 258 ((host, two_names) ∷ []) [] two_names-ArePositive

listen_for_servers-copies_example :
    lookup host (listen_for_servers (pos 258) (datagrams 258 (copies 2 (host, two_names))) [])
    ≡ none
unfolding lookup
listen_for_servers-copies_example =
    listen_for_servers-copies host nas two_names refl refl refl 2 258 [] two_names-IsPositiveAnswer
      (omega arith) (omega arith) refl
