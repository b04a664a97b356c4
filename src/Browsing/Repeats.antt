-- ===== src/Browsing/Repeats.antt =====
-- A server that is announced more than once: BroadcastBrowsingProvider.java and ServiceHelper.java.
use my_stest.Base.{
  ℕ, zero, suc, ◌<◌, pos, ◌≡◌, ap, ◌∙◌, Bool, true, false, none, some, lookup, Text, List, [], ◌∷◌,
  length, if◌then◌else◌,
}
use my_stest.Browsing.Answers.{Answer, IsPositiveAnswer, file_servers}
use my_stest.Browsing.Services.{Services, is_empty, add_service_data}
use my_stest.Browsing.ServiceLaws.{lookup-add_service_data_once, lookup-add_service_data_twice}
use my_stest.Browsing.Listening.{add_names, listen_for_servers}
use my_stest.Browsing.ListenLaws.{
  FitsDatagram, ArePositive, datagrams, announced, listen_for_servers-datagrams,
}

abbrev pub copies : ℕ → Text × Answer → List (Text × Answer)
copies zero h = []
copies (suc n) h = h ∷ copies n h

abbrev pub even : ℕ → Bool
even zero = true
even (suc zero) = false
even (suc (suc n)) = even n

copies-ArePositive :
    (n : ℕ) (address : Text) (a : Answer)
    → IsPositiveAnswer a
    → length a.names < 128
    → FitsDatagram a
    → ArePositive (copies n (address, a))
copies-ArePositive zero address a p few fits = tt
copies-ArePositive (suc n) address a p few fits =
    (p, few, fits, copies-ArePositive n address a p few fits)

module _ (address s : Text) (a : Answer) (there : is_empty address ≡ false)
    (some_name : is_empty s ≡ false) (one : file_servers a.names ≡ s ∷ []) where
  add_names_lem :
      (m : Services) → add_names address (file_servers a.names) m ≡ add_service_data address s m
  unfolding add_names
  add_names_lem m = rw one

  add_names_twice :
      (m : Services)
      → add_names address (file_servers a.names) (add_names address (file_servers a.names) m)
        ≡ add_service_data address s (add_service_data address s m)
  add_names_twice m =
      add_names_lem (add_names address (file_servers a.names) m)
      ∙ ap (add_service_data address s) (add_names_lem m)

  announced-copies :
      (n : ℕ) (m : Services)
      → lookup address m ≡ none
      → lookup address (announced (copies n (address, a)) m)
        ≡ (if even n then none else some (s ∷ []))
  announced-copies zero m fresh = fresh
  announced-copies (suc zero) m fresh =
      rw (add_names_lem m) (lookup-add_service_data_once address there s some_name m fresh)
  announced-copies (suc (suc n)) m fresh =
      ap (λ k. lookup address (announced (copies n (address, a)) k)) (add_names_twice m)
      ∙ announced-copies n (add_service_data address s (add_service_data address s m))
          (lookup-add_service_data_twice address there s some_name m fresh)

  -- A host whose positive answer has fewer than 128 names, exactly one of them of a file server, whose
  -- name is not empty, and fits a datagram, answers n times in one listening, from an address that is not empty
  -- and not known yet: its server is known afterwards if n is odd, and the address has no services if
  -- n is even.
  pub listen_for_servers-copies :
      (n t : ℕ) (found : Services)
      → IsPositiveAnswer a
      → length a.names < 128
      → FitsDatagram a
      → lookup address found ≡ none
      → lookup address (listen_for_servers (pos t) (datagrams t (copies n (address, a))) found)
        ≡ (if even n then none else some (s ∷ []))
  listen_for_servers-copies n t found p few fits fresh =
      ap (lookup address)
        (listen_for_servers-datagrams t (copies n (address, a)) found
          (copies-ArePositive n address a p few fits)).0
      ∙ announced-copies n found fresh
