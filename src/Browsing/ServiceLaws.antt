-- ===== src/Browsing/ServiceLaws.antt =====
-- The map of ServiceHelper.java under announcements.
use my_stest.Base.{
  ◌≡◌, ◌≢◌, refl, sym, ap, ◌∙◌, true, false, Bool-cases, Option-cases, inl, inr, Option, none, some,
  Text, List, [], ◌∷◌, ◌++◌, append_assoc, append-nil, text_eq, text_eq_iff, lookup, lookup-insert,
  lookup-erase,
}
use my_stest.Browsing.Services.{Services, is_empty, contains, add_service_data}
use my_stest.Browsing.Listening.{add_names}

-- The services known at an address.
abbrev pub held : Option (List Text) → List Text
held none = []
held (some strings) = strings

abbrev pub known : Text → Services → List Text
known ip map = held (lookup ip map)

-- Names that are not empty, each once, and none of them among those known.
abbrev pub AreNew : List Text → List Text → Type 0
AreNew [] known = Unit {0}
AreNew (s ∷ names) known =
    (is_empty s ≡ false) × (contains known s ≡ false) × AreNew names (known ++ s ∷ [])

text_eq_self : (s : Text) → text_eq s s ≡ true
text_eq_self s = (text_eq_iff s s).1 refl

text_eq_other : (s k : Text) → k ≢ s → text_eq s k ≡ false
text_eq_other s k ne = elim (Bool-cases (text_eq s k)) [
  | inl e ↦ absurd (ne (sym ((text_eq_iff s k).0 e)))
  | inr e ↦ e
]

module _ (ip : Text) (there : is_empty ip ≡ false) where
  module _ (s : Text) (map : Services) (some_name : is_empty s ≡ false) where
    pub lookup-add_service_data_other :
        (k : Text) → k ≢ ip → lookup k (add_service_data ip s map) ≡ lookup k map
    unfolding add_service_data
    lookup-add_service_data_other k ne = elim (Option-cases (lookup ip map)) [
      | inl e ↦
          rw (there, some_name, e, add_service_data) (rw (lookup-insert, text_eq_other ip k ne))
      | inr (l, e) ↦ elim (Bool-cases (contains l s)) [
        | inl c ↦
            rw (there, some_name, e, c, add_service_data) (rw (lookup-erase, text_eq_other ip k ne))
        | inr c ↦
            rw (there, some_name, e, c, add_service_data)
              (rw (lookup-insert, lookup-erase, text_eq_other ip k ne))
      ]
    ]

    lookup-add_service_data_new :
        contains (known ip map) s ≡ false
        → lookup ip (add_service_data ip s map) ≡ some (known ip map ++ s ∷ [])
    unfolding add_service_data
    lookup-add_service_data_new new = elim (Option-cases (lookup ip map)) [
      | inl e ↦ rw (there, some_name, e, add_service_data) (rw (lookup-insert, text_eq_self ip))
      | inr (l, e) ↦
          let c : contains l s ≡ false = rw e at new in
          rw (there, some_name, e, c, add_service_data) (rw (lookup-insert, text_eq_self ip))
    ]

    pub known-add_service_data :
        contains (known ip map) s ≡ false
        → known ip (add_service_data ip s map) ≡ known ip map ++ s ∷ []
    known-add_service_data new = ap held (lookup-add_service_data_new new)

    -- An announcement of what is known takes the address off the map.
    pub lookup-add_service_data_again :
        contains (known ip map) s ≡ true → lookup ip (add_service_data ip s map) ≡ none
    unfolding add_service_data contains
    lookup-add_service_data_again old = elim (Option-cases (lookup ip map)) [
      | inl e ↦ let no : contains [] s ≡ true = rw e at old in cc no
      | inr (l, e) ↦
          let c : contains l s ≡ true = rw e at old in
          rw (there, some_name, e, c, add_service_data) (rw (lookup-erase, text_eq_self ip))
    ]

  -- An announcement of one name at an address without services, and the same once more.
  module _ (s : Text) (some_name : is_empty s ≡ false) (map : Services)
      (none_yet : lookup ip map ≡ none) where
    no_service : known ip map ≡ []
    no_service = ap held none_yet

    pub lookup-add_service_data_once : lookup ip (add_service_data ip s map) ≡ some (s ∷ [])
    unfolding contains
    lookup-add_service_data_once =
        lookup-add_service_data_new s map some_name (rw no_service) ∙ rw no_service

    pub lookup-add_service_data_twice :
        lookup ip (add_service_data ip s (add_service_data ip s map)) ≡ none
    unfolding contains
    lookup-add_service_data_twice =
        lookup-add_service_data_again s (add_service_data ip s map) some_name
          (rw lookup-add_service_data_once (rw (text_eq_self s)))

  -- Names announced by an address that is not empty, each new and none of them empty: they are listed
  -- behind those known at the address, in their order, and the services of every other address stay.
  pub known-add_names :
      (names : List Text) (map : Services)
      → AreNew names (known ip map)
      → (known ip (add_names ip names map) ≡ known ip map ++ names)
        × ((k : Text) → k ≢ ip → lookup k (add_names ip names map) ≡ lookup k map)
  unfolding add_names
  known-add_names [] map new = (rw append-nil, λ k ne. refl)
  known-add_names (s ∷ names) map (some_name, new, more) =
      let e = known-add_service_data s map some_name new in
      let later : AreNew names (known ip (add_service_data ip s map)) = rw e more in
      let (all, others) = known-add_names names (add_service_data ip s map) later in
      (
        all ∙ rw e (append_assoc (known ip map) (s ∷ []) names),
        λ k ne. others k ne ∙ lookup-add_service_data_other s map some_name k ne,
      )
