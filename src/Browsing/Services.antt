-- ===== src/Browsing/Services.antt =====
-- The servers found so far, by address: ServiceHelper.java.
use my_stest.Base.{
  Text, List, [], ◌∷◌, ◌++◌, Dict, lookup, insert, erase, Bool, true, false, ◌||◌, none, some,
  if◌then◌else◌, text_eq,
}

abbrev pub Services : Type 0
Services = Dict (List Text)

-- `TextUtils.isEmpty`, of a string that is there
abbrev pub is_empty : Text → Bool
is_empty [] = true
is_empty (c ∷ s) = false

-- `List.contains`
unfoldable pub contains : List Text → Text → Bool
contains [] s = false
contains (t ∷ ts) s = text_eq t s || contains ts s

-- The map after `addServiceData`; the listener, which is told of the call, is left out.
unfoldable pub add_service_data : Text → Text → Services → Services
unfolding lookup insert erase contains
add_service_data ip service_name map =
    if is_empty ip || is_empty service_name then map else elim (lookup ip map) [
      | some strings ↦
          let removed = erase ip map in
          if contains strings service_name
          then removed
          else insert ip (strings ++ service_name ∷ []) removed
      | none ↦ insert ip (service_name ∷ []) map
    ]
