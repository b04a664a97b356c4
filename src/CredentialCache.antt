-- ===== src/CredentialCache.antt =====
-- `CredentialCache` (app/src/main/cpp/credential_cache/CredentialCache.cc).
pub mod Laws
use my_stest.Base.{none, some, [], Text, lookup, insert, erase}
use my_stest.World.State.{CredentialTuple, CredentialCache}

-- `emptyTuple_`, which nothing writes
abbrev pub empty_tuple : CredentialTuple
empty_tuple = record { workgroup = []; username = []; password = [] }

-- `new CredentialCache()`
abbrev pub empty : CredentialCache
empty = record { credential_map = [] }

unfoldable pub get : CredentialCache → Text → CredentialTuple
get c key = elim (lookup key c.credential_map) [ some tuple ↦ tuple | none ↦ empty_tuple ]

unfoldable pub put : CredentialCache → Text → CredentialTuple → CredentialCache
put c key tuple = record { credential_map = insert key tuple c.credential_map }

unfoldable pub remove : CredentialCache → Text → CredentialCache
remove c key = record { credential_map = erase key c.credential_map }
