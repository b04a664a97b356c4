-- ===== src/Tests/Credentials.antt =====
-- The theorems on credentials and on the life of a client at concrete inputs.
use my_stest.Base.{
  pos, ◌≡◌, refl, ◌⊎◌, true, false, some, [], ◌∷◌, arith, bytes, to_word, lookup, Text, text_eq,
  if◌then◌else◌,
}
use my_stest.CredentialCache
use my_stest.World.Calls.{JString, got_chars}
use my_stest.World.State.{CredentialTuple, CredentialCache, State, ok, update}
use my_stest.SambaClient.Auth.{AuthBuffers, AuthSizes, auth_key, too_small, get_auth_data}
use my_stest.SambaClient.AuthLaws.{
  IsCTuple, Owns, refuses, credential, FilledAll, get_auth_data_lem,
}
use my_stest.JniHelper.Credentials.{put_credential, remove_credential}
use my_stest.JniHelper.CredentialLaws.{remove_credential_lem, put_credential-get_auth_data}
use my_stest.Tests.Setting.{success, serving, start, jstring}

abbrev tuple : CredentialTuple
tuple = record { workgroup = b'w' ∷ []; username = b'u' ∷ []; password = b'p' ∷ b'q' ∷ [] }

abbrev sizes : AuthSizes
sizes = record { max_len_workgroup = pos 4; max_len_username = pos 4; max_len_password = pos 4 }

abbrev buffers : AuthBuffers
buffers = record {
  workgroup = 1 ∷ 2 ∷ 3 ∷ 4 ∷ [];
  username = 1 ∷ 2 ∷ 3 ∷ 4 ∷ [];
  password = 1 ∷ 2 ∷ 3 ∷ 4 ∷ 5 ∷ [];
}

buffers-Owns : Owns sizes buffers
unfolding to_word
buffers-Owns = omega arith

abbrev uri : JString
uri = jstring 1 (auth_key (bytes "h") (bytes "s"))

abbrev w : JString
w = jstring 2 (b'w' ∷ [])

abbrev u : JString
u = jstring 3 (b'u' ∷ [])

abbrev p : JString
p = jstring 4 (b'p' ∷ b'q' ∷ [])

tuple-IsCTuple : IsCTuple tuple
tuple-IsCTuple = record {
  workgroup = record { plain = omega arith; short = omega arith };
  username = record { plain = omega arith; short = omega arith };
  password = record { plain = omega arith; short = omega arith };
}

empty-IsCTuple : IsCTuple CredentialCache.empty_tuple
empty-IsCTuple = record {
  workgroup = record { plain = tt; short = omega arith };
  username = record { plain = tt; short = omega arith };
  password = record { plain = tt; short = omega arith };
}

tuple_fits : refuses sizes tuple ≡ false
unfolding too_small to_word
tuple_fits = refl

credential-empty :
    credential CredentialCache.empty (bytes "h") (bytes "s") ≡ CredentialCache.empty_tuple
unfolding CredentialCache.get lookup
credential-empty = refl

get_auth_data_lem_example :
    (after : AuthBuffers) × (get_auth_data
        (bytes "h")
        (bytes "s")
        sizes
        buffers
        (serving success)
        start
      ≡ ok after start)
    × ((refuses sizes (credential CredentialCache.empty (bytes "h") (bytes "s")) ≡ true)
          × (after ≡ buffers)
        ⊎ (refuses sizes (credential CredentialCache.empty (bytes "h") (bytes "s")) ≡ false)
          × FilledAll buffers after (credential CredentialCache.empty (bytes "h") (bytes "s")))
get_auth_data_lem_example =
    get_auth_data_lem (serving success) refl (bytes "h") (bytes "s") sizes buffers
      (rw credential-empty empty-IsCTuple) buffers-Owns

remove_credential_lem_example :
    (after : State) × (left : CredentialCache) × (remove_credential 4 uri (serving success) start
      ≡ ok tt after)
    × (after.caches ≡ update start.caches 4 (some left))
    × ((key : Text)
        → CredentialCache.get left key ≡ (
            if text_eq uri.chars key
            then CredentialCache.empty_tuple
            else CredentialCache.get CredentialCache.empty key))
    × (after.trace ≡ got_chars uri true ∷ [])
remove_credential_lem_example = remove_credential_lem (serving success) start 4 refl uri

put_credential-get_auth_data_example :
    (after : State) × (put_credential 4 uri w u p (serving success) start ≡ ok tt after)
    × (filled : AuthBuffers) × (get_auth_data
          (bytes "h")
          (bytes "s")
          sizes
          buffers
          (serving success)
          after
        ≡ ok filled after)
    × FilledAll buffers filled tuple
put_credential-get_auth_data_example =
    put_credential-get_auth_data (serving success) start 4 refl uri w u p (bytes "h") (bytes "s")
      sizes buffers (λ _ _. refl) refl refl tuple-IsCTuple buffers-Owns tuple_fits
