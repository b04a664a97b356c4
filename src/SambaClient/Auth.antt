-- ===== src/SambaClient/Auth.antt =====
-- `SambaClient::GetAuthData` (samba_client/SambaClient.cc), the callback by which libsmbclient asks
-- for credentials. Each buffer is the memory that the caller owns; a write past it is a fault.
use my_stest.Base.{
  ℕ, zero, suc, ◌+◌, ◌%◌, ◌^◌, ℤ, Bool, Option, none, some, [], ◌∷◌, ◌++◌, Text, ltb, ◌==◌, ◌||◌,
  if◌then◌else◌, length, drop, to_word, bytes,
}
use my_stest.CredentialCache
use my_stest.World.State.{CredentialTuple, Cmd, pure, ◌>>=◌, require, gets}

-- The callback's out-parameters.
pub record AuthBuffers : Type 0 where
  pub workgroup : Text
  pub username : Text
  pub password : Text

-- The sizes that the callback is told, as `int`s.
pub record AuthSizes : Type 0 where
  pub max_len_workgroup : ℤ
  pub max_len_username : ℤ
  pub max_len_password : ℤ

-- What `strncpy` of `n` bytes writes: the text up to its NUL, then NULs.
unfoldable pub padded : ℕ → Text → Text
padded zero s = []
padded (suc n) [] = 0 ∷ padded n []
padded (suc n) (c ∷ s) = c ∷ padded n (if c == 0 then [] else s)

-- `strncpy(buffer, s.c_str(), n)`
unfoldable pub strncpy : Text → Text → ℕ → Option Text
strncpy buffer s n = if ltb (length buffer) n then none else some (padded n s ++ drop n buffer)

-- `buffer[i] = 0`
unfoldable pub put_nul : Text → ℕ → Option Text
put_nul [] i = none
put_nul (c ∷ buffer) zero = some (0 ∷ buffer)
put_nul (c ∷ buffer) (suc i) = elim (put_nul buffer i) [ none ↦ none | some b ↦ some (c ∷ b) ]

-- The two statements that fill one buffer.
unfoldable pub fill : Text → Text → Option Text
fill buffer s = elim (strncpy buffer s (length s)) [ none ↦ none | some b ↦ put_nul b (length s) ]

-- `s.length() + 1 > max`: `size_t` arithmetic of 32 bits, into which the `int` is converted.
unfoldable pub too_small : ℤ → Text → Bool
too_small max s = ltb (to_word max) ((length s + 1) % 2 ^ 32)

-- `"smb://" + std::string(server) + "/" + share`
unfoldable pub auth_key : Text → Text → Text
auth_key server share = bytes "smb://" ++ (server ++ (bytes "/" ++ share))

unfoldable pub copy_out : CredentialTuple → AuthBuffers → Cmd AuthBuffers
copy_out tuple buffers = do
  workgroup ← require (fill buffers.workgroup tuple.workgroup)
  username ← require (fill buffers.username tuple.username)
  password ← require (fill buffers.password tuple.password)
  pure (record { workgroup = workgroup; username = username; password = password })

-- The cache is the one that `credentialCache_` points at when libsmbclient asks.
unfoldable pub get_auth_data : Text → Text → AuthSizes → AuthBuffers → Cmd AuthBuffers
unfolding auth_key CredentialCache.get
get_auth_data server share sizes buffers = do
  found ← gets (λ s. s.caches s.credential_cache)
  cache ← require found
  let tuple = CredentialCache.get cache (auth_key server share)
  if too_small sizes.max_len_workgroup tuple.workgroup
        || (too_small sizes.max_len_username tuple.username
            || too_small sizes.max_len_password tuple.password)
      then pure buffers
      else copy_out tuple buffers
