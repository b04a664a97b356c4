-- ===== src/SambaClient/AuthLaws.antt =====
-- What `GetAuthData` (samba_client/SambaClient.cc) leaves in its caller's buffers.
use my_stest.Base.{
  HasNoNul, ◌+◌, ◌≤◌, ◌<◌, ◌^◌, ℤ, ◌≡◌, refl, true, false, Bool, some, Text, arith, length, to_word,
  Bool-cases, inl, inr, ◌||◌, ◌⊎◌, ◌∙◌, if◌then◌else◌,
}
use my_stest.CredentialCache
use my_stest.World.Calls.{Env}
use my_stest.World.State.{CredentialTuple, CredentialCache, State, ok}
use my_stest.SambaClient.Auth.{AuthBuffers, AuthSizes, too_small, auth_key, copy_out, get_auth_data}
use my_stest.SambaClient.Buffers.{copied, fill_lem, Filled, copied-Filled}

-- The sizes that the caller states are at most those of the buffers.
pub record Owns (sizes : AuthSizes) (b : AuthBuffers) : Type 0 where
  pub workgroup : to_word sizes.max_len_workgroup ≤ length b.workgroup
  pub username : to_word sizes.max_len_username ≤ length b.username
  pub password : to_word sizes.max_len_password ≤ length b.password

-- A `std::string` made of a C string: no NUL, and a length that `size_t` counts with one more.
pub record IsCText (s : Text) : Type 0 where
  pub plain : HasNoNul s
  pub short : length s + 1 < 2 ^ 32

pub record IsCTuple (t : CredentialTuple) : Type 0 where
  pub workgroup : IsCText t.workgroup
  pub username : IsCText t.username
  pub password : IsCText t.password

-- One of the three fields does not fit its buffer.
abbrev pub refuses : AuthSizes → CredentialTuple → Bool
refuses sizes t =
    too_small sizes.max_len_workgroup t.workgroup
    || (too_small sizes.max_len_username t.username || too_small sizes.max_len_password t.password)

abbrev pub copied_all : CredentialTuple → AuthBuffers → AuthBuffers
copied_all t b = record {
  workgroup = copied b.workgroup t.workgroup;
  username = copied b.username t.username;
  password = copied b.password t.password;
}

fits :
    (max : ℤ) (s buffer : Text)
    → too_small max s ≡ false
    → IsCText s
    → to_word max ≤ length buffer
    → length s < length buffer
unfolding too_small
fits max s buffer e h room = ground (arith, h.short)

copy_out_lem :
    (t : CredentialTuple) (sizes : AuthSizes) (b : AuthBuffers) (env : Env) (s : State)
    → IsCTuple t
    → Owns sizes b
    → refuses sizes t ≡ false
    → copy_out t b env s ≡ ok (copied_all t b) s
unfolding copy_out
copy_out_lem t sizes b env s c o e =
    let w : length t.workgroup < length b.workgroup =
      fits sizes.max_len_workgroup t.workgroup b.workgroup (ground arith) c.workgroup o.workgroup in
    let u : length t.username < length b.username =
      fits sizes.max_len_username t.username b.username (ground arith) c.username o.username in
    let p : length t.password < length b.password =
      fits sizes.max_len_password t.password b.password (ground arith) c.password o.password in
    rw (fill_lem b.workgroup t.workgroup c.workgroup.plain w) (
      rw (fill_lem b.username t.username c.username.plain u)
        (rw (fill_lem b.password t.password c.password.plain p)))

-- What the cache holds for a server's share.
abbrev pub credential : CredentialCache → Text → Text → CredentialTuple
credential cache server share = CredentialCache.get cache (auth_key server share)

get_auth_data-copied :
    (env : Env) {s : State} {cache : CredentialCache}
    → (held : s.caches s.credential_cache ≡ some cache) (server share : Text) (sizes : AuthSizes)
      (b : AuthBuffers)
    → IsCTuple (credential cache server share)
    → Owns sizes b
    → get_auth_data server share sizes b env s
      ≡ ok
          (if refuses sizes (credential cache server share)
            then b
            else copied_all (credential cache server share) b)
          s
unfolding get_auth_data
get_auth_data-copied env {s} {cache} held server share sizes b c o =
    let t = credential cache server share in
    rw held (elim (Bool-cases (refuses sizes t)) [
      | inl e ↦ rw e
      | inr e ↦ rw e (copy_out_lem t sizes b env s c o e)
    ])

-- The three buffers hold the three fields of the tuple.
pub record FilledAll (b after : AuthBuffers) (t : CredentialTuple) : Type 0 where
  pub workgroup : Filled b.workgroup after.workgroup t.workgroup
  pub username : Filled b.username after.username t.username
  pub password : Filled b.password after.password t.password

-- Where `credentialCache_` points at a cache, the cache's answer consists of C strings and the
-- stated sizes are at most those of the buffers, the callback returns without a write out of bounds
-- and leaves the state alone. If a field does not fit, all buffers are as before; else each buffer
-- reads as its field, and keeps its size and the bytes behind the field's NUL.
pub get_auth_data_lem :
    (env : Env) {s : State} {cache : CredentialCache}
    → (held : s.caches s.credential_cache ≡ some cache) (server share : Text) (sizes : AuthSizes)
      (b : AuthBuffers)
    → IsCTuple (credential cache server share)
    → Owns sizes b
    → (after : AuthBuffers) × (get_auth_data server share sizes b env s ≡ ok after s)
      × ((refuses sizes (credential cache server share) ≡ true) × (after ≡ b)
          ⊎ (refuses sizes (credential cache server share) ≡ false)
            × FilledAll b after (credential cache server share))
get_auth_data_lem env {s} {cache} held server share sizes b c o =
    let t = credential cache server share in
    elim (Bool-cases (refuses sizes t)) [
      | inl e ↦ (b, get_auth_data-copied env held server share sizes b c o ∙ rw e, inl (e, refl))
      | inr e ↦ (
        copied_all t b,
        get_auth_data-copied env held server share sizes b c o ∙ rw e,
        inr (
          e,
          record {
            workgroup = copied-Filled _ _ c.workgroup.plain (
                fits sizes.max_len_workgroup t.workgroup b.workgroup (ground arith) c.workgroup
                  o.workgroup);
            username = copied-Filled _ _ c.username.plain (
                fits sizes.max_len_username t.username b.username (ground arith) c.username
                  o.username);
            password = copied-Filled _ _ c.password.plain (
                fits sizes.max_len_password t.password b.password (ground arith) c.password
                  o.password);
          },
        ),
      )
    ]
