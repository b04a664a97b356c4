-- ===== src/JniHelper/CredentialLaws.antt =====
-- What the methods of `NativeCredentialCache` and `setEnv` (jni_helper/JniHelper.cc) do.
use my_stest.Base.{
  ◌≡◌, refl, true, false, some, Option, ◌&&◌, ◌∷◌, ◌==◌, if◌then◌else◌, arith, Bool-cases, inl, inr,
  Text, Bool, text_eq, text_eq_iff, ap, ◌∙◌,
}
use my_stest.CredentialCache
use my_stest.World.Calls.{Ptr, JString, got_chars, Env, Trace}
use my_stest.World.State.{CredentialTuple, CredentialCache, State, Run, ok, update}
use my_stest.World.Jni.{get_string_utf_chars, release_string_utf_chars}
use my_stest.JniHelper.Credentials.{put_credential, remove_credential}
use my_stest.CredentialCache.Laws.{get-put, get-remove}
use my_stest.SambaClient.Auth.{AuthBuffers, AuthSizes, auth_key, get_auth_data}
use my_stest.SambaClient.AuthLaws.{
  IsCTuple, Owns, refuses, credential, FilledAll, get_auth_data_lem,
}
use my_stest.JniHelper.Balance.{Balanced}

abbrev pub tuple_of : JString → JString → JString → CredentialTuple
tuple_of w u p = record { workgroup = w.chars; username = u.chars; password = p.chars }

-- The return of a method on a cache: the caches are `caches`, `credentialCache_` is as before, and
-- each string was released as often as it was got.
pub record Returns (s : State) (run : Run (Unit {0})) (caches : Ptr → Option CredentialCache)
    : Type 0 where
  pub after : State
  pub runs : run ≡ ok tt after
  pub stored : after.caches ≡ caches
  pub same_global : after.credential_cache ≡ s.credential_cache
  pub balanced : Balanced s after

returned :
    {s t : State} (caches : Ptr → Option CredentialCache)
    → t.caches ≡ caches
    → t.credential_cache ≡ s.credential_cache
    → Balanced s t
    → Returns s (ok tt t) caches
returned {t} caches p q b = record {
  after = t;
  runs = refl;
  stored = p;
  same_global = q;
  balanced = b;
}

clash : {b : Bool} → b ≡ true → b ≡ false → ⊥
clash p q = cc

module _ (env : Env) (s : State) (pointer : Ptr) {cache : CredentialCache}
    (held : s.caches pointer ≡ some cache) where
  -- `putCredential` on a live cache returns, whichever of the four strings JNI gives the bytes of,
  -- and releases each string as often as it got it. With all four it puts the tuple under the path
  -- in that cache and changes no other cache; without one of them no cache changes.
  -- `credentialCache_` is as before.
  pub put_credential_lem :
      (uri w u p : JString)
      → let t = got_chars uri true ∷ s.trace in
        let t' = got_chars w true ∷ t in
        let t'' = got_chars u true ∷ t' in
        let all =
          env.get_string_utf_chars s.trace uri
          && (env.get_string_utf_chars t w
              && (env.get_string_utf_chars t' u && env.get_string_utf_chars t'' p)) in
        Returns s (put_credential pointer uri w u p env s) (
          if all
          then update s.caches pointer (some (CredentialCache.put cache uri.chars (tuple_of w u p)))
          else s.caches)
  unfolding put_credential get_string_utf_chars release_string_utf_chars
  put_credential_lem uri w u p =
      let t = got_chars uri true ∷ s.trace in
      let t' = got_chars w true ∷ t in
      let t'' = got_chars u true ∷ t' in
      elim (Bool-cases (env.get_string_utf_chars s.trace uri)) [
        | inr e ↦ rw e (returned s.caches refl refl (λ r. ground arith))
        | inl e ↦ rw e (elim (Bool-cases (env.get_string_utf_chars t w)) [
          | inr f ↦ rw f (returned s.caches refl refl (λ r. ground arith))
          | inl f ↦ rw f (elim (Bool-cases (env.get_string_utf_chars t' u)) [
            | inr g ↦ rw g (returned s.caches refl refl (λ r. ground arith))
            | inl g ↦ rw g (elim (Bool-cases (env.get_string_utf_chars t'' p)) [
              | inr h ↦ rw h (returned s.caches refl refl (λ r. ground arith))
              | inl h ↦ rw h (rw held (returned _ refl refl (λ r. ground arith)))
            ])
          ])
        ])
      ]

  -- The caches and the events of `removeCredential` on a live cache.
  pub remove_credential-caches :
      (uri : JString)
      → let got = env.get_string_utf_chars s.trace uri in
        (after : State) × (remove_credential pointer uri env s ≡ ok tt after)
        × (after.caches ≡ (
            if got
            then update s.caches pointer (some (CredentialCache.remove cache uri.chars))
            else s.caches))
        × (after.trace ≡ got_chars uri got ∷ s.trace)
  unfolding remove_credential get_string_utf_chars
  remove_credential-caches uri = elim (Bool-cases (env.get_string_utf_chars s.trace uri)) [
    | inl e ↦ rw e (rw held (_, refl, refl, refl))
    | inr e ↦ rw e (_, refl, refl, refl)
  ]

  -- `removeCredential` on a live cache: if JNI gives the bytes of the path, the pointer is then a
  -- cache that answers the empty tuple for the path and for every other key what the cache answered
  -- before, and no other cache has changed; if not, no cache has. Its only event is the getting of
  -- the bytes: it never releases them.
  pub remove_credential_lem :
      (uri : JString)
      → let got = env.get_string_utf_chars s.trace uri in
        (after : State) × (left : CredentialCache) × (remove_credential pointer uri env s
          ≡ ok tt after)
        × (after.caches ≡ (if got then update s.caches pointer (some left) else s.caches))
        × ((key : Text)
            → CredentialCache.get left key ≡ (
                if text_eq uri.chars key
                then CredentialCache.empty_tuple
                else CredentialCache.get cache key))
        × (after.trace ≡ got_chars uri got ∷ s.trace)
  remove_credential_lem uri =
      let (after, run, stored, traced) = remove_credential-caches uri in
      (
        after,
        CredentialCache.remove cache uri.chars,
        run,
        stored,
        get-remove cache uri.chars,
        traced,
      )

  -- When `credentialCache_` is the cache, all four strings are given, the path is
  -- `smb://server/share` and the fields fit the buffers, then after `putCredential` the callback
  -- `GetAuthData` for that server and share returns with the three buffers reading as the new
  -- workgroup, user and password.
  pub put_credential-get_auth_data :
      (uri w u p : JString) (server share : Text) (sizes : AuthSizes) (b : AuthBuffers)
      → ((t : Trace) (j : JString) → env.get_string_utf_chars t j ≡ true)
      → s.credential_cache ≡ pointer
      → uri.chars ≡ auth_key server share
      → IsCTuple (tuple_of w u p)
      → Owns sizes b
      → refuses sizes (tuple_of w u p) ≡ false
      → (after : State) × (put_credential pointer uri w u p env s ≡ ok tt after)
        × (filled : AuthBuffers) × (get_auth_data server share sizes b env after ≡ ok filled after)
        × FilledAll b filled (tuple_of w u p)
  put_credential-get_auth_data uri w u p server share sizes b given global key c o fits =
      let d = put_credential_lem uri w u p in
      let t = tuple_of w u p in
      let new = CredentialCache.put cache uri.chars t in
      let stored : d.after.caches ≡ update s.caches pointer (some new) =
        d.stored ∙ rw (given, given, given, given) in
      let self : (pointer == pointer) ≡ true = ground arith in
      let found : d.after.caches d.after.credential_cache ≡ some new =
        ap (λ f. f d.after.credential_cache) stored ∙ simp (d.same_global, global, self) in
      let answer : credential new server share ≡ t =
        get-put cache uri.chars (auth_key server share) t
        ∙ rw ((text_eq_iff uri.chars (auth_key server share)).1 key) in
      let (filled, run, end) = get_auth_data_lem env found server share sizes b (rw answer c) o in
      (
        d.after,
        d.runs,
        filled,
        run,
        elim end [
          | inl (e, same) ↦ absurd (clash e (rw answer fits))
          | inr (e, all) ↦ rw answer at all
        ],
      )
