-- ===== src/JniHelper/CacheSession.antt =====
-- Sequences of `putCredential` and `removeCredential` (jni_helper/JniHelper.cc) on one cache,
-- against the answers of the cache (credential_cache/CredentialCache.cc).
use my_stest.Base.{◌≡◌, refl, ◌∙◌, ◌≢◌, true, false, some, List, [], ◌∷◌, Text, arith, ap, ◌==◌}
use my_stest.CredentialCache
use my_stest.CredentialCache.Laws.{
  Change, putting, removing, apply, apply_all, last_change, get-apply_all,
}
use my_stest.World.Calls.{Ptr, JString, Trace, Env}
use my_stest.World.State.{CredentialCache, State, ok, Cmd, pure, ◌>>◌, update}
use my_stest.JniHelper.Credentials.{put_credential, remove_credential}
use my_stest.JniHelper.CredentialLaws.{tuple_of, put_credential_lem, remove_credential-caches}

-- A call of Java on its cache.
pub data CacheCall : Type 0 where
  put_call : JString → JString → JString → JString → CacheCall
  remove_call : JString → CacheCall

abbrev pub perform_call : Ptr → CacheCall → Cmd (Unit {0})
perform_call pointer (put_call uri w u p) = put_credential pointer uri w u p
perform_call pointer (remove_call uri) = remove_credential pointer uri

abbrev pub perform_calls : Ptr → List CacheCall → Cmd (Unit {0})
perform_calls pointer [] = pure tt
perform_calls pointer (q ∷ qs) = do perform_call pointer q; perform_calls pointer qs

-- The change that a call stands for.
abbrev pub change_of : CacheCall → Change
change_of (put_call uri w u p) = putting uri.chars (tuple_of w u p)
change_of (remove_call uri) = removing uri.chars

abbrev pub changes_of : List CacheCall → List Change
changes_of [] = []
changes_of (q ∷ qs) = change_of q ∷ changes_of qs

module _ (env : Env) (given : (t : Trace) (j : JString) → env.get_string_utf_chars t j ≡ true)
    (pointer : Ptr) where
  perform_call_lem :
      (q : CacheCall) (s : State) (cache : CredentialCache)
      → s.caches pointer ≡ some cache
      → (after : State) × (perform_call pointer q env s ≡ ok tt after)
        × (after.caches ≡ update s.caches pointer (some (apply cache (change_of q))))
  perform_call_lem (put_call uri w u p) s cache held =
      let d = put_credential_lem env s pointer held uri w u p in
      (d.after, d.runs, d.stored ∙ rw (given, given, given, given))
  perform_call_lem (remove_call uri) s cache held =
      let (after, run, stored, _) = remove_credential-caches env s pointer held uri in
      (after, run, stored ∙ rw given)

  perform_calls-stored :
      (qs : List CacheCall) (s : State) (cache : CredentialCache)
      → s.caches pointer ≡ some cache
      → (after : State) × (perform_calls pointer qs env s ≡ ok tt after)
        × (after.caches pointer ≡ some (apply_all cache (changes_of qs)))
        × ((q : Ptr) → q ≢ pointer → after.caches q ≡ s.caches q)
  perform_calls-stored [] s cache held = (s, refl, held, λ q h. refl)
  perform_calls-stored (q ∷ qs) s cache held =
      let (t, run, stored) = perform_call_lem q s cache held in
      let self : (pointer == pointer) ≡ true = ground arith in
      let now : t.caches pointer ≡ some (apply cache (change_of q)) =
        ap (λ f. f pointer) stored ∙ rw self in
      let (after, runs, end, others) = perform_calls-stored qs t (apply cache (change_of q)) now in
      (
        after,
        rw run runs,
        end,
        λ o h.
            let apart : (o == pointer) ≡ false = ground arith in
            others o h ∙ (ap (λ f. f o) stored ∙ rw apart),
      )

  -- When the JVM gives the bytes of every string, any sequence of `putCredential` and
  -- `removeCredential` on a live cache returns; then each key answers what its last change left, or
  -- what it answered before if the sequence does not name it, and all other caches are as before.
  pub perform_calls_lem :
      (qs : List CacheCall) (s : State) (cache : CredentialCache)
      → s.caches pointer ≡ some cache
      → (after : State) × (perform_calls pointer qs env s ≡ ok tt after)
        × (final : CredentialCache) × (after.caches pointer ≡ some final)
        × ((key : Text)
            → CredentialCache.get final key
              ≡ last_change key (CredentialCache.get cache key) (changes_of qs))
        × ((q : Ptr) → q ≢ pointer → after.caches q ≡ s.caches q)
  perform_calls_lem qs s cache held =
      let (after, run, end, others) = perform_calls-stored qs s cache held in
      (
        after,
        run,
        apply_all cache (changes_of qs),
        end,
        λ key. get-apply_all (changes_of qs) cache key,
        others,
      )
