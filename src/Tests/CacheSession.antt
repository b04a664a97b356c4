-- ===== src/Tests/CacheSession.antt =====
-- Two puts and a removal on one cache.
use my_stest.Base.{◌≡◌, refl, ◌≢◌, some, List, [], ◌∷◌, Text, bytes}
use my_stest.CredentialCache
use my_stest.CredentialCache.Laws.{last_change}
use my_stest.World.Calls.{Ptr}
use my_stest.World.State.{CredentialCache, State, ok}
use my_stest.JniHelper.CacheSession.{
  CacheCall, put_call, remove_call, perform_calls, changes_of, perform_calls_lem,
}
use my_stest.Tests.Setting.{success, serving, start, jstring}

abbrev calls : List CacheCall
calls =
    put_call (jstring 1 (bytes "smb://h/s")) (jstring 2 (bytes "w")) (jstring 3 (bytes "u"))
      (jstring 4 (bytes "p"))
    ∷ put_call (jstring 1 (bytes "smb://h/t")) (jstring 2 (bytes "w")) (jstring 3 (bytes "v"))
        (jstring 4 (bytes "q"))
    ∷ remove_call (jstring 1 (bytes "smb://h/s"))
    ∷ []

perform_calls_lem_example :
    (after : State) × (perform_calls 4 calls (serving success) start ≡ ok tt after)
    × (final : CredentialCache) × (after.caches 4 ≡ some final)
    × ((key : Text)
        → CredentialCache.get final key
          ≡ last_change key (CredentialCache.get CredentialCache.empty key) (changes_of calls))
    × ((q : Ptr) → q ≢ 4 → after.caches q ≡ start.caches q)
perform_calls_lem_example =
    perform_calls_lem (serving success) (λ _ _. refl) 4 calls start CredentialCache.empty refl
