-- ===== src/JniHelper/OpenLaws.antt =====
-- What `openFile` (jni_helper/JniHelper.cc) does, on every branch, in a healthy JVM over a
-- libsmbclient that sets `errno`.
use my_stest.Base.{
  HasNoNul, ℤ, pos, negsuc, refl, true, false, [], ◌∷◌, ◌++◌, bytes, Bool-cases, inl, inr,
  if◌then◌else◌, neg_int, Text, is_negative, append_assoc,
}
use my_stest.World.Calls.{Ptr, JString, Trace, called, got_chars, released_chars, Env, smbc_open}
use my_stest.World.State.{State, log, ok, pure, and_then}
use my_stest.World.Jni.{get_string_utf_chars, release_string_utf_chars}
use my_stest.SambaClient.Outcomes
use my_stest.SambaClient.Outcomes.{outcome, answered}
use my_stest.JniHelper.OpenFile.{open_file, open_file_failed, open_with}
use my_stest.JniHelper.Modes.{access, access_flag, mode_flag-access}
use my_stest.JniHelper.Policies.{open_file_policy}
use my_stest.JniHelper.Ready.{
  IsHealthy, SetsErrno, still, IsReady, Does, Does-trace, Does-bind, Does-after,
}
use my_stest.JniHelper.Throws.{thrown, errno_exception, switch-Does-eacces}
use my_stest.JniHelper.Tail.{raised, tail-Does, Follows}

-- The value and the events of `openFile` behind the two strings, by the flag.
abbrev pub opened_value : Env → Trace → Text → ℤ → ℤ
opened_value env t uri (pos flag) = let r = env.reply t (smbc_open uri flag 0) in outcome r r.result
opened_value env t uri (negsuc n) = negsuc 0

abbrev pub opened_events : Env → Trace → Text → ℤ → Trace
opened_events env t uri (pos flag) =
    let c = smbc_open uri flag 0 in
    let r = env.reply t c in raised (open_file_policy uri) r ++ called c r ∷ []
opened_events env t uri (negsuc n) = thrown (errno_exception (bytes "openFile") (pos 1)) ∷ []

module _ {env : Env} (healthy : IsHealthy env) (sets : SetsErrno env) {s : State}
    (ready : IsReady s) where
  failed-Follows : (uri : Text) → Follows env (open_file_policy uri) (open_file_failed uri)
  unfolding open_file_failed
  failed-Follows uri = switch-Does-eacces healthy _ _

  -- `openFile` behind the mode's flag.
  flagged-Does :
      (uri mode : JString) (flag : ℤ)
      → let got = log (got_chars mode true) (log (got_chars uri true) s) in
        Does s
          (and_then (open_with uri.chars flag env got) λ fd t.
            and_then
              ((if is_negative fd then open_file_failed uri.chars (neg_int fd) else pure tt) env t)
              λ _ u.
                ok fd (record u { trace = released_chars mode ∷ released_chars uri ∷ u.trace }))
          (opened_value env got.trace uri.chars flag)
          (released_chars mode
            ∷ released_chars uri
            ∷ (opened_events env got.trace uri.chars flag
                ++ got_chars mode true ∷ got_chars uri true ∷ []))
  unfolding open_with
  flagged-Does uri mode (pos flag) =
      let got = log (got_chars mode true) (log (got_chars uri true) s) in
      let c = smbc_open uri.chars flag 0 in
      let r = env.reply got.trace c in
      rw (Outcomes.open_file_lem, append_assoc)
        (tail-Does sets got (called c r ∷ got_chars mode true ∷ got_chars uri true ∷ [])
          (released_chars mode ∷ released_chars uri ∷ []) c r.result (open_file_policy uri.chars)
          (open_file_failed uri.chars) _ (failed-Follows uri.chars) (λ n. n) (still ready) refl
          (λ _. refl) (record { caches = refl; clients = refl; credential_cache = refl }))
  flagged-Does uri mode (negsuc n) =
      unfold neg_int in
      Does-after (got_chars mode true ∷ got_chars uri true ∷ [])
        (Does-bind {more = released_chars mode ∷ released_chars uri ∷ []} _
          (failed-Follows uri.chars (pos 1) (log (got_chars mode true) (log (got_chars uri true) s))
            (still ready))
          λ u h. Does-trace _ h refl)
        refl (record { caches = refl; clients = refl; credential_cache = refl })

  -- In a JVM that finds all classes and constructors and has memory for every object, over a
  -- libsmbclient that leaves a positive error number whenever it reports a failure, from a state
  -- whose cached class references and method ids are right, for a mode string without a NUL byte:
  -- `openFile` gets the bytes of the path and of the mode. Without either it returns -1, gives
  -- back what it got and does no more. With both, a mode of the table opens the file by one call
  -- of `smbc_open` with the table's flag, and throws if and only if that failed (EACCES alone is a
  -- refused login); any other mode throws the ErrnoException of error number 1, with no call of
  -- libsmbclient. Both strings are given back, and the result is the descriptor or minus the error
  -- number.
  pub open_file_lem :
      (pointer : Ptr) (uri mode : JString)
      → HasNoNul mode.chars
      → let t = got_chars mode true ∷ got_chars uri true ∷ s.trace in
        let flag = access_flag (access mode.chars) in
        let got = env.get_string_utf_chars s.trace uri in
        let also = env.get_string_utf_chars (got_chars uri true ∷ s.trace) mode in
        Does s
          (open_file pointer uri mode env s)
          (if got then (if also then opened_value env t uri.chars flag else negsuc 0) else negsuc 0)
          (if got
            then (if also
                then released_chars mode
                  ∷ released_chars uri
                  ∷ (opened_events env t uri.chars flag
                      ++ got_chars mode true ∷ got_chars uri true ∷ [])
                else released_chars uri ∷ got_chars mode false ∷ got_chars uri true ∷ [])
            else got_chars uri false ∷ [])
  unfolding open_file get_string_utf_chars release_string_utf_chars
  open_file_lem pointer uri mode plain = elim (Bool-cases (env.get_string_utf_chars s.trace uri)) [
    | inr e ↦ rw e (Does-trace _ ready refl)
    | inl e ↦
        rw e (elim (Bool-cases (env.get_string_utf_chars (got_chars uri true ∷ s.trace) mode)) [
          | inr f ↦ rw f (Does-trace _ ready refl)
          | inl f ↦
              rw (f, mode_flag-access mode.chars env _ plain)
                (flagged-Does uri mode (access_flag (access mode.chars)))
        ])
  ]
