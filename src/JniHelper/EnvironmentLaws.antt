-- ===== src/JniHelper/EnvironmentLaws.antt =====
-- What `SambaConfiguration.setEnv` (jni_helper/JniHelper.cc) does, on every branch, in a healthy
-- JVM.
use my_stest.Base.{
  refl, true, false, [], ◌∷◌, ◌++◌, bytes, Bool-cases, inl, inr, if◌then◌else◌, is_negative,
}
use my_stest.World.Calls.{JString, called, got_chars, released_chars, Env, setenv}
use my_stest.World.State.{State, log}
use my_stest.World.Jni.{get_string_utf_chars, release_string_utf_chars}
use my_stest.World.Libc.{call}
use my_stest.SambaClient.Outcomes.{answered}
use my_stest.JniHelper.Credentials.{set_env}
use my_stest.JniHelper.HandleLaws.{errno_raised}
use my_stest.JniHelper.Ready.{IsHealthy, still, IsReady, Does, Does-trace, Does-bind, Does-after}
use my_stest.JniHelper.Throws.{errno-Does}

module _ {env : Env} (healthy : IsHealthy env) {s : State} (ready : IsReady s) where
  -- In a JVM that finds all classes and constructors and has memory for every object, from a state
  -- whose cached class references and method ids are right: `setEnv` gets the bytes of the
  -- variable's name and of its value. Without the name it does no more, without the value it gives
  -- back the name. With both it calls `setenv` once, throws the ErrnoException with the error
  -- number if and only if that failed, and gives back the name but never the value.
  pub set_env_lem :
      (var value : JString)
      → let c = setenv var.chars value.chars true in
        let r = env.reply (got_chars value true ∷ got_chars var true ∷ s.trace) c in
        let got = env.get_string_utf_chars s.trace var in
        let also = env.get_string_utf_chars (got_chars var true ∷ s.trace) value in
        Does s (set_env var value env s) tt (
          if got
          then (if also
              then released_chars var
                ∷ (errno_raised (bytes "setEnv") r
                    ++ called c r ∷ got_chars value true ∷ got_chars var true ∷ [])
              else released_chars var ∷ got_chars value false ∷ got_chars var true ∷ [])
          else got_chars var false ∷ [])
  unfolding set_env get_string_utf_chars release_string_utf_chars call
  set_env_lem var value = elim (Bool-cases (env.get_string_utf_chars s.trace var)) [
    | inr e ↦ rw e (Does-trace _ ready refl)
    | inl e ↦
        rw e (elim (Bool-cases (env.get_string_utf_chars (got_chars var true ∷ s.trace) value)) [
          | inr f ↦ rw f (Does-trace _ ready refl)
          | inl f ↦
              let got = log (got_chars value true) (log (got_chars var true) s) in
              let c = setenv var.chars value.chars true in
              let r = env.reply got.trace c in
              rw f (elim (Bool-cases (is_negative r.result)) [
                | inr n ↦ rw n (Does-trace _ ready refl)
                | inl n ↦ rw n (
                    Does-after (called c r ∷ got_chars value true ∷ got_chars var true ∷ [])
                      (Does-bind {more = released_chars var ∷ []} _
                        (errno-Does healthy (bytes "setEnv") r.error (answered env got c)
                          (still ready))
                        λ u h. Does-trace _ h refl)
                      refl (record { caches = refl; clients = refl; credential_cache = refl }))
              ])
        ])
  ]
