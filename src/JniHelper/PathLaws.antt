-- ===== src/JniHelper/PathLaws.antt =====
-- What the path methods of jni_helper/JniHelper.cc do, on every branch, in a healthy JVM over a
-- libsmbclient that sets `errno`.
use my_stest.Base.{
  pos, negsuc, ◌≡◌, refl, ap, true, false, none, some, [], ◌∷◌, ◌++◌, bytes, Bool-cases, inl, inr,
  if◌then◌else◌, is_negative, neg_int-negative, neg_int-neg_int, Text,
}
use my_stest.World.Calls.{
  Ptr, JString, Trace, called, got_chars, released_chars, Env, smbc_opendir, smbc_stat, smbc_creat,
  smbc_mkdir, smbc_rename, smbc_unlink, smbc_rmdir, smbc_close,
}
use my_stest.World.State.{State, log}
use my_stest.World.Jni.{get_string_utf_chars, release_string_utf_chars}
use my_stest.SambaClient.Files.{default_mode}
use my_stest.SambaClient.Outcomes
use my_stest.SambaClient.Outcomes.{outcome, answered}
use my_stest.JniHelper.Paths
use my_stest.JniHelper.Ready.{
  IsHealthy, SetsErrno, still, IsReady, Does, Does-trace, Does-pure, Does-bind, Does-after,
  SameMemory, essential,
}
use my_stest.JniHelper.Policies.{
  open_dir_policy, stat_policy, create_file_policy, mkdir_policy, unlink_policy, rmdir_policy,
  rename_policy,
}
use my_stest.JniHelper.Throws.{switch-Does-eperm, switch-Does-eacces}
use my_stest.JniHelper.Made.{stat_object, create_structstat-Does}
use my_stest.JniHelper.Tail.{raised, path_events, tail-Does, path-Does}

-- The state after `CreateFile`, whether it closed the file or not.
created-facts :
    (env : Env) (s : State) (url : Text)
    → IsReady s
    → (tail rest : Trace) → essential s.trace ≡ tail ++ rest
    → let t = Outcomes.created env s url in
      let c = smbc_creat url default_mode in
      let r = env.reply s.trace c in
      let d = smbc_close r.result in
      let closed : Trace =
        if is_negative r.result then [] else called d (env.reply (called c r ∷ s.trace) d) ∷ [] in
      IsReady t × (essential t.trace ≡ (closed ++ called c r ∷ tail) ++ rest) × SameMemory s t
created-facts env s url h tail rest before =
    let c = smbc_creat url default_mode in
    let r = env.reply s.trace c in
    let d = smbc_close r.result in
    elim (Bool-cases (is_negative (env.reply s.trace (smbc_creat url default_mode)).result)) [
      | inl e ↦ rw e (
        still h,
        ap (λ u. called c r ∷ u) before,
        record { caches = refl; clients = refl; credential_cache = refl },
      )
      | inr e ↦ rw e (
        still h,
        ap (λ u. called d (env.reply (called c r ∷ s.trace) d) ∷ called c r ∷ u) before,
        record { caches = refl; clients = refl; credential_cache = refl },
      )
    ]

module _ {env : Env} (healthy : IsHealthy env) (sets : SetsErrno env) {s : State}
    (ready : IsReady s) where
  -- In a JVM that finds all classes and constructors and has memory for every object, over a
  -- libsmbclient that leaves a positive error number whenever it reports a failure, from a state
  -- whose cached class references and method ids are right: `openDir` gets the bytes of the path.
  -- Without them it does no more and returns -1. With them it makes one call of `smbc_opendir`,
  -- throws if and only if that failed (FileNotFoundException for ENODEV and ENOENT,
  -- AuthFailedException for EACCES and EPERM, ErrnoException with the method's name and the error
  -- number else), then gives the bytes back, and returns the descriptor, or minus the error
  -- number.
  pub open_dir_lem :
      (pointer : Ptr) (uri : JString)
      → let c = smbc_opendir uri.chars in
        let r = env.reply (got_chars uri true ∷ s.trace) c in
        let p = open_dir_policy uri.chars in
        let got = env.get_string_utf_chars s.trace uri in
        Does s
          (Paths.open_dir pointer uri env s)
          (if got then outcome r r.result else negsuc 0)
          (if got then path_events uri c r p else got_chars uri false ∷ [])
  unfolding Paths.open_dir get_string_utf_chars release_string_utf_chars
  open_dir_lem pointer uri = elim (Bool-cases (env.get_string_utf_chars s.trace uri)) [
    | inl e ↦
        rw (e, Outcomes.open_dir_lem)
          (path-Does sets ready uri _ _ (open_dir_policy uri.chars)
            (Paths.open_dir_failed uri.chars) _ (switch-Does-eperm healthy _ _) (λ n. n))
    | inr e ↦ rw e (Does-trace _ ready refl)
  ]

  -- In a JVM that finds all classes and constructors and has memory for every object, over a
  -- libsmbclient that leaves a positive error number whenever it reports a failure, from a state
  -- whose cached class references and method ids are right: `mkdir` gets the bytes of the path.
  -- Without them it does no more. With them it makes one call of `smbc_mkdir`, throws if and only
  -- if that failed (FileNotFoundException for ENODEV and ENOENT, AuthFailedException for EACCES,
  -- ErrnoException with the method's name and the error number else), then gives the bytes back.
  pub mkdir_lem :
      (pointer : Ptr) (uri : JString)
      → let c = smbc_mkdir uri.chars default_mode in
        let r = env.reply (got_chars uri true ∷ s.trace) c in
        let p = mkdir_policy uri.chars in
        let got = env.get_string_utf_chars s.trace uri in
        Does s
          (Paths.mkdir pointer uri env s)
          tt
          (if got then path_events uri c r p else got_chars uri false ∷ [])
  unfolding Paths.mkdir get_string_utf_chars release_string_utf_chars
  mkdir_lem pointer uri = elim (Bool-cases (env.get_string_utf_chars s.trace uri)) [
    | inl e ↦
        rw (e, Outcomes.mkdir_lem)
          (path-Does sets ready uri _ _ (mkdir_policy uri.chars) (Paths.mkdir_failed uri.chars) _
            (switch-Does-eacces healthy _ _) (λ n. n))
    | inr e ↦ rw e (Does-trace _ ready refl)
  ]

  -- In a JVM that finds all classes and constructors and has memory for every object, over a
  -- libsmbclient that leaves a positive error number whenever it reports a failure, from a state
  -- whose cached class references and method ids are right: `unlink` gets the bytes of the path.
  -- Without them it does no more. With them it makes one call of `smbc_unlink`, throws if and only
  -- if that failed (FileNotFoundException for ENODEV and ENOENT, AuthFailedException for EACCES
  -- and EPERM, ErrnoException with the method's name and the error number else), then gives the
  -- bytes back.
  pub unlink_lem :
      (pointer : Ptr) (uri : JString)
      → let c = smbc_unlink uri.chars in
        let r = env.reply (got_chars uri true ∷ s.trace) c in
        let p = unlink_policy uri.chars in
        let got = env.get_string_utf_chars s.trace uri in
        Does s
          (Paths.unlink pointer uri env s)
          tt
          (if got then path_events uri c r p else got_chars uri false ∷ [])
  unfolding Paths.unlink get_string_utf_chars release_string_utf_chars
  unlink_lem pointer uri = elim (Bool-cases (env.get_string_utf_chars s.trace uri)) [
    | inl e ↦
        rw (e, Outcomes.unlink_lem)
          (path-Does sets ready uri _ _ (unlink_policy uri.chars) (Paths.unlink_failed uri.chars) _
            (switch-Does-eperm healthy _ _) (λ n. n))
    | inr e ↦ rw e (Does-trace _ ready refl)
  ]

  -- In a JVM that finds all classes and constructors and has memory for every object, over a
  -- libsmbclient that leaves a positive error number whenever it reports a failure, from a state
  -- whose cached class references and method ids are right: `rmdir` gets the bytes of the path.
  -- Without them it does no more. With them it makes one call of `smbc_rmdir`, throws if and only
  -- if that failed (FileNotFoundException for ENODEV and ENOENT, AuthFailedException for EACCES
  -- and EPERM, ErrnoException with the method's name and the error number else), then gives the
  -- bytes back.
  pub rmdir_lem :
      (pointer : Ptr) (uri : JString)
      → let c = smbc_rmdir uri.chars in
        let r = env.reply (got_chars uri true ∷ s.trace) c in
        let p = rmdir_policy uri.chars in
        let got = env.get_string_utf_chars s.trace uri in
        Does s
          (Paths.rmdir pointer uri env s)
          tt
          (if got then path_events uri c r p else got_chars uri false ∷ [])
  unfolding Paths.rmdir get_string_utf_chars release_string_utf_chars
  rmdir_lem pointer uri = elim (Bool-cases (env.get_string_utf_chars s.trace uri)) [
    | inl e ↦
        rw (e, Outcomes.rmdir_lem)
          (path-Does sets ready uri _ _ (rmdir_policy uri.chars) (Paths.rmdir_failed uri.chars) _
            (switch-Does-eperm healthy _ _) (λ n. n))
    | inr e ↦ rw e (Does-trace _ ready refl)
  ]

  -- In a JVM that finds all classes and constructors and has memory for every object, over a
  -- libsmbclient that leaves a positive error number whenever it reports a failure, from a state
  -- whose cached class references and method ids are right: `createFile` gets the bytes of the
  -- path. Without them it does no more. With them it calls `smbc_creat` and, if that worked,
  -- `smbc_close` on the descriptor. It throws if and only if `smbc_creat` failed (EACCES alone is
  -- a refused login), whatever `smbc_close` says, and then gives the bytes back.
  pub create_file_lem :
      (pointer : Ptr) (uri : JString)
      → let t = got_chars uri true ∷ s.trace in
        let c = smbc_creat uri.chars default_mode in
        let r = env.reply t c in
        let d = smbc_close r.result in
        let closed =
          if is_negative r.result then [] else called d (env.reply (called c r ∷ t) d) ∷ [] in
        let got = env.get_string_utf_chars s.trace uri in
        Does s (Paths.create_file pointer uri env s) tt (
          if got
          then released_chars uri
            ∷ (raised (create_file_policy uri.chars) r
                ++ (closed ++ called c r ∷ got_chars uri true ∷ []))
          else got_chars uri false ∷ [])
  unfolding Paths.create_file get_string_utf_chars release_string_utf_chars
  create_file_lem pointer uri = elim (Bool-cases (env.get_string_utf_chars s.trace uri)) [
    | inl e ↦
        let got = log (got_chars uri true) s in
        let c = smbc_creat uri.chars default_mode in
        let r = env.reply got.trace c in
        let d = smbc_close r.result in
        let closed : Trace =
          if is_negative r.result
          then []
          else called d (env.reply (called c r ∷ got.trace) d) ∷ [] in
        let (ready', traced, kept) =
          created-facts env got uri.chars (still ready) (got_chars uri true ∷ [])
            (essential s.trace) refl in
        rw (e, Outcomes.create_file_lem)
          (tail-Does sets {s = s} got (closed ++ called c r ∷ got_chars uri true ∷ [])
            (released_chars uri ∷ []) c (pos 0) (create_file_policy uri.chars)
            (Paths.create_file_failed uri.chars) tt (switch-Does-eacces healthy _ _) (λ _. refl)
            ready' traced (λ _. refl)
            (record {
              caches = kept.caches;
              clients = kept.clients;
              credential_cache = kept.credential_cache;
            }))
    | inr e ↦ rw e (Does-trace _ ready refl)
  ]

  -- In a JVM that finds all classes and constructors and has memory for every object, over a
  -- libsmbclient that leaves a positive error number whenever it reports a failure, from a state
  -- whose cached class references and method ids are right: `rename` gets the bytes of both paths.
  -- If either is missing it does no more than to give back the first. With both it makes one call
  -- of `smbc_rename`, throws if and only if that failed (EACCES and EPERM are a refused login),
  -- and gives back both.
  pub rename_lem :
      (pointer : Ptr) (uri nuri : JString)
      → let t = got_chars nuri true ∷ got_chars uri true ∷ s.trace in
        let c = smbc_rename uri.chars nuri.chars in
        let r = env.reply t c in
        let got = env.get_string_utf_chars s.trace uri in
        let also = env.get_string_utf_chars (got_chars uri true ∷ s.trace) nuri in
        Does s (Paths.rename pointer uri nuri env s) tt (
          if got
          then (if also
              then released_chars uri
                ∷ released_chars nuri
                ∷ (raised (rename_policy uri.chars nuri.chars) r
                    ++ called c r ∷ got_chars nuri true ∷ got_chars uri true ∷ [])
              else released_chars uri ∷ got_chars nuri false ∷ got_chars uri true ∷ [])
          else got_chars uri false ∷ [])
  unfolding Paths.rename get_string_utf_chars release_string_utf_chars
  rename_lem pointer uri nuri = elim (Bool-cases (env.get_string_utf_chars s.trace uri)) [
    | inr e ↦ rw e (Does-trace _ ready refl)
    | inl e ↦
        rw e (elim (Bool-cases (env.get_string_utf_chars (got_chars uri true ∷ s.trace) nuri)) [
          | inr f ↦ rw f (Does-trace _ ready refl)
          | inl f ↦
              let got = log (got_chars nuri true) (log (got_chars uri true) s) in
              let c = smbc_rename uri.chars nuri.chars in
              rw (f, Outcomes.rename_lem)
                (tail-Does sets got
                  (called c (env.reply got.trace c) ∷ got_chars nuri true ∷ got_chars uri true ∷ [])
                  (released_chars uri ∷ released_chars nuri ∷ []) c (env.reply got.trace c).result
                  (rename_policy uri.chars nuri.chars) (Paths.rename_failed uri.chars nuri.chars) tt
                  (switch-Does-eperm healthy _ _) (λ n. n) (still ready) refl (λ _. refl)
                  (record { caches = refl; clients = refl; credential_cache = refl }))
        ])
  ]

  -- In a JVM that finds all classes and constructors and has memory for every object, over a
  -- libsmbclient that leaves a positive error number whenever it reports a failure, from a state
  -- whose cached class references and method ids are right: `stat` gets the bytes of the path.
  -- Without them it returns null and does no more. With them it makes one call of `smbc_stat`, and
  -- gives the bytes back. If the call failed it throws (EACCES alone is a refused login) and
  -- returns null, and else it returns the object of the fields.
  pub stat_lem :
      (pointer : Ptr) (uri : JString)
      → let c = smbc_stat uri.chars in
        let r = env.reply (got_chars uri true ∷ s.trace) c in
        let got = env.get_string_utf_chars s.trace uri in
        Does s
          (Paths.stat pointer uri env s)
          (if got
            then (if is_negative r.result then none else some (stat_object r.status))
            else none)
          (if got then path_events uri c r (stat_policy uri.chars) else got_chars uri false ∷ [])
  unfolding Paths.stat get_string_utf_chars release_string_utf_chars
  stat_lem pointer uri = elim (Bool-cases (env.get_string_utf_chars s.trace uri)) [
    | inr e ↦ rw e (Does-trace _ ready refl)
    | inl e ↦
        let got = log (got_chars uri true) s in
        let c = smbc_stat uri.chars in
        let r = env.reply got.trace c in
        rw (e, Outcomes.stat_lem)
          (elim (Bool-cases (is_negative r.result)) [
            | inl n ↦
                let small = sets.on_negative got.trace c n in
                rw (n, neg_int-negative _ small, neg_int-neg_int _ small)
                  (Does-after (called c r ∷ got_chars uri true ∷ [])
                    (Does-bind {more = released_chars uri ∷ []} _
                      (Does-bind {more = []} _
                        (switch-Does-eacces healthy (bytes "stat")
                          (bytes "Can't find " ++ uri.chars) r.error (answered env got c)
                          (still ready))
                        λ u h. Does-pure none h)
                      λ u h. Does-trace _ h refl)
                    refl (record { caches = refl; clients = refl; credential_cache = refl }))
            | inr n ↦ rw n (
                Does-after (called c r ∷ got_chars uri true ∷ [])
                  (Does-bind {more = released_chars uri ∷ []} _
                    (create_structstat-Does healthy r.status (answered env got c) (still ready))
                    λ u h. Does-trace _ h refl)
                  refl (record { caches = refl; clients = refl; credential_cache = refl }))
          ])
  ]
