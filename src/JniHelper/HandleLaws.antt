-- ===== src/JniHelper/HandleLaws.antt =====
-- What the native methods of `SambaDir` and `SambaFile` (jni_helper/JniHelper.cc) do, on every
-- branch, in a healthy JVM over a libsmbclient that sets `errno`.
use my_stest.Base.{
  ℕ, ℤ, pos, ◌≡◌, refl, false, Option, none, some, [], ◌∷◌, ◌++◌, Text, bytes, Bool-cases, inl, inr,
  if◌then◌else◌, is_negative, is_code, neg_int, neg_long, to_int32, to_word, IsPositive,
  neg_int-negative, neg_int-neg_int, to_int32-neg_int-neg_int, to_int32-neg_long-neg_int,
}
use my_stest.World.Calls.{
  Ptr, Jobject, Call, Reply, Trace, called, got_buffer, deleted_ref, Env, smbc_readdir,
  smbc_closedir, smbc_fstat, smbc_lseek, smbc_read, smbc_write, smbc_close, Dirent,
}
use my_stest.World.State.{State, ok, Cmd, pure, and_then, log}
use my_stest.World.Jni.{get_direct_buffer_address}
use my_stest.World.Libc.{call}
use my_stest.SambaClient.Outcomes
use my_stest.SambaClient.Outcomes.{outcome, answered}
use my_stest.JniHelper.Handles
use my_stest.JniHelper.Objects.{create_directory_entry, throw_new_errno_exception}
use my_stest.JniHelper.Made.{
  stat_object, entry_object, create_structstat-Does, create_directory_entry-Does,
}
use my_stest.JniHelper.Ready.{
  IsHealthy, SetsErrno, still, IsReady, Does, Does-trace, Does-pure, Does-bind, Does-after,
}
use my_stest.JniHelper.Throws.{thrown, errno_exception, errno-Does}

-- The exception that follows a call on a descriptor, if it failed.
abbrev pub errno_raised : Text → Reply → Trace
errno_raised function r =
    if is_negative r.result then thrown (errno_exception function r.error) ∷ [] else []

-- What `readDir` makes of an entry, and the references that it deletes.
abbrev pub entry_value : Option Dirent → Option Jobject
entry_value none = none
entry_value (some ent) = some (entry_object ent)

abbrev pub entry_events : Option Dirent → Trace
entry_events none = []
entry_events (some ent) = deleted_ref ent.comment ∷ deleted_ref ent.name ∷ []

module _ {env : Env} (healthy : IsHealthy env) (sets : SetsErrno env) {s : State}
    (ready : IsReady s) where
  -- The test of a result on a descriptor. `opposite` is what the method does to a negative one.
  settle_errno-Does :
      (got t : State) (c : Call) (w : ℤ) (function : Text) (opposite : ℤ → ℤ)
      → ((x : ℤ) → IsPositive x → opposite (neg_int x) ≡ x)
      → let r = env.reply got.trace c in
        (is_negative r.result ≡ false → is_negative w ≡ false)
        → IsReady t
        → Does t
            ((if is_negative (outcome r w)
                then throw_new_errno_exception function (opposite (outcome r w))
                else pure tt)
              env t)
            tt
            (errno_raised function r)
  settle_errno-Does got t c w function opposite back fine h =
      elim (Bool-cases (is_negative (env.reply got.trace c).result)) [
        | inl n ↦
            let small = sets.on_negative got.trace c n in
            rw (n, neg_int-negative _ small, back _ small) (errno-Does healthy function _ t h)
        | inr n ↦ rw (n, fine n) (Does-pure tt h)
      ]

  -- The same, then a value.
  settle_value-Does :
      {A : Type 0} (got t : State) (c : Call) (w : ℤ) (function : Text) (opposite : ℤ → ℤ) (v : A)
      → ((x : ℤ) → IsPositive x → opposite (neg_int x) ≡ x)
      → let r = env.reply got.trace c in
        (is_negative r.result ≡ false → is_negative w ≡ false)
        → IsReady t
        → Does t
            (and_then
              ((if is_negative (outcome r w)
                  then throw_new_errno_exception function (opposite (outcome r w))
                  else pure tt)
                env t)
              (λ _ u. ok v u))
            v
            (errno_raised function r)
  settle_value-Does got t c w function opposite v back fine h =
      Does-bind {more = []} _ (settle_errno-Does got t c w function opposite back fine h)
        λ u k. Does-pure v k

  entry-Does :
      (entry : Option Dirent) (t : State)
      → IsReady t
      → Does t
          (let made : Cmd (Option Jobject) = elim entry [
            | none ↦ pure none
            | some ent ↦ create_directory_entry ent
          ] in
            made env t)
          (entry_value entry)
          (entry_events entry)
  entry-Does none t h = Does-pure none h
  entry-Does (some ent) t h = create_directory_entry-Does healthy ent t h

  -- In a JVM that finds all classes and constructors and has memory for every object, over a
  -- libsmbclient that leaves a positive error number whenever it reports a failure, from a state
  -- whose cached class references and method ids are right: `SambaFile.close` makes one call of
  -- `smbc_close`, and throws the ErrnoException with the error number if and only if that failed.
  pub close_file_lem :
      (pointer : Ptr) (fd : ℤ)
      → let c = smbc_close fd in
        let r = env.reply s.trace c in
        Does s
          (Handles.close_file pointer fd env s)
          tt
          (errno_raised (bytes "close") r ++ called c r ∷ [])
  unfolding Handles.close_file
  close_file_lem pointer fd =
      let c = smbc_close fd in
      rw Outcomes.close_file_lem (
        Does-after (called c (env.reply s.trace c) ∷ [])
          (settle_errno-Does s (answered env s c) c (pos 0) (bytes "close") neg_int neg_int-neg_int
            (λ _. refl) (still ready))
          refl (record { caches = refl; clients = refl; credential_cache = refl }))

  -- In a JVM that finds all classes and constructors and has memory for every object, over a
  -- libsmbclient that leaves a positive error number whenever it reports a failure, from a state
  -- whose cached class references and method ids are right: `SambaDir.close` makes one call of
  -- `smbc_closedir`, and throws the ErrnoException with the error number if and only if that did
  -- not return 0.
  pub close_dir_lem :
      (pointer : Ptr) (dh : ℤ)
      → let c = smbc_closedir dh in
        let r = env.reply s.trace c in
        Does s (Handles.close_dir pointer dh env s) tt (
          if is_code r.result 0
          then called c r ∷ []
          else thrown (errno_exception (bytes "close") r.error) ∷ called c r ∷ [])
  unfolding Handles.close_dir call
  close_dir_lem pointer dh =
      let c = smbc_closedir dh in
      elim (Bool-cases (is_code (env.reply s.trace c).result 0)) [
        | inl n ↦ rw n (Does-trace _ ready refl)
        | inr n ↦
            let small = sets.on_closedir s.trace dh n in
            rw (n, neg_int-negative _ small, neg_int-neg_int _ small)
              (Does-after (called c (env.reply s.trace c) ∷ [])
                (errno-Does healthy (bytes "close") _ (answered env s c) (still ready)) refl
                (record { caches = refl; clients = refl; credential_cache = refl }))
      ]

  -- In a JVM that finds all classes and constructors and has memory for every object, over a
  -- libsmbclient that leaves a positive error number whenever it reports a failure, from a state
  -- whose cached class references and method ids are right: `SambaFile.seek` makes one call of
  -- `smbc_lseek` with the offset narrowed to 32 bits, throws if and only if that failed, and
  -- returns the new offset or minus the error number.
  pub seek_lem :
      (pointer : Ptr) (fd offset whence : ℤ)
      → let c = smbc_lseek fd (to_int32 offset) whence in
        let r = env.reply s.trace c in
        Does s
          (Handles.seek pointer fd offset whence env s)
          (outcome r r.result)
          (errno_raised (bytes "seek") r ++ called c r ∷ [])
  unfolding Handles.seek
  seek_lem pointer fd offset whence =
      let c = smbc_lseek fd (to_int32 offset) whence in
      rw Outcomes.seek_file_lem (
        Does-after (called c (env.reply s.trace c) ∷ [])
          (settle_value-Does s (answered env s c) c _ (bytes "seek") (λ x. to_int32 (neg_long x)) _
            to_int32-neg_long-neg_int (λ n. n) (still ready))
          refl (record { caches = refl; clients = refl; credential_cache = refl }))

  -- In a JVM that finds all classes and constructors and has memory for every object, over a
  -- libsmbclient that leaves a positive error number whenever it reports a failure, from a state
  -- whose cached class references and method ids are right: `SambaFile.read` makes one call of
  -- `smbc_read` with the buffer's address and the length as a `size_t`, throws if and only if that
  -- failed, and returns the number of bytes or minus the error number.
  pub read_lem :
      (pointer : Ptr) (fd : ℤ) (buffer_ : ℕ) (maxlen : ℤ)
      → let p = env.get_direct_buffer_address s.trace buffer_ in
        let c = smbc_read fd p (to_word maxlen) in
        let r = env.reply (got_buffer buffer_ p ∷ s.trace) c in
        Does s
          (Handles.read pointer fd buffer_ maxlen env s)
          (outcome r r.result)
          (errno_raised (bytes "read") r ++ called c r ∷ got_buffer buffer_ p ∷ [])
  unfolding Handles.read get_direct_buffer_address
  read_lem pointer fd buffer_ maxlen =
      let p = env.get_direct_buffer_address s.trace buffer_ in
      let got = log (got_buffer buffer_ p) s in
      let c = smbc_read fd p (to_word maxlen) in
      rw Outcomes.read_file_lem (
        Does-after (called c (env.reply got.trace c) ∷ got_buffer buffer_ p ∷ [])
          (settle_value-Does got (answered env got c) c _ (bytes "read") (λ x. to_int32 (neg_int x))
            _ to_int32-neg_int-neg_int (λ n. n) (still ready))
          refl (record { caches = refl; clients = refl; credential_cache = refl }))

  -- In a JVM that finds all classes and constructors and has memory for every object, over a
  -- libsmbclient that leaves a positive error number whenever it reports a failure, from a state
  -- whose cached class references and method ids are right: `SambaFile.write` makes one call of
  -- `smbc_write` with the buffer's address and the length as a `size_t`, throws if and only if
  -- that failed, and returns the number of bytes or minus the error number.
  pub write_lem :
      (pointer : Ptr) (fd : ℤ) (buffer_ : ℕ) (length : ℤ)
      → let p = env.get_direct_buffer_address s.trace buffer_ in
        let c = smbc_write fd p (to_word length) in
        let r = env.reply (got_buffer buffer_ p ∷ s.trace) c in
        Does s
          (Handles.write pointer fd buffer_ length env s)
          (outcome r r.result)
          (errno_raised (bytes "write") r ++ called c r ∷ got_buffer buffer_ p ∷ [])
  unfolding Handles.write get_direct_buffer_address
  write_lem pointer fd buffer_ length =
      let p = env.get_direct_buffer_address s.trace buffer_ in
      let got = log (got_buffer buffer_ p) s in
      let c = smbc_write fd p (to_word length) in
      rw Outcomes.write_file_lem (
        Does-after (called c (env.reply got.trace c) ∷ got_buffer buffer_ p ∷ [])
          (settle_value-Does got (answered env got c) c _ (bytes "write")
            (λ x. to_int32 (neg_int x)) _ to_int32-neg_int-neg_int (λ n. n) (still ready))
          refl (record { caches = refl; clients = refl; credential_cache = refl }))

  -- In a JVM that finds all classes and constructors and has memory for every object, over a
  -- libsmbclient that leaves a positive error number whenever it reports a failure, from a state
  -- whose cached class references and method ids are right: `SambaFile.fstat` makes one call of
  -- `smbc_fstat`. If that failed it throws and returns null, and else it returns the object of the
  -- fields.
  pub fstat_lem :
      (pointer : Ptr) (fd : ℤ)
      → let c = smbc_fstat fd in
        let r = env.reply s.trace c in
        Does s
          (Handles.fstat pointer fd env s)
          (if is_negative r.result then none else some (stat_object r.status))
          (errno_raised (bytes "stat") r ++ called c r ∷ [])
  unfolding Handles.fstat
  fstat_lem pointer fd =
      let c = smbc_fstat fd in
      let r = env.reply s.trace c in
      rw Outcomes.fstat_lem (elim (Bool-cases (is_negative r.result)) [
        | inl n ↦
            let small = sets.on_negative s.trace c n in
            rw (n, neg_int-negative _ small, neg_int-neg_int _ small)
              (Does-after (called c r ∷ [])
                (Does-bind {more = []} _
                  (errno-Does healthy (bytes "stat") r.error (answered env s c) (still ready))
                  λ u h. Does-pure none h)
                refl (record { caches = refl; clients = refl; credential_cache = refl }))
        | inr n ↦ rw n (
            Does-after (called c r ∷ [])
              (create_structstat-Does healthy r.status (answered env s c) (still ready)) refl
              (record { caches = refl; clients = refl; credential_cache = refl }))
      ])

  -- In a JVM that finds all classes and constructors and has memory for every object, over a
  -- libsmbclient that leaves a positive error number whenever it reports a failure, from a state
  -- whose cached class references and method ids are right: `SambaDir.readDir` makes one call of
  -- `smbc_readdir` and never throws: it returns null if that answered NULL, which libsmbclient.h
  -- documents for the end of the directory and for an error alike, and else an object with the
  -- entry's type, comment and name, whose two strings' references it has deleted.
  pub read_dir_lem :
      (pointer : Ptr) (dh : ℤ)
      → let c = smbc_readdir dh in
        let r = env.reply s.trace c in
        Does s
          (Handles.read_dir pointer dh env s)
          (entry_value r.entry)
          (entry_events r.entry ++ called c r ∷ [])
  unfolding Handles.read_dir call
  read_dir_lem pointer dh =
      let c = smbc_readdir dh in
      let r = env.reply s.trace c in
      Does-after (called c r ∷ []) (entry-Does r.entry (answered env s c) (still ready)) refl
        (record { caches = refl; clients = refl; credential_cache = refl })
