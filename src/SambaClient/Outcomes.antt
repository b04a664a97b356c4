-- ===== src/SambaClient/Outcomes.antt =====
-- The values of the methods of samba_client/SambaClient.cc, from what libsmbclient answers.
use my_stest.Base.{
  ℕ, ℤ, pos, ◌≡◌, ◌∷◌, Text, is_negative, neg_int, Bool-cases, inl, inr, if◌then◌else◌,
}
use my_stest.World.Calls.{
  Ptr, Call, Reply, called, Env, smbc_opendir, smbc_stat, smbc_fstat, smbc_creat, smbc_mkdir,
  smbc_rename, smbc_unlink, smbc_rmdir, smbc_open, smbc_lseek, smbc_read, smbc_write, smbc_close,
}
use my_stest.World.State.{State, ok}
use my_stest.World.Libc.{call}
use my_stest.SambaClient.Files

-- A failed call gives minus its error number, any other call the value `w`.
abbrev pub outcome : Reply → ℤ → ℤ
outcome r w = if is_negative r.result then neg_int r.error else w

-- The state after a call.
abbrev pub answered : Env → State → Call → State
answered env s c =
    let r = env.reply s.trace c in record s { trace = called c r ∷ s.trace; errno = r.error }

module _ (env : Env) (s : State) where
  abbrev answer : Call → Reply
  answer c = env.reply s.trace c

  pub open_dir_lem :
      (url : Text)
      → let c = smbc_opendir url in
        Files.open_dir url env s ≡ ok (outcome (answer c) (answer c).result) (answered env s c)
  unfolding Files.open_dir call
  open_dir_lem url = elim (Bool-cases (is_negative (answer (smbc_opendir url)).result)) [
    | inl e ↦ rw e
    | inr e ↦ rw e
  ]

  pub mkdir_lem :
      (url : Text)
      → let c = smbc_mkdir url Files.default_mode in
        Files.mkdir url env s ≡ ok (outcome (answer c) (answer c).result) (answered env s c)
  unfolding Files.mkdir call
  mkdir_lem url =
      elim (Bool-cases (is_negative (answer (smbc_mkdir url Files.default_mode)).result)) [
        | inl e ↦ rw e
        | inr e ↦ rw e
      ]

  pub rename_lem :
      (url nurl : Text)
      → let c = smbc_rename url nurl in
        Files.rename url nurl env s ≡ ok (outcome (answer c) (answer c).result) (answered env s c)
  unfolding Files.rename call
  rename_lem url nurl = elim (Bool-cases (is_negative (answer (smbc_rename url nurl)).result)) [
    | inl e ↦ rw e
    | inr e ↦ rw e
  ]

  pub unlink_lem :
      (url : Text)
      → let c = smbc_unlink url in
        Files.unlink url env s ≡ ok (outcome (answer c) (answer c).result) (answered env s c)
  unfolding Files.unlink call
  unlink_lem url = elim (Bool-cases (is_negative (answer (smbc_unlink url)).result)) [
    | inl e ↦ rw e
    | inr e ↦ rw e
  ]

  pub rmdir_lem :
      (url : Text)
      → let c = smbc_rmdir url in
        Files.rmdir url env s ≡ ok (outcome (answer c) (answer c).result) (answered env s c)
  unfolding Files.rmdir call
  rmdir_lem url = elim (Bool-cases (is_negative (answer (smbc_rmdir url)).result)) [
    | inl e ↦ rw e
    | inr e ↦ rw e
  ]

  pub open_file_lem :
      (url : Text) (flag mode : ℕ)
      → let c = smbc_open url flag mode in
        Files.open_file url flag mode env s
        ≡ ok (outcome (answer c) (answer c).result) (answered env s c)
  unfolding Files.open_file call
  open_file_lem url flag mode =
      elim (Bool-cases (is_negative (answer (smbc_open url flag mode)).result)) [
        | inl e ↦ rw e
        | inr e ↦ rw e
      ]

  pub seek_file_lem :
      (fd offset whence : ℤ)
      → let c = smbc_lseek fd offset whence in
        Files.seek_file fd offset whence env s
        ≡ ok (outcome (answer c) (answer c).result) (answered env s c)
  unfolding Files.seek_file call
  seek_file_lem fd offset whence =
      elim (Bool-cases (is_negative (answer (smbc_lseek fd offset whence)).result)) [
        | inl e ↦ rw e
        | inr e ↦ rw e
      ]

  pub read_file_lem :
      (fd : ℤ) (buffer : Ptr) (maxlen : ℕ)
      → let c = smbc_read fd buffer maxlen in
        Files.read_file fd buffer maxlen env s
        ≡ ok (outcome (answer c) (answer c).result) (answered env s c)
  unfolding Files.read_file call
  read_file_lem fd buffer maxlen =
      elim (Bool-cases (is_negative (answer (smbc_read fd buffer maxlen)).result)) [
        | inl e ↦ rw e
        | inr e ↦ rw e
      ]

  pub write_file_lem :
      (fd : ℤ) (buffer : Ptr) (length : ℕ)
      → let c = smbc_write fd buffer length in
        Files.write_file fd buffer length env s
        ≡ ok (outcome (answer c) (answer c).result) (answered env s c)
  unfolding Files.write_file call
  write_file_lem fd buffer length =
      elim (Bool-cases (is_negative (answer (smbc_write fd buffer length)).result)) [
        | inl e ↦ rw e
        | inr e ↦ rw e
      ]

  pub close_file_lem :
      (fd : ℤ)
      → let c = smbc_close fd in
        Files.close_file fd env s ≡ ok (outcome (answer c) (pos 0)) (answered env s c)
  unfolding Files.close_file call
  close_file_lem fd = elim (Bool-cases (is_negative (answer (smbc_close fd)).result)) [
    | inl e ↦ rw e
    | inr e ↦ rw e
  ]

  pub stat_lem :
      (url : Text)
      → let c = smbc_stat url in
        Files.stat url env s ≡ ok (outcome (answer c) (pos 0), (answer c).status) (answered env s c)
  unfolding Files.stat call
  stat_lem url = elim (Bool-cases (is_negative (answer (smbc_stat url)).result)) [
    | inl e ↦ rw e
    | inr e ↦ rw e
  ]

  pub fstat_lem :
      (fd : ℤ)
      → let c = smbc_fstat fd in
        Files.fstat fd env s ≡ ok (outcome (answer c) (pos 0), (answer c).status) (answered env s c)
  unfolding Files.fstat call
  fstat_lem fd = elim (Bool-cases (is_negative (answer (smbc_fstat fd)).result)) [
    | inl e ↦ rw e
    | inr e ↦ rw e
  ]

  -- The file that was created is closed at once.
  abbrev pub created : Text → State
  created url =
      let c = smbc_creat url Files.default_mode in
      if is_negative (answer c).result
      then answered env s c
      else answered env (answered env s c) (smbc_close (answer c).result)

  pub create_file_lem :
      (url : Text)
      → Files.create_file url env s
        ≡ ok (outcome (answer (smbc_creat url Files.default_mode)) (pos 0)) (created url)
  unfolding Files.create_file call
  create_file_lem url =
      elim (Bool-cases (is_negative (answer (smbc_creat url Files.default_mode)).result)) [
        | inl e ↦ rw e
        | inr e ↦ rw e
      ]
