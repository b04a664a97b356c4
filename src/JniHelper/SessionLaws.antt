-- ===== src/JniHelper/SessionLaws.antt =====
-- What sequences of native methods (jni_helper/JniHelper.cc) keep.
use my_stest.Base.{
  refl, ◌∙◌, true, List, [], ◌∷◌, arith, if◌then◌else◌, is_negative, is_code, to_int32, to_word,
  bytes,
}
use my_stest.World.Calls.{
  Trace, called, got_chars, got_buffer, Env, smbc_opendir, smbc_stat, smbc_creat, smbc_mkdir,
  smbc_rename, smbc_unlink, smbc_rmdir, smbc_close, smbc_readdir, smbc_closedir, smbc_fstat,
  smbc_lseek, smbc_read, smbc_write,
}
use my_stest.World.State.{State}
use my_stest.SambaClient.Files.{default_mode}
use my_stest.JniHelper.Modes.{access, access_flag}
use my_stest.JniHelper.Ready.{IsHealthy, SetsErrno, IsReady}
use my_stest.JniHelper.Throws.{errno_exception}
use my_stest.JniHelper.Tail.{raised}
use my_stest.JniHelper.Policies.{
  open_dir_policy, stat_policy, create_file_policy, mkdir_policy, unlink_policy, rmdir_policy,
  rename_policy,
}
use my_stest.JniHelper.PathLaws.{
  open_dir_lem, stat_lem, create_file_lem, mkdir_lem, rename_lem, unlink_lem, rmdir_lem,
}
use my_stest.JniHelper.OpenLaws.{opened_events, open_file_lem}
use my_stest.JniHelper.HandleLaws.{
  read_dir_lem, close_dir_lem, fstat_lem, seek_lem, read_lem, write_lem, close_file_lem,
}
use my_stest.JniHelper.Session.{
  Request, open_dir, stat, create_file, mkdir, unlink, rmdir, rename, open_file, read_dir,
  close_dir, fstat, close_file, seek, read, write, IsGiven, AreGiven, perform, perform_all,
}
use my_stest.JniHelper.Settles.{
  Settles, Does-Settles, raised-Mute, one-Even, two-Even, path-Even, closed-Mute, opened-Mute,
  errno-Even, closed_dir-Even, entry-Even,
}

module _ {env : Env} (healthy : IsHealthy env) (sets : SetsErrno env) where
  perform-Settles : (q : Request) (s : State) → IsReady s → IsGiven q → Settles s (perform q env s)
  perform-Settles (open_dir p uri) s h g =
      let c = smbc_opendir uri.chars in
      Does-Settles (open_dir_lem healthy sets h p uri) (
        path-Even (env.get_string_utf_chars s.trace uri) uri c
          (env.reply (got_chars uri true ∷ s.trace) c) (open_dir_policy uri.chars) refl)
  perform-Settles (stat p uri) s h g =
      let c = smbc_stat uri.chars in
      Does-Settles (stat_lem healthy sets h p uri) (
        path-Even (env.get_string_utf_chars s.trace uri) uri c
          (env.reply (got_chars uri true ∷ s.trace) c) (stat_policy uri.chars) refl)
  perform-Settles (create_file p uri) s h g =
      let t = got_chars uri true ∷ s.trace in
      let c = smbc_creat uri.chars default_mode in
      let a = env.reply t c in
      let d = smbc_close a.result in
      let b = env.reply (called c a ∷ t) d in
      let closed : Trace = if is_negative a.result then [] else called d b ∷ [] in
      Does-Settles (create_file_lem healthy sets h p uri) (
        one-Even (env.get_string_utf_chars s.trace uri) uri
          (raised (create_file_policy uri.chars) a) closed (called c a ∷ [])
          (raised-Mute (create_file_policy uri.chars) a)
          (closed-Mute (is_negative a.result) d b refl) (λ _. (refl, refl, refl)))
  perform-Settles (mkdir p uri) s h g =
      let c = smbc_mkdir uri.chars default_mode in
      Does-Settles (mkdir_lem healthy sets h p uri) (
        path-Even (env.get_string_utf_chars s.trace uri) uri c
          (env.reply (got_chars uri true ∷ s.trace) c) (mkdir_policy uri.chars) refl)
  perform-Settles (unlink p uri) s h g =
      let c = smbc_unlink uri.chars in
      Does-Settles (unlink_lem healthy sets h p uri) (
        path-Even (env.get_string_utf_chars s.trace uri) uri c
          (env.reply (got_chars uri true ∷ s.trace) c) (unlink_policy uri.chars) refl)
  perform-Settles (rmdir p uri) s h g =
      let c = smbc_rmdir uri.chars in
      Does-Settles (rmdir_lem healthy sets h p uri) (
        path-Even (env.get_string_utf_chars s.trace uri) uri c
          (env.reply (got_chars uri true ∷ s.trace) c) (rmdir_policy uri.chars) refl)
  perform-Settles (rename p uri nuri) s h g =
      let t = got_chars uri true ∷ s.trace in
      let c = smbc_rename uri.chars nuri.chars in
      let a = env.reply (got_chars nuri true ∷ t) c in
      let policy = rename_policy uri.chars nuri.chars in
      Does-Settles (rename_lem healthy sets h p uri nuri) (
        two-Even (env.get_string_utf_chars s.trace uri) (env.get_string_utf_chars t nuri) uri nuri
          uri nuri (raised policy a) (called c a ∷ []) (λ _. refl) (raised-Mute policy a)
          (λ _. (refl, refl, refl)))
  perform-Settles (open_file p uri mode) s h g =
      let t = got_chars uri true ∷ s.trace in
      let flag = access_flag (access mode.chars) in
      Does-Settles (open_file_lem healthy sets h p uri mode g) (
        two-Even (env.get_string_utf_chars s.trace uri) (env.get_string_utf_chars t mode) uri mode
          mode uri (opened_events env (got_chars mode true ∷ t) uri.chars flag) []
          (λ r. omega arith) (opened-Mute env (got_chars mode true ∷ t) uri.chars flag)
          (λ _. (refl, refl, refl)))
  perform-Settles (read_dir p dh) s h g =
      let c = smbc_readdir dh in
      let a = env.reply s.trace c in
      Does-Settles (read_dir_lem healthy sets h p dh)
        (entry-Even a.entry (called c a ∷ []) (λ _. (refl, refl, refl)))
  perform-Settles (close_dir p dh) s h g =
      let c = smbc_closedir dh in
      let a = env.reply s.trace c in
      Does-Settles (close_dir_lem healthy sets h p dh)
        (closed_dir-Even (is_code a.result 0) (errno_exception (bytes "close") a.error) c a refl)
  perform-Settles (fstat p fd) s h g =
      let c = smbc_fstat fd in
      let a = env.reply s.trace c in
      Does-Settles (fstat_lem healthy sets h p fd)
        (errno-Even (bytes "stat") a (called c a ∷ []) (λ _. (refl, refl, refl)))
  perform-Settles (close_file p fd) s h g =
      let c = smbc_close fd in
      let a = env.reply s.trace c in
      Does-Settles (close_file_lem healthy sets h p fd)
        (errno-Even (bytes "close") a (called c a ∷ []) (λ _. (refl, refl, refl)))
  perform-Settles (seek p fd offset whence) s h g =
      let c = smbc_lseek fd (to_int32 offset) whence in
      let a = env.reply s.trace c in
      Does-Settles (seek_lem healthy sets h p fd offset whence)
        (errno-Even (bytes "seek") a (called c a ∷ []) (λ _. (refl, refl, refl)))
  perform-Settles (read p fd buffer maxlen) s h g =
      let address = env.get_direct_buffer_address s.trace buffer in
      let c = smbc_read fd address (to_word maxlen) in
      let a = env.reply (got_buffer buffer address ∷ s.trace) c in
      Does-Settles (read_lem healthy sets h p fd buffer maxlen) (
        errno-Even (bytes "read") a (called c a ∷ got_buffer buffer address ∷ [])
          (λ _. (refl, refl, refl)))
  perform-Settles (write p fd buffer len) s h g =
      let address = env.get_direct_buffer_address s.trace buffer in
      let c = smbc_write fd address (to_word len) in
      let a = env.reply (got_buffer buffer address ∷ s.trace) c in
      Does-Settles (write_lem healthy sets h p fd buffer len) (
        errno-Even (bytes "write") a (called c a ∷ got_buffer buffer address ∷ [])
          (λ _. (refl, refl, refl)))

  -- Any sequence of the methods on paths and descriptors, whatever libsmbclient answers and
  -- whichever strings the JVM refuses, in a healthy JVM over a libsmbclient that sets `errno`, from
  -- a state whose class references are right, with C strings as modes: it returns, with no use of
  -- NULL and no access out of bounds; it keeps the class references right; the heaps and
  -- `credentialCache_` are as before; every string was released as often as it was got; and if an
  -- initialised context was in use, the rules of libsmbclient.h on contexts were kept and it still
  -- is in use.
  pub perform_all-Settles :
      (qs : List Request) (s : State) → IsReady s → AreGiven qs → Settles s (perform_all qs env s)
  perform_all-Settles [] s h g = record {
    after = s;
    runs = refl;
    ready = h;
    kept = record { caches = refl; clients = refl; credential_cache = refl };
    balanced = λ r. omega arith;
    legal = λ u k e. e;
  }
  perform_all-Settles (q ∷ qs) s h g =
      let d = perform-Settles q s h g.0 in
      let n = perform_all-Settles qs d.after d.ready g.1 in
      record {
        after = n.after;
        runs = rw d.runs n.runs;
        ready = n.ready;
        kept = record {
          caches = n.kept.caches ∙ d.kept.caches;
          clients = n.kept.clients ∙ d.kept.clients;
          credential_cache = n.kept.credential_cache ∙ d.kept.credential_cache;
        };
        balanced = λ r. let b = d.balanced r in let c = n.balanced r in omega arith;
        legal = λ u k e. n.legal u k (d.legal u k e);
      }
