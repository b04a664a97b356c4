-- ===== src/JniHelper/ExportLaws.antt =====
-- The results of the exported functions of jni_helper/JniHelper.h.
use my_stest.Base.{
  suc, zero, ◌<◌, ◌^◌, ℤ, pos, negsuc, ◌≡◌, refl, ◌⊎◌, inl, inr, Bool, true, false, some, ◌∷◌,
  arith, if◌then◌else◌, is_negative, IsInt32, HasNoNul, to_word, to_int32, neg_int,
}
use my_stest.World.Calls.{
  Ptr, Env, Trace, Call, got_chars, got_buffer, smbc_opendir, smbc_open, smbc_lseek, smbc_read,
  smbc_write,
}
use my_stest.World.State.{State, Run, ok, CredentialCache}
use my_stest.World.Libc.{new_cache}
use my_stest.SambaClient.Outcomes.{outcome}
use my_stest.JniHelper.Exports.{
  JniType, jlong, jint, jboolean, jstring, jobject, void, Export, facade_native_init,
  facade_native_destroy, facade_open_dir, facade_stat, facade_create_file, facade_mkdir,
  facade_rename, facade_unlink, facade_rmdir, facade_open_file, dir_read_dir, dir_close, file_read,
  file_seek, file_fstat, file_write, file_close, cache_native_init, cache_put_credential,
  cache_remove_credential, configuration_set_env, result_type, parameters, Arguments, Returned,
  invoke,
}
use my_stest.JniHelper.Lifecycle.{native_destroy}
use my_stest.JniHelper.Modes.{access, access_flag}
use my_stest.JniHelper.Ready.{IsHealthy, SetsErrno, IsReady, Does}
use my_stest.JniHelper.LifecycleLaws.{Works, native_init_lem, native_destroy_lem}
use my_stest.JniHelper.PathLaws.{
  open_dir_lem, stat_lem, create_file_lem, mkdir_lem, rename_lem, unlink_lem, rmdir_lem,
}
use my_stest.JniHelper.OpenLaws.{opened_value, open_file_lem}
use my_stest.JniHelper.HandleLaws.{
  read_dir_lem, close_dir_lem, fstat_lem, seek_lem, read_lem, write_lem, close_file_lem,
}
use my_stest.JniHelper.CredentialLaws.{put_credential_lem, remove_credential-caches}
use my_stest.JniHelper.EnvironmentLaws.{set_env_lem}

-- The C functions return `int`s, and addresses have 32 bits.
pub record Fits (env : Env) : Type 0 where
  pub results : (t : Trace) (c : Call) → IsInt32 (env.reply t c).result
  pub errors : (t : Trace) (c : Call) → IsInt32 (env.reply t c).error
  pub addresses : (t : Trace) → env.new_address t < 2 ^ 32

abbrev IsInt64 : ℤ → Type 0
IsInt64 (pos n) = n < 2 ^ 63
IsInt64 (negsuc n) = n < 2 ^ 63

abbrev pub InRange : (t : JniType) → Returned t → Type 0
InRange jlong v = IsInt64 v
InRange jint v = IsInt32 v
InRange jboolean v = Unit {0}
InRange jstring v = Unit {0}
InRange jobject v = Unit {0}
InRange void v = Unit {0}

-- The run returns a value of the declared type.
pub record Answers (t : JniType) (run : Run (Returned t)) : Type 0 where
  pub value : Returned t
  pub after : State
  pub runs : run ≡ ok value after
  pub in_range : InRange t value

-- What Java must see to: a destroyed client is NULL or the live one, a cache is live, and a mode is a
-- C string.
abbrev pub Accepts : State → Ptr → Ptr → (e : Export) → Arguments (parameters e) → Type 0
Accepts s client context facade_native_destroy (pointer, _) =
    (to_word pointer ≡ 0)
    ⊎ (to_word pointer ≡ client) × (s.clients client ≡ some (record { samba_context = context }))
Accepts s client context facade_open_file (pointer, (uri, (mode, _))) = HasNoNul mode.chars
Accepts s client context cache_put_credential (pointer, _) =
    (cache : CredentialCache) × (s.caches (to_word pointer) ≡ some cache)
Accepts s client context cache_remove_credential (pointer, _) =
    (cache : CredentialCache) × (s.caches (to_word pointer) ≡ some cache)
Accepts s client context _ _ = Unit {0}

Does-Answers :
    (t : JniType) {s : State} {run : Run (Returned t)} {a : Returned t} {events : Trace}
    → Does s run a events
    → InRange t a
    → Answers t run
Does-Answers t {a} d h = record { value = a; after = d.after; runs = d.runs; in_range = h }

outcome-IsInt32 :
    (result error : ℤ)
    → IsInt32 result
    → IsInt32 error
    → IsInt32 (if is_negative result then neg_int error else result)
unfolding neg_int
outcome-IsInt32 (pos n) error h k = h
outcome-IsInt32 (negsuc n) (pos zero) h k = omega arith
outcome-IsInt32 (negsuc n) (pos (suc m)) h k = omega arith
outcome-IsInt32 (negsuc n) (negsuc m) h k = ground arith

IsInt32-IsInt64 : (x : ℤ) → IsInt32 x → IsInt64 x
IsInt32-IsInt64 (pos n) h = omega arith
IsInt32-IsInt64 (negsuc n) h = omega arith

module _ {env : Env} (fits : Fits env) (t : Trace) where
  call-IsInt32 : (c : Call) → let r = env.reply t c in IsInt32 (outcome r r.result)
  call-IsInt32 c = outcome-IsInt32 _ _ (fits.results t c) (fits.errors t c)

  opened-IsInt32 : (uri : _) (flag : ℤ) → IsInt32 (opened_value env t uri flag)
  opened-IsInt32 uri (pos flag) = call-IsInt32 (smbc_open uri flag 0)
  opened-IsInt32 uri (negsuc n) = omega arith

if-IsInt32 : (b : Bool) (x : ℤ) → IsInt32 x → IsInt32 (if b then x else negsuc 0)
if-IsInt32 true x h = h
if-IsInt32 false x h = omega arith

native_destroy-null : (env : Env) (s : State) → native_destroy 0 env s ≡ ok tt s
unfolding native_destroy
native_destroy-null env s = refl

module _ {env : Env} (healthy : IsHealthy env) (sets : SetsErrno env) (fits : Fits env)
    {client context : Ptr} (works : Works env client context) where
  -- In a healthy JVM, where libsmbclient sets `errno`, the C functions return `int`s, addresses have
  -- 32 bits and the calls on the one context work, each of the 21 exported functions returns, from a
  -- state whose class references are right and on arguments that it accepts (a client to be
  -- destroyed is NULL or live, a cache is live, a mode is a C string): there is no fault and no
  -- exit, and a `jint` or `jlong` result is in the range of its type.
  pub invoke-Answers :
      (e : Export) (args : Arguments (parameters e)) (s : State)
      → IsReady s
      → Accepts s client context e args
      → Answers (result_type e) (invoke e args env s)
  unfolding invoke new_cache
  invoke-Answers facade_native_init (debug, (cache, _)) s h a =
      let (after, runs, _, _, _) = native_init_lem env works s debug (to_word cache) in
      let small : client < 2 ^ 32 = rw works.allocates at (fits.addresses s.trace) in
      record { value = pos client; after = after; runs = rw runs; in_range = omega arith }
  invoke-Answers facade_native_destroy (pointer, _) s h (inl e) = record {
    value = tt;
    after = s;
    runs = rw e (native_destroy-null env s);
    in_range = tt;
  }
  invoke-Answers facade_native_destroy (pointer, _) s h (inr (e, alive)) =
      let (after, runs, _, _, _) = native_destroy_lem env works s alive in
      record { value = tt; after = after; runs = rw e runs; in_range = tt }
  invoke-Answers facade_open_dir (pointer, (uri, _)) s h a =
      Does-Answers jint (open_dir_lem healthy sets h (to_word pointer) uri) (
        if-IsInt32 (env.get_string_utf_chars s.trace uri) _
          (call-IsInt32 fits (got_chars uri true ∷ s.trace) (smbc_opendir uri.chars)))
  invoke-Answers facade_stat (pointer, (uri, _)) s h a =
      Does-Answers jobject (stat_lem healthy sets h (to_word pointer) uri) tt
  invoke-Answers facade_create_file (pointer, (uri, _)) s h a =
      Does-Answers void (create_file_lem healthy sets h (to_word pointer) uri) tt
  invoke-Answers facade_mkdir (pointer, (uri, _)) s h a =
      Does-Answers void (mkdir_lem healthy sets h (to_word pointer) uri) tt
  invoke-Answers facade_rename (pointer, (uri, (nuri, _))) s h a =
      Does-Answers void (rename_lem healthy sets h (to_word pointer) uri nuri) tt
  invoke-Answers facade_unlink (pointer, (uri, _)) s h a =
      Does-Answers void (unlink_lem healthy sets h (to_word pointer) uri) tt
  invoke-Answers facade_rmdir (pointer, (uri, _)) s h a =
      Does-Answers void (rmdir_lem healthy sets h (to_word pointer) uri) tt
  invoke-Answers facade_open_file (pointer, (uri, (mode, _))) s h a =
      let t = got_chars mode true ∷ got_chars uri true ∷ s.trace in
      Does-Answers jint (open_file_lem healthy sets h (to_word pointer) uri mode a) (
        if-IsInt32 (env.get_string_utf_chars s.trace uri) _ (
          if-IsInt32 (env.get_string_utf_chars (got_chars uri true ∷ s.trace) mode) _
            (opened-IsInt32 fits t uri.chars (access_flag (access mode.chars)))))
  invoke-Answers dir_read_dir (pointer, (fd, _)) s h a =
      Does-Answers jobject (read_dir_lem healthy sets h (to_word pointer) fd) tt
  invoke-Answers dir_close (pointer, (fd, _)) s h a =
      Does-Answers void (close_dir_lem healthy sets h (to_word pointer) fd) tt
  invoke-Answers file_read (pointer, (fd, (buffer, (maxlen, _)))) s h a =
      let p = env.get_direct_buffer_address s.trace buffer in
      Does-Answers jlong (read_lem healthy sets h (to_word pointer) fd buffer maxlen) (
        IsInt32-IsInt64 _
          (call-IsInt32 fits (got_buffer buffer p ∷ s.trace) (smbc_read fd p (to_word maxlen))))
  invoke-Answers file_seek (pointer, (fd, (offset, (whence, _)))) s h a =
      Does-Answers jlong (seek_lem healthy sets h (to_word pointer) fd offset whence)
        (IsInt32-IsInt64 _ (call-IsInt32 fits s.trace (smbc_lseek fd (to_int32 offset) whence)))
  invoke-Answers file_fstat (pointer, (fd, _)) s h a =
      Does-Answers jobject (fstat_lem healthy sets h (to_word pointer) fd) tt
  invoke-Answers file_write (pointer, (fd, (buffer, (length, _)))) s h a =
      let p = env.get_direct_buffer_address s.trace buffer in
      Does-Answers jlong (write_lem healthy sets h (to_word pointer) fd buffer length) (
        IsInt32-IsInt64 _
          (call-IsInt32 fits (got_buffer buffer p ∷ s.trace) (smbc_write fd p (to_word length))))
  invoke-Answers file_close (pointer, (fd, _)) s h a =
      Does-Answers void (close_file_lem healthy sets h (to_word pointer) fd) tt
  invoke-Answers cache_native_init _ s h a =
      let small = fits.addresses s.trace in
      record { value = _; after = _; runs = refl; in_range = omega arith }
  invoke-Answers cache_put_credential (pointer, (uri, (w, (u, (p, _))))) s h (cache, held) =
      let d = put_credential_lem env s (to_word pointer) held uri w u p in
      record { value = tt; after = d.after; runs = d.runs; in_range = tt }
  invoke-Answers cache_remove_credential (pointer, (uri, _)) s h (cache, held) =
      let (after, runs, _, _) = remove_credential-caches env s (to_word pointer) held uri in
      record { value = tt; after = after; runs = runs; in_range = tt }
  invoke-Answers configuration_set_env (var, (value, _)) s h a =
      Does-Answers void (set_env_lem healthy h var value) tt
