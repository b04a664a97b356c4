-- ===== src/JniHelper/HeaderLaws.antt =====
-- What the documentation of samba_includes/libsmbclient.h makes of the native methods
-- (jni_helper/JniHelper.cc) and of their exceptions.
use my_stest.Base.{
  ℕ, ℤ, pos, negsuc, ◌≡◌, refl, true, false, List, [], ◌∷◌, ◌==◌, if◌then◌else◌, is_negative,
  is_code, arith, Bool-cases, inl, inr, Text,
}
use my_stest.World.Calls.{
  Call, Reply, Env, smbc_opendir, smbc_closedir, smbc_stat, smbc_creat, smbc_mkdir, smbc_rename,
  smbc_unlink, smbc_rmdir, smbc_open,
}
use my_stest.World.State.{State, Cmd}
use my_stest.World.Libc.{eperm, enoent, eacces, enodev}
use my_stest.Libsmbclient.Errors.{one_of}
use my_stest.Libsmbclient.Contract.{
  allows, FollowsHeader, errors_of, allows-one_of, allows-IsPositive,
}
use my_stest.SambaClient.Files.{default_mode}
use my_stest.JniHelper.Paths
use my_stest.JniHelper.OpenFile
use my_stest.JniHelper.OpenFile.{mode_flag}
use my_stest.JniHelper.Policies.{
  open_dir_policy, stat_policy, create_file_policy, mkdir_policy, unlink_policy, rmdir_policy,
  rename_policy, open_file_policy,
}
use my_stest.JniHelper.Ready.{IsHealthy, SetsErrno, IsReady, Does}
use my_stest.JniHelper.Throws.{
  Policy, Exception, file_not_found, auth_failed, errno_exception, exception_for, thrown,
  switch-Does-eperm, switch-Does-eacces,
}

-- `smbc_closedir` fails by a negative result alone.
closed :
    (dh : ℤ) (r : Reply)
    → allows (smbc_closedir dh) r ≡ true
    → is_code r.result 0 ≡ false
    → is_negative r.result ≡ true
unfolding allows
closed dh r h e = ground arith

pub FollowsHeader-SetsErrno : {env : Env} → FollowsHeader env → SetsErrno env
FollowsHeader-SetsErrno {env} f = record {
  on_negative = λ t c n. allows-IsPositive c (env.reply t c) (f.documented t c) n;
  on_closedir = λ t dh e.
      let c = smbc_closedir dh in
      allows-IsPositive c (env.reply t c) (f.documented t c)
        (closed dh (env.reply t c) (f.documented t c) e);
}

-- A method on a path, from the failure of its call on.
pub data PathMethod : Type 0 where
  open_dir stat create_file mkdir unlink rmdir : Text → PathMethod
  rename : Text → Text → PathMethod
  open_file : Text → ℕ → PathMethod

abbrev pub call_of : PathMethod → Call
call_of (open_dir uri) = smbc_opendir uri
call_of (stat uri) = smbc_stat uri
call_of (create_file uri) = smbc_creat uri default_mode
call_of (mkdir uri) = smbc_mkdir uri default_mode
call_of (unlink uri) = smbc_unlink uri
call_of (rmdir uri) = smbc_rmdir uri
call_of (rename uri nuri) = smbc_rename uri nuri
call_of (open_file uri flag) = smbc_open uri flag 0

abbrev pub failure_of : PathMethod → ℤ → Cmd (Unit {0})
failure_of (open_dir uri) = Paths.open_dir_failed uri
failure_of (stat uri) = Paths.stat_failed uri
failure_of (create_file uri) = Paths.create_file_failed uri
failure_of (mkdir uri) = Paths.mkdir_failed uri
failure_of (unlink uri) = Paths.unlink_failed uri
failure_of (rmdir uri) = Paths.rmdir_failed uri
failure_of (rename uri nuri) = Paths.rename_failed uri nuri
failure_of (open_file uri flag) = OpenFile.open_file_failed uri

abbrev pub policy_of : PathMethod → Policy
policy_of (open_dir uri) = open_dir_policy uri
policy_of (stat uri) = stat_policy uri
policy_of (create_file uri) = create_file_policy uri
policy_of (mkdir uri) = mkdir_policy uri
policy_of (unlink uri) = unlink_policy uri
policy_of (rmdir uri) = rmdir_policy uri
policy_of (rename uri nuri) = rename_policy uri nuri
policy_of (open_file uri flag) = open_file_policy uri

-- One meaning of the error numbers for all methods.
abbrev pub uniform : Text → Text → ℤ → Exception
uniform function message err =
    if one_of (enoent ∷ enodev ∷ []) err
    then file_not_found message
    else if one_of (eacces ∷ eperm ∷ []) err
    then auth_failed
    else errno_exception function err

policy-uniform :
    (p : Policy) (err : ℤ)
    → ((p.denies_eperm ≡ false) → is_code err eperm ≡ false)
    → exception_for p err ≡ uniform p.function p.message err
policy-uniform p (pos n) h = ground arith
policy-uniform p (negsuc n) h = refl

-- Where a method's `switch` has no case for EPERM, its call is not documented to fail with it.
undocumented :
    (codes : List ℕ) (err : ℤ)
    → one_of codes (pos eperm) ≡ false
    → one_of codes err ≡ true
    → is_code err eperm ≡ false
undocumented codes (pos n) h e = elim (Bool-cases (n == eperm)) [
  | inl q ↦ let same : n ≡ eperm = ground arith in cc (rw same at e)
  | inr q ↦ q
]
undocumented codes (negsuc n) h e = refl

eperm_case :
    (m : PathMethod) (err : ℤ)
    → one_of (errors_of (call_of m)) err ≡ true
    → (policy_of m).denies_eperm ≡ false
    → is_code err eperm ≡ false
eperm_case (open_dir uri) err e d = cc
eperm_case (stat uri) err e d = undocumented (errors_of (smbc_stat uri)) err refl e
eperm_case (create_file uri) err e d =
    undocumented (errors_of (smbc_creat uri default_mode)) err refl e
eperm_case (mkdir uri) err e d = undocumented (errors_of (smbc_mkdir uri default_mode)) err refl e
eperm_case (unlink uri) err e d = cc
eperm_case (rmdir uri) err e d = cc
eperm_case (rename uri nuri) err e d = cc
eperm_case (open_file uri flag) err e d = undocumented (errors_of (smbc_open uri flag 0)) err refl e

failure-Does :
    {env : Env} (healthy : IsHealthy env) (m : PathMethod) (err : ℤ) {s : State}
    → IsReady s
    → Does s (failure_of m err env s) tt (thrown (exception_for (policy_of m) err) ∷ [])
unfolding Paths.open_dir_failed Paths.stat_failed Paths.create_file_failed Paths.mkdir_failed
    Paths.unlink_failed Paths.rmdir_failed Paths.rename_failed OpenFile.open_file_failed
failure-Does healthy (open_dir uri) err {s} h = switch-Does-eperm healthy _ _ err s h
failure-Does healthy (stat uri) err {s} h = switch-Does-eacces healthy _ _ err s h
failure-Does healthy (create_file uri) err {s} h = switch-Does-eacces healthy _ _ err s h
failure-Does healthy (mkdir uri) err {s} h = switch-Does-eacces healthy _ _ err s h
failure-Does healthy (unlink uri) err {s} h = switch-Does-eperm healthy _ _ err s h
failure-Does healthy (rmdir uri) err {s} h = switch-Does-eperm healthy _ _ err s h
failure-Does healthy (rename uri nuri) err {s} h = switch-Does-eperm healthy _ _ err s h
failure-Does healthy (open_file uri flag) err {s} h = switch-Does-eacces healthy _ _ err s h

-- In a healthy JVM, after a failure that libsmbclient.h documents for its call, each of the eight
-- path methods throws by one rule: FileNotFoundException for ENOENT and ENODEV,
-- AuthFailedException for EACCES and EPERM, and else the ErrnoException with the method's name and
-- the error number, although four of the methods have no case for EPERM.
pub failure_of-uniform :
    {env : Env}
    → IsHealthy env
    → (m : PathMethod) (r : Reply) → allows (call_of m) r ≡ true
    → is_negative r.result ≡ true
    → {s : State} → IsReady s
    → Does s
        (failure_of m r.error env s)
        tt
        (thrown (uniform (policy_of m).function (policy_of m).message r.error) ∷ [])
failure_of-uniform healthy m r allowed n h =
    let e = allows-one_of (call_of m) r allowed n in
    rw (← policy-uniform (policy_of m) r.error (eperm_case m r.error e))
      (failure-Does healthy m r.error h)
