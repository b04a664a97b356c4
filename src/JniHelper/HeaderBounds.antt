-- ===== src/JniHelper/HeaderBounds.antt =====
-- The open flags and the byte counts of the native methods (jni_helper/JniHelper.cc) against the
-- documentation of samba_includes/libsmbclient.h.
use Prim.Native.Nat.{bit_and}
use my_stest.Base.{
  ℕ, zero, suc, ◌≤◌, ℤ, pos, negsuc, ◌≡◌, refl, true, false, List, [], ◌∷◌, ◌++◌, leb,
  if◌then◌else◌, is_negative, arith, Text, HasNoNul, neg_int, to_word, bytes,
}
use my_stest.World.Calls.{Ptr, Env, called, got_buffer, smbc_read, smbc_write}
use my_stest.World.State.{State, ok}
use my_stest.Libsmbclient.Errors.{ebadf, eisdir, einval, one_of}
use my_stest.Libsmbclient.Files
use my_stest.Libsmbclient.Files.{open_accepts}
use my_stest.Libsmbclient.Contract.{allows, FollowsHeader}
use my_stest.SambaClient.Outcomes.{outcome}
use my_stest.JniHelper.OpenFile.{mode_flag}
use my_stest.JniHelper.Handles
use my_stest.JniHelper.Modes.{
  Access, read_only, write_truncate, write_append, write_plain, read_write, read_write_truncate,
  refused, access, access_flag, mode_flag-access,
}
use my_stest.JniHelper.Ready.{IsHealthy, IsReady, Does}
use my_stest.JniHelper.HandleLaws.{errno_raised, read_lem, write_lem}
use my_stest.JniHelper.HeaderLaws.{FollowsHeader-SetsErrno}

-- The flag of a mode is one that `smbc_open` documents, without O_CREAT.
pub flag_facts :
    (a : Access) (flag : ℕ)
    → access_flag a ≡ pos flag
    → (open_accepts flag ≡ true) × (bit_and flag 0o100 ≡ 0)
unfolding access_flag open_accepts
flag_facts read_only flag h = let e : 0 ≡ flag = ground arith in rw (← e) (refl, refl)
flag_facts write_truncate flag h = let e : 0o1001 ≡ flag = ground arith in rw (← e) (refl, refl)
flag_facts write_append flag h = let e : 0o2001 ≡ flag = ground arith in rw (← e) (refl, refl)
flag_facts write_plain flag h = let e : 1 ≡ flag = ground arith in rw (← e) (refl, refl)
flag_facts read_write flag h = let e : 2 ≡ flag = ground arith in rw (← e) (refl, refl)
flag_facts read_write_truncate flag h =
    let e : 0o1002 ≡ flag = ground arith in rw (← e) (refl, refl)
flag_facts refused flag h = cc

-- Whatever the mode of `openFile` (a C string), the flag that the parser hands to `smbc_open` is a
-- combination that libsmbclient.h documents, and has no O_CREAT: no mode creates a file.
mode_flag-open_accepts :
    (mode : Text) (env : Env) (s : State) (flag : ℕ)
    → HasNoNul mode
    → mode_flag mode env s ≡ ok (pos flag) s
    → (open_accepts flag ≡ true) × (bit_and flag 0o100 ≡ 0)
mode_flag-open_accepts mode env s flag plain h =
    flag_facts (access mode) flag (cc (mode_flag-access mode env s plain))

-- A number of bytes up to `m`, or minus one of the error numbers.
abbrev pub IsCount : ℕ → List ℕ → ℤ → Type 0
IsCount m codes (pos n) = n ≤ m
IsCount m codes (negsuc k) = one_of codes (pos (suc k)) ≡ true

one_of-negsuc : (codes : List ℕ) (n : ℕ) → one_of codes (negsuc n) ≡ false
one_of-negsuc [] n = refl
one_of-negsuc (code ∷ codes) n = one_of-negsuc codes n

outcome-IsCount :
    (m size : ℕ) (codes : List ℕ) (result error : ℤ)
    → size ≤ m
    → one_of codes (pos 0) ≡ false
    → (elim result [ pos n ↦ leb n size | negsuc n ↦ one_of codes error ]) ≡ true
    → IsCount m codes (if is_negative result then neg_int error else result)
unfolding neg_int
outcome-IsCount m size codes (pos n) error le none h = ground arith
outcome-IsCount m size codes (negsuc k) (pos zero) le none h = cc
outcome-IsCount m size codes (negsuc k) (pos (suc n)) le none h = h
outcome-IsCount m size codes (negsuc k) (negsuc n) le none h = absurd (cc (one_of-negsuc codes n))

word-le : (m : ℕ) → to_word (pos m) ≤ m
unfolding to_word
word-le m = omega arith

-- Over a libsmbclient that answers as libsmbclient.h documents, in a healthy JVM, `SambaFile.read`
-- and `SambaFile.write` of `m` bytes return a number of bytes up to `m`, or minus EISDIR, EBADF or
-- EINVAL; in that case they have thrown the ErrnoException with the error number.
pub read-write-IsCount :
    {env : Env}
    → IsHealthy env
    → FollowsHeader env
    → {s : State} → IsReady s
    → (pointer : Ptr) (fd : ℤ) (buffer m : ℕ)
    → let p = env.get_direct_buffer_address s.trace buffer in
      let t = got_buffer buffer p ∷ s.trace in
      let c = smbc_read fd p (to_word (pos m)) in
      let d = smbc_write fd p (to_word (pos m)) in
      (got put : ℤ) × Does s (Handles.read pointer fd buffer (pos m) env s) got (
        errno_raised (bytes "read") (env.reply t c)
        ++ called c (env.reply t c) ∷ got_buffer buffer p ∷ [])
      × IsCount m (eisdir ∷ ebadf ∷ einval ∷ []) got
      × Does s (Handles.write pointer fd buffer (pos m) env s) put (
          errno_raised (bytes "write") (env.reply t d)
          ++ called d (env.reply t d) ∷ got_buffer buffer p ∷ [])
      × IsCount m (eisdir ∷ ebadf ∷ einval ∷ []) put
unfolding allows
read-write-IsCount {env} healthy f {s} h pointer fd buffer m =
    let sets = FollowsHeader-SetsErrno f in
    let p = env.get_direct_buffer_address s.trace buffer in
    let t = got_buffer buffer p ∷ s.trace in
    let size = to_word (pos m) in
    let r = env.reply t (smbc_read fd p size) in
    let w = env.reply t (smbc_write fd p size) in
    (
      outcome r r.result,
      outcome w w.result,
      read_lem healthy sets h pointer fd buffer (pos m),
      outcome-IsCount m size Files.read_errors r.result r.error (word-le m) refl
          (f.documented t (smbc_read fd p size)),
      write_lem healthy sets h pointer fd buffer (pos m),
      outcome-IsCount m size Files.write_errors w.result w.error (word-le m) refl
          (f.documented t (smbc_write fd p size)),
    )
