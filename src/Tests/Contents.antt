-- ===== src/Tests/Contents.antt =====
-- The theorem on the contents that SambaProxyFileCallback.java copies at a concrete input: a file that
-- libsmbclient serves one byte at a time, through the native methods of JniHelper.cc.
use my_stest.Base.{
  ℕ, ◌+◌, ℤ, pos, negsuc, ◌≡◌, refl, ap, true, [], ◌∷◌, is_negative, IsPositive, Text, drop, arith,
}
use my_stest.World.Calls.{
  Call, Reply, Env, Trace, called, found_class, made_global, got_method, made_string, made_object,
  smbc_read, smbc_lseek,
}
use my_stest.JniHelper.Ready.{IsHealthy, SetsErrno, essential}
use my_stest.Nativefacade.NativeFile.{Settled}
use my_stest.Nativefacade.Bridge.{native_file}
use my_stest.Provider.Transfers.{on_read}
use my_stest.Provider.Slices.{length-drop}
use my_stest.Provider.ReadContents.{Transferred, on_read-Transferred}
use my_stest.Provider.NativeContents.{
  ServesFile, position, native_file-IsRegularFile, native_file-IsSeekable,
}
use my_stest.Tests.Setting.{success, serving, start, start-IsReady}
use my_stest.Tests.Transfers.{
  got, left, file_bytes, file_bytes-length, left-length, got-le, got-there, got-bytes, got-some,
  store,
}

abbrev nat : ℤ → ℕ
nat (pos n) = n
nat (negsuc n) = 0

abbrev pub place : Trace → ℕ
place [] = 0
place (called (smbc_read fd p m) r ∷ t) = place t + nat r.result
place (called (smbc_lseek fd o w) r ∷ t) = nat r.result
place (e ∷ t) = place t

-- What the newest read leaves.
abbrev fill : Trace → Text → Text
fill (called (smbc_read fd p m) r ∷ t) contents = left (drop (place t) file_bytes) m contents
fill _ contents = contents

abbrev pub filled : Trace → Text → Text
filled t contents = fill (essential t) contents

abbrev file_reply : Trace → Call → Reply
file_reply t (smbc_read fd p m) = record (success (smbc_read fd p m)) {
  result = pos (got (drop (place (essential t)) file_bytes) m);
}
file_reply t (smbc_lseek fd o w) = record (success (smbc_lseek fd o w)) { result = pos (nat o) }
file_reply t c = success c

abbrev pub file_env : Env
file_env = record (serving success) { reply = file_reply }

pub file_env-IsHealthy : IsHealthy file_env
file_env-IsHealthy = record {
  finds = λ _ _. refl;
  globalises = λ _ _. refl;
  has_constructor = λ _ _ _. refl;
  makes_string = λ _ _. refl;
  makes_object = λ _ _ _ _. refl;
}

never_negative :
    (t : Trace) (c : Call)
    → is_negative (file_reply t c).result ≡ true
    → IsPositive (file_reply t c).error
never_negative t (smbc_read fd p m) h = cc
never_negative t (smbc_lseek fd o w) h = cc
never_negative t _ h = cc

pub file_env-SetsErrno : SetsErrno file_env
file_env-SetsErrno = record { on_negative = never_negative; on_closedir = λ _ _ h. cc }

essential-essential : (t : Trace) → essential (essential t) ≡ essential t
essential-essential [] = refl
essential-essential (found_class n b ∷ t) = essential-essential t
essential-essential (made_global c b ∷ t) = essential-essential t
essential-essential (got_method c n g b ∷ t) = essential-essential t
essential-essential (made_string x b ∷ t) = essential-essential t
essential-essential (made_object c m a b ∷ t) = essential-essential t
essential-essential (e ∷ t) = ap (λ u. e ∷ u) (essential-essential t)

pub file_env-ServesFile : ServesFile file_env filled file_bytes place
file_env-ServesFile = record {
  buffers = λ t b p. refl;
  calls = λ t contents. rw (essential-essential t) refl;
  reads = λ t fd p contents m h e.
      let rest = drop (place (essential t)) file_bytes in
      let same = essential-essential t in
      (
        record {
          count = got rest m;
          value = refl;
          within_size = got-le rest m;
          same_length = rw same (left-length rest contents m);
          there = got-there rest m;
          bytes_read = rw same (got-bytes rest contents m h);
          some = λ i j.
              got-some rest m i (omega (arith, length-drop (place (essential t)) file_bytes));
        },
        refl,
      );
  seeks = λ t fd offset h e. (refl, refl);
}

on_read-Transferred_example :
    Settled
      (λ v y.
        Transferred (position place) file_bytes 1 3 (0 ∷ 0 ∷ 0 ∷ 0 ∷ []) v y
        × (y.buffer.position ≡ 0))
      (on_read (native_file file_env 1 7 filled) 4 (pos 1) (pos 3) (store start))
on_read-Transferred_example =
    on_read-Transferred (native_file file_env 1 7 filled) file_bytes _ _
      (native_file-IsRegularFile file_env-IsHealthy file_env-SetsErrno 1 7 filled file_bytes place
        file_env-ServesFile)
      (omega (arith, file_bytes-length))
      (native_file-IsSeekable file_env-IsHealthy file_env-SetsErrno 1 7 filled file_bytes place
        file_env-ServesFile)
      1 3 (store start) (omega arith) (omega arith) (omega arith) (omega arith) refl refl
      start-IsReady
