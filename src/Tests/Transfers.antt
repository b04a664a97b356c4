-- ===== src/Tests/Transfers.antt =====
-- The theorems on the transfers of SambaProxyFileCallback.java at concrete inputs.
use my_stest.Base.{
  ℕ, zero, suc, ◌+◌, ◌≤◌, ◌<◌, pos, negsuc, ◌≡◌, refl, true, Text, [], ◌∷◌, length, take, drop,
  arith, bytes, lt_int,
}
use my_stest.World.Calls.{Call, Reply, smbc_write, smbc_new_context, smbc_read, smbc_init_context}
use my_stest.Libsmbclient.Contract.{allows, FollowsHeader}
use my_stest.Nativefacade.Java.{errno_exception, returned, threw, unfinished, Store}
use my_stest.Nativefacade.NativeFile.{NativeFile, Settled}
use my_stest.Nativefacade.Bridge.{native_file}
use my_stest.Nativefacade.BridgeLaws.{WritesSome}
use my_stest.Provider.Transfers.{on_read, on_write}
use my_stest.Provider.TransferEnds.{Upto}
use my_stest.Provider.WriteEnds.{Exactly}
use my_stest.Provider.NativeTransfers.{on_read-native_file, on_write-native_file}
use my_stest.Provider.Stalls.{on_write-unfinished}
use my_stest.Tests.Setting.{
  documented, serving, serving-IsHealthy, documented-FollowsHeader, start, start-IsReady,
}

abbrev pub store : {S : Type 0} → S → Store S
store s = record {
  native = s;
  file = record { native_fd = pos 5; offset = pos 0 };
  buffer = record { position = 0; contents = 0 ∷ 0 ∷ [] };
  array = 0 ∷ 0 ∷ 0 ∷ 0 ∷ [];
}

on_read-native_file_example :
    Settled
      (λ v y. Upto 3 4 v y × (y.buffer.position ≡ 0))
      (on_read (native_file (serving documented) 1 7 (λ _ c. c)) 4 (pos 6) (pos 3) (store start))
on_read-native_file_example =
    on_read-native_file (serving-IsHealthy documented) documented-FollowsHeader 1 7 (λ _ c. c)
      (λ _ _. refl) (pos 6) 3 (store start) (omega arith) (omega arith) refl start-IsReady

-- All bytes of a write are taken.
abbrev accepting : Call → Reply
accepting (smbc_write fd p size) = record (documented (smbc_write fd p size)) { result = pos size }
accepting c = documented c

accepted : (c : Call) → allows c (accepting c) ≡ true
unfolding allows
accepted smbc_new_context = refl
accepted (smbc_init_context c) = ground arith
accepted (smbc_read fd p size) = ground arith
accepted (smbc_write fd p size) = ground arith
accepted _ = refl

accepting-FollowsHeader : FollowsHeader (serving accepting)
accepting-FollowsHeader = record { documented = λ t c. accepted c }

accepting-WritesSome : WritesSome (serving accepting)
accepting-WritesSome = record { moves = λ t fd p size some. ground arith }

on_write-native_file_example :
    Settled
      (λ v y. Exactly 3 4 v y × (y.buffer.position ≡ 0))
      (on_write (native_file (serving accepting) 1 7 (λ _ c. c)) 4 (pos 6) (pos 3) (store start))
on_write-native_file_example =
    on_write-native_file (serving-IsHealthy accepting) accepting-FollowsHeader 1 7 (λ _ c. c)
      (λ _ _. refl) (pos 6) 3 (store start) (omega arith) (omega arith) refl start-IsReady
      accepting-WritesSome (omega arith)

-- A file that gives one byte at a time.
abbrev pub got : Text → ℕ → ℕ
got [] m = 0
got (b ∷ rest) zero = 0
got (b ∷ rest) (suc m) = 1

abbrev pub left : Text → ℕ → Text → Text
left [] m contents = contents
left (b ∷ rest) zero contents = contents
left (b ∷ rest) (suc m) [] = []
left (b ∷ rest) (suc m) (c ∷ contents) = b ∷ contents

abbrev pub file_bytes : Text
file_bytes = bytes "abcde"

abbrev pub slow_file : NativeFile ℕ
slow_file = record {
  read = λ fd contents maxlen s. elim maxlen [
    | pos m ↦
        returned (pos (got (drop s file_bytes) m), left (drop s file_bytes) m contents)
          (s + got (drop s file_bytes) m)
    | negsuc m ↦ threw (errno_exception (bytes "read") (pos 22)) s
  ];
  write = λ fd contents size s. returned (pos 0) s;
  seek = λ fd offset whence s. elim offset [
    | pos o ↦ returned (pos o) o
    | negsuc o ↦ threw (errno_exception (bytes "seek") (pos 22)) s
  ];
  close = λ fd s. returned tt s;
}

pub left-length : (rest contents : Text) (m : ℕ) → length (left rest m contents) ≡ length contents
left-length [] contents m = refl
left-length (b ∷ rest) contents zero = refl
left-length (b ∷ rest) [] (suc m) = refl
left-length (b ∷ rest) (c ∷ contents) (suc m) = refl

pub got-le : (rest : Text) (m : ℕ) → got rest m ≤ m
got-le [] m = omega arith
got-le (b ∷ rest) zero = omega arith
got-le (b ∷ rest) (suc m) = omega arith

pub got-there : (rest : Text) (m : ℕ) → length (take (got rest m) rest) ≡ got rest m
got-there [] m = refl
got-there (b ∷ rest) zero = refl
got-there (b ∷ rest) (suc m) = refl

pub got-bytes :
    (rest contents : Text) (m : ℕ)
    → m ≤ length contents
    → take (got rest m) (left rest m contents) ≡ take (got rest m) rest
got-bytes [] contents m h = refl
got-bytes (b ∷ rest) contents zero h = refl
got-bytes (b ∷ rest) [] (suc m) h = absurd (omega arith)
got-bytes (b ∷ rest) (c ∷ contents) (suc m) h = refl

pub got-some : (rest : Text) (m : ℕ) → 0 < m → 0 < length rest → 0 < got rest m
got-some [] m h k = k
got-some (b ∷ rest) zero h k = h
got-some (b ∷ rest) (suc m) h k = omega arith

pub file_bytes-length : length file_bytes ≡ 5
unfolding bytes
file_bytes-length = refl

on_write-unfinished_example : on_write slow_file 9 (pos 0) (pos 3) (store 0) ≡ unfinished
unfolding lt_int
on_write-unfinished_example =
    on_write-unfinished slow_file (λ _ _ _ s. (s, refl)) 9 3 (pos 0) (store 0) (omega arith)
      (omega arith) (omega arith) refl refl
