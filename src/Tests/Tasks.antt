-- ===== src/Tests/Tasks.antt =====
-- The theorems on ReadFileTask.java and WriteFileTask.java at concrete inputs.
use my_stest.Base.{
  ℕ, zero, suc, ◌+◌, ◌≤◌, pos, negsuc, ◌≡◌, refl, false, true, none, some, inl, Text, [], ◌∷◌, ◌++◌,
  length, take, arith, bytes,
}
use my_stest.Nativefacade.Java.{errno_exception, returned, threw, Store}
use my_stest.Nativefacade.NativeFile.{NativeFile}
use my_stest.Provider.Tasks.{Pipe, Descriptor, succeeded, read_file_task, write_file_task}
use my_stest.Provider.ReadTask.{Delivered, read_file_task-Delivered}
use my_stest.Provider.WriteTask.{IsSink, write_file_task-kept}
use my_stest.Provider.NativeContents.{position, native_file-IsRegularFile, native_file-closes}
use my_stest.Tests.Contents.{
  place, filled, file_env, file_env-IsHealthy, file_env-SetsErrno, file_env-ServesFile,
}
use my_stest.Tests.Setting.{start, start-IsReady}
use my_stest.Nativefacade.Bridge.{native_file}
use my_stest.Tests.Transfers.{store, file_bytes, file_bytes-length}

-- A pipe that breaks within its third piece, and whose closings throw nothing.
abbrev breaking : Descriptor
breaking = record {
  refuses = λ p next. elim p.output [ a ∷ b ∷ before ↦ some 0 | _ ↦ none ];
  close_fails = λ p. false;
  close_with_error_throws = λ e p. none;
}

abbrev opened : Pipe
opened = record { output = []; closings = [] }

read_file_task-Delivered_example : Delivered (native_file file_env 1 7 filled) breaking file_bytes (
    read_file_task
      (native_file file_env 1 7 filled)
      breaking
      (length file_bytes + 1)
      (store start, opened))
read_file_task-Delivered_example =
    read_file_task-Delivered (native_file file_env 1 7 filled) file_bytes _
      (native_file-closes file_env-IsHealthy file_env-SetsErrno 1 7 filled file_bytes place
        file_env-ServesFile)
      breaking (position place)
      (native_file-IsRegularFile file_env-IsHealthy file_env-SetsErrno 1 7 filled file_bytes place
        file_env-ServesFile)
      (omega (arith, file_bytes-length)) (store start) refl refl start-IsReady refl (omega arith)
      (omega arith)

-- A file whose writes take one byte.
abbrev one_of : ℕ → ℕ
one_of zero = 0
one_of (suc m) = 1

one_of_le : (m : ℕ) → one_of m ≤ m
one_of_le zero = omega arith
one_of_le (suc m) = omega arith

abbrev one_byte_file : NativeFile Text
one_byte_file = record {
  read = λ fd contents maxlen s. returned (pos 0, contents) s;
  write = λ fd contents size s. elim size [
    | pos m ↦ returned (pos (one_of m)) (s ++ take (one_of m) contents)
    | negsuc m ↦ threw (errno_exception (bytes "write") (pos 22)) s
  ];
  seek = λ fd offset whence s. returned offset s;
  close = λ fd s. returned tt s;
}

one_byte_file-IsSink : IsSink one_byte_file (λ s. s) one_of
one_byte_file-IsSink = record {
  takes_le = one_of_le;
  writes = λ fd contents m s. (s ++ take (one_of m) contents, refl, refl);
  closes = λ fd s. (s, refl, refl);
}

write_file_task-kept_example :
    (y : Store Text) × (q : Pipe) × (write_file_task one_byte_file breaking true
        ((1 ∷ 2 ∷ []) ∷ (3 ∷ []) ∷ [])
        (store [], opened)
      ≡ returned succeeded (y, q))
    × (y.native ≡ 1 ∷ 3 ∷ [])
write_file_task-kept_example =
    write_file_task-kept one_byte_file (λ s. s) one_of one_byte_file-IsSink breaking true
      ((1 ∷ 2 ∷ []) ∷ (3 ∷ []) ∷ []) (store []) opened (λ _ _. inl refl) refl (omega arith)
      (omega arith)
