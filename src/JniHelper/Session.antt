-- ===== src/JniHelper/Session.antt =====
-- Sequences of calls of the native methods on paths and descriptors (jni_helper/JniHelper.cc), as
-- Java makes them one after another.
use my_stest.Base.{ℕ, ℤ, List, [], ◌∷◌, HasNoNul}
use my_stest.World.Calls.{Ptr, JString}
use my_stest.World.State.{Cmd, pure, ◌>>◌}
use my_stest.JniHelper.Paths
use my_stest.JniHelper.OpenFile
use my_stest.JniHelper.Handles

-- A call of a native method with its arguments.
pub data Request : Type 0 where
  open_dir stat create_file mkdir unlink rmdir : Ptr → JString → Request
  rename open_file : Ptr → JString → JString → Request
  read_dir close_dir fstat close_file : Ptr → ℤ → Request
  seek : Ptr → ℤ → ℤ → ℤ → Request
  read write : Ptr → ℤ → ℕ → ℤ → Request

-- A mode is a C string.
abbrev pub IsGiven : Request → Type 0
IsGiven (open_file pointer uri mode) = HasNoNul mode.chars
IsGiven _ = Unit {0}

abbrev pub AreGiven : List Request → Type 0
AreGiven [] = Unit {0}
AreGiven (q ∷ qs) = IsGiven q × AreGiven qs

-- The method without its value.
abbrev pub perform : Request → Cmd (Unit {0})
perform (open_dir p uri) = do Paths.open_dir p uri; pure tt
perform (stat p uri) = do Paths.stat p uri; pure tt
perform (create_file p uri) = do Paths.create_file p uri; pure tt
perform (mkdir p uri) = do Paths.mkdir p uri; pure tt
perform (unlink p uri) = do Paths.unlink p uri; pure tt
perform (rmdir p uri) = do Paths.rmdir p uri; pure tt
perform (rename p uri nuri) = do Paths.rename p uri nuri; pure tt
perform (open_file p uri mode) = do OpenFile.open_file p uri mode; pure tt
perform (read_dir p dh) = do Handles.read_dir p dh; pure tt
perform (close_dir p dh) = do Handles.close_dir p dh; pure tt
perform (fstat p fd) = do Handles.fstat p fd; pure tt
perform (close_file p fd) = do Handles.close_file p fd; pure tt
perform (seek p fd offset whence) = do Handles.seek p fd offset whence; pure tt
perform (read p fd buffer maxlen) = do Handles.read p fd buffer maxlen; pure tt
perform (write p fd buffer len) = do Handles.write p fd buffer len; pure tt

abbrev pub perform_all : List Request → Cmd (Unit {0})
perform_all [] = pure tt
perform_all (q ∷ qs) = do perform q; perform_all qs
