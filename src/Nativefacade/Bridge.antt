-- ===== src/Nativefacade/Bridge.antt =====
-- The native methods of SambaFile.java by their code in app/src/main/cpp/jni_helper/JniHelper.cc, for
-- one buffer.
use my_stest.Base.{ℕ, ◌+◌, [], ◌∷◌, ◌==◌, if◌then◌else◌, Text, text_eq}
use my_stest.World.Calls.{
  Ptr, global_ref, local_ref, string, jint, Jobject, Event, Trace, threw, threw_new, Env,
}
use my_stest.World.State.{State, Run, ok, exited, fault}
use my_stest.JniHelper.Objects.{errno_name}
use my_stest.JniHelper.Handles
use my_stest.Nativefacade.Java.{Throwable, errno_exception, other, Java, returned, died, continue}
use my_stest.Nativefacade.NativeFile.{NativeFile}

-- How many exceptions native code has thrown.
abbrev throws : Event → ℕ
throws (threw obj) = 1
throws (threw_new c message) = 1
throws _ = 0

abbrev pub raised : Trace → ℕ
raised [] = 0
raised (e ∷ t) = throws e + raised t

-- `new ErrnoException(function, err)`
abbrev pub thrown_object : Jobject → Throwable
thrown_object obj = elim obj.class [
  | local_ref name ↦ other
  | global_ref name ↦
      if text_eq name errno_name
      then elim obj.args [ string f ∷ jint err ∷ [] ↦ errno_exception f err | _ ↦ other ]
      else other
]

-- The exception that was thrown last.
abbrev pub newest : Trace → Throwable
newest [] = other
newest (threw obj ∷ t) = thrown_object obj
newest (threw_new c message ∷ t) = other
newest (e ∷ t) = newest t

-- A native method whose code has thrown ends in the exception.
unfoldable pub settle : {A : Type 0} → State → Run A → Java State A
settle s (ok a t) =
    if raised t.trace == raised s.trace then returned a t else Java.threw (newest t.trace) t
settle s (exited status t) = died
settle s fault = died

module _ (env : Env) (pointer : Ptr) (buffer : ℕ) (filled : Trace → Text → Text) where
  -- `filled` is what a read has left in the buffer's memory.
  unfoldable pub native_file : NativeFile State
  unfolding settle
  native_file = record {
    read = λ fd contents maxlen s.
        continue (settle s (Handles.read pointer fd buffer maxlen env s))
          λ v t. returned (v, filled t.trace contents) t;
    write = λ fd contents length s. settle s (Handles.write pointer fd buffer length env s);
    seek = λ fd offset whence s. settle s (Handles.seek pointer fd offset whence env s);
    close = λ fd s. settle s (Handles.close_file pointer fd env s);
  }
