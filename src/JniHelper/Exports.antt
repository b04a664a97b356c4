-- ===== src/JniHelper/Exports.antt =====
-- The functions that the library exports to Java (jni_helper/JniHelper.h), with their JNI types, and
-- the call of each. A pointer travels as a `jlong`, of which the bridge uses the low 32 bits.
use my_stest.Base.{ℕ, ℤ, pos, Bool, Option, List, [], ◌∷◌, to_word}
use my_stest.World.Calls.{Ptr, JString, Jobject}
use my_stest.World.State.{Cmd, pure, ◌>>=◌}
use my_stest.JniHelper.Paths
use my_stest.JniHelper.OpenFile
use my_stest.JniHelper.Handles
use my_stest.JniHelper.Credentials
use my_stest.JniHelper.Lifecycle

pub data JniType : Type 0 where
  jlong jint jboolean jstring jobject void : JniType

-- One name for each declaration: the Java class, and its native method.
pub data Export : Type 0 where
  facade_native_init facade_native_destroy facade_open_dir facade_stat : Export
  facade_create_file facade_mkdir facade_rename facade_unlink facade_rmdir : Export
  facade_open_file : Export
  dir_read_dir dir_close : Export
  file_read file_seek file_fstat file_write file_close : Export
  cache_native_init cache_put_credential cache_remove_credential : Export
  configuration_set_env : Export

abbrev pub result_type : Export → JniType
result_type facade_native_init = jlong
result_type facade_native_destroy = void
result_type facade_open_dir = jint
result_type facade_stat = jobject
result_type facade_create_file = void
result_type facade_mkdir = void
result_type facade_rename = void
result_type facade_unlink = void
result_type facade_rmdir = void
result_type facade_open_file = jint
result_type dir_read_dir = jobject
result_type dir_close = void
result_type file_read = jlong
result_type file_seek = jlong
result_type file_fstat = jobject
result_type file_write = jlong
result_type file_close = void
result_type cache_native_init = jlong
result_type cache_put_credential = void
result_type cache_remove_credential = void
result_type configuration_set_env = void

-- The parameters after `env` and `instance`.
abbrev pub parameters : Export → List JniType
parameters facade_native_init = jboolean ∷ jlong ∷ []
parameters facade_native_destroy = jlong ∷ []
parameters facade_open_dir = jlong ∷ jstring ∷ []
parameters facade_stat = jlong ∷ jstring ∷ []
parameters facade_create_file = jlong ∷ jstring ∷ []
parameters facade_mkdir = jlong ∷ jstring ∷ []
parameters facade_rename = jlong ∷ jstring ∷ jstring ∷ []
parameters facade_unlink = jlong ∷ jstring ∷ []
parameters facade_rmdir = jlong ∷ jstring ∷ []
parameters facade_open_file = jlong ∷ jstring ∷ jstring ∷ []
parameters dir_read_dir = jlong ∷ jint ∷ []
parameters dir_close = jlong ∷ jint ∷ []
parameters file_read = jlong ∷ jint ∷ jobject ∷ jint ∷ []
parameters file_seek = jlong ∷ jint ∷ jlong ∷ jint ∷ []
parameters file_fstat = jlong ∷ jint ∷ []
parameters file_write = jlong ∷ jint ∷ jobject ∷ jint ∷ []
parameters file_close = jlong ∷ jint ∷ []
parameters cache_native_init = []
parameters cache_put_credential = jlong ∷ jstring ∷ jstring ∷ jstring ∷ jstring ∷ []
parameters cache_remove_credential = jlong ∷ jstring ∷ []
parameters configuration_set_env = jstring ∷ jstring ∷ []

-- What Java passes: for an object, its reference.
abbrev pub Argument : JniType → Type 0
Argument jlong = ℤ
Argument jint = ℤ
Argument jboolean = Bool
Argument jstring = JString
Argument jobject = ℕ
Argument void = Unit {0}

abbrev pub Arguments : List JniType → Type 0
Arguments [] = Unit {0}
Arguments (t ∷ ts) = Argument t × Arguments ts

-- What Java gets back.
abbrev pub Returned : JniType → Type 0
Returned jlong = ℤ
Returned jint = ℤ
Returned jboolean = Bool
Returned jstring = Option JString
Returned jobject = Option Jobject
Returned void = Unit {0}

-- `reinterpret_cast<jlong>` of a pointer.
abbrev pub from_pointer : Cmd Ptr → Cmd ℤ
from_pointer m = do p ← m; pure (pos p)

unfoldable pub invoke : (e : Export) → Arguments (parameters e) → Cmd (Returned (result_type e))
unfolding Lifecycle.native_init Lifecycle.native_destroy Credentials.native_init to_word
invoke facade_native_init (debug, (cache, _)) =
    from_pointer (Lifecycle.native_init debug (to_word cache))
invoke facade_native_destroy (pointer, _) = Lifecycle.native_destroy (to_word pointer)
invoke facade_open_dir (pointer, (uri, _)) = Paths.open_dir (to_word pointer) uri
invoke facade_stat (pointer, (uri, _)) = Paths.stat (to_word pointer) uri
invoke facade_create_file (pointer, (uri, _)) = Paths.create_file (to_word pointer) uri
invoke facade_mkdir (pointer, (uri, _)) = Paths.mkdir (to_word pointer) uri
invoke facade_rename (pointer, (uri, (nuri, _))) = Paths.rename (to_word pointer) uri nuri
invoke facade_unlink (pointer, (uri, _)) = Paths.unlink (to_word pointer) uri
invoke facade_rmdir (pointer, (uri, _)) = Paths.rmdir (to_word pointer) uri
invoke facade_open_file (pointer, (uri, (mode, _))) = OpenFile.open_file (to_word pointer) uri mode
invoke dir_read_dir (pointer, (fd, _)) = Handles.read_dir (to_word pointer) fd
invoke dir_close (pointer, (fd, _)) = Handles.close_dir (to_word pointer) fd
invoke file_read (pointer, (fd, (buffer, (maxlen, _)))) =
    Handles.read (to_word pointer) fd buffer maxlen
invoke file_seek (pointer, (fd, (offset, (whence, _)))) =
    Handles.seek (to_word pointer) fd offset whence
invoke file_fstat (pointer, (fd, _)) = Handles.fstat (to_word pointer) fd
invoke file_write (pointer, (fd, (buffer, (length, _)))) =
    Handles.write (to_word pointer) fd buffer length
invoke file_close (pointer, (fd, _)) = Handles.close_file (to_word pointer) fd
invoke cache_native_init _ = from_pointer Credentials.native_init
invoke cache_put_credential (pointer, (uri, (workgroup, (username, (password, _))))) =
    Credentials.put_credential (to_word pointer) uri workgroup username password
invoke cache_remove_credential (pointer, (uri, _)) =
    Credentials.remove_credential (to_word pointer) uri
invoke configuration_set_env (var, (value, _)) = Credentials.set_env var value
