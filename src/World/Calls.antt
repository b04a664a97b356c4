-- ===== src/World/Calls.antt =====
-- The calls that leave the bridge, and their answers.
use my_stest.Base.{ℕ, ℤ, Bool, Option, List, Text}

-- An address; 0 is NULL.
abbrev pub Ptr : Type 0
Ptr = ℕ

-- A `jstring` argument: the reference, and the modified UTF-8 bytes of the Java string behind it.
pub record JString : Type 0 where
  pub ref : ℕ
  pub chars : Text

-- A reference to the class of a name: local to the native call, or global.
pub data Jclass : Type 0 where
  local_ref : Text → Jclass
  global_ref : Text → Jclass

pub record MethodId : Type 0 where
  pub owner : Jclass
  pub name : Text
  pub signature : Text

-- A constructor's argument: a number, or a string that the bridge made by `NewStringUTF`.
pub data Jvalue : Type 0 where
  jint : ℤ → Jvalue
  jlong : ℤ → Jvalue
  string : Text → Jvalue

-- An object that the bridge made, as the class and the arguments that it was made of.
pub record Jobject : Type 0 where
  pub class : Jclass
  pub args : List Jvalue

-- `struct smbc_dirent`, as far as the bridge reads it.
pub record Dirent : Type 0 where
  pub smbc_type : ℕ
  pub comment : Text
  pub name : Text

-- `struct stat`
pub record Stat : Type 0 where
  pub st_dev : ℤ
  pub st_ino : ℤ
  pub st_mode : ℤ
  pub st_nlink : ℤ
  pub st_uid : ℤ
  pub st_gid : ℤ
  pub st_rdev : ℤ
  pub st_size : ℤ
  pub st_atime : ℤ
  pub st_mtime : ℤ
  pub st_ctime : ℤ
  pub st_blksize : ℤ
  pub st_blocks : ℤ

-- A call of libsmbclient or of the C library. Buffers are addresses; sizes are `size_t`s.
pub data Call : Type 0 where
  smbc_new_context : Call
  smbc_free_context : Ptr → Bool → Call
  smbc_set_debug : Ptr → Bool → Call
  smbc_set_function_auth_data : Ptr → Call
  smbc_set_option_use_kerberos : Ptr → Bool → Call
  smbc_set_option_fallback_after_kerberos : Ptr → Bool → Call
  smbc_init_context : Ptr → Call
  smbc_set_context : Ptr → Call
  smbc_opendir : Text → Call
  smbc_readdir : ℤ → Call
  smbc_closedir : ℤ → Call
  smbc_stat : Text → Call
  smbc_fstat : ℤ → Call
  smbc_creat : Text → ℕ → Call
  smbc_mkdir : Text → ℕ → Call
  smbc_rename : Text → Text → Call
  smbc_unlink : Text → Call
  smbc_rmdir : Text → Call
  smbc_open : Text → ℕ → ℕ → Call
  smbc_lseek : ℤ → ℤ → ℤ → Call
  smbc_read : ℤ → Ptr → ℕ → Call
  smbc_write : ℤ → Ptr → ℕ → Call
  smbc_close : ℤ → Call
  setenv : Text → Text → Bool → Call

-- What a call leaves: its result, as a number or a pointer, `errno`, and what it wrote or points
-- to in the caller's structures.
pub record Reply : Type 0 where
  pub result : ℤ
  pub pointer : Ptr
  pub error : ℤ
  pub entry : Option Dirent
  pub status : Stat

-- One step of a run that the environment sees, with its answer.
pub data Event : Type 0 where
  called : Call → Reply → Event
  allocated : Ptr → Event
  deleted : Ptr → Event
  got_chars : JString → Bool → Event
  released_chars : JString → Event
  found_class : Text → Bool → Event
  made_global : Jclass → Bool → Event
  got_method : Jclass → Text → Text → Bool → Event
  made_string : Text → Bool → Event
  made_object : Jclass → MethodId → List Jvalue → Bool → Event
  deleted_ref : Text → Event
  threw_new : Jclass → Text → Event
  threw : Jobject → Event
  got_buffer : ℕ → Ptr → Event

-- The newest event first.
abbrev pub Trace : Type 0
Trace = List Event

-- The environment. Each answer may depend on all that happened before, so the fields stand for
-- every behaviour of a server, of the JVM and of other threads between two calls.
pub record Env : Type 0 where
  pub reply : Trace → Call → Reply
  pub new_address : Trace → Ptr
  pub get_string_utf_chars : Trace → JString → Bool
  pub find_class : Trace → Text → Bool
  pub new_global_ref : Trace → Jclass → Bool
  pub get_method_id : Trace → Jclass → Text → Text → Bool
  pub new_string_utf : Trace → Text → Bool
  pub new_object : Trace → Jclass → MethodId → List Jvalue → Bool
  pub get_direct_buffer_address : Trace → ℕ → Ptr
