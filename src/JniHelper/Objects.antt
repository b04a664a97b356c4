-- ===== src/JniHelper/Objects.antt =====
-- The static helpers of JniHelper.cc that throw exceptions and make Java objects.
use my_stest.Base.{
  ℕ, ℤ, pos, Option, none, some, List, [], ◌∷◌, Text, bytes, take, Bool, is_code, ◌||◌,
  if◌then◌else◌, false, to_int32, to_int64,
}
use my_stest.World.Calls.{jint, jlong, string, Jobject, Dirent, Stat}
use my_stest.World.State.{
  Cmd, pure, ◌>>=◌, ◌>>◌, directory_entry_site, file_not_found_site, errno_site, auth_failed_site,
  struct_stat_site,
}
use my_stest.World.Jni.{
  get_method_id, new_string_utf, new_object, delete_local_ref, throw_new, throw,
}
use my_stest.JavaClassCache
use my_stest.JavaClassCache.{static_class, static_method}

-- `CLASS_PREFIX "/base/DirectoryEntry"` and the other class names.
unfoldable pub directory_entry_name : Text
directory_entry_name = bytes "com/evideo/sambaprovider/base/DirectoryEntry"

unfoldable pub file_not_found_name : Text
file_not_found_name = bytes "java/io/FileNotFoundException"

unfoldable pub errno_name : Text
errno_name = bytes "android/system/ErrnoException"

unfoldable pub auth_failed_name : Text
auth_failed_name = bytes "com/evideo/sambaprovider/base/AuthFailedException"

unfoldable pub struct_stat_name : Text
struct_stat_name = bytes "android/system/StructStat"

-- The constructors' name, `"<init>"`.
unfoldable pub init_name : Text
init_name = bytes "<init>"

-- `goto bail` is the end of the branch: the comment's reference is deleted on every way out.
unfoldable pub create_directory_entry : Dirent → Cmd (Option Jobject)
create_directory_entry ent = do
  class ← static_class directory_entry_site (JavaClassCache.get directory_entry_name)
  ctor ←
      static_method directory_entry_site
        (get_method_id class init_name (bytes "(ILjava/lang/String;Ljava/lang/String;)V"))
  comment ← new_string_utf ent.comment
  elim comment [
    | none ↦ pure none
    | some comment ↦ do
      name ← new_string_utf ent.name
      elim name [
        | none ↦ do delete_local_ref comment; pure none
        | some name ↦ do
          entry ←
              new_object class ctor
                (jint (to_int32 (pos ent.smbc_type)) ∷ string comment ∷ string name ∷ [])
          delete_local_ref name
          delete_local_ref comment
          pure entry
      ]
  ]

-- `vsnprintf` keeps the first 255 bytes of the formatted message.
unfoldable pub throw_new_file_not_found_exception : Text → Cmd (Unit {0})
throw_new_file_not_found_exception formatted = do
  class ← static_class file_not_found_site (JavaClassCache.get file_not_found_name)
  throw_new class (take 255 formatted)

unfoldable pub throw_new_errno_exception : Text → ℤ → Cmd (Unit {0})
throw_new_errno_exception function_name err = do
  class ← static_class errno_site (JavaClassCache.get errno_name)
  ctor ← static_method errno_site (get_method_id class init_name (bytes "(Ljava/lang/String;I)V"))
  name ← new_string_utf function_name
  elim name [
    | none ↦ pure tt
    | some name ↦ do
      exception ← new_object class ctor (string name ∷ jint err ∷ [])
      elim exception [ none ↦ pure tt | some e ↦ throw e ]
  ]

unfoldable pub throw_new_auth_failed_exception : Cmd (Unit {0})
throw_new_auth_failed_exception = do
  class ← static_class auth_failed_site (JavaClassCache.get auth_failed_name)
  ctor ← static_method auth_failed_site (get_method_id class init_name (bytes "()V"))
  exception ← new_object class ctor []
  elim exception [ none ↦ pure tt | some e ↦ throw e ]

unfoldable pub create_structstat : Stat → Cmd (Option Jobject)
create_structstat st = do
  class ← static_class struct_stat_site (JavaClassCache.get struct_stat_name)
  ctor ← static_method struct_stat_site (get_method_id class init_name (bytes "(JJIJIIJJJJJJJ)V"))
  new_object class ctor (
      jlong (to_int64 st.st_dev)
      ∷ jlong (to_int64 st.st_ino)
      ∷ jint (to_int32 st.st_mode)
      ∷ jlong (to_int64 st.st_nlink)
      ∷ jint (to_int32 st.st_uid)
      ∷ jint (to_int32 st.st_gid)
      ∷ jlong (to_int64 st.st_rdev)
      ∷ jlong (to_int64 st.st_size)
      ∷ jlong (to_int64 st.st_atime)
      ∷ jlong (to_int64 st.st_mtime)
      ∷ jlong (to_int64 st.st_ctime)
      ∷ jlong (to_int64 st.st_blksize)
      ∷ jlong (to_int64 st.st_blocks)
      ∷ [])

-- A C `switch` on an error number whose branches all break.
abbrev is_one_of : ℤ → List ℕ → Bool
is_one_of err [] = false
is_one_of err (code ∷ codes) = is_code err code || is_one_of err codes

unfoldable pub switch : ℤ → List (List ℕ × Cmd (Unit {0})) → Cmd (Unit {0}) → Cmd (Unit {0})
switch err [] default = default
switch err ((codes, branch) ∷ cases) default =
    if is_one_of err codes then branch else switch err cases default
