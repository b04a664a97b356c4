-- ===== src/JniHelper/Made.antt =====
-- The objects that jni_helper/JniHelper.cc makes, in a healthy JVM.
use my_stest.Base.{pos, refl, some, [], ◌∷◌, bytes, to_int32, to_int64}
use my_stest.World.Calls.{global_ref, jint, jlong, string, Jobject, Dirent, Stat, Env, deleted_ref}
use my_stest.World.State.{State, directory_entry_site, struct_stat_site}
use my_stest.World.Jni.{new_string_utf, new_object, delete_local_ref}
use my_stest.JniHelper.Objects.{
  directory_entry_name, struct_stat_name, create_directory_entry, create_structstat,
}
use my_stest.JniHelper.Ready.{IsHealthy, IsReady, Does, Does-trace, Does-quiet}
use my_stest.JniHelper.ClassLaws.{static_class-Does, static_method-Does}

-- A `StructStat` with the fields of the `struct stat`, in the constructor's order.
abbrev pub stat_object : Stat → Jobject
stat_object st = record {
  class = global_ref struct_stat_name;
  args =
      jlong (to_int64 st.st_dev)
      ∷ jlong (to_int64 st.st_ino)
      ∷ jint (to_int32 st.st_mode)
      ∷ jlong (to_int64 st.st_nlink)
      ∷ jint (to_int32 st.st_uid)
      ∷ jint (to_int32 st.st_gid)
      ∷ jlong (to_int64 st.st_rdev)
      ∷ jlong (to_int64 st.st_size)
      ∷ jlong (to_int64 st.st_atime)
      ∷ jlong (to_int64 st.st_mtime)
      ∷ jlong (to_int64 st.st_ctime)
      ∷ jlong (to_int64 st.st_blksize)
      ∷ jlong (to_int64 st.st_blocks)
      ∷ [];
}

-- A `DirectoryEntry` with the entry's type, comment and name.
abbrev pub entry_object : Dirent → Jobject
entry_object ent = record {
  class = global_ref directory_entry_name;
  args = jint (to_int32 (pos ent.smbc_type)) ∷ string ent.comment ∷ string ent.name ∷ [];
}

module _ {env : Env} (healthy : IsHealthy env) where
  pub create_structstat-Does :
      (st : Stat) (s : State)
      → IsReady s
      → Does s (create_structstat st env s) (some (stat_object st)) []
  unfolding create_structstat new_object
  create_structstat-Does st s h =
      Does-quiet _ (static_class-Does healthy struct_stat_site s h) λ t ready.
        let (m, d) =
          static_method-Does healthy struct_stat_site (bytes "(JJIJIIJJJJJJJ)V") t ready in
        Does-quiet _ d λ u settled. rw healthy.makes_object (Does-trace _ settled refl)

  -- Both strings' references are deleted once the object is made.
  pub create_directory_entry-Does :
      (ent : Dirent) (s : State)
      → IsReady s
      → Does s
          (create_directory_entry ent env s)
          (some (entry_object ent))
          (deleted_ref ent.comment ∷ deleted_ref ent.name ∷ [])
  unfolding create_directory_entry new_object new_string_utf delete_local_ref
  create_directory_entry-Does ent s h =
      Does-quiet _ (static_class-Does healthy directory_entry_site s h) λ t ready.
        let (m, d) =
          static_method-Does healthy directory_entry_site
            (bytes "(ILjava/lang/String;Ljava/lang/String;)V") t ready in
        Does-quiet _ d λ u settled.
          rw healthy.makes_string
            (rw healthy.makes_string (rw healthy.makes_object (Does-trace _ settled refl)))
