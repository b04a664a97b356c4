-- ===== src/JniHelper/Paths.antt =====
-- The methods of `NativeSambaFacade` that take a path (jni_helper/JniHelper.cc). The native object
-- that `pointer` names is not read by the methods called on it.
use my_stest.Base.{
  ℤ, negsuc, is_negative, neg_int, Option, none, some, [], ◌∷◌, ◌++◌, Text, bytes, if◌then◌else◌,
}
use my_stest.World.Calls.{Ptr, JString, Jobject}
use my_stest.World.State.{Cmd, pure, ◌>>=◌, ◌>>◌}
use my_stest.World.Jni.{get_string_utf_chars, release_string_utf_chars}
use my_stest.World.Libc.{eperm, enoent, eacces, enodev}
use my_stest.SambaClient.Files
use my_stest.JniHelper.Objects.{
  throw_new_file_not_found_exception, throw_new_errno_exception, throw_new_auth_failed_exception,
  create_structstat, switch,
}

-- The `switch` of `openDir`.
unfoldable pub open_dir_failed : Text → ℤ → Cmd (Unit {0})
open_dir_failed uri err =
    switch err
      ((
        enodev ∷ enoent ∷ [],
        throw_new_file_not_found_exception
            (bytes "Directory at " ++ (uri ++ bytes " can't be found.")),
      )
        ∷ (eacces ∷ eperm ∷ [], throw_new_auth_failed_exception)
        ∷ [])
      (throw_new_errno_exception (bytes "openDir") err)

unfoldable pub open_dir : Ptr → JString → Cmd ℤ
unfolding open_dir_failed Files.open_dir
open_dir pointer uri_ = do
  chars ← get_string_utf_chars uri_
  elim chars [
    | none ↦ pure (negsuc 0)
    | some uri ↦ do
      fd ← Files.open_dir uri
      if is_negative fd then open_dir_failed uri (neg_int fd) else pure tt
      release_string_utf_chars uri_
      pure fd
  ]

-- The `switch` of `stat`.
unfoldable pub stat_failed : Text → ℤ → Cmd (Unit {0})
stat_failed uri err =
    switch err
      ((enodev ∷ enoent ∷ [], throw_new_file_not_found_exception (bytes "Can't find " ++ uri))
        ∷ (eacces ∷ [], throw_new_auth_failed_exception)
        ∷ [])
      (throw_new_errno_exception (bytes "stat") err)

unfoldable pub stat : Ptr → JString → Cmd (Option Jobject)
unfolding stat_failed Files.stat
stat pointer uri_ = do
  chars ← get_string_utf_chars uri_
  elim chars [
    | none ↦ pure none
    | some uri ↦ do
      (result, st) ← Files.stat uri
      object ←
          if is_negative result
          then (do stat_failed uri (neg_int result); pure none)
          else create_structstat st
      release_string_utf_chars uri_
      pure object
  ]

-- The `switch` of `createFile`.
unfoldable pub create_file_failed : Text → ℤ → Cmd (Unit {0})
create_file_failed uri err =
    switch err
      ((
        enodev ∷ enoent ∷ [],
        throw_new_file_not_found_exception (bytes "Missing parent folders of " ++ uri),
      )
        ∷ (eacces ∷ [], throw_new_auth_failed_exception)
        ∷ [])
      (throw_new_errno_exception (bytes "createFile") err)

unfoldable pub create_file : Ptr → JString → Cmd (Unit {0})
unfolding create_file_failed Files.create_file
create_file pointer uri_ = do
  chars ← get_string_utf_chars uri_
  elim chars [
    | none ↦ pure tt
    | some uri ↦ do
      result ← Files.create_file uri
      if is_negative result then create_file_failed uri (neg_int result) else pure tt
      release_string_utf_chars uri_
  ]

-- The `switch` of `mkdir`.
unfoldable pub mkdir_failed : Text → ℤ → Cmd (Unit {0})
mkdir_failed uri err =
    switch err
      ((
        enodev ∷ enoent ∷ [],
        throw_new_file_not_found_exception (bytes "Missing parent folders of " ++ uri),
      )
        ∷ (eacces ∷ [], throw_new_auth_failed_exception)
        ∷ [])
      (throw_new_errno_exception (bytes "mkdir") err)

unfoldable pub mkdir : Ptr → JString → Cmd (Unit {0})
unfolding mkdir_failed Files.mkdir
mkdir pointer uri_ = do
  chars ← get_string_utf_chars uri_
  elim chars [
    | none ↦ pure tt
    | some uri ↦ do
      result ← Files.mkdir uri
      if is_negative result then mkdir_failed uri (neg_int result) else pure tt
      release_string_utf_chars uri_
  ]

-- The `switch` of `unlink`.
unfoldable pub unlink_failed : Text → ℤ → Cmd (Unit {0})
unlink_failed uri err =
    switch err
      ((enodev ∷ enoent ∷ [], throw_new_file_not_found_exception (uri ++ bytes " is not found."))
        ∷ (eacces ∷ eperm ∷ [], throw_new_auth_failed_exception)
        ∷ [])
      (throw_new_errno_exception (bytes "unlink") err)

unfoldable pub unlink : Ptr → JString → Cmd (Unit {0})
unfolding unlink_failed Files.unlink
unlink pointer uri_ = do
  chars ← get_string_utf_chars uri_
  elim chars [
    | none ↦ pure tt
    | some uri ↦ do
      result ← Files.unlink uri
      if is_negative result then unlink_failed uri (neg_int result) else pure tt
      release_string_utf_chars uri_
  ]

-- The `switch` of `rmdir`.
unfoldable pub rmdir_failed : Text → ℤ → Cmd (Unit {0})
rmdir_failed uri err =
    switch err
      ((enodev ∷ enoent ∷ [], throw_new_file_not_found_exception (uri ++ bytes " is not found."))
        ∷ (eacces ∷ eperm ∷ [], throw_new_auth_failed_exception)
        ∷ [])
      (throw_new_errno_exception (bytes "rmdir") err)

unfoldable pub rmdir : Ptr → JString → Cmd (Unit {0})
unfolding rmdir_failed Files.rmdir
rmdir pointer uri_ = do
  chars ← get_string_utf_chars uri_
  elim chars [
    | none ↦ pure tt
    | some uri ↦ do
      result ← Files.rmdir uri
      if is_negative result then rmdir_failed uri (neg_int result) else pure tt
      release_string_utf_chars uri_
  ]

-- The `switch` of `rename`.
unfoldable pub rename_failed : Text → Text → ℤ → Cmd (Unit {0})
rename_failed uri nuri err =
    switch err
      ((
        enodev ∷ enoent ∷ [],
        throw_new_file_not_found_exception
            (uri ++ (bytes " is not found, or parent of " ++ (nuri ++ bytes " is not found."))),
      )
        ∷ (eacces ∷ eperm ∷ [], throw_new_auth_failed_exception)
        ∷ [])
      (throw_new_errno_exception (bytes "rename") err)

unfoldable pub rename : Ptr → JString → JString → Cmd (Unit {0})
unfolding rename_failed Files.rename
rename pointer uri_ nuri_ = do
  chars ← get_string_utf_chars uri_
  elim chars [
    | none ↦ pure tt
    | some uri ↦ do
      nchars ← get_string_utf_chars nuri_
      elim nchars [
        | none ↦ release_string_utf_chars uri_
        | some nuri ↦ do
          result ← Files.rename uri nuri
          if is_negative result then rename_failed uri nuri (neg_int result) else pure tt
          release_string_utf_chars nuri_
          release_string_utf_chars uri_
      ]
  ]
