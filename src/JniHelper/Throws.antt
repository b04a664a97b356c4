-- ===== src/JniHelper/Throws.antt =====
-- The exceptions of the native methods in a healthy JVM, and how an error number chooses one
-- (the `throw_new_…` helpers and the `switch`es of jni_helper/JniHelper.cc).
use my_stest.Base.{
  ℤ, refl, Bool, true, false, [], ◌∷◌, Text, take, is_code, Bool-cases, inl, inr, if◌then◌else◌,
  bytes,
}
use my_stest.World.Calls.{global_ref, jint, string, Event, threw, threw_new, Env}
use my_stest.World.State.{State, file_not_found_site, errno_site, auth_failed_site}
use my_stest.World.Libc.{eperm, enoent, eacces, enodev}
use my_stest.World.Jni.{new_string_utf, new_object, throw_new, throw}
use my_stest.JniHelper.Objects.{
  file_not_found_name, errno_name, auth_failed_name, throw_new_file_not_found_exception,
  throw_new_errno_exception, throw_new_auth_failed_exception, switch,
}
use my_stest.JniHelper.Ready.{IsHealthy, IsReady, Does, Does-trace, Does-quiet}
use my_stest.JniHelper.ClassLaws.{static_class-Does, static_method-Does}

-- What a Java caller catches.
pub data Exception : Type 0 where
  file_not_found : Text → Exception
  auth_failed : Exception
  errno_exception : Text → ℤ → Exception

-- The call of the JVM that throws it.
abbrev pub thrown : Exception → Event
thrown (file_not_found message) = threw_new (global_ref file_not_found_name) (take 255 message)
thrown auth_failed = threw (record { class = global_ref auth_failed_name; args = [] })
thrown (errno_exception function err) =
    threw (record { class = global_ref errno_name; args = string function ∷ jint err ∷ [] })

-- Which exception a method throws for an error number: its name, its message, and whether EPERM
-- counts as a refused login beside EACCES.
pub record Policy : Type 0 where
  pub function : Text
  pub message : Text
  pub denies_eperm : Bool

pub data Failure : Type 0 where
  missing denied other : Failure

-- The meaning of an error number.
abbrev pub classify : Bool → ℤ → Failure
classify denies_eperm err =
    if is_code err enodev
    then missing
    else if is_code err enoent
    then missing
    else if is_code err eacces
    then denied
    else if is_code err eperm
    then (if denies_eperm then denied else other)
    else other

abbrev pub exception_of : Policy → ℤ → Failure → Exception
exception_of p err missing = file_not_found p.message
exception_of p err denied = auth_failed
exception_of p err other = errno_exception p.function err

abbrev pub exception_for : Policy → ℤ → Exception
exception_for p err = exception_of p err (classify p.denies_eperm err)

module _ {env : Env} (healthy : IsHealthy env) where
  pub file_not_found-Does :
      (message : Text) (s : State)
      → IsReady s
      → Does s
          (throw_new_file_not_found_exception message env s)
          tt
          (thrown (file_not_found message) ∷ [])
  unfolding throw_new_file_not_found_exception throw_new
  file_not_found-Does message s h =
      Does-quiet _ (static_class-Does healthy file_not_found_site s h)
        λ t ready. Does-trace tt ready refl

  pub errno-Does :
      (function : Text) (err : ℤ) (s : State)
      → IsReady s
      → Does s
          (throw_new_errno_exception function err env s)
          tt
          (thrown (errno_exception function err) ∷ [])
  unfolding throw_new_errno_exception throw new_string_utf new_object
  errno-Does function err s h = Does-quiet _ (static_class-Does healthy errno_site s h) λ t ready.
      let (m, d) = static_method-Does healthy errno_site (bytes "(Ljava/lang/String;I)V") t ready in
      Does-quiet _ d
        λ u settled. rw healthy.makes_string (rw healthy.makes_object (Does-trace tt settled refl))

  pub auth_failed-Does :
      (s : State)
      → IsReady s
      → Does s (throw_new_auth_failed_exception env s) tt (thrown auth_failed ∷ [])
  unfolding throw_new_auth_failed_exception throw new_object
  auth_failed-Does s h = Does-quiet _ (static_class-Does healthy auth_failed_site s h) λ t ready.
      let (m, d) = static_method-Does healthy auth_failed_site (bytes "()V") t ready in
      Does-quiet _ d λ u settled. rw healthy.makes_object (Does-trace tt settled refl)

  module _ (function message : Text) (err : ℤ) (s : State) (h : IsReady s) where
    -- The `switch` in which EPERM stands beside EACCES.
    pub switch-Does-eperm :
        Does s
          (switch err
            ((enodev ∷ enoent ∷ [], throw_new_file_not_found_exception message)
              ∷ (eacces ∷ eperm ∷ [], throw_new_auth_failed_exception)
              ∷ [])
            (throw_new_errno_exception function err)
            env
            s)
          tt
          (thrown (
              exception_for
                (record { function = function; message = message; denies_eperm = true })
                err)
            ∷ [])
    unfolding switch
    switch-Does-eperm = elim (Bool-cases (is_code err enodev)) [
      | inl e ↦ rw e (file_not_found-Does message s h)
      | inr e ↦ rw e (elim (Bool-cases (is_code err enoent)) [
        | inl f ↦ rw f (file_not_found-Does message s h)
        | inr f ↦ rw f (elim (Bool-cases (is_code err eacces)) [
          | inl g ↦ rw g (auth_failed-Does s h)
          | inr g ↦ rw g (elim (Bool-cases (is_code err eperm)) [
            | inl i ↦ rw i (auth_failed-Does s h)
            | inr i ↦ rw i (errno-Does function err s h)
          ])
        ])
      ])
    ]

    -- The `switch` in which EPERM has no case.
    pub switch-Does-eacces :
        Does s
          (switch err
            ((enodev ∷ enoent ∷ [], throw_new_file_not_found_exception message)
              ∷ (eacces ∷ [], throw_new_auth_failed_exception)
              ∷ [])
            (throw_new_errno_exception function err)
            env
            s)
          tt
          (thrown (
              exception_for
                (record { function = function; message = message; denies_eperm = false })
                err)
            ∷ [])
    unfolding switch
    switch-Does-eacces = elim (Bool-cases (is_code err enodev)) [
      | inl e ↦ rw e (file_not_found-Does message s h)
      | inr e ↦ rw e (elim (Bool-cases (is_code err enoent)) [
        | inl f ↦ rw f (file_not_found-Does message s h)
        | inr f ↦ rw f (elim (Bool-cases (is_code err eacces)) [
          | inl g ↦ rw g (auth_failed-Does s h)
          | inr g ↦ rw g (elim (Bool-cases (is_code err eperm)) [
            | inl i ↦ rw i (errno-Does function err s h)
            | inr i ↦ rw i (errno-Does function err s h)
          ])
        ])
      ])
    ]
