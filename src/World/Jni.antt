-- ===== src/World/Jni.antt =====
-- The functions of `JNIEnv` that the bridge calls. JNI leaves a call with a NULL class or method
-- undefined: it is a fault.
use my_stest.Base.{ℕ, Bool, true, false, Option, none, some, List, Text}
use my_stest.World.Calls.{
  Ptr, JString, Jclass, local_ref, global_ref, MethodId, Jvalue, Jobject, got_chars, released_chars,
  found_class, made_global, got_method, made_string, made_object, deleted_ref, threw_new, threw,
  got_buffer,
}
use my_stest.World.State.{ok, fault, Cmd, log, emit}

abbrev pub null_if : {A : Type 0} → Bool → A → Option A
null_if true a = some a
null_if false a = none

-- NULL, or the bytes.
unfoldable pub get_string_utf_chars : JString → Cmd (Option Text)
get_string_utf_chars j env s =
    let got = env.get_string_utf_chars s.trace j in
    ok (null_if got j.chars) (log (got_chars j got) s)

unfoldable pub release_string_utf_chars : JString → Cmd (Unit {0})
release_string_utf_chars j = emit (released_chars j)

unfoldable pub find_class : Text → Cmd (Option Jclass)
find_class name env s =
    let found = env.find_class s.trace name in
    ok (null_if found (local_ref name)) (log (found_class name found) s)

abbrev pub class_name : Jclass → Text
class_name (local_ref name) = name
class_name (global_ref name) = name

unfoldable pub new_global_ref : Jclass → Cmd (Option Jclass)
new_global_ref c env s =
    let made = env.new_global_ref s.trace c in
    ok (null_if made (global_ref (class_name c))) (log (made_global c made) s)

unfoldable pub get_method_id : Option Jclass → Text → Text → Cmd (Option MethodId)
get_method_id none name signature env s = fault
get_method_id (some c) name signature env s =
    let got = env.get_method_id s.trace c name signature in
    ok (null_if got (record { owner = c; name = name; signature = signature }))
      (log (got_method c name signature got) s)

unfoldable pub new_string_utf : Text → Cmd (Option Text)
new_string_utf text env s =
    let made = env.new_string_utf s.trace text in
    ok (null_if made text) (log (made_string text made) s)

unfoldable pub new_object : Option Jclass → Option MethodId → List Jvalue → Cmd (Option Jobject)
new_object none m args env s = fault
new_object (some c) none args env s = fault
new_object (some c) (some m) args env s =
    let made = env.new_object s.trace c m args in
    ok (null_if made (record { class = c; args = args })) (log (made_object c m args made) s)

unfoldable pub delete_local_ref : Text → Cmd (Unit {0})
delete_local_ref text = emit (deleted_ref text)

unfoldable pub throw_new : Option Jclass → Text → Cmd (Unit {0})
throw_new none message env s = fault
throw_new (some c) message env s = ok tt (log (threw_new c message) s)

unfoldable pub throw : Jobject → Cmd (Unit {0})
throw e = emit (threw e)

unfoldable pub get_direct_buffer_address : ℕ → Cmd Ptr
get_direct_buffer_address buffer env s =
    let p = env.get_direct_buffer_address s.trace buffer in ok p (log (got_buffer buffer p) s)
