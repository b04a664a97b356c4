-- ===== src/JniHelper/Entries.antt =====
-- `create_directory_entry` (jni_helper/JniHelper.cc) when the JVM may be out of memory.
use my_stest.Base.{
  ℕ, ◌+◌, pos, ◌≡◌, refl, true, ◌&&◌, some, none, [], ◌∷◌, arith, Bool-cases, inl, inr,
  if◌then◌else◌, to_int32,
}
use my_stest.World.Calls.{
  Jclass, MethodId, jint, string, Dirent, Event, Trace, made_string, deleted_ref, Env,
}
use my_stest.World.State.{State, ok, directory_entry_site}
use my_stest.World.Jni.{new_string_utf, new_object, delete_local_ref}
use my_stest.JavaClassCache.{static_class, static_method}
use my_stest.JniHelper.Objects.{create_directory_entry}

-- The strings that `NewStringUTF` made, and the references that were deleted.
abbrev pub made_by : Event → ℕ
made_by (made_string text true) = 1
made_by _ = 0

abbrev pub made : Trace → ℕ
made [] = 0
made (e ∷ t) = made_by e + made t

abbrev pub deletion : Event → ℕ
deletion (deleted_ref text) = 1
deletion _ = 0

abbrev pub deletions : Trace → ℕ
deletions [] = 0
deletions (e ∷ t) = deletion e + deletions t

-- Once the class and the constructor are held, `create_directory_entry` returns whatever the JVM
-- has memory for: the entry if it can make both strings and the object, and null if not. As many
-- references are deleted as strings were made.
pub create_directory_entry_lem :
    (env : Env) (s : State) (ent : Dirent) {c : Jclass} {m : MethodId}
    → s.class_statics directory_entry_site ≡ some (some c)
    → s.method_statics directory_entry_site ≡ some (some m)
    → let t = made_string ent.comment true ∷ s.trace in
      let args = jint (to_int32 (pos ent.smbc_type)) ∷ string ent.comment ∷ string ent.name ∷ [] in
      let all =
        env.new_string_utf s.trace ent.comment
        && (env.new_string_utf t ent.name
            && env.new_object (made_string ent.name true ∷ t) c m args) in
      (after : State) × (create_directory_entry ent env s
        ≡ ok (if all then some (record { class = c; args = args }) else none) after)
      × (made after.trace + deletions s.trace ≡ made s.trace + deletions after.trace)
unfolding create_directory_entry static_class static_method new_string_utf new_object
    delete_local_ref
create_directory_entry_lem env s ent {c} {m} class ctor =
    let t = made_string ent.comment true ∷ s.trace in
    let args = jint (to_int32 (pos ent.smbc_type)) ∷ string ent.comment ∷ string ent.name ∷ [] in
    rw (class, ctor)
      (elim (Bool-cases (env.new_string_utf s.trace ent.comment)) [
        | inr e ↦ rw e (_, refl, omega arith)
        | inl e ↦ rw e (elim (Bool-cases (env.new_string_utf t ent.name)) [
          | inr f ↦ rw f (_, refl, omega arith)
          | inl f ↦
              rw f (elim (Bool-cases (env.new_object (made_string ent.name true ∷ t) c m args)) [
                | inr g ↦ rw g (_, refl, omega arith)
                | inl g ↦ rw g (_, refl, omega arith)
              ])
        ])
      ])
