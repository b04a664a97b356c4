-- ===== src/Tests/Entries.antt =====
-- `create_directory_entry` when the JVM has memory for one string only.
use my_stest.Base.{◌+◌, ◌≡◌, refl, Bool, true, false, some, none, [], ◌∷◌, bytes}
use my_stest.World.Calls.{Dirent, global_ref, Trace, Env}
use my_stest.World.State.{State, ok}
use my_stest.JniHelper.Objects.{create_directory_entry, directory_entry_name, init_name}
use my_stest.JniHelper.Entries.{made, deletions, create_directory_entry_lem}
use my_stest.Tests.Setting.{success, serving, start}

abbrev is_first : Trace → Bool
is_first [] = true
is_first (e ∷ t) = false

abbrev exhausted : Env
exhausted = record (serving success) { new_string_utf = λ t _. is_first t }

abbrev held : State
held = record start {
  class_statics = λ _. some (some (global_ref directory_entry_name));
  method_statics = λ _. some (
      some (record {
        owner = global_ref directory_entry_name;
        name = init_name;
        signature = bytes "(ILjava/lang/String;Ljava/lang/String;)V";
      }));
}

abbrev entry : Dirent
entry = record { smbc_type = 8; comment = b'c' ∷ []; name = b'n' ∷ [] }

create_directory_entry_lem_example :
    (after : State) × (create_directory_entry entry exhausted held ≡ ok none after)
    × (made after.trace + deletions [] ≡ made [] + deletions after.trace)
create_directory_entry_lem_example = create_directory_entry_lem exhausted held entry refl refl
