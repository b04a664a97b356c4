-- ===== src/JniHelper/Policies.antt =====
-- Which exception each path method throws: the specification of the `switch`es of
-- jni_helper/JniHelper.cc, as a table.
use my_stest.Base.{Bool, true, false, ◌++◌, Text, bytes}
use my_stest.JniHelper.Throws.{Policy}

abbrev policy : Text → Bool → Text → Policy
policy function denies_eperm message = record {
  function = function;
  message = message;
  denies_eperm = denies_eperm;
}

abbrev pub open_dir_policy : Text → Policy
open_dir_policy uri =
    policy (bytes "openDir") true (bytes "Directory at " ++ (uri ++ bytes " can't be found."))

abbrev pub stat_policy : Text → Policy
stat_policy uri = policy (bytes "stat") false (bytes "Can't find " ++ uri)

abbrev pub create_file_policy : Text → Policy
create_file_policy uri =
    policy (bytes "createFile") false (bytes "Missing parent folders of " ++ uri)

abbrev pub mkdir_policy : Text → Policy
mkdir_policy uri = policy (bytes "mkdir") false (bytes "Missing parent folders of " ++ uri)

abbrev pub unlink_policy : Text → Policy
unlink_policy uri = policy (bytes "unlink") true (uri ++ bytes " is not found.")

abbrev pub rmdir_policy : Text → Policy
rmdir_policy uri = policy (bytes "rmdir") true (uri ++ bytes " is not found.")

abbrev pub rename_policy : Text → Text → Policy
rename_policy uri nuri =
    policy (bytes "rename") true
      (uri ++ (bytes " is not found, or parent of " ++ (nuri ++ bytes " is not found.")))

abbrev pub open_file_policy : Text → Policy
open_file_policy uri =
    policy (bytes "openFile") false (bytes "File at " ++ (uri ++ bytes " can't be found."))
