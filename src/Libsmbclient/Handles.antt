-- ===== src/Libsmbclient/Handles.antt =====
-- How libsmbclient.h asks its callers to use the handles of files and directories, as a monitor of
-- the calls: a state that each call moves on, or a breach.
use my_stest.Base.{
  ℕ, ℤ, pos, negsuc, Bool, true, false, Option, none, some, [], ◌∷◌, ◌&&◌, ltb, if◌then◌else◌,
  is_code,
}
use my_stest.World.Calls.{
  Call, Reply, Trace, called, smbc_opendir, smbc_readdir, smbc_closedir, smbc_fstat, smbc_creat,
  smbc_open, smbc_lseek, smbc_read, smbc_write, smbc_close,
}
use my_stest.World.State.{update}
use my_stest.Libsmbclient.Files.{open_accepts}

-- What a number is as a handle.
pub data HandleKind : Type 0 where
  unopened file directory : HandleKind

abbrev pub Handles : Type 0
Handles = ℕ → HandleKind

abbrev pub is_file : Handles → ℤ → Bool
is_file h (pos n) = elim (h n) [ file ↦ true | unopened ↦ false | directory ↦ false ]
is_file h (negsuc n) = false

abbrev pub is_directory : Handles → ℤ → Bool
is_directory h (pos n) = elim (h n) [ file ↦ false | unopened ↦ false | directory ↦ true ]
is_directory h (negsuc n) = false

-- The handle of a number becomes one of a kind; a negative number is none.
abbrev pub become : HandleKind → ℤ → Handles → Handles
become kind (pos n) h = update h n kind
become kind (negsuc n) h = h

-- The flags are those of the documentation.
unfoldable pub open_rule : ℕ → Reply → Handles → Option Handles
open_rule flags r h = if open_accepts flags then some (become file r.result h) else none

unfoldable pub creat_rule : Reply → Handles → Option Handles
creat_rule r h = some (become file r.result h)

-- `fd`: an open file handle from `smbc_open` or `smbc_creat`.
unfoldable pub read_rule : ℤ → Handles → Option Handles
read_rule fd h = if is_file h fd then some h else none

unfoldable pub write_rule : ℤ → Handles → Option Handles
write_rule fd h = if is_file h fd then some h else none

-- `whence` is SEEK_SET, SEEK_CUR or SEEK_END.
unfoldable pub lseek_rule : ℤ → ℤ → Handles → Option Handles
lseek_rule fd whence h =
    if is_file h fd && (elim whence [ pos n ↦ ltb n 3 | negsuc n ↦ false ]) then some h else none

unfoldable pub fstat_rule : ℤ → Handles → Option Handles
fstat_rule fd h = if is_file h fd then some h else none

unfoldable pub close_rule : ℤ → Reply → Handles → Option Handles
close_rule fd r h =
    if is_file h fd then some (if is_code r.result 0 then become unopened fd h else h) else none

unfoldable pub opendir_rule : Reply → Handles → Option Handles
opendir_rule r h = some (become directory r.result h)

-- `dh`: a directory from `smbc_opendir`.
unfoldable pub readdir_rule : ℤ → Handles → Option Handles
readdir_rule dh h = if is_directory h dh then some h else none

unfoldable pub closedir_rule : ℤ → Reply → Handles → Option Handles
closedir_rule dh r h =
    if is_directory h dh
    then some (if is_code r.result 0 then become unopened dh h else h)
    else none

unfoldable pub handle_of : Call → Reply → Handles → Option Handles
unfolding open_rule creat_rule read_rule write_rule lseek_rule fstat_rule close_rule opendir_rule
    readdir_rule closedir_rule
handle_of (smbc_open url flags mode) r h = open_rule flags r h
handle_of (smbc_creat url mode) r h = creat_rule r h
handle_of (smbc_read fd p size) r h = read_rule fd h
handle_of (smbc_write fd p size) r h = write_rule fd h
handle_of (smbc_lseek fd offset whence) r h = lseek_rule fd whence h
handle_of (smbc_fstat fd) r h = fstat_rule fd h
handle_of (smbc_close fd) r h = close_rule fd r h
handle_of (smbc_opendir url) r h = opendir_rule r h
handle_of (smbc_readdir dh) r h = readdir_rule dh h
handle_of (smbc_closedir dh) r h = closedir_rule dh r h
handle_of _ r h = some h

-- The handles after a history; `none` after a breach.
unfoldable pub handles : Trace → Option Handles
unfolding handle_of
handles [] = some λ _. unopened
handles (called c r ∷ t) = elim (handles t) [ none ↦ none | some h ↦ handle_of c r h ]
handles (e ∷ t) = handles t
