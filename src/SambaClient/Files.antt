-- ===== src/SambaClient/Files.antt =====
-- The file and directory methods of `SambaClient` (samba_client/SambaClient.cc). None reads the
-- object, so none takes it. Logging has no effect on the state.
use my_stest.Base.{ℕ, ℤ, pos, is_negative, is_code, neg_int, Option, Text, if◌then◌else◌, ◌==◌}
use my_stest.Base.{bytes}
use my_stest.Libsmbclient.Types.{
  smbc_workgroup, smbc_server, smbc_file_share, smbc_printer_share, smbc_comms_share,
  smbc_ipc_share, smbc_dir, smbc_file, smbc_link,
}
use my_stest.World.Calls.{
  Ptr, Dirent, Stat, smbc_opendir, smbc_readdir, smbc_closedir, smbc_stat, smbc_fstat, smbc_creat,
  smbc_mkdir, smbc_rename, smbc_unlink, smbc_rmdir, smbc_open, smbc_lseek, smbc_read, smbc_write,
  smbc_close,
}
use my_stest.World.State.{Cmd, pure, ◌>>=◌, ◌>>◌}
use my_stest.World.Libc.{call, get_errno}

-- The permissions of `CreateFile` and `Mkdir`.
abbrev pub default_mode : ℕ
default_mode = 0o755

unfoldable pub open_dir : Text → Cmd ℤ
open_dir url = do
  fd ← call (smbc_opendir url)
  if is_negative fd.result then (do err ← get_errno; pure (neg_int err)) else pure fd.result

-- The result, and what `*dirent` points at.
unfoldable pub read_dir : ℤ → Cmd (ℤ × Option Dirent)
read_dir dh = do r ← call (smbc_readdir dh); pure (pos 0, r.entry)

unfoldable pub close_dir : ℤ → Cmd ℤ
close_dir dh = do
  ret ← call (smbc_closedir dh)
  if is_code ret.result 0 then pure (pos 0) else do err ← get_errno; pure (neg_int err)

-- The result, and what `*st` holds.
unfoldable pub fstat : ℤ → Cmd (ℤ × Stat)
fstat fd = do
  r ← call (smbc_fstat fd)
  if is_negative r.result
      then (do err ← get_errno; pure (neg_int err, r.status))
      else pure (pos 0, r.status)

unfoldable pub stat : Text → Cmd (ℤ × Stat)
stat url = do
  r ← call (smbc_stat url)
  if is_negative r.result
      then (do err ← get_errno; pure (neg_int err, r.status))
      else pure (pos 0, r.status)

-- A failed close is only logged.
unfoldable pub create_file : Text → Cmd ℤ
create_file url = do
  fd ← call (smbc_creat url default_mode)
  if is_negative fd.result
      then (do err ← get_errno; pure (neg_int err))
      else do call (smbc_close fd.result); pure (pos 0)

unfoldable pub mkdir : Text → Cmd ℤ
mkdir url = do
  r ← call (smbc_mkdir url default_mode)
  if is_negative r.result then (do err ← get_errno; pure (neg_int err)) else pure r.result

unfoldable pub rename : Text → Text → Cmd ℤ
rename url nurl = do
  r ← call (smbc_rename url nurl)
  if is_negative r.result then (do err ← get_errno; pure (neg_int err)) else pure r.result

unfoldable pub unlink : Text → Cmd ℤ
unlink url = do
  r ← call (smbc_unlink url)
  if is_negative r.result then (do err ← get_errno; pure (neg_int err)) else pure r.result

unfoldable pub rmdir : Text → Cmd ℤ
rmdir url = do
  r ← call (smbc_rmdir url)
  if is_negative r.result then (do err ← get_errno; pure (neg_int err)) else pure r.result

unfoldable pub open_file : Text → ℕ → ℕ → Cmd ℤ
open_file url flag mode = do
  fd ← call (smbc_open url flag mode)
  if is_negative fd.result then (do err ← get_errno; pure (neg_int err)) else pure fd.result

unfoldable pub seek_file : ℤ → ℤ → ℤ → Cmd ℤ
seek_file fd offset whence = do
  r ← call (smbc_lseek fd offset whence)
  if is_negative r.result then (do err ← get_errno; pure (neg_int err)) else pure r.result

unfoldable pub read_file : ℤ → Ptr → ℕ → Cmd ℤ
read_file fd buffer maxlen = do
  size ← call (smbc_read fd buffer maxlen)
  if is_negative size.result then (do err ← get_errno; pure (neg_int err)) else pure size.result

unfoldable pub write_file : ℤ → Ptr → ℕ → Cmd ℤ
write_file fd buffer length = do
  size ← call (smbc_write fd buffer length)
  if is_negative size.result then (do err ← get_errno; pure (neg_int err)) else pure size.result

unfoldable pub close_file : ℤ → Cmd ℤ
close_file fd = do
  r ← call (smbc_close fd)
  if is_negative r.result then (do err ← get_errno; pure (neg_int err)) else pure (pos 0)

-- The name of an entry's type in the log.
unfoldable pub get_type_name : ℕ → Text
get_type_name t =
    if t == smbc_workgroup
    then bytes "WORKGROUP"
    else if t == smbc_server
    then bytes "SERVER"
    else if t == smbc_file_share
    then bytes "FILE_SHARE"
    else if t == smbc_printer_share
    then bytes "PRINTER_SHARE"
    else if t == smbc_comms_share
    then bytes "PRINTER_SHARE"
    else if t == smbc_ipc_share
    then bytes "IPC_SHARE"
    else if t == smbc_dir
    then bytes "DIR"
    else if t == smbc_file
    then bytes "FILE"
    else if t == smbc_link
    then bytes "LINK"
    else bytes "UNKNOWN"
