-- ===== src/Libsmbclient/Types.antt =====
-- The types of directory entries (samba_includes/libsmbclient.h).
use my_stest.Base.{ℕ}

abbrev pub smbc_workgroup : ℕ
smbc_workgroup = 1

abbrev pub smbc_server : ℕ
smbc_server = 2

abbrev pub smbc_file_share : ℕ
smbc_file_share = 3

abbrev pub smbc_printer_share : ℕ
smbc_printer_share = 4

abbrev pub smbc_comms_share : ℕ
smbc_comms_share = 5

abbrev pub smbc_ipc_share : ℕ
smbc_ipc_share = 6

abbrev pub smbc_dir : ℕ
smbc_dir = 7

abbrev pub smbc_file : ℕ
smbc_file = 8

abbrev pub smbc_link : ℕ
smbc_link = 9
