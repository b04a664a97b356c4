-- ===== src/Libsmbclient.antt =====
-- What the documentation in app/src/main/cpp/samba_includes/libsmbclient.h promises of the functions
-- that the bridge calls, and asks of their caller. The functions themselves are not in the
-- repository.
pub mod Types
pub mod Errors
pub mod Files
pub mod Directories
pub mod Contexts
pub mod Turns
pub mod Handles
pub mod Contract
