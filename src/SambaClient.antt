-- ===== src/SambaClient.antt =====
-- `SambaClient` (app/src/main/cpp/samba_client/SambaClient.cc).
pub mod Files
pub mod Outcomes
pub mod Context
pub mod Auth
pub mod Buffers
pub mod AuthLaws
