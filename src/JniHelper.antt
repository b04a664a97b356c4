-- ===== src/JniHelper.antt =====
-- The native methods (app/src/main/cpp/jni_helper/JniHelper.cc).
pub mod Objects
pub mod Paths
pub mod OpenFile
pub mod Handles
pub mod Credentials
pub mod Lifecycle
pub mod Exports
pub mod Callbacks
pub mod ExportLaws
pub mod Ready
pub mod ClassLaws
pub mod Throws
pub mod Policies
pub mod Modes
pub mod Made
pub mod Entries
pub mod Tail
pub mod PathLaws
pub mod OpenLaws
pub mod HandleLaws
pub mod HeaderLaws
pub mod HeaderBounds
pub mod ContextLaws
pub mod Balance
pub mod CredentialLaws
pub mod EnvironmentLaws
pub mod LifecycleLaws
pub mod Session
pub mod Settles
pub mod SessionLaws
pub mod LifetimeLaws
pub mod HandleLife
pub mod FileLife
pub mod CacheSession
