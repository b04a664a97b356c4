-- ===== src/Looper.antt =====
-- The thread that runs the native calls of all others (app/src/main/java/com/evideo/sambaprovider,
-- nativefacade/BaseClient.java and its clients).
pub mod Values
pub mod FileClient
pub mod ClientLaws
pub mod Machine
pub mod Atomic
pub mod Ownership
pub mod Preservation
pub mod Refinement
pub mod Progress
pub mod FileRuns
pub mod Liveness
