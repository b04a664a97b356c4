-- ===== src/World.antt =====
-- What the bridge runs in: the JVM, libsmbclient and the C library as an unknown environment that
-- answers each call from the history of calls, and the memory that the bridge itself writes.
pub mod Calls
pub mod State
pub mod Jni
pub mod Libc
