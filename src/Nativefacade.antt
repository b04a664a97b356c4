-- ===== src/Nativefacade.antt =====
-- The Java callers of the native methods (app/src/main/java/com/evideo/sambaprovider/nativefacade).
pub mod Java
pub mod NativeFile
pub mod SambaFile
pub mod FileLaws
pub mod Endings
pub mod Bridge
pub mod BridgeLaws
pub mod Facade
pub mod FacadeLaws
