-- ===== src/Provider.antt =====
-- The document provider's file transfers (app/src/main/java/com/evideo/sambaprovider/provider).
pub mod Transfers
pub mod Tasks
pub mod Slices
pub mod TransferEnds
pub mod WriteEnds
pub mod RegularFile
pub mod ReadContents
pub mod NativeContents
pub mod Stalls
pub mod NativeTransfers
pub mod ReadTask
pub mod WriteTask
