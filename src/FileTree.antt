-- ===== src/FileTree.antt =====
-- filetree/: a plaintext view of the encrypted tree.
pub mod Paths
pub mod Defs
pub mod Walk
pub mod Calls
pub mod Spec
pub mod Resolution
pub mod Listing
pub mod Reading
pub mod Stat
pub mod Relative
pub mod Decryption
pub mod Plaintext
pub mod Encrypted
pub mod Panics
pub mod Stored
pub mod Init
pub mod Setup
mod Tests
mod InitTests
mod EncryptedTests
mod StoredTests
