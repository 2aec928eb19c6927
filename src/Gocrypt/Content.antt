-- ===== src/Gocrypt/Content.antt =====
-- gocrypt/contentenc: how a file is encrypted in blocks.
pub mod Offsets
pub mod Sizes
pub mod Explode
pub mod Header
pub mod Packing
pub mod Blocks
pub mod Groups
pub mod Recover
pub mod Roundtrip
pub mod Safety
pub mod Sample
mod Tests
