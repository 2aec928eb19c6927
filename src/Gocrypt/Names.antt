-- ===== src/Gocrypt/Names.antt =====
-- gocrypt/nametransform: how names are encrypted.
pub mod Padding
pub mod Unpadding
pub mod Transform
pub mod Accepted
pub mod Kinds
mod Tests
