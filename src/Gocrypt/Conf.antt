-- ===== src/Gocrypt/Conf.antt =====
-- gocrypt/configfile: the configuration of an encrypted tree and its key.
pub mod Flags
pub mod Scrypt
pub mod File
pub mod Loading
pub mod Keys
pub mod Created
pub mod Keyless
pub mod Sample
mod Tests
