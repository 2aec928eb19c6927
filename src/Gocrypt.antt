-- ===== src/Gocrypt.antt =====
-- gocrypt/: the packages that gocryptsftp has taken over from gocryptfs and changed. Those that an
-- encrypted file, an encrypted name and the configuration of a tree go through are modelled.
pub mod Content
pub mod Names
pub mod Core
pub mod Prefetch
pub mod Conf
