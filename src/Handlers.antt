-- ===== src/Handlers.antt =====
-- handlers/decrypt.go and handlers/proxy.go: how sftp requests become calls of the tree or of a
-- remote client.
pub mod Listerat
pub mod Decrypt
pub mod Proxy
pub mod Paging
pub mod Browse
mod Tests
