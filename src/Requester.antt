-- ===== src/Requester.antt =====
-- requester/: reads and name decryptions, done by a pool of workers and cached.
pub mod Defs
pub mod Key
pub mod SyncCache
pub mod System
pub mod Lifecycle
pub mod Worker
pub mod Client
pub mod Ticket
pub mod Steps
pub mod Moves
pub mod Entries
pub mod Wakeup
pub mod Liveness
pub mod Stranded
pub mod Attempts
pub mod Range
pub mod Channels
pub mod Mutex
pub mod Coherence
pub mod Reach
pub mod Results
mod Tests
mod LivenessTests
mod SyncTests
