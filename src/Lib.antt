-- ===== src/Lib.antt =====
-- Verification library of gocryptsftp, an SFTP server that shows the plaintext view of an encrypted
-- tree (of the program gocryptfs) which lies behind another SFTP server.
--
-- The program's parts. `main` (main.go) reads the configuration (config/), asks for the passphrases,
-- builds a backend (backend/) and the handlers (handlers/), and serves connections. A handler passes
-- each sftp request to a `FileTree` (filetree/), which translates plaintext paths to ciphertext paths
-- through a cache of directories, and reads, lists and decrypts through a `Requester` (requester/). A
-- requester has workers that fetch files, listings and decrypted names into caches, and callers
-- that wait for them. The backend lends connections to the remote server from a pool.
--
-- Which file models what:
--   Base: names of the libraries, Boolean tests, lists and byte strings on native numbers, maps.
--   FastCache (filetree/fastcache.go): nodes on a heap, `find` is Find, `store` is Store, `clear` is
--     Clear, `refresh_node` is refreshNode. A dereference of nil is `none`. FastCache/Invariant,
--     Refresh, Writes, Alloc, Calls, Stored, Stores, Runs, Lru: the invariant and what each call does.
--   Requester (requester/): Defs, System: the shared state; SyncCache (synccache.go); Key
--     (complexkey.go); Worker (`worker` and `performRequestAndCache` of requester.go); Lifecycle
--     (`Start`, `Stop`); Client (`makeRequest` of makerequest.go); Ticket: its loop around
--     `ticket.Wait()`; Steps: schedules of all goroutines; Results: the exported calls. A goroutine
--     stands at a program point, and a step is one access of the shared state or one answer of the
--     environment, which an `Action` chooses; a caller may time out whenever it receives. A panic (a
--     send after `Stop`, a request of no type) ends the program, so it is no step, and neither is a
--     second `Start`, which `Init` does not make. Moves: the steps as a relation. Coherence, Reach, Mutex, Wakeup, Liveness,
--     Stranded, Channels, Attempts, Range: invariants of every schedule, and what follows from them.
--   FileTree (filetree/filetree.go, decrypt.go, fileinfo.go): Paths (Clean, Dir, Base and Join of the
--     standard library), Defs (the state and the parameters), Walk (`rangeInDir`, `findInDir`,
--     `findPath`), Calls (the exported methods and `decryptFile`), Init and Setup (`Init`, with
--     gocrypt/configfile and gocrypt/cryptocore as modelled here; Init/Disk, Init/Created: how it
--     ends); Spec, Plaintext, Resolution, Listing, Reading, Stat, Relative,
--     Decryption: the view that they give.
--     `Stable` of Spec is a remote that answers by a content and never panics.
--     Encrypted, Panics and Stored: `decryptFile` and `ReadFile` with the package contentenc (`content_enc`).
--   Backend (backend/pool.go, provider.go): goroutines that share the pool, in steps as above.
--   Handlers (handlers/decrypt.go, proxy.go); Handlers/Paging, Browse: a client that lists.
--   Config (config/config.go), Server (main.go).
--   Gocrypt (gocrypt/, taken over from gocryptfs and changed): Content (contentenc/): Offsets
--     (offsets.go, intrablock.go), Header (file_header.go), Blocks (content.go); Sizes, Explode,
--     Packing, Groups, Recover, Roundtrip, Safety: sizes, ranges, headers, the goroutines of
--     `EncryptBlocks`, and what comes back. Names (nametransform/): Padding (pad16.go), Transform
--     (names.go, longnames.go, diriv.go); Unpadding, Accepted, Kinds. Core (cryptocore/cryptocore.go);
--     Prefetch (cryptocore/randprefetch.go, nonce.go).
--     Conf (configfile/): Flags, Scrypt, File (config_file.go); Loading, Keys, Created, Keyless.
--     A panic of Go is `none`, or a constructor that is named for it; nonces, salts and keys that the
--     code draws at random are arguments.
--
-- Fuel. `findPath` calls itself on the parent directory; the model has fuel, and an absolute path
-- needs no more of it than its length, because the cleaned parent is shorter (FileTree/Paths/Shorter).
-- The sftp package passes on absolute paths.
-- The requester, the backend and the cache are run over finite schedules of any length. The loops over
-- ciphertext and over ranges take at least one byte in a round, so they get as many rounds as there are
-- bytes.
--
-- Numbers. Sizes and counters are natural numbers; in gocrypt/contentenc, where offsets and block
-- numbers are 64 bits wide, `u64` writes the wrap-around out. A subtraction there stops at 0; the code's
-- own never goes below, once the ciphertext block is at least as large as the plaintext block.
--
-- What is not modelled: the Go libraries for SSH, SFTP, JSON, PEM, SipHash, base64, scrypt, HKDF, AES-GCM
-- and EME are parameters: records of functions (`Remote`, `Libraries`, `SftpClient`, `CryptoCore`,
-- `Ciphers`, `EmeCipher`, `Encoding`) or answers that a schedule chooses, with what the code relies on
-- as hypotheses (`IsCipher`, `IsTagged`, `IsEme`, `IsEncoding`, `AreCiphers`, `IsScrypt`, `IsJson`).
-- Errors of theirs are opaque codes. Of the pools of buffers (contentenc/bpool.go) only the panic of
-- `Put` is kept, for a buffer that had to grow. Left out are the ciphers that the program never selects
-- (siv_aead/, stupidgcm/), the wiping of keys inside of gocrypt/, logging, flags, generated fakes and
-- tests, and `Validate` of config.go, which nothing calls.
pub mod Base
pub mod FastCache
pub mod Requester
pub mod FileTree
pub mod Gocrypt
pub mod Backend
pub mod Handlers
pub mod Config
pub mod Server
