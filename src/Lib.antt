-- ===== src/Lib.antt =====
-- rd-rs mounts the torrents of a Real-Debrid account as a read-only file system: the kernel asks
-- the FUSE layer (`src/fuse/`) for bytes of a file, which it takes from a window of its file
-- handle or from the disk cache (`src/cache/`); the cache keeps one sparse file for each remote
-- file with the set of byte ranges that are there, and fills gaps by HTTP requests of parallel
-- chunk workers; requests go through the client (`src/rd/`), which retries, and turns through a
-- pool of API tokens when one hits its bandwidth limit. A refresh (`src/torrent/`) compares the
-- registry of torrents with the account's list and stores it in SQLite (`src/db/`); broken torrents
-- wait in a queue for the repair engine (`src/repair/`), which first tries to mend links and then
-- adds the torrent's magnet anew.
--
-- The files and what they model, functions by functions of the same name unless said:
--   Cache/ByteRanges.antt   `ByteRanges` of src/cache/bitmap.rs. `Coverage` gives the set of bytes
--                           that it stands for and its invariant; `Insert`, `Query`, `Build` and
--                           `Bytes` are about its operations.
--   Cache/RangeDb.antt      src/cache/range_db.rs: the table `cache_ranges` and the encoding of its
--                           blobs (`Blob`, `Table`).
--   Cache/Item.antt         `CacheItem` of src/cache/item.rs: the bytes of the sparse file, its
--                           ranges, handles and persistence (`Disk`, `Integrity`, `Persist`).
--   Cache/Worker.antt       src/cache/worker.rs: the slices of a pass (`Slices`) and the queue of
--                           chunks that the workers share (`Chunks`).
--                           `Pass` has the steps of the chunk workers.
--   Cache/Session.antt      src/cache/download_session.rs (`Waiters`).
--   Cache/ReadAt.antt       src/cache/item_read_at.rs (`Answers`, `Sessions`).
--   Cache/Store.antt        the map of src/cache/cache.rs (`Handles`).
--   Cache/Eviction.antt     src/cache/eviction.rs and `stale_keys` (`Idle`, `Stale`, `Lru`).
--   Fuse/ReadBuffer.antt    src/fuse/vfs_read_buffer.rs and its use in src/fuse/read.rs (`Window`).
--   Fuse/Read.antt          `read` of src/fuse/read.rs (`Bytes`, `Broken`, `Fatal`).
--   Fuse/Inode.antt         inode numbers (`Numbers`) and the inode maps (`Maps`) of
--                           src/fuse/consts.rs, fs_helpers.rs and fs_lookup.rs.
--   Rd/TokenPool.antt       src/rd/token_pool.rs (`Bearer`, `Exhaustion`, `Reach`,
--                           `Rotation`).
--   Rd/Client.antt          `execute_impl` of src/rd/client/exec.rs, with the errors of
--                           src/rd/client/errors.rs (`Errors`, `Replies`, `Turns`,
--                           `Retries`, `Endless`).
--   Rd/Unrestrict.antt      `unrestrict_link` of src/rd/api/methods2.rs and the cache of links of
--                           src/rd/api/mod.rs (`Rounds`, `Cached`).
--   Torrent/Types.antt      the types of src/rd/types.rs and src/torrent/mod.rs that are shared.
--   Db.antt                 the tables of src/db/ as the SQL writes and reads them.
--   Torrent/Manager.antt    `TorrentManager` of src/torrent/mod.rs and src/torrent/state_ops.rs
--                           (`Fields`, `Persisted`, `Operations`, `Reload`).
--   Torrent/Diff.antt       src/torrent/refresh/diff.rs (`Merge`, `Keys`).
--   Torrent/Refresh.antt    `run_once` of src/torrent/refresh/mod.rs (`Registry`).
--   Repair/Account.antt     the calls of the account that a repair makes, with their log.
--   Repair/Ephemeral.antt   src/repair/ephemeral_torrent.rs.
--   Repair/Reasons.antt     src/repair/reasons.rs and the outcomes of src/repair/mod.rs.
--   Repair/Detect.antt      src/repair/detect.rs.
--   Repair/Strategies.antt  src/repair/strategies.rs (`Magnets`, `Cleanup`, `Limits`, `Deferral`,
--                           `Growth`, `Losses`).
--   Repair/Preflight.antt   src/repair/preflight.rs (`Orphans`, `Verdict`).
--   Repair/PassiveHead.antt src/repair/engine/passive_head.rs (`Candidates`).
--   Repair/Engine.antt      src/repair/engine/ with `ensure_torrent_info` of src/torrent/mod.rs
--                           (`Registry`, `Ends`, `OneTorrent`).
--   Repair/Capacity.antt    src/repair/capacity.rs (`Waiting`).
--   Repair/Queue.antt       src/torrent/repair_enqueue.rs and `enqueue_repair` (`Order`).
--   Config.antt             `all_download_tokens` of src/config/load.rs (`Tokens`).
--   Prelude.antt            shared names, Boolean tests, lists and maps; it models no code.
--   Tests.antt              the theorems at small inputs.
--
-- State is a record, an operation a function from state to state; a panic, an error or a missing
-- entry is `none` or a constructor. Machine integers are natural numbers, and `% 2 ^ w` is
-- written where the source wraps around; casts to and from `i64` are in Prelude/Int.antt. Mutexes
-- and atomics are taken as read and written by one call at a time. The clock, the failures of the
-- disk and the database, and what servers answer are arguments, and theorems hold for all of them
-- unless they name a condition.
--
-- The chunk workers of a pass are a step relation (Cache/Worker/Pass.antt): a step is one action of
-- one of them, so theorems on `Steps` hold for all their interleavings. The account of a repair is a
-- function of all calls made before, so theorems hold for whatever it answers. What serde_json makes
-- of lists and maps of texts is the parameter `Json`, of which `IsJson` says that it reads back what
-- it wrote. A read that waits sees the item as a list of rounds of its loop. `unrestrict_link` of
-- Rd/Unrestrict.antt takes what a call of the client returns, or that it does not return, as an
-- argument.
--
-- Some functions run on fuel. `missing_slices` gets one round more than the bytes of its window,
-- and each round but the last moves on by a byte at least. `loop` of Rd/Client.antt answers
-- `none` when its fuel is out; how much is enough, and when none is, are theorems. `wait_from` of
-- Repair/Capacity.antt gets a round for each retry, `poll` its three attempts, `attempts` of
-- Fuse/Read.antt its four, `read_from` the two turns after which a theorem says that it has ended,
-- `unrestrict_link` of Rd/Unrestrict.antt a round more than there are tokens, which a theorem says
-- is enough, `chunks_of` a round for each element, and `to_string` of Prelude/Texts.antt twenty
-- digits, more than an `i32` has.
--
-- Not modelled: the HTTP and FUSE libraries, SQLite, the file system and timers themselves; the
-- directory walk of the eviction; the watch channels of waiting readers, the stall rule and the
-- deletion of errored and stalled torrents in a refresh, the loop of the repair engine, directory
-- listings, CDN probes and start-up.
pub mod Prelude
pub mod Config
pub mod Cache
pub mod Fuse
pub mod Rd
pub mod Repair
pub mod Torrent
pub mod Db
mod Tests
