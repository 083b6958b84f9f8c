-- ===== src/Fuse/Inode/Numbers.antt =====
-- Inode numbers of directories and files never meet, and a file inode can be read back.
use rd_rs.Prelude.{ℕ, ◌+◌, ◌^◌, ◌<◌, ◌≡◌, ◌≢◌, some, arith}
use rd_rs.Fuse.Inode.{torrent_inode, file_inode, resolve_file_inode, torrent, file, kind_of}

-- A file inode is read back as its torrent's inode and its file index, for a file index below
-- 10000.
pub resolve_file_inode-file_inode :
    (t f : ℕ) → f < 10_000 → resolve_file_inode (file_inode t f) ≡ some (torrent_inode t, f)
unfolding resolve_file_inode file_inode torrent_inode
resolve_file_inode-file_inode t f h = ground arith

-- While fewer than 2^32 - 3 torrents have been given inodes, the inode of a torrent is of the kind
-- of a torrent; that of a file is always of the kind of a file. So the two never meet.
pub kind_of-inodes :
    (t u f : ℕ)
    → torrent_inode t < 2 ^ 32
    → (kind_of (torrent_inode t) ≡ torrent)
      × (kind_of (file_inode u f) ≡ file)
      × (torrent_inode t ≢ file_inode u f)
unfolding kind_of torrent_inode file_inode
kind_of-inodes t u f h = (ground arith, ground arith, omega arith)

-- From the file number 10000 on, the inode of a file of one torrent is that of a file of the next.
pub file_inode_clash : (t f : ℕ) → file_inode t (10_000 + f) ≡ file_inode (t + 1) f
unfolding file_inode
file_inode_clash t f = omega arith
