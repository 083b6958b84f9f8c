-- ===== src/Tests/Mounts.antt =====
-- The theorems on the read buffer of a file handle and on inode numbers.
use rd_rs.Prelude.{ℕ, ◌*◌, ◌≡◌, refl, ◌⊎◌, inr, some, none, Option, List, String, arith}
use rd_rs.Prelude.Map.{lookup, string_keys, nat_keys}
use rd_rs.Prelude.Slice.{slice}
use rd_rs.Fuse.ReadBuffer.{VfsReadBuffer}
use rd_rs.Fuse.ReadBuffer.Window.{IsWindow}
use rd_rs.Fuse.Inode.{Inodes, no_inodes, get_or_assign_torrent_inode, inode_to_access_key}
use rd_rs.Fuse.Inode.Maps.{IsPaired, no_inodes-IsPaired, get_or_assign-IsPaired}

abbrev squares : ℕ → ℕ
squares x = x * x

abbrev read_squares : ℕ → ℕ → Option (List ℕ)
read_squares offset n = some (slice squares offset n)

abbrev window_at_3 : VfsReadBuffer
window_at_3 = record { buf_start = 3; contents = slice squares 3 4 }

window_at_3-IsWindow : IsWindow squares 20 window_at_3
window_at_3-IsWindow = record { bytes = refl; within = inr (omega arith) }

abbrev key_a : String
key_a = "A"

abbrev key_b : String
key_b = "B"

abbrev one_torrent : Inodes
one_torrent = (get_or_assign_torrent_inode key_a no_inodes).1

one_torrent-IsPaired : IsPaired one_torrent
one_torrent-IsPaired = (get_or_assign-IsPaired key_a no_inodes key_b no_inodes-IsPaired).0

get_or_assign-IsPaired_example :
    let (inode, m') = get_or_assign_torrent_inode key_b one_torrent in
    IsPaired m'
    × (inode_to_access_key inode m' ≡ some key_b)
    × ((lookup key_b one_torrent.key_to_inode ≡ some inode)
        ⊎ (inode_to_access_key inode one_torrent ≡ none))
    × ((key_a ≡ key_b) ⊎ (lookup key_a m'.key_to_inode ≡ lookup key_a one_torrent.key_to_inode))
get_or_assign-IsPaired_example = get_or_assign-IsPaired key_b one_torrent key_a one_torrent-IsPaired
