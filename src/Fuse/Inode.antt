-- ===== src/Fuse/Inode.antt =====
-- Inode numbers: src/fuse/consts.rs, and the inode functions and maps of src/fuse/fs_helpers.rs.
pub mod Numbers
pub mod Maps
use rd_rs.Prelude.{
  ℕ, zero, suc, ◌+◌, ◌-◌, ◌*◌, ◌/◌, ◌%◌, ◌^◌, Bool, true, false, Option, none, some, List, [], ◌∷◌,
  String, ltb, leb, if◌then◌else◌,
}
use rd_rs.Prelude.Map.{lookup, insert, remove, nat_keys, string_keys}

abbrev pub inode_root : ℕ
inode_root = 1

abbrev pub inode_all : ℕ
inode_all = 2

abbrev pub inode_torrent_base : ℕ
inode_torrent_base = 3

abbrev pub inode_file_base : ℕ
inode_file_base = 2 ^ 32

unfoldable pub torrent_inode : ℕ → ℕ
torrent_inode index = inode_torrent_base + index

unfoldable pub file_inode : ℕ → ℕ → ℕ
file_inode torrent_index file_index = inode_file_base + torrent_index * 10_000 + file_index

-- How `read` and `getattr` read a file inode: the inode of its torrent and the number of the file.
unfoldable pub resolve_file_inode : ℕ → Option (ℕ × ℕ)
resolve_file_inode inode =
    if ltb inode inode_file_base
    then none
    else some (
      inode_torrent_base + (inode - inode_file_base) / 10_000,
      (inode - inode_file_base) % 10_000,
    )

-- The kind of an inode, as `lookup` and `getattr` tell them apart.
pub data Kind : Type 0 where
  root all torrent file unknown : Kind

unfoldable pub kind_of : ℕ → Kind
kind_of inode =
    if ltb inode 1
    then unknown
    else if ltb inode 2
    then root
    else if ltb inode inode_torrent_base
    then all
    else if ltb inode inode_file_base
    then torrent
    else file

-- The part of `RdFs` that gives torrents their inodes.
pub record Inodes : Type 0 where
  pub key_to_inode : List (String × ℕ)
  pub inode_to_key : List (ℕ × String)
  pub next_torrent_inode : ℕ

abbrev pub no_inodes : Inodes
no_inodes = record { key_to_inode = []; inode_to_key = []; next_torrent_inode = inode_torrent_base }

abbrev assign : String → Inodes → Option ℕ → ℕ × Inodes
assign key m (some inode) = (inode, m)
assign key m none = (
  m.next_torrent_inode,
  record {
    key_to_inode = insert key m.next_torrent_inode m.key_to_inode;
    inode_to_key = insert m.next_torrent_inode key m.inode_to_key;
    next_torrent_inode = m.next_torrent_inode + 1;
  },
)

unfoldable pub get_or_assign_torrent_inode : String → Inodes → ℕ × Inodes
get_or_assign_torrent_inode key m = assign key m (lookup key m.key_to_inode)

abbrev forget : String → Inodes → Option ℕ → Inodes
forget key m none = m
forget key m (some inode) = record m {
  key_to_inode = remove key m.key_to_inode;
  inode_to_key = remove inode m.inode_to_key;
}

-- The inode part of `purge_torrent_inode`.
unfoldable pub purge_torrent_inode : String → Inodes → Inodes
purge_torrent_inode key m = forget key m (lookup key m.key_to_inode)

unfoldable pub inode_to_access_key : ℕ → Inodes → Option String
inode_to_access_key inode m = lookup inode m.inode_to_key
