-- ===== src/Fuse/Inode/Maps.antt =====
-- The two inode maps stay inverse to one another, and no inode is ever given twice.
use text.Mathlib.TextEquality.{eq_iff}
use rd_rs.Prelude.{ℕ, ◌<◌, ◌≡◌, ◌⊎◌, inl, inr, refl, none, some, String, arith, Option-cases}
use rd_rs.Prelude.Map.{lookup, lookup-insert, lookup-remove, nat_keys, string_keys}
use rd_rs.Fuse.Inode.{
  Inodes, no_inodes, assign, forget, get_or_assign_torrent_inode, purge_torrent_inode,
  inode_to_access_key,
}

-- A key has an inode exactly if the inode has that key, and every inode in use is below the next
-- one to be given.
pub record IsPaired (m : Inodes) : Type 0 where
  pub to_key :
      (k : String) (i : ℕ) → lookup k m.key_to_inode ≡ some i → lookup i m.inode_to_key ≡ some k
  pub to_inode :
      (k : String) (i : ℕ) → lookup i m.inode_to_key ≡ some k → lookup k m.key_to_inode ≡ some i
  pub below : (k : String) (i : ℕ) → lookup i m.inode_to_key ≡ some k → i < m.next_torrent_inode

pub no_inodes-IsPaired : IsPaired no_inodes
unfolding lookup
no_inodes-IsPaired = record { to_key = λ k i e. cc; to_inode = λ k i e. cc; below = λ k i e. cc }

-- The next inode stands for no key yet.
unused : (m : Inodes) → IsPaired m → lookup m.next_torrent_inode m.inode_to_key ≡ none
unused m p = elim (Option-cases (lookup m.next_torrent_inode m.inode_to_key)) [
  | inl free ↦ free
  | inr (k, taken) ↦ absurd (omega (arith, p.below k m.next_torrent_inode taken))
]

module _ (key : String) (m : Inodes) (p : IsPaired m) (k : String) (i : ℕ) where
  -- The facts about one key and one inode from which each field of the new invariant follows.
  assigned_pair :
      lookup key m.key_to_inode ≡ none
      → let m' = (assign key m none).1 in
        (lookup k m'.key_to_inode ≡ some i → lookup i m'.inode_to_key ≡ some k)
        × (lookup i m'.inode_to_key ≡ some k → lookup k m'.key_to_inode ≡ some i)
        × (lookup i m'.inode_to_key ≡ some k → i < m'.next_torrent_inode)
  assigned_pair new =
      let n = m.next_torrent_inode in
      let at_key = lookup-insert key k n m.key_to_inode in
      let at_inode = lookup-insert n i key m.inode_to_key in
      (
        (λ e. ground (arith, at_key, at_inode, eq_iff key k, p.to_key k i, p.below k i)),
        (λ e. ground (arith, at_key, at_inode, eq_iff key k, p.to_inode k i, p.below k i)),
        (λ e. ground (arith, at_inode, p.below k i)),
      )

  purged_pair :
      (j : ℕ)
      → lookup key m.key_to_inode ≡ some j
      → let m' = forget key m (some j) in
        (lookup k m'.key_to_inode ≡ some i → lookup i m'.inode_to_key ≡ some k)
        × (lookup i m'.inode_to_key ≡ some k → lookup k m'.key_to_inode ≡ some i)
        × (lookup i m'.inode_to_key ≡ some k → i < m'.next_torrent_inode)
  purged_pair j old =
      let at_key = lookup-remove key k m.key_to_inode in
      let at_inode = lookup-remove j i m.inode_to_key in
      (
        (λ e. ground (arith, at_key, at_inode, eq_iff key k, p.to_key k i, p.to_key key j)),
        (λ e. ground (arith, at_key, at_inode, eq_iff key k, p.to_inode k i, p.to_key key j)),
        (λ e. ground (arith, at_inode, p.below k i)),
      )

-- Looking a torrent's inode up, and giving it one if it has none, keeps the maps inverse to one
-- another. The inode that is answered stands for the key afterwards; it is either the one that the
-- key had, or one that no key had; and no other key's inode changes.
pub get_or_assign-IsPaired :
    (key : String) (m : Inodes) (k : String)
    → IsPaired m
    → let (inode, m') = get_or_assign_torrent_inode key m in
      IsPaired m'
      × (inode_to_access_key inode m' ≡ some key)
      × ((lookup key m.key_to_inode ≡ some inode) ⊎ (inode_to_access_key inode m ≡ none))
      × ((k ≡ key) ⊎ (lookup k m'.key_to_inode ≡ lookup k m.key_to_inode))
unfolding get_or_assign_torrent_inode inode_to_access_key
get_or_assign-IsPaired key m k p = elim (Option-cases (lookup key m.key_to_inode)) [
  | inr (j, old) ↦ rw old (p, p.to_key key j old, inl refl, inr refl)
  | inl new ↦ rw new (
    record {
      to_key = λ l i. (assigned_pair key m p l i new).0;
      to_inode = λ l i. (assigned_pair key m p l i new).1;
      below = λ l i. (assigned_pair key m p l i new).2;
    },
    ground (arith, lookup-insert m.next_torrent_inode m.next_torrent_inode key m.inode_to_key),
    inr (unused m p),
    ground (arith, lookup-insert key k m.next_torrent_inode m.key_to_inode, eq_iff key k),
  )
]

-- Purging a removed torrent keeps the maps inverse to one another, leaves its key without an inode,
-- changes no other key's inode, and leaves the next inode to be given as it is.
pub purge_torrent_inode-IsPaired :
    (key : String) (m : Inodes) (k : String)
    → IsPaired m
    → let m' = purge_torrent_inode key m in
      IsPaired m'
      × (lookup key m'.key_to_inode ≡ none)
      × ((k ≡ key) ⊎ (lookup k m'.key_to_inode ≡ lookup k m.key_to_inode))
      × (m'.next_torrent_inode ≡ m.next_torrent_inode)
unfolding purge_torrent_inode
purge_torrent_inode-IsPaired key m k p = elim (Option-cases (lookup key m.key_to_inode)) [
  | inl new ↦ rw new (p, new, inr refl, refl)
  | inr (j, old) ↦ rw old (
    record {
      to_key = λ l i. (purged_pair key m p l i j old).0;
      to_inode = λ l i. (purged_pair key m p l i j old).1;
      below = λ l i. (purged_pair key m p l i j old).2;
    },
    ground (arith, lookup-remove key key m.key_to_inode, eq_iff key key),
    ground (arith, lookup-remove key k m.key_to_inode, eq_iff key k),
    refl,
  )
]
