-- ===== src/Cache/Eviction/Lru.antt =====
-- The eviction of disk files takes the least recently used ones, and no more than it must.
use rd_rs.Prelude.{
  ℕ, ◌+◌, ◌-◌, ◌≤◌, ◌≡◌, refl, ap, ◌⊎◌, inl, inr, Bool, true, ◌&&◌, List, [], ◌∷◌, ◌++◌, String,
  arith, ltb, leb, if◌then◌else◌, Bool-cases,
}
use mathlib.Core.List.{Perm}
use mathlib.Core.List.Perm
use rd_rs.Cache.Eviction.{
  Items, DiskFile, total_size, insert_by_atime, sort_by_atime, can_go, remove_oldest,
  evict_disk_lru,
}

-- The files that pass the test, in their order.
pub eligible : (DiskFile → Bool) → List DiskFile → List DiskFile
eligible goes [] = []
eligible goes (f ∷ files) = if goes f then f ∷ eligible goes files else eligible goes files

-- None was accessed before `least`, and each no later than those after it.
unfoldable pub OldestFirst : ℕ → List DiskFile → Type 0
OldestFirst least [] = Unit {0}
OldestFirst least (f ∷ files) = (least ≤ f.atime) × OldestFirst f.atime files

-- Before each of the files is removed, what is left is still over the threshold.
pub each_needed : ℕ → ℕ → ℕ → List DiskFile → Bool
each_needed threshold total freed [] = true
each_needed threshold total freed (f ∷ files) =
    ltb threshold (total - freed) && each_needed threshold total (freed + f.size) files

-- The outcome of a removal among the files `candidates`, the oldest first: the files removed are
-- the first of them, those after them stay, `freed` is what the removed ones take, the rest fits
-- the threshold unless all are removed, and no file is removed without need.
pub record Evicted (threshold total before : ℕ) (candidates : List DiskFile)
    (outcome : List DiskFile × ℕ) : Type 0 where
  pub kept : List DiskFile
  pub first : candidates ≡ outcome.0 ++ kept
  pub sum : outcome.1 ≡ before + total_size outcome.0
  pub enough : (total - outcome.1 ≤ threshold) ⊎ (kept ≡ [])
  pub needed : each_needed threshold total before outcome.0 ≡ true

remove_oldest-Evicted :
    (goes : DiskFile → Bool) (threshold total freed : ℕ) (files : List DiskFile)
    → Evicted threshold total freed
        (eligible goes files)
        (remove_oldest goes threshold total freed files)
unfolding remove_oldest eligible each_needed
remove_oldest-Evicted goes threshold total freed [] = record {
  kept = [];
  first = refl;
  sum = omega arith;
  enough = inr refl;
  needed = refl;
}
remove_oldest-Evicted goes threshold total freed (f ∷ files) =
    elim (Bool-cases (leb (total - freed) threshold)) [
      | inl fits ↦ rw fits (record {
        kept = eligible goes (f ∷ files);
        first = refl;
        sum = omega arith;
        enough = inl (ground arith);
        needed = refl;
      })
      | inr over ↦ elim (Bool-cases (goes f)) [
        | inl goes_f ↦
            let w = remove_oldest-Evicted goes threshold total (freed + f.size) files in
            rw (over, goes_f)
              (record {
                kept = w.kept;
                first = ap (λ fs. f ∷ fs) w.first;
                sum = omega (arith, w.sum);
                enough = w.enough;
                needed = ground (arith, w.needed, over);
              })
        | inr stays ↦ rw (over, stays) (remove_oldest-Evicted goes threshold total freed files)
      ]
    ]

insert_by_atime-OldestFirst :
    (least : ℕ) (f : DiskFile) (files : List DiskFile)
    → least ≤ f.atime
    → OldestFirst least files
    → OldestFirst least (insert_by_atime f files)
unfolding insert_by_atime OldestFirst
insert_by_atime-OldestFirst least f [] h o = (h, tt)
insert_by_atime-OldestFirst least f (g ∷ files) h o = elim (Bool-cases (ltb g.atime f.atime)) [
  | inl after ↦ rw after (o.0, insert_by_atime-OldestFirst g.atime f files (ground arith) o.1)
  | inr before ↦ rw before (h, (ground arith, o.1))
]

sort_by_atime-OldestFirst : (files : List DiskFile) → OldestFirst 0 (sort_by_atime files)
unfolding sort_by_atime OldestFirst
sort_by_atime-OldestFirst [] = tt
sort_by_atime-OldestFirst (f ∷ files) =
    insert_by_atime-OldestFirst 0 f (sort_by_atime files) (omega arith)
      (sort_by_atime-OldestFirst files)

OldestFirst-mono :
    (m n : ℕ) (files : List DiskFile) → m ≤ n → OldestFirst n files → OldestFirst m files
unfolding OldestFirst
OldestFirst-mono m n [] h o = tt
OldestFirst-mono m n (f ∷ files) h o = (omega (arith, o.0), o.1)

OldestFirst-eligible :
    (goes : DiskFile → Bool) (least : ℕ) (files : List DiskFile)
    → OldestFirst least files
    → OldestFirst least (eligible goes files)
unfolding eligible OldestFirst
OldestFirst-eligible goes least [] o = tt
OldestFirst-eligible goes least (f ∷ files) o = elim (Bool-cases (goes f)) [
  | inl goes_f ↦ rw goes_f (o.0, OldestFirst-eligible goes f.atime files o.1)
  | inr stays ↦
      rw stays
        (OldestFirst-eligible goes least files (OldestFirst-mono least f.atime files o.0 o.1))
]

insert_by_atime-Perm :
    (f : DiskFile) (files : List DiskFile) → Perm (insert_by_atime f files) (f ∷ files)
unfolding insert_by_atime
insert_by_atime-Perm f [] = Perm.refl _
insert_by_atime-Perm f (g ∷ files) = elim (Bool-cases (ltb g.atime f.atime)) [
  | inl after ↦
      rw after (Perm.trans (Perm.cons g (insert_by_atime-Perm f files)) (Perm.swap f g files))
  | inr before ↦ rw before (Perm.refl _)
]

sort_by_atime-Perm : (files : List DiskFile) → Perm (sort_by_atime files) files
unfolding sort_by_atime
sort_by_atime-Perm [] = Perm.refl _
sort_by_atime-Perm (f ∷ files) =
    Perm.trans (insert_by_atime-Perm f (sort_by_atime files))
      (Perm.cons f (sort_by_atime-Perm files))

-- What an eviction of disk files removes: nothing, if they fit the threshold. Otherwise, the files
-- that are in no item, were last accessed at least 300 seconds ago, and can be removed, go in the
-- order of their last access, the oldest first, until the rest fits the threshold or none of them
-- is left; and none goes without need.
pub evict_disk_lru-Evicted :
    (can_remove : String → Bool) (items : Items) (threshold now : ℕ) (files : List DiskFile)
    → let candidates = eligible (can_go can_remove items now) (sort_by_atime files) in
      Perm (sort_by_atime files) files
      × OldestFirst 0 candidates
      × ((total_size files ≤ threshold)
            × (evict_disk_lru can_remove items threshold now files ≡ ([], 0))
          ⊎ Evicted threshold
              (total_size files)
              0
              candidates
              (evict_disk_lru can_remove items threshold now files))
unfolding evict_disk_lru
evict_disk_lru-Evicted can_remove items threshold now files = (
  sort_by_atime-Perm files,
  OldestFirst-eligible (can_go can_remove items now) 0 (sort_by_atime files)
      (sort_by_atime-OldestFirst files),
  elim (Bool-cases (leb (total_size files) threshold)) [
    | inl fits ↦ inl (ground arith, rw fits refl)
    | inr over ↦ inr (
        rw over (
          remove_oldest-Evicted (can_go can_remove items now) threshold (total_size files) 0
            (sort_by_atime files)))
  ],
)
