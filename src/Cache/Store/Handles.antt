-- ===== src/Cache/Store/Handles.antt =====
-- An item that a caller has opened is not evicted, and an invalidated key is forgotten.
use rd_rs.Prelude.{
  ℕ, ◌+◌, ◌<◌, ◌^◌, ◌≡◌, refl, sym, ap, ◌∙◌, ◌⊎◌, inl, inr, Bool, true, false, Option, none, some,
  List, [], ◌∷◌, String, arith, ◌==◌, Bool-cases,
}
use mathlib.Core.Path.{subst}
use mathlib.Core.Option.{some-injective}
use rd_rs.Prelude.Map.{
  ◌=?◌, =?_refl, lookup, insert, remove, lookup-insert_self, lookup-remove, string_keys,
}
use rd_rs.Cache.RangeDb.{Table, Got, decode_error, ok, get, delete_keys, is_in}
use rd_rs.Cache.RangeDb.Table.{get-delete_keys}
use rd_rs.Cache.Item.{Item, restore, is_open, open_item, open_or_create_with_db}
use rd_rs.Cache.Eviction.{Items, is_idle, evict_idle}
use rd_rs.Cache.Eviction.Idle.{busy, evict_idle-busy}
use rd_rs.Cache.Store.{build_key, opened, created, found_or_created, get_or_create, invalidate}

lookup-busy :
    (key : String) (now : ℕ) (items : Items) (i : Item)
    → lookup key items ≡ some i
    → is_open i ≡ true
    → lookup key (busy now items) ≡ some i
unfolding lookup busy
lookup-busy key now [] i found h = ground arith
lookup-busy key now ((k, j) ∷ items) i found h = elim (Bool-cases (k =? key)) [
  | inl same ↦
      let is_i : j ≡ i = some-injective j i (ground arith) in
      let busy_j : is_idle now j ≡ false = ap (is_idle now) is_i ∙ ground arith in
      rw (busy_j, same) (ap some is_i)
  | inr other ↦
      let further : lookup key items ≡ some i = ground arith in
      elim (Bool-cases (is_idle now j)) [
        | inl goes ↦ rw goes (lookup-busy key now items i further h)
        | inr stays ↦ rw (stays, other) (lookup-busy key now items i further h)
      ]
]

-- What a call of `get_or_create` leaves: the item that it returns is open, stands in the map, and
-- stays there through an eviction at any time.
pub Kept : String → ℕ → Bool → Item × Items × Table → Type 0
Kept key later stored (i, items, t) =
    (is_open i ≡ true)
    × (lookup key items ≡ some i)
    × (lookup key (evict_idle later stored items t).0 ≡ some i)

opened-Kept :
    (key : String) (now later : ℕ) (stored : Bool) (items : Items) (i : Item) (t : Table)
    → i.opens + 1 < 2 ^ 32
    → Kept key later stored (opened key now items (i, t))
unfolding Kept open_item
opened-Kept key now later stored items i t small =
    let i' = open_item now i in
    let is_open_i : is_open i' ≡ true = ground arith in
    let there = lookup-insert_self key i' items in
    (
      is_open_i,
      there,
      ap (lookup key) (evict_idle-busy later stored (insert key i' items) t)
          ∙ lookup-busy key later (insert key i' items) i' there is_open_i,
    )

restore-opens :
    (key : String) (size now : ℕ) (purged : Bool) (disk : List ℕ) (t : Table) (g : Got) (i : Item)
    (t' : Table)
    → restore key size now purged disk t g ≡ some (i, t')
    → i.opens ≡ 0
restore-opens key size now purged disk t decode_error i t' h = ground arith
restore-opens key size now purged disk t (ok none) i t' h =
    ap (λ r. r.0.opens) (sym (some-injective _ (i, t') h))
restore-opens key size now purged disk t (ok (some row)) i t' h =
    elim (Bool-cases (row.file_size == size)) [
      | inl same ↦ let h' = rw same at h in ap (λ r. r.0.opens) (sym (some-injective _ (i, t') h'))
      | inr other ↦
          let h' = rw other at h in ap (λ r. r.0.opens) (sym (some-injective _ (i, t') h'))
    ]

created-Kept :
    (key : String) (now later : ℕ) (stored : Bool) (items : Items) (o : Option (Item × Table))
    (r : Item × Items × Table)
    → ((i : Item) (t : Table) → o ≡ some (i, t) → i.opens ≡ 0)
    → created key now items o ≡ some r
    → Kept key later stored r
created-Kept key now later stored items none r zero_opens h = ground arith
created-Kept key now later stored items (some (i, t)) r zero_opens h =
    subst (Kept key later stored) (some-injective _ r h)
      (opened-Kept key now later stored items i t (omega (arith, zero_opens i t refl)))

found_or_created-Kept :
    (key : String) (size now later : ℕ) (purged stored : Bool) (bytes : List ℕ) (items : Items)
    (t : Table) (o : Option Item) (r : Item × Items × Table)
    → ((i : Item) → o ≡ some i → i.opens + 1 < 2 ^ 32)
    → found_or_created key size now purged bytes items t o ≡ some r
    → Kept key later stored r
unfolding open_or_create_with_db
found_or_created-Kept key size now later purged stored bytes items t (some i) r small h =
    subst (Kept key later stored) (some-injective _ r h)
      (opened-Kept key now later stored items i t (small i refl))
found_or_created-Kept key size now later purged stored bytes items t none r small h =
    created-Kept key now later stored items (open_or_create_with_db key size now purged bytes t) r
      (λ i t' e. restore-opens key size now purged _ t (get key t) i t' e) h

-- Where `get_or_create` succeeds, and fewer than 2^32 - 1 handles of the key's item are open: the
-- item that it returns is open, stands in the map under its key, and stays there through an
-- eviction of idle items at any later time.
pub get_or_create-Kept :
    (access_key filename : String) (size now later : ℕ) (purged stored : Bool) (bytes : List ℕ)
    (items : Items) (t : Table) (r : Item × Items × Table)
    → ((i : Item) → lookup (build_key access_key filename) items ≡ some i → i.opens + 1 < 2 ^ 32)
    → get_or_create access_key filename size now purged bytes items t ≡ some r
    → Kept (build_key access_key filename) later stored r
unfolding get_or_create
get_or_create-Kept access_key filename size now later purged stored bytes items t r small h =
    found_or_created-Kept (build_key access_key filename) size now later purged stored bytes items t
      _ r small h

forget_key :
    (key other : String) (items : Items) (t : Table)
    → (lookup key (remove key items) ≡ none)
      × (get key (delete_keys (key ∷ []) t) ≡ Got.ok none)
      × ((other ≡ key)
          ⊎ ((lookup other (remove key items) ≡ lookup other items)
              × (get other (delete_keys (key ∷ []) t) ≡ get other t)))
unfolding is_in
forget_key key other items t = (
  lookup-remove key key items ∙ rw (=?_refl key) refl,
  get-delete_keys key (key ∷ []) t ∙ rw (=?_refl key) refl,
  elim (Bool-cases (key =? other)) [
    | inl same ↦ inl (sym (((string_keys).beq_iff key other).0 same))
    | inr differs ↦ inr (
      lookup-remove key other items ∙ rw differs refl,
      get-delete_keys other (key ∷ []) t ∙ rw differs refl,
    )
  ],
)

-- After an invalidation whose deletion succeeds, the map has no item and the database no row for
-- the key; the items of other keys stay, and so do their rows.
pub invalidate-forgets :
    (access_key filename other : String) (items : Items) (t : Table)
    → let key = build_key access_key filename in
      let (items', t') = invalidate access_key filename true items t in
      (lookup key items' ≡ none)
      × (get key t' ≡ Got.ok none)
      × ((other ≡ key)
          ⊎ ((lookup other items' ≡ lookup other items) × (get other t' ≡ get other t)))
unfolding invalidate
invalidate-forgets access_key filename other items t =
    forget_key (build_key access_key filename) other items t
