-- ===== src/Cache/Store.antt =====
-- `get_or_create` and `invalidate` of src/cache/cache.rs: the map from keys to live items, and the
-- table of their persisted ranges. The key is `"{access_key}/{filename}"`.
pub mod Handles
use Prim.Native.String.{◌++◌ as append}
use rd_rs.Prelude.{ℕ, Bool, true, false, Option, none, some, List, [], ◌∷◌, String, if◌then◌else◌}
use rd_rs.Prelude.Map.{lookup, insert, remove, string_keys}
use rd_rs.Cache.RangeDb.{Table, delete_keys}
use rd_rs.Cache.Item.{Item, open_item, open_or_create_with_db}
use rd_rs.Cache.Eviction.{Items}

abbrev pub build_key : String → String → String
build_key access_key filename = append access_key (append "/" filename)

abbrev pub opened : String → ℕ → Items → Item × Table → Item × Items × Table
opened key now items (i, t) = let i' = open_item now i in (i', insert key i' items, t)

abbrev pub created : String → ℕ → Items → Option (Item × Table) → Option (Item × Items × Table)
created key now items none = none
created key now items (some (i, t)) = some (opened key now items (i, t))

abbrev pub found_or_created :
    String → ℕ → ℕ → Bool → List ℕ → Items → Table → Option Item → Option (Item × Items × Table)
found_or_created key size now purged bytes items t (some i) = some (opened key now items (i, t))
found_or_created key size now purged bytes items t none =
    created key now items (open_or_create_with_db key size now purged bytes t)

-- `bytes` is the file found on disk, and `purged` whether a stale row could be deleted. An item
-- that is there is taken whatever its size.
unfoldable pub get_or_create :
    String → String → ℕ → ℕ → Bool → List ℕ → Items → Table → Option (Item × Items × Table)
get_or_create access_key filename size now purged bytes items t =
    let key = build_key access_key filename in
    found_or_created key size now purged bytes items t (lookup key items)

-- `deleted` tells whether the row could be deleted.
unfoldable pub invalidate : String → String → Bool → Items → Table → Items × Table
invalidate access_key filename deleted items t =
    let key = build_key access_key filename in
    (remove key items, (if deleted then delete_keys (key ∷ []) t else t))
