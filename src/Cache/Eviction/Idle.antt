-- ===== src/Cache/Eviction/Idle.antt =====
-- An idle item leaves the map only with its ranges persisted, and an open one stays.
use rd_rs.Prelude.{
  ℕ, ◌≡◌, ◌≢◌, refl, sym, ap, ◌∙◌, inl, inr, Bool, true, false, some, [], ◌∷◌, String, arith,
  if◌then◌else◌, Bool-cases,
}
use mathlib.Core.Path.{subst}
use mathlib.Core.Option.{some-injective}
use rd_rs.Prelude.Int.{as_i64}
use rd_rs.Prelude.Map.{◌=?◌, lookup, string_keys}
use rd_rs.Cache.RangeDb.{Table, Got, get}
use rd_rs.Cache.RangeDb.Table.{get-upsert_self, get-upsert_ne}
use rd_rs.Cache.Item.{Item, flush_ranges}
use rd_rs.Cache.Item.Persist.{IsStorable, flush_ranges-flushed}
use rd_rs.Cache.Eviction.{Items, has_key, is_idle, evict_idle}

-- Each item stands under its own key, and no key stands twice.
unfoldable pub WellKeyed : Items → Type 0
WellKeyed [] = Unit {0}
WellKeyed ((k, i) ∷ items) = (i.cache_key ≡ k) × (has_key items k ≡ false) × WellKeyed items

-- The items that are not idle, in their order.
unfoldable pub busy : ℕ → Items → Items
busy now [] = []
busy now ((k, i) ∷ items) = if is_idle now i then busy now items else (k, i) ∷ busy now items

pub evict_idle-busy :
    (now : ℕ) (stored : Bool) (items : Items) (t : Table)
    → (evict_idle now stored items t).0 ≡ busy now items
unfolding evict_idle busy
evict_idle-busy now stored [] t = refl
evict_idle-busy now stored ((k, i) ∷ items) t = elim (Bool-cases (is_idle now i)) [
  | inl idle ↦ rw idle (evict_idle-busy now stored items _)
  | inr stays ↦ rw stays (ap (λ r. (k, i) ∷ r) (evict_idle-busy now stored items t))
]

-- A flush writes the row of its own key alone.
get-flush_ranges_ne :
    (key : String) (now : ℕ) (stored : Bool) (i : Item) (t : Table)
    → i.cache_key ≢ key
    → get key (flush_ranges true now stored (i, t)).1 ≡ get key t
unfolding flush_ranges
get-flush_ranges_ne key now stored i t ne =
    ground (arith, get-upsert_ne i.cache_key key i.file_size (as_i64 now) i.ranges t ne)

get-evict_idle_other :
    (key : String) (now : ℕ) (stored : Bool) (items : Items) (t : Table)
    → WellKeyed items
    → has_key items key ≡ false
    → get key (evict_idle now stored items t).1 ≡ get key t
unfolding evict_idle WellKeyed
get-evict_idle_other key now stored [] t w h = refl
get-evict_idle_other key now stored ((k, i) ∷ items) t w h =
    let ne : i.cache_key ≢ key = rw w.0 (ground (arith, (string_keys).beq_iff k key)) in
    let out : has_key items key ≡ false = ground arith in
    elim (Bool-cases (is_idle now i)) [
      | inl idle ↦ rw idle (
          get-evict_idle_other key now stored items (flush_ranges true now stored (i, t)).1 w.2 out
          ∙ get-flush_ranges_ne key now stored i t ne)
      | inr stays ↦ rw stays (get-evict_idle_other key now stored items t w.2 out)
    ]

-- The row of an item at a time.
abbrev pub row_of : ℕ → Item → Got
row_of now i =
    Got.ok (some (record { file_size = i.file_size; updated_at = as_i64 now; ranges = i.ranges }))

get-flush_ranges_self :
    (now : ℕ) (i : Item) (t : Table)
    → IsStorable i
    → get i.cache_key (flush_ranges true now true (i, t)).1 ≡ row_of now i
get-flush_ranges_self now i t s =
    rw (flush_ranges-flushed now i t s.dirty)
      (get-upsert_self i.cache_key i.file_size (as_i64 now) i.ranges t s.size s.normal s.ends)

get-evict_idle_head :
    (key : String) (now : ℕ) (k : String) (i : Item) (items : Items) (t : Table)
    → WellKeyed ((k, i) ∷ items)
    → k ≡ key
    → is_idle now i ≡ true
    → IsStorable i
    → get key (evict_idle now true ((k, i) ∷ items) t).1 ≡ row_of now i
unfolding evict_idle WellKeyed
get-evict_idle_head key now k i items t w at_key idle s =
    let u = (flush_ranges true now true (i, t)).1 in
    let out : has_key items key ≡ false = ap (has_key items) (sym at_key) ∙ w.1 in
    rw idle (
      get-evict_idle_other key now true items u w.2 out
      ∙ ap (λ j. get j u) (sym (w.0 ∙ at_key))
      ∙ get-flush_ranges_self now i t s)

get-evict_idle :
    (key : String) (now : ℕ) (items : Items) (i : Item) (t : Table)
    → WellKeyed items
    → lookup key items ≡ some i
    → is_idle now i ≡ true
    → IsStorable i
    → get key (evict_idle now true items t).1 ≡ row_of now i
unfolding evict_idle WellKeyed lookup
get-evict_idle key now [] i t w found idle s = ground arith
get-evict_idle key now ((k, j) ∷ items) i t w found idle s = elim (Bool-cases (k =? key)) [
  | inl same ↦
      let at_key : k ≡ key = ((string_keys).beq_iff k key).0 same in
      let is_i : j ≡ i = some-injective j i (ground arith) in
      get-evict_idle_head key now k j items t w at_key
        (subst (λ z. is_idle now z ≡ true) (sym is_i) idle) (subst IsStorable (sym is_i) s)
      ∙ ap (row_of now) is_i
  | inr other ↦
      let further : lookup key items ≡ some i = ground arith in
      elim (Bool-cases (is_idle now j)) [
        | inl goes ↦ rw goes (get-evict_idle key now items i _ w.2 further idle s)
        | inr stays ↦ rw stays (get-evict_idle key now items i t w.2 further idle s)
      ]
]

-- Of a map in which each item stands under its own key, and no key twice, one pass over the idle
-- items keeps exactly the items that are open or were opened in the last 60 seconds, in their
-- order; and for an item that is idle, has ranges to persist, and leaves, the database then
-- answers its size and its ranges, if it takes the rows.
pub evict_idle-persists :
    (key : String) (now : ℕ) (items : Items) (i : Item) (t : Table)
    → WellKeyed items
    → lookup key items ≡ some i
    → is_idle now i ≡ true
    → IsStorable i
    → ((evict_idle now true items t).0 ≡ busy now items)
      × (get key (evict_idle now true items t).1 ≡ row_of now i)
evict_idle-persists key now items i t w found idle s =
    (evict_idle-busy now true items t, get-evict_idle key now items i t w found idle s)
