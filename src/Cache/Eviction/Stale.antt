-- ===== src/Cache/Eviction/Stale.antt =====
-- The cleanup of stale rows deletes a row together with its file, and never that of an item.
use rd_rs.Prelude.{
  ℕ, ◌-◌, ◌≡◌, refl, sym, ap, ◌∙◌, ◌⊎◌, inl, inr, true, false, not, ◌&&◌, List, [], ◌∷◌, String,
  arith, ◌==◌, Bool-cases, none,
}
use rd_rs.Prelude.Int.{as_i64}
use rd_rs.Prelude.Map.{◌=?◌, string_keys}
use rd_rs.Cache.RangeDb.{Table, Got, get, is_in}
use rd_rs.Cache.RangeDb.Table.{get-delete_keys}
use rd_rs.Cache.Eviction.{
  Items, has_key, Removal, is_gone, keys_to_delete, stale_keys, ttl_stale_keys_query_limit,
  ttl_cleanup,
}

-- A key that is deleted is one of the given keys, in no item, and has no file any more.
is_in-keys_to_delete :
    (remove_file : String → Removal) (items : Items) (key : String) (keys : List String)
    → (is_in key (keys_to_delete remove_file items keys) ≡ false)
      ⊎ ((is_in key keys ≡ true) × (has_key items key ≡ false) × (is_gone (remove_file key) ≡ true))
unfolding keys_to_delete is_in
is_in-keys_to_delete remove_file items key [] = inl refl
is_in-keys_to_delete remove_file items key (k ∷ keys) =
    let before = is_in-keys_to_delete remove_file items key keys in
    elim (Bool-cases (not (has_key items k) && is_gone (remove_file k))) [
      | inr stays ↦
          rw stays
            (elim before [ inl e ↦ inl e | inr (old, free, gone) ↦ inr (ground arith, free, gone) ])
      | inl goes ↦ rw goes (elim (Bool-cases (k =? key)) [
        | inl same ↦
            let e : k ≡ key = ((string_keys).beq_iff k key).0 same in
            inr (
              ground arith,
              ap (has_key items) (sym e) ∙ ground arith,
              ap (λ j. is_gone (remove_file j)) (sym e) ∙ ground arith,
            )
        | inr other ↦ elim before [
          | inl e ↦ inl (rw other e)
          | inr (old, free, gone) ↦ inr (ground arith, free, gone)
        ]
      ])
    ]

-- After the cleanup of stale rows, `get` answers for a key what it answered before, or nothing; the
-- latter only for a key that is among the stale ones, is in no item, and has no file any more.
pub get-ttl_cleanup :
    (remove_file : String → Removal) (age now : ℕ) (items : Items) (t : Table) (key : String)
    → (get key (ttl_cleanup remove_file age now items t) ≡ get key t)
      ⊎ ((get key (ttl_cleanup remove_file age now items t) ≡ Got.ok none)
          × (is_in key (stale_keys (as_i64 (now - age)) ttl_stale_keys_query_limit t) ≡ true)
          × (has_key items key ≡ false)
          × (is_gone (remove_file key) ≡ true))
unfolding ttl_cleanup
get-ttl_cleanup remove_file age now items t key = elim (Bool-cases (age == 0)) [
  | inl never ↦ rw never (inl refl)
  | inr limited ↦
      let stale = stale_keys (as_i64 (now - age)) ttl_stale_keys_query_limit t in
      let deleted = keys_to_delete remove_file items stale in
      rw limited (elim (is_in-keys_to_delete remove_file items key stale) [
        | inl e ↦ inl (get-delete_keys key deleted t ∙ rw e refl)
        | inr (old, free, gone) ↦ elim (Bool-cases (is_in key deleted)) [
          | inl d ↦ inr (get-delete_keys key deleted t ∙ rw d refl, old, free, gone)
          | inr d ↦ inl (get-delete_keys key deleted t ∙ rw d refl)
        ]
      ])
]
