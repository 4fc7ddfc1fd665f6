-- ===== src/AccessKeys/Race.antt =====
-- A key that is added again in the shard that deletes its account, and the orders of the futures
-- of `handle_access_keys` (db_adapters/access_keys.rs).
use near_indexer_for_explore.Base.{
  some_inj, none≢some, ℕ, ◌<◌, String, ◌≡◌, refl, sym, ap, ◌∙◌, true, false, not, ◌&&◌, none, some,
  List, [], ◌∷◌, arith, filter, is_some, ◌==◌, String-eq, pair-eq, pair_eq_iff, ==-sym, Bool-cases,
  inl, inr, if◌then◌else◌, All,
}
use near_indexer_for_explore.Base.Map.{Map, get, values}
use near_indexer_for_explore.Database.{Future, KeepsKey, effect, Table, find_row}
use near_indexer_for_explore.Database.Concurrent.{Run, apply_future}
use near_indexer_for_explore.Database.Keyed.{
  Distinct, apply_future-map-filter, All-map_statement, find_row-key,
}
use near_indexer_for_explore.Database.Sequential.{
  run_all, row-run_all, run_first, Run-trans, Run-there,
}
use near_indexer_for_explore.AccessKeys.{
  AccessKey, KeyId, key_id, Collected, is_created, is_stale, delete_account_statement,
  update_statement, add_statement, delete_future, update_future, add_future, futures_of,
}
use near_indexer_for_explore.AccessKeys.Settle.{update_own, add_own, to_update, All-delete}

module _ (k : KeyId) (height : ℕ) where
  -- A row that is deleted, or that was updated at this height, is no target of the deletions.
  untouched :
      (m : Map String String) (row : AccessKey)
      → (not (is_some row.deleted_by_receipt_id) && is_stale height row) ≡ false
      → apply_future key_id k (delete_future height m) (some row) ≡ some row
  untouched [] row h = refl
  untouched ((account_id, receipt_id) ∷ m) row h =
      ap (apply_future key_id k (delete_future height m)) same ∙ untouched m row h
    where
      same :
          some (
            if (k.1 == account_id)
              && (not (is_some row.deleted_by_receipt_id) && is_stale height row)
            then record row {
              deleted_by_receipt_id = some receipt_id;
              last_update_block_height = height;
            }
            else row)
          ≡ some row
      same = ground arith

  step_hit :
      (account_id r : String) (row : AccessKey)
      → (k.1 == account_id) ≡ true
      → row.deleted_by_receipt_id ≡ none
      → row.last_update_block_height < height
      → effect key_id (delete_account_statement height (account_id, r)) k (some row)
        ≡ some (record row { deleted_by_receipt_id = some r; last_update_block_height = height })
  step_hit account_id r row own live old = ground arith

  step_miss :
      (account_id r : String) (row : AccessKey)
      → (k.1 == account_id) ≡ false
      → effect key_id (delete_account_statement height (account_id, r)) k (some row) ≡ some row
  step_miss account_id r row away = ground arith

  -- A live row of an earlier height is deleted by the first entry for its account.
  deleted_by_account :
      (m : Map String String) (row : AccessKey) {receipt_id : String}
      → get k.1 m ≡ some receipt_id
      → row.deleted_by_receipt_id ≡ none
      → row.last_update_block_height < height
      → apply_future key_id k (delete_future height m) (some row)
        ≡ some (record row {
          deleted_by_receipt_id = some receipt_id;
          last_update_block_height = height;
        })
  deleted_by_account [] row found live old = absurd (none≢some found)
  deleted_by_account ((account_id, r) ∷ m) row {receipt_id} found live old =
      elim (Bool-cases (account_id == k.1)) [
        | inl hit ↦
            let same : r ≡ receipt_id = some_inj (rw hit at found) in
            let own : (k.1 == account_id) ≡ true = ==-sym k.1 account_id ∙ hit in
            ap (apply_future key_id k (delete_future height m))
              (step_hit account_id r row own live old)
            ∙ untouched m
                (record row { deleted_by_receipt_id = some r; last_update_block_height = height })
                refl
            ∙ ap
                (λ x. some (record row {
                  deleted_by_receipt_id = some x;
                  last_update_block_height = height;
                }))
                same
        | inr miss ↦
            let away : (k.1 == account_id) ≡ false = ==-sym k.1 account_id ∙ miss in
            ap (apply_future key_id k (delete_future height m)) (step_miss account_id r row away)
            ∙ deleted_by_account m row (rw miss at found) live old
      ]

  -- The two futures on the values.
  values_update :
      (rs : List AccessKey) (v row : AccessKey)
      → Distinct key_id rs
      → find_row key_id k rs ≡ some v
      → is_created v ≡ true
      → apply_future key_id k (update_future (filter to_update rs)) (some row) ≡ some row
  values_update rs v row d found created =
      apply_future-map-filter key_id update_statement update_own to_update k rs (some row) d
      ∙ rw (found, created)

  values_add :
      (rs : List AccessKey) (v row : AccessKey)
      → Distinct key_id rs
      → find_row key_id k rs ≡ some v
      → is_created v ≡ true
      → apply_future key_id k (add_future (filter is_created rs)) (some row)
        ≡ some (
            if is_stale v.last_update_block_height row
            then record row {
              created_by_receipt_id = v.created_by_receipt_id;
              deleted_by_receipt_id = v.deleted_by_receipt_id;
              last_update_block_height = v.last_update_block_height;
            }
            else row)
  values_add rs v row d found created =
      let own = (pair_eq_iff k (key_id v)).1 (sym (find_row-key key_id k rs v found)) in
      apply_future-map-filter key_id add_statement add_own is_created k rs (some row) d
      ∙ rw (found, created, own)

module _ (T : Table key_id) (height : ℕ) (c : Collected) where
  open T use {Tab, row, run}

  -- The row is live and older than the block, its account is deleted in the shard, and the model
  -- collected for the key is one that was added after that.
  pub record Raced (k : KeyId) (t : Tab) (old model : AccessKey) (receipt_id : String)
      : Type 0 where
    pub was : row t k ≡ some old
    pub live : old.deleted_by_receipt_id ≡ none
    pub before : old.last_update_block_height < height
    pub account_deleted : get k.1 c.deleted_accounts ≡ some receipt_id
    pub distinct : Distinct key_id (values c.access_keys)
    pub found : find_row key_id k (values c.access_keys) ≡ some model
    pub created : is_created model ≡ true
    pub added : model.deleted_by_receipt_id ≡ none
    pub at_height : model.last_update_block_height ≡ height

  abbrev deletions : Future KeyId AccessKey
  deletions = delete_future height c.deleted_accounts

  abbrev updates : Future KeyId AccessKey
  updates = update_future (filter to_update (values c.access_keys))

  abbrev additions : Future KeyId AccessKey
  additions = add_future (filter is_created (values c.access_keys))

  deletions_keep : All (KeepsKey key_id) deletions
  deletions_keep = All-delete ("", "") height (KeepsKey key_id) c.deleted_accounts (λ p r. refl)

  updates_keep : All (KeepsKey key_id) updates
  updates_keep = All-map_statement key_id (KeepsKey key_id) update_statement _ (λ v r. refl)

  additions_keep : All (KeepsKey key_id) additions
  additions_keep = (tt, All-map_statement key_id (KeepsKey key_id) add_statement _ (λ v r. refl))

  -- The deletions first, or last.
  abbrev deleted_first : Tab → Tab
  deleted_first t = run_all T additions (run_all T updates (run_all T deletions t))

  abbrev deleted_last : Tab → Tab
  deleted_last t = run_all T deletions (run_all T additions (run_all T updates t))

  run_deleted_first :
      (t : Tab) → Run T (futures_of height c) t ([] ∷ [] ∷ [] ∷ []) (deleted_first t)
  run_deleted_first t = Run-trans T (run_first T deletions (updates ∷ additions ∷ []) t) (
      Run-there T [] (
        Run-trans T (run_first T updates (additions ∷ []) _)
          (Run-there T [] (run_first T additions [] _))))

  run_deleted_last : (t : Tab) → Run T (futures_of height c) t ([] ∷ [] ∷ [] ∷ []) (deleted_last t)
  run_deleted_last t =
      Run-trans T
        (Run-there T deletions (
          Run-trans T (run_first T updates (additions ∷ []) t)
            (Run-there T [] (run_first T additions [] _))))
        (run_first T deletions ([] ∷ [] ∷ []) _)

  abbrev as_deleted : AccessKey → String → AccessKey
  as_deleted old receipt_id = record old {
    deleted_by_receipt_id = some receipt_id;
    last_update_block_height = height;
  }

  abbrev as_added : AccessKey → AccessKey → AccessKey
  as_added old model = record old {
    created_by_receipt_id = model.created_by_receipt_id;
    deleted_by_receipt_id = none;
    last_update_block_height = height;
  }

  first_row :
      (k : KeyId) (t : Tab) (old model : AccessKey) (receipt_id : String)
      → Raced k t old model receipt_id
      → row (deleted_first t) k ≡ some (as_deleted old receipt_id)
  first_row k t old model receipt_id r =
      let rs = values c.access_keys in
      row-run_all T k additions _ additions_keep
      ∙ ap (apply_future key_id k additions) (
          row-run_all T k updates _ updates_keep
          ∙ ap (apply_future key_id k updates) (
              row-run_all T k deletions t deletions_keep
              ∙ ap (apply_future key_id k deletions) r.was
              ∙ deleted_by_account k height c.deleted_accounts old r.account_deleted r.live
                  r.before)
          ∙ values_update k height rs model (as_deleted old receipt_id) r.distinct r.found
              r.created)
      ∙ values_add k height rs model (as_deleted old receipt_id) r.distinct r.found r.created
      ∙ ground (arith, r.at_height)

  last_row :
      (k : KeyId) (t : Tab) (old model : AccessKey) (receipt_id : String)
      → Raced k t old model receipt_id
      → row (deleted_last t) k ≡ some (as_added old model)
  last_row k t old model receipt_id r =
      let rs = values c.access_keys in
      row-run_all T k deletions _ deletions_keep
      ∙ ap (apply_future key_id k deletions) (
          row-run_all T k additions _ additions_keep
          ∙ ap (apply_future key_id k additions) (
              row-run_all T k updates t updates_keep
              ∙ ap (apply_future key_id k updates) r.was
              ∙ values_update k height rs model old r.distinct r.found r.created)
          ∙ values_add k height rs model old r.distinct r.found r.created
          ∙ ground (arith, r.at_height, r.before, r.added))
      ∙ untouched k height c.deleted_accounts (as_added old model) (ground arith)

  -- For every live key of an earlier block whose account is deleted, and which is then added
  -- again, within one shard of a block, the outcome depends on the order of the futures: one
  -- completed run leaves the row deleted, another one leaves it live.
  pub futures_of-race :
      (k : KeyId) (t : Tab) (old model : AccessKey) (receipt_id : String)
      → Raced k t old model receipt_id
      → (u u' : Tab) × Run T (futures_of height c) t ([] ∷ [] ∷ [] ∷ []) u
        × Run T (futures_of height c) t ([] ∷ [] ∷ [] ∷ []) u'
        × (row u k ≡ some (as_deleted old receipt_id))
        × (row u' k ≡ some (as_added old model))
  futures_of-race k t old model receipt_id r = (
    deleted_first t,
    deleted_last t,
    run_deleted_first t,
    run_deleted_last t,
    first_row k t old model receipt_id r,
    last_row k t old model receipt_id r,
  )
