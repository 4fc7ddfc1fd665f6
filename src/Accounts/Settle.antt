-- ===== src/Accounts/Settle.antt =====
-- What the joined futures of `handle_accounts` (db_adapters/accounts.rs) make of the row of an
-- account, however they interleave and however often a statement is retried.
use near_indexer_for_explore.Base.{
  ℕ, String, ◌≡◌, refl, ap, ◌∙◌, Bool, not, ◌&&◌, Option, none, some, List, [], ◌∷◌, map, arith,
  eq_iff, filter, is_some, ltb, String-eq, Bool-cases, inl, inr, if◌then◌else◌, All, All-append,
}
use near_indexer_for_explore.Base.Map.{get, values}
use near_indexer_for_explore.Chain.{OutcomeWithReceipt}
use near_indexer_for_explore.Database.{
  Statement, Future, insert_do_nothing, effect, KeepsKey, Table, find_row, insert_at,
}
use near_indexer_for_explore.Database.Concurrent.{
  Run, apply_future, apply_all, Commuting, Repeatable, Idle, AllStatements, apply_all-Run,
  Commute-Idle_left, Commute-Idle_right,
}
use near_indexer_for_explore.Database.Keyed.{
  keep_if, Distinct, find_row-filter, filter-Distinct, OwnRow, apply_own, apply_future-append,
  apply_future-map-filter, All-map_statement, map-Idle, insert-Idle, insert-Repeatable,
  absent_filter, find_row-key, find_row-values, values-Distinct,
}
use near_indexer_for_explore.Accounts.{
  Account, is_created, delete_statement, recreate_statement, update_statement,
  is_implicit_to_recreate, delete_accounts_future, create_or_update_accounts_future,
  collect_accounts, handle_accounts,
}
use near_indexer_for_explore.Accounts.Collect.{account_key, collect_accounts-IsKeyed}

-- The row that an account ends with, from the model collected for it and its row before.
-- A model that creates is inserted where there is no row; an implicit account that was not
-- deleted is left alone; a row of this height or a later one is never changed.
abbrev pub settle : Option Account → Option Account → Option Account
settle none row = row
settle (some model) none = if is_created model then some model else none
settle (some model) (some row) =
    if ltb row.last_update_block_height model.last_update_block_height
    then if is_created model
      then if is_implicit_to_recreate model && not (is_some row.deleted_by_receipt_id)
        then some row
        else some (record row {
          created_by_receipt_id = model.created_by_receipt_id;
          deleted_by_receipt_id = model.deleted_by_receipt_id;
          last_update_block_height = model.last_update_block_height;
        })
      else some (record row {
        deleted_by_receipt_id = model.deleted_by_receipt_id;
        last_update_block_height = model.last_update_block_height;
      })
    else some row

delete_own : OwnRow account_key delete_statement
delete_own v k none h = refl
delete_own v k (some r) h = ground (arith, eq_iff v.account_id k, eq_iff k v.account_id)

recreate_own : OwnRow account_key recreate_statement
recreate_own v k none h = refl
recreate_own v k (some r) h = ground (arith, eq_iff v.account_id k, eq_iff k v.account_id)

update_own : OwnRow account_key update_statement
update_own v k none h = refl
update_own v k (some r) h = ground (arith, eq_iff v.account_id k, eq_iff k v.account_id)

abbrev to_delete : Account → Bool
to_delete model = not (is_created model)

abbrev pub to_update : Account → Bool
to_update model = not (is_implicit_to_recreate model)

module _ (k : String) where
  delete-Repeatable : (v : Account) → Repeatable account_key k (delete_statement v)
  delete-Repeatable v r = ground arith

  recreate-Repeatable : (v : Account) → Repeatable account_key k (recreate_statement v)
  recreate-Repeatable v r = ground arith

  update-Repeatable : (v : Account) → Repeatable account_key k (update_statement v)
  update-Repeatable v r = ground arith

  create-All :
      (P : Statement String Account → Type 0) (rs : List Account)
      → P (insert_do_nothing rs)
      → ((v : Account) → P (recreate_statement v))
      → ((v : Account) → P (update_statement v))
      → All P (create_or_update_accounts_future rs)
  create-All P rs i c u = (
    i,
    All-append P (map recreate_statement (filter is_implicit_to_recreate rs)) _
        (All-map_statement account_key P recreate_statement (filter is_implicit_to_recreate rs) c)
        (All-map_statement account_key P update_statement (filter to_update rs) u),
  )

  create-Idle :
      (rs : List Account)
      → Distinct account_key rs
      → find_row account_key k rs ≡ none
      → All (Idle account_key k) (create_or_update_accounts_future rs)
  create-Idle rs d h = (
    insert-Idle account_key k rs h,
    All-append (Idle account_key k) (map recreate_statement (filter is_implicit_to_recreate rs)) _
        (map-Idle account_key recreate_statement recreate_own k _
          (absent_filter account_key _ k rs d h))
        (map-Idle account_key update_statement update_own k _
          (absent_filter account_key _ k rs d h)),
  )

  apply_create :
      (rs : List Account) (r : Option Account)
      → Distinct account_key rs
      → apply_future account_key k (create_or_update_accounts_future rs) r
        ≡ apply_own account_key update_statement k (keep_if to_update (find_row account_key k rs)) (
            apply_own account_key recreate_statement k
              (keep_if is_implicit_to_recreate (find_row account_key k rs))
              (effect account_key (insert_do_nothing rs) k r))
  apply_create rs r d =
      apply_future-append account_key k (map recreate_statement (filter is_implicit_to_recreate rs))
        _ _
      ∙ apply_future-map-filter account_key update_statement update_own to_update k rs _ d
      ∙ ap
          (apply_own account_key update_statement k (keep_if to_update (find_row account_key k rs)))
          (apply_future-map-filter account_key recreate_statement recreate_own
            is_implicit_to_recreate k rs _ d)

  abbrev futures_of : List Account → List (Future String Account)
  futures_of accounts =
      delete_accounts_future (filter to_delete accounts)
      ∷ create_or_update_accounts_future (filter is_created accounts)
      ∷ []

  -- The value for a key that is found has that key.
  settle_value :
      (o r : Option Account)
      → ((v : Account) → o ≡ some v → v.account_id ≡ k)
      → apply_own account_key update_statement k (keep_if to_update (keep_if is_created o)) (
          apply_own account_key recreate_statement k
            (keep_if is_implicit_to_recreate (keep_if is_created o))
            (insert_at
              (keep_if is_created o)
              (apply_own account_key delete_statement k (keep_if to_delete o) r)))
        ≡ settle o r
  settle_value none none h = refl
  settle_value none (some row) h = refl
  settle_value (some v) none h = ground (arith, eq_iff k v.account_id, h v refl)
  settle_value (some v) (some row) h = ground (arith, eq_iff k v.account_id, h v refl)

  futures_settle :
      (accounts : List Account) (r : Option Account)
      → Distinct account_key accounts
      → apply_all account_key k (futures_of accounts) r ≡ settle (find_row account_key k accounts) r
  futures_settle accounts r d =
      apply_create (filter is_created accounts) _
        (filter-Distinct account_key is_created accounts d)
      ∙ rw
          (
            find_row-filter account_key is_created k accounts d,
            apply_future-map-filter account_key delete_statement delete_own to_delete k accounts r
                d,
          )
          (settle_value (find_row account_key k accounts) r (find_row-key account_key k accounts))

  -- An account is deleted by one future or created by the other, never both.
  futures_commute :
      (accounts : List Account)
      → Distinct account_key accounts
      → (o : Option Account) → find_row account_key k accounts ≡ o
      → Commuting account_key k (futures_of accounts)
  futures_commute accounts d o e = elim (Bool-cases (is_some (keep_if is_created o))) [
    | inl creates ↦
        let gone : keep_if to_delete o ≡ none = ground arith in
        (
          (
            Commute-Idle_left account_key k (delete_accounts_future (filter to_delete accounts))
                (create_or_update_accounts_future (filter is_created accounts))
                (map-Idle account_key delete_statement delete_own k (filter to_delete accounts) (
                  find_row-filter account_key to_delete k accounts d
                  ∙ ap (keep_if to_delete) e
                  ∙ gone)),
            tt,
          ),
          (tt, tt),
        )
    | inr keeps ↦
        let gone : keep_if is_created o ≡ none = ground arith in
        (
          (
            Commute-Idle_right account_key k (delete_accounts_future (filter to_delete accounts))
                (create_or_update_accounts_future (filter is_created accounts))
                (create-Idle (filter is_created accounts)
                  (filter-Distinct account_key is_created accounts d)
                  (find_row-filter account_key is_created k accounts d
                    ∙ ap (keep_if is_created) e
                    ∙ gone)),
            tt,
          ),
          (tt, tt),
        )
  ]

  futures_all :
      (P : Statement String Account → Type 0) (accounts : List Account)
      → ((rs : List Account) → P (insert_do_nothing rs))
      → ((v : Account) → P (delete_statement v))
      → ((v : Account) → P (recreate_statement v))
      → ((v : Account) → P (update_statement v))
      → AllStatements account_key k P (futures_of accounts)
  futures_all P accounts i c u w = (
    All-map_statement account_key P delete_statement (filter to_delete accounts) c,
    (create-All P (filter is_created accounts) (i (filter is_created accounts)) u w, tt),
  )

module _ (T : Table account_key) where
  open T use {Tab, row, run}

  futures_run :
      (accounts : List Account) (k : String) {t u : Tab}
      → Distinct account_key accounts
      → Run T (futures_of k accounts) t ([] ∷ [] ∷ []) u
      → row u k ≡ settle (find_row account_key k accounts) (row t k)
  futures_run accounts k {t = t} d r =
      apply_all-Run T k r (futures_commute k accounts d (find_row account_key k accounts) refl)
        (futures_all k (Repeatable account_key k) accounts (insert-Repeatable account_key k)
          (delete-Repeatable k) (recreate-Repeatable k) (update-Repeatable k))
        (futures_all k (KeepsKey account_key) accounts (λ rs. tt) (λ v r. refl) (λ v r. refl)
          (λ v r. refl))
      ∙ futures_settle k accounts (row t k) d

  -- When both futures of `handle_accounts` have completed, in whatever order their statements
  -- were attempted and however often a reply was lost and a statement sent again, the row of
  -- every account is the one that `settle` gives for the model collected for it; rows of
  -- accounts without a model are as before.
  pub handle_accounts-row :
      (o : OutcomeWithReceipt) (outcomes : List OutcomeWithReceipt) (h : ℕ) (k : String) {t u : Tab}
      → Run T (handle_accounts (o ∷ outcomes) h) t ([] ∷ [] ∷ []) u
      → row u k ≡ settle (get k (collect_accounts (o ∷ outcomes) h)) (row t k)
  unfolding handle_accounts
  handle_accounts-row o outcomes h k {t = t} r =
      let keyed = collect_accounts-IsKeyed (o ∷ outcomes) h in
      let m = collect_accounts (o ∷ outcomes) h in
      futures_run (values m) k (values-Distinct account_key m keyed) r
      ∙ ap (λ x. settle x (row t k)) (find_row-values account_key k m keyed)
