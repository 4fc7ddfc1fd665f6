-- ===== src/Message/Adapters.antt =====
-- The processes of the adapters that `handle_message` calls, one by one: their rows, keys and
-- references.
use near_indexer_for_explore.Base.{
  ℕ, String, ◌≡◌, refl, ap, not, Option, List, [], ◌∷◌, All, All-append, String-eq, pair-eq, map,
  filter,
}
use near_indexer_for_explore.Chain.{OutcomeWithReceipt}
use near_indexer_for_explore.Database.{Statement}
use near_indexer_for_explore.Accounts.{
  Account, handle_accounts, delete_statement, recreate_statement, update_statement,
  create_or_update_accounts_future, is_implicit_to_recreate, is_created, collect_accounts,
}
use near_indexer_for_explore.Base.Map.{values}
use near_indexer_for_explore.AccessKeys.{AccessKey, Collected, handle_access_keys}
use near_indexer_for_explore.AccessKeys
use near_indexer_for_explore.Tables.{
  Key, Row, texts-eq, key, parents, on_accounts, on_access_keys, set_account, set_access_key,
}
use near_indexer_for_explore.Tables
use near_indexer_for_explore.Process.Present.{Keeps}
use near_indexer_for_explore.Process.References.{Guarded}
use near_indexer_for_explore.Process.Joined.{
  All-of, All-of_map, Free, in_order-Keeps, in_order-Guarded,
}
use near_indexer_for_explore.Message.{Environment, join_futures}

abbrev FreeRow : Statement Key Row → Type 0
FreeRow = Free key parents

-- What holds of each statement of a list that is made from values.
All-statements :
    {V K R : Type 0} (P : Statement K R → Type 0) (statement : V → Statement K R) (vs : List V)
    → ((v : V) → P (statement v))
    → All P (map statement vs)
All-statements P statement vs h = All-of_map P statement vs (All-of _ vs h)

set_account-key :
    (f : Account → Account)
    → ((r : Account) → (f r).account_id ≡ r.account_id)
    → (row : Row) → key (set_account f row) ≡ key row
set_account-key f h (Tables.account_row r) = ap Tables.account_key (h r)
set_account-key f h _ = refl

set_account-parents :
    (f : Account → Account) (row : Row) → parents (set_account f row) ≡ parents row
set_account-parents f (Tables.account_row r) = refl
set_account-parents f _ = refl

set_access_key-key :
    (f : AccessKey → AccessKey)
    → ((r : AccessKey) → AccessKeys.key_id (f r) ≡ AccessKeys.key_id r)
    → (row : Row) → key (set_access_key f row) ≡ key row
set_access_key-key f h (Tables.access_key_row r) = ap Tables.access_key_key (h r)
set_access_key-key f h _ = refl

set_access_key-parents :
    (f : AccessKey → AccessKey) (row : Row) → parents (set_access_key f row) ≡ parents row
set_access_key-parents f (Tables.access_key_row r) = refl
set_access_key-parents f _ = refl

-- Each statement of the futures is free, on all the tables.
abbrev FreeAccounts : Statement String Account → Type 0
FreeAccounts s = FreeRow (on_accounts s)

free_account :
    (f : Account → Account)
    → ((r : Account) → (f r).account_id ≡ r.account_id)
    → ((row : Row) → key (set_account f row) ≡ key row)
      × ((row : Row) → parents (set_account f row) ≡ parents row)
free_account f h = (set_account-key f h, set_account-parents f)

free_key :
    (f : AccessKey → AccessKey)
    → ((r : AccessKey) → AccessKeys.key_id (f r) ≡ AccessKeys.key_id r)
    → ((row : Row) → key (set_access_key f row) ≡ key row)
      × ((row : Row) → parents (set_access_key f row) ≡ parents row)
free_key f h = (set_access_key-key f h, set_access_key-parents f)

create_free :
    (accounts : List Account) → All FreeAccounts (create_or_update_accounts_future accounts)
create_free accounts =
    let recreated = filter is_implicit_to_recreate accounts in
    let updated = filter (λ model. not (is_implicit_to_recreate model)) accounts in
    (
      All-of_map (λ r. parents r ≡ []) Tables.account_row accounts (All-of _ accounts (λ v. refl)),
      All-append FreeAccounts (map recreate_statement recreated) (map update_statement updated)
          (All-statements FreeAccounts recreate_statement recreated
            (λ v. free_account _ (λ r. refl)))
          (All-statements FreeAccounts update_statement updated (λ v. free_account _ (λ r. refl))),
    )

pub handle_accounts-free :
    (outcomes : List OutcomeWithReceipt) (height : ℕ)
    → All (All FreeAccounts) (handle_accounts outcomes height)
unfolding handle_accounts
handle_accounts-free [] height = tt
handle_accounts-free (o ∷ outcomes) height =
    let accounts = values (collect_accounts (o ∷ outcomes) height) in
    (
      All-statements FreeAccounts delete_statement (filter (λ m. not (is_created m)) accounts)
          (λ v. free_account _ (λ r. refl)),
      (create_free (filter is_created accounts), tt),
    )

abbrev FreeKeys : Statement (String × String) AccessKey → Type 0
FreeKeys s = FreeRow (on_access_keys s)

futures_free : (height : ℕ) (c : Collected) → All (All FreeKeys) (AccessKeys.futures_of height c)
futures_free height c =
    let added = filter AccessKeys.is_created (values c.access_keys) in
    let updated = filter (λ m. not (AccessKeys.is_created m)) (values c.access_keys) in
    (
      All-statements FreeKeys (AccessKeys.delete_account_statement height) c.deleted_accounts
          (λ v. free_key _ (λ r. refl)),
      (
        All-statements FreeKeys AccessKeys.update_statement updated (λ v. free_key _ (λ r. refl)),
        (
          (
            All-of_map (λ r. parents r ≡ []) Tables.access_key_row added
                (All-of _ added (λ v. refl)),
            All-statements FreeKeys AccessKeys.add_statement added (λ v. free_key _ (λ r. refl)),
          ),
          tt,
        ),
      ),
    )

pub handle_access_keys-free :
    (implicit : String → Option String) (outcomes : List OutcomeWithReceipt) (height : ℕ)
    → All (All FreeKeys) (handle_access_keys implicit outcomes height)
unfolding handle_access_keys
handle_access_keys-free implicit [] height = tt
handle_access_keys-free implicit (o ∷ outcomes) height =
    futures_free height (AccessKeys.collect_access_keys implicit (o ∷ outcomes) height)

module _ (E : Environment) where
  open (E.receipts_cache) use {Cache}

  module _ {K R : Type 0} (on : Statement K R → Statement Key Row) where
    pub join_futures-Keeps :
        (futures : List (List (Statement K R)))
        → All (All (λ s. FreeRow (on s))) futures
        → Keeps key (join_futures E on futures)
    unfolding Keeps
    join_futures-Keeps [] h = tt
    join_futures-Keeps (f ∷ fs) (h, hs) = (
      in_order-Keeps key parents Cache 10 (map on f) (All-of_map FreeRow on f h),
      join_futures-Keeps fs hs,
    )

    pub join_futures-Guarded :
        (Known : Key → Type 0) (futures : List (List (Statement K R)))
        → All (All (λ s. FreeRow (on s))) futures
        → Guarded key parents Known (join_futures E on futures)
    unfolding Guarded
    join_futures-Guarded Known [] h = tt
    join_futures-Guarded Known (f ∷ fs) (h, hs) = (
      in_order-Guarded key parents Cache 10 (map on f) Known (All-of_map FreeRow on f h),
      join_futures-Guarded Known fs hs,
    )
