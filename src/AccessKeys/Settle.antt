-- ===== src/AccessKeys/Settle.antt =====
-- What the three joined futures of `handle_access_keys` (db_adapters/access_keys.rs) make of the
-- row of a key whose account is not deleted in the shard, however they interleave.
use near_indexer_for_explore.Base.{
  ℕ, String, ◌≡◌, refl, sym, ap, ◌∙◌, Bool, false, not, Option, none, some, List, [], ◌∷◌, arith,
  filter, is_some, ltb, ◌==◌, String-eq, pair-eq, pair_eq_iff, ==-sym, Bool-cases, inl, inr,
  if◌then◌else◌, All,
}
use mathlib.Core.Path.{subst}
use near_indexer_for_explore.Base.Map.{Map, get, values}
use near_indexer_for_explore.Chain.{OutcomeWithReceipt}
use near_indexer_for_explore.Database.{
  Statement, Future, insert_do_nothing, effect, KeepsKey, Table, find_row, insert_at,
}
use near_indexer_for_explore.Database.Concurrent.{
  Run, apply_future, apply_all, Commuting, Repeatable, Idle, AllStatements, apply_all-Run,
  Commute-Idle_left, Commute-Idle_right,
}
use near_indexer_for_explore.Database.Keyed.{
  keep_if, Distinct, find_row-filter, OwnRow, apply_own, apply_future-map-filter, All-map_statement,
  map-Idle, insert-Idle, insert-Repeatable, find_row-key, find_row-values, values-Distinct,
}
use near_indexer_for_explore.AccessKeys.{
  AccessKey, AccessKeyPermission, KeyId, key_id, Collected, is_created, delete_account_statement,
  update_statement, add_statement, delete_future, update_future, add_future, futures_of,
  collect_access_keys, handle_access_keys,
}
use near_indexer_for_explore.AccessKeys.Collect.{collect_access_keys-IsKeyed}

-- The row that a key ends with, from the model collected for it and its row before.
-- The permission of a row that is there is never changed.
abbrev pub settle : Option AccessKey → Option AccessKey → Option AccessKey
settle none row = row
settle (some model) none = if is_created model then some model else none
settle (some model) (some row) =
    if ltb row.last_update_block_height model.last_update_block_height
    then if is_created model
      then some (record row {
        created_by_receipt_id = model.created_by_receipt_id;
        deleted_by_receipt_id = model.deleted_by_receipt_id;
        last_update_block_height = model.last_update_block_height;
      })
      else some (record row {
        deleted_by_receipt_id = model.deleted_by_receipt_id;
        last_update_block_height = model.last_update_block_height;
      })
    else some row

pub update_own : OwnRow key_id update_statement
update_own v k none h = refl
update_own v k (some r) h = rw (==-sym k (key_id v), h)

pub add_own : OwnRow key_id add_statement
add_own v k none h = refl
add_own v k (some r) h = rw (==-sym k (key_id v), h)

abbrev pub to_update : AccessKey → Bool
to_update model = not (is_created model)

module _ (k : KeyId) (height : ℕ) where
  pub delete-Idle :
      (deleted : Map String String)
      → get k.1 deleted ≡ none
      → All (Idle key_id k) (delete_future height deleted)
  delete-Idle [] h = tt
  delete-Idle ((account_id, receipt_id) ∷ m) h = elim (Bool-cases (account_id == k.1)) [
    | inl hit ↦ absurd (grind arith)
    | inr miss ↦
        let away : (k.1 == account_id) ≡ false = ==-sym k.1 account_id ∙ miss in
        (idle_at away, delete-Idle m (rw miss at h))
  ]
    where
      idle_at :
          (k.1 == account_id) ≡ false
          → Idle key_id k (delete_account_statement height (account_id, receipt_id))
      idle_at away none = refl
      idle_at away (some r) = rw away

  delete-Repeatable :
      (p : String × String) → Repeatable key_id k (delete_account_statement height p)
  delete-Repeatable (account_id, receipt_id) r = ground arith

  update-Repeatable : (v : AccessKey) → Repeatable key_id k (update_statement v)
  update-Repeatable v r = ground arith

  add-Repeatable : (v : AccessKey) → Repeatable key_id k (add_statement v)
  add-Repeatable v r = ground arith

  pub All-delete :
      (P : Statement KeyId AccessKey → Type 0) (deleted : Map String String)
      → ((p : String × String) → P (delete_account_statement height p))
      → All P (delete_future height deleted)
  All-delete P [] h = tt
  All-delete P (p ∷ m) h = (h p, All-delete P m h)

  futures_all :
      (P : Statement KeyId AccessKey → Type 0) (c : Collected)
      → ((rs : List AccessKey) → P (insert_do_nothing rs))
      → ((p : String × String) → P (delete_account_statement height p))
      → ((v : AccessKey) → P (update_statement v))
      → ((v : AccessKey) → P (add_statement v))
      → AllStatements key_id k P (futures_of height c)
  futures_all P c i d u a = (
    All-delete P c.deleted_accounts d,
    (
      All-map_statement key_id P update_statement (filter to_update (values c.access_keys)) u,
      (
        (
          i (filter is_created (values c.access_keys)),
          All-map_statement key_id P add_statement (filter is_created (values c.access_keys)) a,
        ),
        tt,
      ),
    ),
  )

  add-Idle :
      (rs : List AccessKey) → find_row key_id k rs ≡ none → All (Idle key_id k) (add_future rs)
  add-Idle rs h = (insert-Idle key_id k rs h, map-Idle key_id add_statement add_own k rs h)

  -- A key is updated by one future or inserted by another, never both.
  update_add_commute :
      (rs : List AccessKey)
      → Distinct key_id rs
      → (o : Option AccessKey) → find_row key_id k rs ≡ o
      → Commuting key_id k
          (update_future (filter to_update rs) ∷ add_future (filter is_created rs) ∷ [])
  update_add_commute rs d o e = elim (Bool-cases (is_some (keep_if is_created o))) [
    | inl creates ↦
        let gone : keep_if to_update o ≡ none = ground arith in
        (
          (
            Commute-Idle_left key_id k (update_future (filter to_update rs))
                (add_future (filter is_created rs))
                (map-Idle key_id update_statement update_own k (filter to_update rs)
                  (find_row-filter key_id to_update k rs d ∙ ap (keep_if to_update) e ∙ gone)),
            tt,
          ),
          (tt, tt),
        )
    | inr keeps ↦
        let gone : keep_if is_created o ≡ none = ground arith in
        (
          (
            Commute-Idle_right key_id k (update_future (filter to_update rs))
                (add_future (filter is_created rs))
                (add-Idle (filter is_created rs)
                  (find_row-filter key_id is_created k rs d ∙ ap (keep_if is_created) e ∙ gone)),
            tt,
          ),
          (tt, tt),
        )
  ]

  futures_commute :
      (c : Collected)
      → Distinct key_id (values c.access_keys)
      → get k.1 c.deleted_accounts ≡ none
      → Commuting key_id k (futures_of height c)
  futures_commute c d h =
      let rs = values c.access_keys in
      let idle = delete-Idle c.deleted_accounts h in
      let D = delete_future height c.deleted_accounts in
      (
        (
          Commute-Idle_left key_id k D (update_future (filter to_update rs)) idle,
          (Commute-Idle_left key_id k D (add_future (filter is_created rs)) idle, tt),
        ),
        update_add_commute rs d (find_row key_id k rs) refl,
      )

  pub apply-Idle :
      (f : Future KeyId AccessKey) (r : Option AccessKey)
      → All (Idle key_id k) f
      → apply_future key_id k f r ≡ r
  apply-Idle [] r h = refl
  apply-Idle (s ∷ f) r (i, h) = apply-Idle f (effect key_id s k r) h ∙ i r

  settle_value :
      (o r : Option AccessKey)
      → ((v : AccessKey) → o ≡ some v → key_id v ≡ k)
      → apply_own key_id add_statement k (keep_if is_created o) (
          insert_at
            (keep_if is_created o)
            (apply_own key_id update_statement k (keep_if to_update o) r))
        ≡ settle o r
  settle_value none none h = refl
  settle_value none (some row) h = refl
  settle_value (some v) none h =
      let own = (pair_eq_iff k (key_id v)).1 (sym (h v refl)) in ground arith
  settle_value (some v) (some row) h =
      let own = (pair_eq_iff k (key_id v)).1 (sym (h v refl)) in ground arith

  pub futures_settle :
      (c : Collected) (r : Option AccessKey)
      → Distinct key_id (values c.access_keys)
      → get k.1 c.deleted_accounts ≡ none
      → apply_all key_id k (futures_of height c) r
        ≡ settle (find_row key_id k (values c.access_keys)) r
  futures_settle c r d h =
      let rs = values c.access_keys in
      apply_future-map-filter key_id add_statement add_own is_created k rs _ d
      ∙ rw
          (
            find_row-filter key_id is_created k rs d,
            apply-Idle (delete_future height c.deleted_accounts) r
                (delete-Idle c.deleted_accounts h),
            apply_future-map-filter key_id update_statement update_own to_update k rs r d,
          )
          (settle_value (find_row key_id k rs) r (find_row-key key_id k rs))

-- The row is there, with the permission kind.
abbrev pub PermissionIs : AccessKeyPermission → Option AccessKey → Type 0
PermissionIs p none = ⊥
PermissionIs p (some row) = row.permission_kind ≡ p

module _ (implicit_public_key : String → Option String) (T : Table key_id) where
  open T use {Tab, row, run}

  -- When the three futures of `handle_access_keys` have completed, in whatever order and with
  -- whatever retries, the row of every key of an account that the shard does not delete is the
  -- one that `settle` gives for the model collected for it.
  pub handle_access_keys-row :
      (o : OutcomeWithReceipt) (outcomes : List OutcomeWithReceipt) (h : ℕ) (k : KeyId) {t u : Tab}
      → get k.1 (collect_access_keys implicit_public_key (o ∷ outcomes) h).deleted_accounts ≡ none
      → Run T (handle_access_keys implicit_public_key (o ∷ outcomes) h) t ([] ∷ [] ∷ [] ∷ []) u
      → row u k
        ≡ settle
            (get k (collect_access_keys implicit_public_key (o ∷ outcomes) h).access_keys)
            (row t k)
  unfolding handle_access_keys
  handle_access_keys-row o outcomes h k {t = t} kept r =
      let c = collect_access_keys implicit_public_key (o ∷ outcomes) h in
      let keyed = collect_access_keys-IsKeyed implicit_public_key (o ∷ outcomes) h in
      let d = values-Distinct key_id c.access_keys keyed in
      apply_all-Run T k r (futures_commute k h c d kept)
        (futures_all k h (Repeatable key_id k) c (insert-Repeatable key_id k)
          (delete-Repeatable k h) (update-Repeatable k h) (add-Repeatable k h))
        (futures_all k h (KeepsKey key_id) c (λ rs. tt) (λ p r. refl) (λ v r. refl) (λ v r. refl))
      ∙ futures_settle k h c (row t k) d kept
      ∙ ap (λ x. settle x (row t k)) (find_row-values key_id k c.access_keys keyed)

  settle-permission :
      (m : Option AccessKey) (old : AccessKey)
      → PermissionIs old.permission_kind (settle m (some old))
  settle-permission none old = refl
  settle-permission (some m) old =
      elim (Bool-cases (ltb old.last_update_block_height m.last_update_block_height)) [
        | inl stale ↦ elim (Bool-cases (is_created m)) [
          | inl made ↦ rw (stale, made) refl
          | inr deleted ↦ rw (stale, deleted) refl
        ]
        | inr fresh ↦ rw fresh refl
      ]

  -- A row that is there keeps its permission kind, even if its key is deleted and added again with
  -- another permission: after the futures have completed, in whatever order and with
  -- whatever retries, the row of every key of an account that the shard does not delete is
  -- still there, with the permission kind that it had.
  pub handle_access_keys-permission :
      (o : OutcomeWithReceipt) (outcomes : List OutcomeWithReceipt) (h : ℕ) (k : KeyId)
      (old : AccessKey) {t u : Tab}
      → row t k ≡ some old
      → get k.1 (collect_access_keys implicit_public_key (o ∷ outcomes) h).deleted_accounts ≡ none
      → Run T (handle_access_keys implicit_public_key (o ∷ outcomes) h) t ([] ∷ [] ∷ [] ∷ []) u
      → PermissionIs old.permission_kind (row u k)
  handle_access_keys-permission o outcomes h k old was kept r =
      let m = get k (collect_access_keys implicit_public_key (o ∷ outcomes) h).access_keys in
      subst (PermissionIs old.permission_kind)
        (sym (handle_access_keys-row o outcomes h k kept r ∙ ap (settle m) was))
        (settle-permission m old)
