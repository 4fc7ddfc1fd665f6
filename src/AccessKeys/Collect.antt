-- ===== src/AccessKeys/Collect.antt =====
-- How the map of keys is filed that the loop of `handle_access_keys` (db_adapters/access_keys.rs)
-- builds.
use near_indexer_for_explore.Base.{
  ℕ, String, ◌≡◌, refl, ◌∙◌, Option, none, List, [], ◌∷◌, arith, ◌==◌, String-eq, pair-eq,
  Bool-cases, Option-cases, inl, inr, if◌then◌else◌,
}
use near_indexer_for_explore.Base.Map.{Map, get}
use near_indexer_for_explore.Chain.{
  ActionView, transfer, add_key, delete_key, delete_account, ReceiptView, OutcomeWithReceipt,
}
use near_indexer_for_explore.Accounts.{has_implicit_length, actions_of, successful_receipts}
use near_indexer_for_explore.Database.Keyed.{IsKeyed, insert-IsKeyed, upsert-IsKeyed}
use near_indexer_for_explore.AccessKeys.{
  AccessKey, KeyId, key_id, Collected, mark_deleted, delete_keys_of, visit_action, visit_actions,
  visit_receipts, collect_access_keys,
}

get_marked :
    (a r : String) (id : KeyId) (m : Map KeyId AccessKey)
    → get id m ≡ none
    → get id (delete_keys_of a r m) ≡ none
unfolding delete_keys_of
get_marked a r id [] h = refl
get_marked a r id ((j, k) ∷ m) h = elim (Bool-cases (j == id)) [
  | inl hit ↦ ground arith
  | inr miss ↦ rw miss (get_marked a r id m (rw miss at h))
]

mark_key :
    (a r : String) (id : KeyId) (k : AccessKey)
    → key_id (if id.1 == a then mark_deleted r k else k) ≡ key_id k
mark_key a r id k = elim (Bool-cases (id.1 == a)) [ inl e ↦ rw e | inr e ↦ rw e ]

delete_keys_of-IsKeyed :
    (a r : String) (m : Map KeyId AccessKey)
    → IsKeyed key_id m
    → IsKeyed key_id (delete_keys_of a r m)
unfolding delete_keys_of
delete_keys_of-IsKeyed a r [] h = tt
delete_keys_of-IsKeyed a r ((id, k) ∷ m) (own, fresh, h) =
    (mark_key a r id k ∙ own, get_marked a r id m fresh, delete_keys_of-IsKeyed a r m h)

module _ (implicit_public_key : String → Option String) where
  visit_action-IsKeyed :
      (r : ReceiptView) (h : ℕ) (a : ActionView) (c : Collected)
      → IsKeyed key_id c.access_keys
      → IsKeyed key_id (visit_action implicit_public_key r h a c).access_keys
  unfolding visit_action
  visit_action-IsKeyed r h (delete_account b) c k =
      delete_keys_of-IsKeyed r.receiver_id r.receipt_id c.access_keys k
  visit_action-IsKeyed r h (add_key p v) c k =
      insert-IsKeyed key_id (p, r.receiver_id) _ c.access_keys refl k
  visit_action-IsKeyed r h (delete_key p) c k =
      upsert-IsKeyed key_id (p, r.receiver_id) _ _ c.access_keys refl (λ w. refl) k
  visit_action-IsKeyed r h (transfer d) c k =
      elim (Bool-cases (has_implicit_length r.receiver_id)) [
        | inl long ↦ rw long (elim (Option-cases (implicit_public_key r.receiver_id)) [
          | inl e ↦ rw e k
          | inr (p, e) ↦ rw e (insert-IsKeyed key_id (p, r.receiver_id) _ c.access_keys refl k)
        ])
        | inr short ↦ rw short k
      ]
  visit_action-IsKeyed r h _ c k = k

  visit_actions-IsKeyed :
      (r : ReceiptView) (h : ℕ) (acts : List ActionView) (c : Collected)
      → IsKeyed key_id c.access_keys
      → IsKeyed key_id (visit_actions implicit_public_key r h acts c).access_keys
  unfolding visit_actions
  visit_actions-IsKeyed r h [] c k = k
  visit_actions-IsKeyed r h (a ∷ acts) c k =
      visit_actions-IsKeyed r h acts (visit_action implicit_public_key r h a c)
        (visit_action-IsKeyed r h a c k)

  visit_receipts-IsKeyed :
      (h : ℕ) (rs : List ReceiptView) (c : Collected)
      → IsKeyed key_id c.access_keys
      → IsKeyed key_id (visit_receipts implicit_public_key h rs c).access_keys
  unfolding visit_receipts
  visit_receipts-IsKeyed h [] c k = k
  visit_receipts-IsKeyed h (r ∷ rs) c k =
      visit_receipts-IsKeyed h rs (visit_actions implicit_public_key r h (actions_of r.receipt) c)
        (visit_actions-IsKeyed r h (actions_of r.receipt) c k)

  pub collect_access_keys-IsKeyed :
      (outcomes : List OutcomeWithReceipt) (h : ℕ)
      → IsKeyed key_id (collect_access_keys implicit_public_key outcomes h).access_keys
  unfolding collect_access_keys
  collect_access_keys-IsKeyed outcomes h =
      visit_receipts-IsKeyed h (successful_receipts outcomes) _ tt
