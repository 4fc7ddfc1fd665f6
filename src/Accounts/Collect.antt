-- ===== src/Accounts/Collect.antt =====
-- The map that the loop of `handle_accounts` (db_adapters/accounts.rs) builds, account by account.
use near_indexer_for_explore.Base.{
  ℕ, String, ◌≡◌, refl, ◌∙◌, ap, Option, none, some, List, [], ◌∷◌, arith, eq_iff, filter, ◌==◌,
  String-eq, Bool-cases, inl, inr, if◌then◌else◌,
}
use near_indexer_for_explore.Base.Map.{Map, get, get-insert, get-upsert}
use near_indexer_for_explore.Chain.{
  ActionView, create_account, transfer, delete_account, ReceiptView, OutcomeWithReceipt,
}
use near_indexer_for_explore.Database.Keyed.{IsKeyed, insert-IsKeyed, upsert-IsKeyed}
use near_indexer_for_explore.Accounts.{
  Account, new_from_receipt, has_implicit_length, visit_action, visit_actions, actions_of,
  successful_receipts, visit_receipts, collect_accounts,
}

abbrev pub account_key : Account → String
account_key a = a.account_id

-- What an action makes of the model of its receiver.
abbrev pub track_action : ReceiptView → ℕ → ActionView → Option Account → Option Account
track_action receipt h create_account o =
    some (new_from_receipt receipt.receiver_id receipt.receipt_id h)
track_action receipt h (transfer deposit) o =
    if has_implicit_length receipt.receiver_id
    then some (new_from_receipt receipt.receiver_id receipt.receipt_id h)
    else o
track_action receipt h (delete_account beneficiary_id) none = some (record {
  account_id = receipt.receiver_id;
  created_by_receipt_id = none;
  deleted_by_receipt_id = some receipt.receipt_id;
  last_update_block_height = h;
})
track_action receipt h (delete_account beneficiary_id) (some model) =
    some (record model { deleted_by_receipt_id = some receipt.receipt_id })
track_action receipt h _ o = o

abbrev pub track_actions : ReceiptView → ℕ → List ActionView → Option Account → Option Account
track_actions receipt h [] o = o
track_actions receipt h (a ∷ rest) o = track_actions receipt h rest (track_action receipt h a o)

-- The history of one account: its own receipts, in order.
abbrev pub track : ℕ → List ReceiptView → Option Account → Option Account
track h [] o = o
track h (r ∷ rest) o = track h rest (track_actions r h (actions_of r.receipt) o)

get-visit_action :
    (r : ReceiptView) (h : ℕ) (a : ActionView) (k : String) (m : Map String Account)
    → get k (visit_action r h a m)
      ≡ (if r.receiver_id == k then track_action r h a (get k m) else get k m)
unfolding visit_action
get-visit_action r h create_account k m = get-insert r.receiver_id k _ m
get-visit_action r h (transfer d) k m =
    ground (arith, get-insert r.receiver_id k (new_from_receipt r.receiver_id r.receipt_id h) m)
get-visit_action r h (delete_account b) k m =
    get-upsert r.receiver_id k _ _ m ∙ ground (arith, eq_iff r.receiver_id k)
get-visit_action r h _ k m = ground arith

get-visit_actions :
    (r : ReceiptView) (h : ℕ) (acts : List ActionView) (k : String) (m : Map String Account)
    → get k (visit_actions r h acts m)
      ≡ (if r.receiver_id == k then track_actions r h acts (get k m) else get k m)
unfolding visit_actions
get-visit_actions r h [] k m = ground arith
get-visit_actions r h (a ∷ acts) k m =
    ground (arith, get-visit_action r h a k m, get-visit_actions r h acts k (visit_action r h a m))

get-visit_receipts :
    (h : ℕ) (rs : List ReceiptView) (k : String) (m : Map String Account)
    → get k (visit_receipts h rs m) ≡ track h (filter (λ r. r.receiver_id == k) rs) (get k m)
unfolding visit_receipts
get-visit_receipts h [] k m = refl
get-visit_receipts h (r ∷ rs) k m =
    let m' = visit_actions r h (actions_of r.receipt) m in
    let here = get-visit_actions r h (actions_of r.receipt) k m in
    let there = get-visit_receipts h rs k m' in
    let later = filter (λ (x : ReceiptView). x.receiver_id == k) rs in
    elim (Bool-cases (r.receiver_id == k)) [
      | inl own ↦ rw own (there ∙ ap (track h later) (rw own at here))
      | inr other ↦ rw other (there ∙ ap (track h later) (rw other at here))
    ]

-- Whatever the outcomes, the model that `handle_accounts` collects for an account is the state
-- that the account's own successful receipts lead to, in order: creation and implicit transfer
-- start it anew, deletion marks it, and receipts of other accounts have no part in it.
pub get-collect_accounts :
    (outcomes : List OutcomeWithReceipt) (h : ℕ) (k : String)
    → get k (collect_accounts outcomes h)
      ≡ track h (filter (λ r. r.receiver_id == k) (successful_receipts outcomes)) none
unfolding collect_accounts
get-collect_accounts outcomes h k = get-visit_receipts h (successful_receipts outcomes) k []

visit_action-IsKeyed :
    (r : ReceiptView) (h : ℕ) (a : ActionView) (m : Map String Account)
    → IsKeyed account_key m
    → IsKeyed account_key (visit_action r h a m)
unfolding visit_action
visit_action-IsKeyed r h create_account m k = insert-IsKeyed account_key _ _ m refl k
visit_action-IsKeyed r h (transfer d) m k = elim (Bool-cases (has_implicit_length r.receiver_id)) [
  | inl long ↦ rw long (insert-IsKeyed account_key _ _ m refl k)
  | inr short ↦ rw short k
]
visit_action-IsKeyed r h (delete_account b) m k =
    upsert-IsKeyed account_key _ _ _ m refl (λ w. refl) k
visit_action-IsKeyed r h _ m k = k

visit_actions-IsKeyed :
    (r : ReceiptView) (h : ℕ) (acts : List ActionView) (m : Map String Account)
    → IsKeyed account_key m
    → IsKeyed account_key (visit_actions r h acts m)
unfolding visit_actions
visit_actions-IsKeyed r h [] m k = k
visit_actions-IsKeyed r h (a ∷ acts) m k =
    visit_actions-IsKeyed r h acts (visit_action r h a m) (visit_action-IsKeyed r h a m k)

visit_receipts-IsKeyed :
    (h : ℕ) (rs : List ReceiptView) (m : Map String Account)
    → IsKeyed account_key m
    → IsKeyed account_key (visit_receipts h rs m)
unfolding visit_receipts
visit_receipts-IsKeyed h [] m k = k
visit_receipts-IsKeyed h (r ∷ rs) m k =
    visit_receipts-IsKeyed h rs (visit_actions r h (actions_of r.receipt) m)
      (visit_actions-IsKeyed r h (actions_of r.receipt) m k)

pub collect_accounts-IsKeyed :
    (outcomes : List OutcomeWithReceipt) (h : ℕ) → IsKeyed account_key (collect_accounts outcomes h)
unfolding collect_accounts
collect_accounts-IsKeyed outcomes h = visit_receipts-IsKeyed h (successful_receipts outcomes) [] tt
