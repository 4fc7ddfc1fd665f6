-- ===== src/Message/Models.antt =====
-- What the rows of a message say of their block, their chunk and their transaction, and the keys
-- of its transactions.
use Prim.Native.String.{◌++◌ as text_append}
use near_indexer_for_explore.Base.{
  ℕ, ◌+◌, String, ◌≡◌, refl, ap, Option, none, some, List, [], ◌∷◌, All, map, flat_map,
  Option-cases, inl, inr,
}
use near_indexer_for_explore.Base.Map.{get}
use near_indexer_for_explore.Base.Words.{as_i32, ◌>>=◌}
use near_indexer_for_explore.Chain.{TransactionWithOutcome, ReceiptView, StateChangeWithCauseView}
use near_indexer_for_explore.Cache.{ReceiptsCache, receipt_key, ReceiptOrDataId-eq}
use near_indexer_for_explore.Serializers.{Json}
use near_indexer_for_explore.Transactions.{
  Transaction, TransactionRows, converted_into, action_models, transaction_models,
  store_chunk_transactions,
}
use near_indexer_for_explore.Receipts.{lookup_key}
use near_indexer_for_explore.Receipts.Search.{Hashes}
use near_indexer_for_explore.Receipts.Rows.{Receipt, receipt_models, chunk_rows}
use near_indexer_for_explore.AccountChanges.{
  AccountChange, account_changes_models, from_state_change_with_cause, affected, reason_of,
  push_front,
}

-- A result satisfies the predicate, if there is one.
abbrev pub Whenever : {A : Type 0} → (A → Type 0) → Option A → Type 0
Whenever P none = Unit
Whenever P (some a) = P a

Whenever-bind :
    {A B : Type 0} (P : B → Type 0) (o : Option A) (f : A → Option B)
    → ((a : A) → o ≡ some a → Whenever P (f a))
    → Whenever P (o >>= f)
Whenever-bind P none f h = tt
Whenever-bind P (some a) f h = h a refl

pub Whenever-some :
    {A : Type 0} (P : A → Type 0) {o : Option A} (a : A) → Whenever P o → o ≡ some a → P a
Whenever-some P a h e = rw e at h

pub map-eq :
    {A B D : Type 0} (f : B → D) (g : A → B) (u : A → D) (xs : List A)
    → ((x : A) → f (g x) ≡ u x)
    → map f (map g xs) ≡ map u xs
map-eq f g u [] h = refl
map-eq f g u (x ∷ xs) h = rw (h x, map-eq f g u xs h) refl

-- The transactions say which block and chunk they are in, and have the hashes with the suffix.
pub record IncludedIn (block_hash chunk_hash suffix : String)
    (txs : List (ℕ × TransactionWithOutcome)) (ms : List Transaction) : Type 0 where
  pub at_place :
      All
        (λ m. (m.included_in_block_hash ≡ block_hash) × (m.included_in_chunk_hash ≡ chunk_hash))
        ms
  pub hashes :
      map (λ m. m.transaction_hash) ms ≡ map (λ p. text_append p.1.transaction.hash suffix) txs

module _ (C : ReceiptsCache) (decode_args : String → Option Json) (block_hash : String)
    (block_timestamp : ℕ) (chunk_hash suffix : String) where
  open C use {Cache, cache_set}

  abbrev Included : List (ℕ × TransactionWithOutcome) → List Transaction × Cache → Type 0
  Included txs r = IncludedIn block_hash chunk_hash suffix txs r.0

  abbrev models_of : List (ℕ × TransactionWithOutcome) → Cache → Option (List Transaction × Cache)
  models_of = transaction_models C decode_args block_hash block_timestamp chunk_hash suffix

  models_of-IncludedIn :
      (txs : List (ℕ × TransactionWithOutcome)) (c : Cache)
      → Whenever (Included txs) (models_of txs c)
  unfolding transaction_models
  models_of-IncludedIn [] c = record { at_place = tt; hashes = refl }
  models_of-IncludedIn ((i, tx) ∷ rest) c =
      Whenever-bind (Included ((i, tx) ∷ rest)) (converted_into tx) _ (λ id e.
        let hash = text_append tx.transaction.hash suffix in
        let c' = cache_set (receipt_key id) hash c in
        Whenever-bind (Included ((i, tx) ∷ rest)) (models_of rest c') _ (λ r e'.
          let more = Whenever-some (Included rest) r (models_of-IncludedIn rest c') e' in
          record {
            at_place = ((refl, refl), more.at_place);
            hashes = ap (λ hs. hash ∷ hs) more.hashes;
          }))

  -- Whatever `store_chunk_transactions` stores: transactions of the chunk, and their actions.
  abbrev pub Stored : List (ℕ × TransactionWithOutcome) → TransactionRows × Cache → Type 0
  Stored txs r =
      IncludedIn block_hash chunk_hash suffix txs r.0.transactions
      × (r.0.transaction_actions ≡ flat_map (action_models decode_args) txs)

  pub store_chunk_transactions-Stored :
      (txs : List (ℕ × TransactionWithOutcome)) (c : Cache)
      → Whenever (Stored txs) (
          store_chunk_transactions C decode_args block_hash block_timestamp chunk_hash suffix txs c)
  unfolding store_chunk_transactions
  store_chunk_transactions-Stored txs c =
      Whenever-bind (Stored txs) (models_of txs c) _
        (λ r e. (Whenever-some (Included txs) r (models_of-IncludedIn txs c) e, refl))

-- The rows of `receipts` say which block and chunk they are in.
module _ (hashes : Hashes) (block_hash chunk_hash : String) (block_timestamp : ℕ) where
  abbrev pub ReceiptAt : Receipt → Type 0
  ReceiptAt m = (m.included_in_block_hash ≡ block_hash) × (m.included_in_chunk_hash ≡ chunk_hash)

  receipt_models-ReceiptAt :
      (i : ℕ) (rs : List ReceiptView)
      → All ReceiptAt (receipt_models hashes block_hash chunk_hash block_timestamp i rs).0
  unfolding receipt_models
  receipt_models-ReceiptAt i [] = tt
  receipt_models-ReceiptAt i (r ∷ rs) = elim (Option-cases (get (lookup_key r) hashes)) [
    | inl missing ↦ rw (missing, receipt_models) (receipt_models-ReceiptAt (i + 1) rs)
    | inr (v, there) ↦
        rw (there, receipt_models) ((refl, refl), receipt_models-ReceiptAt (i + 1) rs)
  ]

  pub chunk_rows-ReceiptAt :
      (decode_args : String → Option Json) (rs : List ReceiptView)
      → All ReceiptAt
          (chunk_rows hashes decode_args block_hash chunk_hash block_timestamp rs).receipts
  unfolding chunk_rows
  chunk_rows-ReceiptAt decode_args rs = receipt_models-ReceiptAt 0 rs

-- The rows of `account_changes` say which block they are in.
module _ (block_hash : String) (block_timestamp : ℕ) where
  abbrev pub ChangedIn : AccountChange → Type 0
  ChangedIn r = r.changed_in_block_hash ≡ block_hash

  abbrev RowIn : Option AccountChange → Type 0
  RowIn o = Whenever ChangedIn o

  row_in :
      (c : StateChangeWithCauseView) (i : ℕ)
      → Whenever RowIn (from_state_change_with_cause block_hash block_timestamp c i)
  row_in c i = elim (Option-cases (affected c.value)) [
    | inl other ↦ rw other tt
    | inr (a, e) ↦ elim (Option-cases (reason_of c.cause)) [
      | inl never ↦ rw (e, never) tt
      | inr (reason, e') ↦ rw (e, e') refl
    ]
  ]

  pushed :
      (row : Option AccountChange) (rows : List AccountChange)
      → RowIn row
      → All ChangedIn rows
      → All ChangedIn (push_front block_hash block_timestamp row rows)
  pushed none rows h hs = hs
  pushed (some r) rows h hs = (h, hs)

  pub account_changes-ChangedIn :
      (i : ℕ) (changes : List StateChangeWithCauseView)
      → Whenever (All ChangedIn) (account_changes_models block_hash block_timestamp i changes)
  unfolding account_changes_models
  account_changes-ChangedIn i [] = tt
  account_changes-ChangedIn i (c ∷ changes) =
      Whenever-bind (All ChangedIn)
        (from_state_change_with_cause block_hash block_timestamp c (as_i32 i)) _
        (λ row e.
          Whenever-bind (All ChangedIn)
            (account_changes_models block_hash block_timestamp (i + 1) changes) _
            (λ rows e'.
              pushed row rows (Whenever-some RowIn row (row_in c (as_i32 i)) e) (
                Whenever-some (All ChangedIn) rows (account_changes-ChangedIn (i + 1) changes) e')))
