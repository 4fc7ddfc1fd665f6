-- ===== src/Transactions/Stored.antt =====
-- The rows of the transactions of a chunk, and what the cache learns from them.
use Prim.Native.String.{◌++◌ as text_append}
use near_indexer_for_explore.Base.{
  ℕ, ◌+◌, String, Option, some, List, [], ◌∷◌, map, flat_map, map_from, map-append, append-congr,
  All, ◌≡◌, refl, ◌∙◌, ap,
}
use near_indexer_for_explore.Base.Words.{as_i32}
use near_indexer_for_explore.Chain.{ActionView, TransactionWithOutcome}
use near_indexer_for_explore.Cache.{ReceiptOrDataId, receipt_key, ReceiptsCache}
use near_indexer_for_explore.Receipts.Search.Sound.{SoundCache}
use near_indexer_for_explore.Receipts.Rows.Sound.{cache_set-Sound}
use near_indexer_for_explore.Serializers.{Json}
use near_indexer_for_explore.Transactions.{
  Transaction, TransactionAction, TransactionRows, converted_into, action_models, from_action_view,
  from_indexer_transaction, transaction_models, store_chunk_transactions,
}

module _ (Parent : ReceiptOrDataId → String → Type 0) (suffix : String) where
  -- The transaction has become a receipt, whose parent is the hash with the suffix.
  abbrev pub ParentOfReceipt : ℕ × TransactionWithOutcome → Type 0
  ParentOfReceipt p =
      (id : String) × ((converted_into p.1 ≡ some id)
        × Parent (receipt_key id) (text_append p.1.transaction.hash suffix))

module _ (Parent : ReceiptOrDataId → String → Type 0) (C : ReceiptsCache)
    (decode_args : String → Option Json) (block_hash : String) (block_timestamp : ℕ)
    (chunk_hash suffix : String) where
  open C use {Cache, cache_set}

  abbrev suffixed : ℕ × TransactionWithOutcome → String
  suffixed p = text_append p.1.transaction.hash suffix

  -- What is shown of the models and the cache.
  abbrev pub Models : List (ℕ × TransactionWithOutcome) → List Transaction × Cache → Type 0
  Models txs r =
      (map (λ m. m.transaction_hash) r.0 ≡ map suffixed txs)
      × All (λ m. Parent (receipt_key m.converted_into_receipt_id) m.transaction_hash) r.0
      × SoundCache Parent C r.1

  abbrev models_of : List (ℕ × TransactionWithOutcome) → Cache → Option (List Transaction × Cache)
  models_of = transaction_models C decode_args block_hash block_timestamp chunk_hash suffix

  models_of-Models :
      (txs : List (ℕ × TransactionWithOutcome)) (c : Cache)
      → SoundCache Parent C c
      → All (ParentOfReceipt Parent suffix) txs
      → (r : List Transaction × Cache) × ((models_of txs c ≡ some r) × Models txs r)
  unfolding transaction_models
  models_of-Models [] c s l = (([], c), (refl, (refl, tt, s)))
  models_of-Models ((i, tx) ∷ rest) c s ((id, (there, parent)), l) =
      let hash = text_append tx.transaction.hash suffix in
      let ((ms, c'), (e, (hashes, sound, s'))) =
        models_of-Models rest (cache_set (receipt_key id) hash c)
          (cache_set-Sound Parent C (receipt_key id) hash c parent s) l in
      let model =
        from_indexer_transaction tx hash id block_hash chunk_hash block_timestamp (as_i32 i) in
      (
        (model ∷ ms, c'),
        (
          rw (there, models_of, transaction_models) (rw e refl),
          (ap (hash ∷◌) hashes, (parent, sound), s'),
        ),
      )

-- The hash that an action is stored under.
abbrev pub action_hash : TransactionAction → String
action_hash m = m.transaction_hash

-- The hash of a transaction, once for each of its actions.
abbrev pub hash_per_action : ℕ × TransactionWithOutcome → List String
hash_per_action (n, tx) = map (λ a. tx.transaction.hash) tx.transaction.actions

hashes_of_actions :
    (decode_args : String → Option Json) (hash : String) (i : ℕ) (actions : List ActionView)
    → map action_hash (map_from (λ i a. from_action_view decode_args hash (as_i32 i) a) i actions)
      ≡ map (λ a. hash) actions
hashes_of_actions decode_args hash i [] = refl
hashes_of_actions decode_args hash i (a ∷ actions) =
    ap (hash ∷◌) (hashes_of_actions decode_args hash (i + 1) actions)

hashes_of_all_actions :
    (decode_args : String → Option Json) (txs : List (ℕ × TransactionWithOutcome))
    → map action_hash (flat_map (action_models decode_args) txs) ≡ flat_map hash_per_action txs
hashes_of_all_actions decode_args [] = refl
hashes_of_all_actions decode_args ((n, tx) ∷ rest) =
    map-append action_hash (action_models decode_args (n, tx))
      (flat_map (action_models decode_args) rest)
    ∙ append-congr (hashes_of_actions decode_args tx.transaction.hash 0 tx.transaction.actions)
        (hashes_of_all_actions decode_args rest)

-- Each transaction of the chunk has become a receipt, whose parent is its hash with the suffix,
-- and the cache holds parents only. Then `store_chunk_transactions` does not panic, it stores the
-- transactions in order under their hashes with the suffix, each with a receipt whose parent it
-- is, and the cache still holds parents only. The actions of the transactions are stored under the hashes
-- without the suffix.
pub store_chunk_transactions-rows :
    (Parent : ReceiptOrDataId → String → Type 0) (C : ReceiptsCache)
    (decode_args : String → Option Json) (block_hash : String) (block_timestamp : ℕ)
    (chunk_hash suffix : String) (txs : List (ℕ × TransactionWithOutcome))
    (c : ReceiptsCache.Cache C)
    → SoundCache Parent C c
    → All (ParentOfReceipt Parent suffix) txs
    → (r : TransactionRows × ReceiptsCache.Cache C) × (store_chunk_transactions C decode_args
          block_hash block_timestamp chunk_hash suffix txs c
        ≡ some r)
      × Models Parent C decode_args block_hash block_timestamp chunk_hash suffix txs
          (r.0.transactions, r.1)
      × (map action_hash r.0.transaction_actions ≡ flat_map hash_per_action txs)
unfolding store_chunk_transactions
store_chunk_transactions-rows Parent C decode_args block_hash block_timestamp chunk_hash suffix txs
      c s l =
    let ((ms, c'), (e, held)) =
      models_of-Models Parent C decode_args block_hash block_timestamp chunk_hash suffix txs c s
        l in
    (
      (
        record {
          transactions = ms;
          transaction_actions = flat_map (action_models decode_args) txs;
        },
        c',
      ),
      rw e refl,
      held,
      hashes_of_all_actions decode_args txs,
    )
