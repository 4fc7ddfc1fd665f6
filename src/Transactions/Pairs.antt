-- ===== src/Transactions/Pairs.antt =====
-- The hashes and receipts of the transactions that a pass of `store_transactions` stores for a chunk.
use Prim.Native.String.{◌++◌ as text_append}
use near_indexer_for_explore.Base.{
  ℕ, ◌+◌, String, Bool, true, false, not, Option, none, some, List, [], ◌∷◌, All, ◌≡◌, refl, ap,
  sym, ◌∙◌, map, filter, filter_map, flat_map, length, length-append, is_some, if◌then◌else◌,
  Bool-cases, Option-cases, inl, inr,
}
use near_indexer_for_explore.Base.Words.{as_i32}
use near_indexer_for_explore.Chain.{TransactionWithOutcome, ChunkView}
use near_indexer_for_explore.Cache.{receipt_key, ReceiptsCache}
use near_indexer_for_explore.Receipts.Rows.{contains}
use near_indexer_for_explore.Serializers.{Json}
use near_indexer_for_explore.Transactions.{
  Transaction, TransactionRows, enumerate_from, converted_into, from_indexer_transaction,
  transaction_models, not_inserted, count_transactions,
}

-- The hash of a transaction and its first receipt.
abbrev with_hash : String → Option String → Option (String × String)
with_hash hash none = none
with_hash hash (some receipt_id) = some (hash, receipt_id)

abbrev converted_pair : TransactionWithOutcome → Option (String × String)
converted_pair tx = with_hash tx.transaction.hash (converted_into tx)

abbrev pub converted : List TransactionWithOutcome → List (String × String)
converted = filter_map converted_pair

-- The receipt is not among those that were inserted.
abbrev pub is_missing : List String → String × String → Bool
is_missing inserted p = not (contains p.1 inserted)

abbrev pub with_suffix : String → String × String → String × String
with_suffix suffix p = (text_append p.0 suffix, p.1)

-- The hash of a row and its receipt.
abbrev pub row_pair : Transaction → String × String
row_pair m = (m.transaction_hash, m.converted_into_receipt_id)

abbrev pub row_pairs : TransactionRows → List (String × String)
row_pairs rows = map row_pair rows.transactions

abbrev pub IsConverted : TransactionWithOutcome → Type 0
IsConverted tx = is_some (converted_into tx) ≡ true

abbrev pub AllConverted : List ChunkView → Type 0
AllConverted = All (λ c. All IsConverted c.transactions)

converted-none :
    (tx : TransactionWithOutcome) (txs : List TransactionWithOutcome)
    → converted_into tx ≡ none
    → converted (tx ∷ txs) ≡ converted txs
converted-none tx txs e =
    let f : Option String → List (String × String) = (λ o. elim (with_hash tx.transaction.hash o) [
      | none ↦ converted txs
      | some p ↦ p ∷ converted txs
    ]) in
    ap f e

converted-some :
    (tx : TransactionWithOutcome) (txs : List TransactionWithOutcome) (id : String)
    → converted_into tx ≡ some id
    → converted (tx ∷ txs) ≡ (tx.transaction.hash, id) ∷ converted txs
converted-some tx txs id e =
    let f : Option String → List (String × String) = (λ o. elim (with_hash tx.transaction.hash o) [
      | none ↦ converted txs
      | some p ↦ p ∷ converted txs
    ]) in
    ap f e

abbrev pub transactions_of : List (ℕ × TransactionWithOutcome) → List TransactionWithOutcome
transactions_of = map (λ p. p.1)

pub transactions_of-enumerate :
    (i : ℕ) (txs : List TransactionWithOutcome) → transactions_of (enumerate_from i txs) ≡ txs
transactions_of-enumerate i [] = refl
transactions_of-enumerate i (tx ∷ txs) = ap (tx ∷◌) (transactions_of-enumerate (i + 1) txs)

pub enumerate-IsConverted :
    (i : ℕ) (txs : List TransactionWithOutcome)
    → All IsConverted txs
    → All (λ p. IsConverted p.1) (enumerate_from i txs)
enumerate-IsConverted i [] h = tt
enumerate-IsConverted i (tx ∷ txs) (h, hs) = (h, enumerate-IsConverted (i + 1) txs hs)

filter-pair :
    (inserted : List String) (p : String × String) (pairs : List (String × String)) {b : Bool}
    → is_missing inserted p ≡ b
    → filter (is_missing inserted) (p ∷ pairs)
      ≡ (if b then p ∷ filter (is_missing inserted) pairs else filter (is_missing inserted) pairs)
filter-pair inserted p pairs h = rw h refl

-- The transactions of a block, of all chunks.
abbrev pub all_transactions : List ChunkView → List TransactionWithOutcome
all_transactions = flat_map (λ c. c.transactions)

module _ (C : ReceiptsCache) (decode_args : String → Option Json) (block_hash : String)
    (block_timestamp : ℕ) where
  open C use {Cache, cache_set}

  abbrev pub missing_from : List String → ℕ × TransactionWithOutcome → Bool
  missing_from = not_inserted C decode_args block_hash block_timestamp

  pub count-all_transactions :
      (chunks : List ChunkView)
      → count_transactions C decode_args block_hash block_timestamp chunks
        ≡ length (all_transactions chunks)
  count-all_transactions [] = refl
  count-all_transactions (c ∷ chunks) =
      ap (λ n. length c.transactions + n) (count-all_transactions chunks)
      ∙ sym (length-append c.transactions (all_transactions chunks))

  -- What is left of a list whose first transaction is kept or not.
  filter-next :
      (inserted : List String) (p : ℕ × TransactionWithOutcome)
      (txs : List (ℕ × TransactionWithOutcome)) (b : Bool)
      → missing_from inserted p ≡ b
      → converted (transactions_of (filter (missing_from inserted) (p ∷ txs)))
        ≡ converted (
            transactions_of (
              if b
              then p ∷ filter (missing_from inserted) txs
              else filter (missing_from inserted) txs))
  filter-next inserted p txs b e =
      ap
        (λ b. converted (
          transactions_of (
            if b
            then p ∷ filter (missing_from inserted) txs
            else filter (missing_from inserted) txs)))
        e

  missing-none :
      (inserted : List String) (i : ℕ) (tx : TransactionWithOutcome)
      → converted_into tx ≡ none
      → missing_from inserted (i, tx) ≡ true
  missing-none inserted i tx e =
      ap (λ o. elim o [ none ↦ true | some id ↦ not (contains id inserted) ]) e

  missing-some :
      (inserted : List String) (i : ℕ) (tx : TransactionWithOutcome) (id : String)
      → converted_into tx ≡ some id
      → missing_from inserted (i, tx) ≡ not (contains id inserted)
  missing-some inserted i tx id e =
      ap (λ o. elim o [ none ↦ true | some id ↦ not (contains id inserted) ]) e

  pub converted-filter :
      (inserted : List String) (txs : List (ℕ × TransactionWithOutcome))
      → converted (transactions_of (filter (missing_from inserted) txs))
        ≡ filter (is_missing inserted) (converted (transactions_of txs))
  converted-filter inserted [] = refl
  converted-filter inserted ((i, tx) ∷ txs) = elim (Option-cases (converted_into tx)) [
    | inl nothing ↦
        filter-next inserted (i, tx) txs true (missing-none inserted i tx nothing)
        ∙ converted-none tx (transactions_of (filter (missing_from inserted) txs)) nothing
        ∙ converted-filter inserted txs
        ∙ ap (filter (is_missing inserted)) (sym (converted-none tx (transactions_of txs) nothing))
    | inr (id, there) ↦ elim (Bool-cases (not (contains id inserted))) [
      | inl kept ↦
          filter-next inserted (i, tx) txs true (missing-some inserted i tx id there ∙ kept)
          ∙ converted-some tx (transactions_of (filter (missing_from inserted) txs)) id there
          ∙ ap ((tx.transaction.hash, id) ∷◌) (converted-filter inserted txs)
          ∙ sym (
              filter-pair inserted (tx.transaction.hash, id) (converted (transactions_of txs)) kept)
          ∙ ap (filter (is_missing inserted))
              (sym (converted-some tx (transactions_of txs) id there))
      | inr dropped ↦
          filter-next inserted (i, tx) txs false (missing-some inserted i tx id there ∙ dropped)
          ∙ converted-filter inserted txs
          ∙ sym (
              filter-pair inserted (tx.transaction.hash, id) (converted (transactions_of txs))
                dropped)
          ∙ ap (filter (is_missing inserted))
              (sym (converted-some tx (transactions_of txs) id there))
    ]
  ]

  pub models-pairs :
      (chunk_hash suffix : String) (txs : List (ℕ × TransactionWithOutcome)) (c : Cache)
      → All (λ p. IsConverted p.1) txs
      → (r : List Transaction × Cache) × (transaction_models C decode_args block_hash
            block_timestamp chunk_hash suffix txs c
          ≡ some r)
        × (map row_pair r.0 ≡ map (with_suffix suffix) (converted (transactions_of txs)))
  unfolding transaction_models
  models-pairs chunk_hash suffix [] c h = (([], c), refl, refl)
  models-pairs chunk_hash suffix ((i, tx) ∷ rest) c (h, hs) =
      elim (Option-cases (converted_into tx)) [
        | inl nothing ↦ absurd (true_none (rw nothing at h))
        | inr (id, there) ↦
            let hash = text_append tx.transaction.hash suffix in
            let ((ms, c'), e, same) =
              models-pairs chunk_hash suffix rest (cache_set (receipt_key id) hash c) hs in
            (
              (
                from_indexer_transaction tx hash id block_hash chunk_hash block_timestamp (as_i32 i)
                    ∷ ms,
                c',
              ),
              rw there (rw e refl),
              ap ((hash, id) ∷◌) same
                  ∙ ap (map (with_suffix suffix))
                      (sym (converted-some tx (transactions_of rest) id there)),
            )
      ]
    where
      true_none : false ≡ true → ⊥
      true_none e = cc
