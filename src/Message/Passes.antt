-- ===== src/Message/Passes.antt =====
-- The transactions of a message: the keys that the first pass leaves in the tables, and the
-- references of the rows of both passes.
use Prim.Native.String.{◌++◌ as text_append}
use text.Mathlib.TextLemmas.{append-nil}
use mathlib.Core.Path.{subst}
use near_indexer_for_explore.Base.{
  ℕ, String, ◌≡◌, refl, sym, ap, ◌∙◌, Bool, Option, none, some, List, All, All-map, map, filter,
  ◌⊎◌, inl, inr, String-eq, pair-eq,
}
use near_indexer_for_explore.Chain.{ChunkView, TransactionWithOutcome}
use near_indexer_for_explore.Transactions.{
  Transaction, TransactionAction, TransactionRows, action_models, enumerate_from, not_inserted,
  count_transactions,
}
use near_indexer_for_explore.Transactions
use near_indexer_for_explore.Tables.{
  Key, Row, texts-eq, key, parents, block_key, chunk_key, transaction_key,
}
use near_indexer_for_explore.Tables
use near_indexer_for_explore.Process.Present.{Has, Establishes}
use near_indexer_for_explore.Process.References.{Guarded}
use near_indexer_for_explore.Process.Joined.{
  All-of, All-under, All-of_map, All-under_map, All-map_from, All-flat_map, All-filter, Has-rows,
  join_all-Guarded, join_all-Establishes,
}
use near_indexer_for_explore.Message.{
  Environment, insert_transactions, store_chunk_transactions, store_chunks_transactions,
}
use near_indexer_for_explore.Message.Models.{
  Whenever, map-eq, Stored, store_chunk_transactions-Stored,
}

-- The key of a transaction of a chunk.
abbrev pub key_of : ℕ × TransactionWithOutcome → Key
key_of p = transaction_key p.1.transaction.hash

abbrev pub numbered : ChunkView → List (ℕ × TransactionWithOutcome)
numbered chunk = enumerate_from 0 chunk.transactions

abbrev tx_key : Transaction → Key
tx_key m = transaction_key m.transaction_hash

-- Rows with the hashes of transactions have their keys.
hashes-Has :
    (txs : List (ℕ × TransactionWithOutcome)) (ms : List Transaction)
    → map (λ m. m.transaction_hash) ms ≡ map (λ p. text_append p.1.transaction.hash "") txs
    → All (λ p. Has key (key_of p) (map Tables.transaction_row ms)) txs
hashes-Has txs ms hashes =
    let rows = map Tables.transaction_row ms in
    let keys : map key rows ≡ map key_of txs =
      map-eq key Tables.transaction_row tx_key ms (λ m. refl)
      ∙ sym (map-eq transaction_key (λ m. m.transaction_hash) tx_key ms (λ m. refl))
      ∙ ap (map transaction_key) hashes
      ∙ map-eq transaction_key (λ p. text_append p.1.transaction.hash "") key_of txs
          (λ p. ap transaction_key (append-nil p.1.transaction.hash)) in
    All-under_map (λ k. Has key k rows) key_of txs
      (subst (λ ks. All (λ k. Has key k rows) ks) keys (Has-rows key rows))

module _ (E : Environment) (block_hash : String) (block_timestamp : ℕ) where
  open (E.receipts_cache) use {Cache}

  abbrev StoredIn :
      ChunkView → String → List (ℕ × TransactionWithOutcome) → TransactionRows × Cache → Type 0
  StoredIn chunk suffix txs =
      Stored E.receipts_cache E.decode_args block_hash block_timestamp chunk.header.chunk_hash
        suffix txs

  insert-Establishes :
      (chunk : ChunkView) (txs : List (ℕ × TransactionWithOutcome))
      (o : Option (TransactionRows × Cache))
      → Whenever (StoredIn chunk "" txs) o
      → All (λ p. Establishes key (key_of p) (insert_transactions E o)) txs
  unfolding Establishes
  insert-Establishes chunk txs none h = All-of _ txs (λ p. tt)
  insert-Establishes chunk txs (some r) (h, hs) =
      All-map (λ p. Has key (key_of p) (map Tables.transaction_row r.0.transactions))
        (λ p. Establishes key (key_of p) (insert_transactions E (some r))) txs (λ p. inl)
        (hashes-Has txs r.0.transactions h.hashes)

  chunk-Establishes :
      (chunk : ChunkView)
      → All
          (λ k.
            Establishes key k
              (store_chunk_transactions E block_hash block_timestamp "" chunk (numbered chunk)))
          (map key_of (numbered chunk))
  unfolding Establishes
  chunk-Establishes chunk =
      let txs = numbered chunk in
      let models =
        Transactions.store_chunk_transactions E.receipts_cache E.decode_args block_hash
          block_timestamp chunk.header.chunk_hash "" txs in
      All-of_map _ key_of txs (
        All-under (λ c p. Establishes key (key_of p) (insert_transactions E (models c))) txs
          (λ c. insert-Establishes chunk txs (models c) (
            store_chunk_transactions-Stored E.receipts_cache E.decode_args block_hash
              block_timestamp chunk.header.chunk_hash "" txs c)))

  -- The first pass inserts each transaction of the chunks under its hash.
  pub first_pass-Establishes :
      (chunks : List ChunkView)
      → All
          (λ chunk.
            All
              (λ k.
                Establishes key k
                  (store_chunks_transactions E block_hash block_timestamp "" (λ txs. txs) chunks))
              (map key_of (numbered chunk)))
          chunks
  first_pass-Establishes chunks =
      join_all-Establishes key
        (λ chunk. store_chunk_transactions E block_hash block_timestamp "" chunk (numbered chunk))
        (λ chunk. map key_of (numbered chunk)) chunks (All-of _ chunks chunk-Establishes)

  -- The rows of a chunk refer to what is known: the block, the chunk, and the transactions of the
  -- actions, which are known or among the rows.
  insert-Guarded :
      (Known : Key → Type 0) (chunk : ChunkView) (suffix : String)
      (txs : List (ℕ × TransactionWithOutcome)) (o : Option (TransactionRows × Cache))
      → Known (block_key block_hash)
      → Known (chunk_key chunk.header.chunk_hash)
      → ((ms : List Transaction)
          → map (λ m. m.transaction_hash) ms
            ≡ map (λ p. text_append p.1.transaction.hash suffix) txs
          → All (λ p. Known (key_of p) ⊎ Has key (key_of p) (map Tables.transaction_row ms)) txs)
      → Whenever (StoredIn chunk suffix txs) o
      → Guarded key parents Known (insert_transactions E o)
  unfolding Guarded
  insert-Guarded Known chunk suffix txs none block at known h = tt
  insert-Guarded Known chunk suffix txs (some r) block at known (h, actions) =
      let ms = r.0.transactions in
      let Known' : Key → Type 0 = (λ k. Known k ⊎ Has key k (map Tables.transaction_row ms)) in
      (
        All-of_map (λ row. All Known (parents row)) Tables.transaction_row ms
            (All-map _ (λ m. All Known (parents (Tables.transaction_row m))) ms
              (λ m (b, c). rw (b, c) (block, (at, tt))) h.at_place),
        (
          All-of_map (λ row. All Known' (parents row)) Tables.transaction_action_row
              r.0.transaction_actions
              (subst (All (λ a. All Known' (parents (Tables.transaction_action_row a))))
                (sym actions)
                (All-flat_map (λ a. All Known' (parents (Tables.transaction_action_row a)))
                  (action_models E.decode_args) txs
                  (All-map (λ p. Known' (key_of p)) _ txs
                    (λ p k. All-map_from _ _ 0 p.1.transaction.actions (λ j a. (k, tt)))
                    (known ms h.hashes)))),
          tt,
        ),
      )

  module _ (Known : Key → Type 0) (block : Known (block_key block_hash)) where
    pub first_pass-Guarded :
        (chunks : List ChunkView)
        → All (λ chunk. Known (chunk_key chunk.header.chunk_hash)) chunks
        → Guarded key parents Known
            (store_chunks_transactions E block_hash block_timestamp "" (λ txs. txs) chunks)
    unfolding Guarded
    first_pass-Guarded chunks at =
        join_all-Guarded key parents Known
          (λ chunk. store_chunk_transactions E block_hash block_timestamp "" chunk (numbered chunk))
          chunks
          (All-map _ _ chunks
            (λ chunk known c.
              insert-Guarded Known chunk "" (numbered chunk) _ block known
                (λ ms hashes.
                  All-map _ _ (numbered chunk) (λ p. inr) (hashes-Has (numbered chunk) ms hashes))
                (store_chunk_transactions-Stored E.receipts_cache E.decode_args block_hash
                  block_timestamp chunk.header.chunk_hash "" (numbered chunk) c))
            at)

    pub second_pass-Guarded :
        (suffix : String) (p : ℕ × TransactionWithOutcome → Bool) (chunks : List ChunkView)
        → All
            (λ chunk.
              Known (chunk_key chunk.header.chunk_hash) × All Known (map key_of (numbered chunk)))
            chunks
        → Guarded key parents Known
            (store_chunks_transactions E block_hash block_timestamp suffix (filter p) chunks)
    unfolding Guarded
    second_pass-Guarded suffix p chunks at =
        join_all-Guarded key parents Known
          (λ chunk.
            store_chunk_transactions E block_hash block_timestamp suffix chunk
              (filter p (numbered chunk)))
          chunks
          (All-map _ _ chunks
            (λ chunk (known, txs) c.
              let left = filter p (numbered chunk) in
              insert-Guarded Known chunk suffix left _ block known
                (λ ms hashes.
                  All-map (λ x. Known (key_of x)) _ left (λ x. inl)
                    (All-filter (λ x. Known (key_of x)) p (numbered chunk)
                      (All-under_map Known key_of (numbered chunk) txs)))
                (store_chunk_transactions-Stored E.receipts_cache E.decode_args block_hash
                  block_timestamp chunk.header.chunk_hash suffix left c))
            at)
