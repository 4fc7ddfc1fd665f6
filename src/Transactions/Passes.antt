-- ===== src/Transactions/Passes.antt =====
-- The two passes of `store_transactions` over the chunks of a block: which transactions each of them
-- stores, under which hashes.
use Prim.Native.String.{◌++◌ as text_append}
use near_indexer_for_explore.Base.{
  ℕ, String, Option, some, List, [], ◌∷◌, ◌++◌, All, ◌≡◌, refl, ap, sym, ◌∙◌, map, filter, flat_map,
  length, eqb, if◌then◌else◌, Bool-cases, inl, inr,
}
use near_indexer_for_explore.Chain.{TransactionWithOutcome, ChunkView}
use near_indexer_for_explore.Cache.{ReceiptsCache}
use near_indexer_for_explore.Receipts.Search.Invariant.{All-filter}
use near_indexer_for_explore.Serializers.{Json}
use near_indexer_for_explore.Text.{decimal}
use near_indexer_for_explore.Transactions.{
  TransactionRows, enumerate_from, action_models, store_chunk_transactions, store_pass,
  store_transactions,
}
use mathlib.Core.List.{append-nil}
use near_indexer_for_explore.Transactions.Pairs.{
  converted, is_missing, with_suffix, row_pair, row_pairs, IsConverted, AllConverted,
  transactions_of, transactions_of-enumerate, enumerate-IsConverted, all_transactions, missing_from,
  count-all_transactions, converted-filter, models-pairs,
}

module _ (C : ReceiptsCache) (decode_args : String → Option Json) (block_hash : String)
    (block_timestamp : ℕ) where
  open C use {Cache}

  -- The rows of a pass, chunk by chunk, are those of the transactions that `select` leaves.
  pass-pairs :
      (suffix : String)
      (select : List (ℕ × TransactionWithOutcome) → List (ℕ × TransactionWithOutcome))
      (keep : List (String × String) → List (String × String)) (chunks : List ChunkView) (c : Cache)
      → ((txs : List (ℕ × TransactionWithOutcome))
          → All (λ p. IsConverted p.1) txs
          → All (λ p. IsConverted p.1) (select txs))
      → ((txs : List (ℕ × TransactionWithOutcome))
          → converted (transactions_of (select txs)) ≡ keep (converted (transactions_of txs)))
      → AllConverted chunks
      → (r : List TransactionRows × Cache) × (store_pass C decode_args block_hash block_timestamp
            suffix select chunks c
          ≡ some r)
        × (map row_pairs r.0
            ≡ map (λ chunk. map (with_suffix suffix) (keep (converted chunk.transactions))) chunks)
  unfolding store_pass store_chunk_transactions
  pass-pairs suffix select keep [] c good same h = (([], c), refl, refl)
  pass-pairs suffix select keep (chunk ∷ rest) c good same (h, hs) =
      let txs = enumerate_from 0 chunk.transactions in
      let (r, e, shown) =
        models-pairs C decode_args block_hash block_timestamp chunk.header.chunk_hash suffix
          (select txs) c (good txs (enumerate-IsConverted 0 chunk.transactions h)) in
      let (more, e', shown') = pass-pairs suffix select keep rest r.1 good same hs in
      let here : map row_pair r.0 ≡ map (with_suffix suffix) (keep (converted chunk.transactions)) =
        shown
        ∙ ap (map (with_suffix suffix)) (
            same txs
            ∙ ap (λ ts. keep (converted ts)) (transactions_of-enumerate 0 chunk.transactions)) in
      (
        (
          record {
            transactions = r.0;
            transaction_actions = flat_map (action_models decode_args) (select txs);
          }
              ∷ more.0,
          more.1,
        ),
        rw e (rw e' refl),
        (λ i. here i ∷ shown' i),
      )

  -- The rows of the first pass, and those of the second one.
  abbrev pub IsFirstPass : List ChunkView → List TransactionRows → Type 0
  IsFirstPass chunks rows =
      map row_pairs rows ≡ map (λ chunk. map (with_suffix "") (converted chunk.transactions)) chunks

  abbrev pub IsSecondPass : ℕ → List ChunkView → List String → List TransactionRows → Type 0
  IsSecondPass block_height chunks inserted rows = map row_pairs rows ≡ (
      if eqb (length inserted) (length (all_transactions chunks))
      then []
      else map
          (λ chunk.
            map (with_suffix (text_append "_issue84_" (decimal block_height)))
              (filter (is_missing inserted) (converted chunk.transactions)))
          chunks)

  -- Every transaction of the block has become a receipt, and the database lists the receipt ids that
  -- it is asked for. Then `store_transactions` does not panic: it stores every transaction of every
  -- chunk, in order, under its hash and with its first receipt, and if the database lists as many
  -- receipt ids as there are transactions, nothing else. If not, it stores again, after those,
  -- exactly the transactions whose receipts are not among the listed ones, under their hashes with
  -- `_issue84_` and the height of the block appended.
  pub store_transactions-rows :
      (block_height : ℕ) (chunks : List ChunkView) (ids : List TransactionRows → List String)
      (c : Cache)
      → AllConverted chunks
      → (first : List TransactionRows) × (second : List TransactionRows) × (c' : Cache)
        × (store_transactions C decode_args block_hash block_timestamp block_height chunks
              (λ rows. some (ids rows))
              c
            ≡ some (first ++ second, c'))
        × IsFirstPass chunks first
        × IsSecondPass block_height chunks (ids first) second
  unfolding store_transactions
  store_transactions-rows block_height chunks ids c h =
      let (first, e, shown) =
        pass-pairs "" (λ txs. txs) (λ ps. ps) chunks c (λ txs k. k) (λ txs. refl) h in
      let (second, e', shown') =
        pass-pairs (text_append "_issue84_" (decimal block_height))
          (filter (missing_from C decode_args block_hash block_timestamp (ids first.0)))
          (filter (is_missing (ids first.0))) chunks first.1
          (λ txs k. All-filter (λ p. IsConverted p.1) _ txs k)
          (converted-filter C decode_args block_hash block_timestamp (ids first.0)) h in
      let count = count-all_transactions C decode_args block_hash block_timestamp chunks in
      elim (Bool-cases (eqb (length (ids first.0)) (length (all_transactions chunks)))) [
        | inl same ↦ (
          first.0,
          [],
          first.1,
          rw (e, count, same) (ap (λ rows. some (rows, first.1)) (sym (append-nil first.0))),
          shown,
          rw same refl,
        )
        | inr differ ↦
            (first.0, second.0, second.1, rw (e, count, differ, e') refl, shown, rw differ shown')
      ]
