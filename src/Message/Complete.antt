-- ===== src/Message/Complete.antt =====
-- The rows that a message asks for, by their keys, among those that its handler inserts.
use near_indexer_for_explore.Base.{
  ℕ, ◌+◌, String, ◌≡◌, refl, ap, ◌∙◌, Bool, true, false, Option, List, [], ◌∷◌, ◌++◌, All, All-map,
  All-append, map, flat_map, map_from, map-append, inl, inr, append-congr, String-eq, pair-eq,
}
use mathlib.Core.Path.{subst}
use near_indexer_for_explore.Base.Words.{as_i32}
use near_indexer_for_explore.Chain.{OutcomeWithReceipt, ShardView}
use near_indexer_for_explore.Cache.{ReceiptsCache, receipt_key}
use near_indexer_for_explore.Outcomes.{
  ExecutionOutcomeReceipt, ExecutionOutcome, produced, outcome_models,
}
use near_indexer_for_explore.Blocks.{chunks_of}
use near_indexer_for_explore.Tables.{
  Key, Row, texts-eq, key, block_key, chunk_key, transaction_key, outcome_key, outcome_receipt_key,
}
use near_indexer_for_explore.Tables
use near_indexer_for_explore.Process.Present.{Has, Establishes}
use near_indexer_for_explore.Process.Joined.{
  All-of, All-under, All-of_map, All-flat_map, Has-rows, join_all-Establishes,
}
use near_indexer_for_explore.Message.{
  Environment, StreamerMessage, insert_outcomes, store_execution_outcomes_for_chunk,
  store_execution_outcomes, handle_outcomes, handle_message,
}
use near_indexer_for_explore.Message.Passes.{numbered, key_of, first_pass-Establishes}
use near_indexer_for_explore.Message.Guarded.{store_block-Establishes, store_chunks-Establishes}

-- The receipts that an outcome has produced.
abbrev pub produced_keys : OutcomeWithReceipt → List Key
produced_keys o =
    map_from (λ i receipt_id. outcome_receipt_key o.execution_outcome.id (as_i32 i) receipt_id) 0
      o.execution_outcome.outcome.receipt_ids

abbrev pub outcome_keys : ShardView → List Key
outcome_keys shard =
    map (λ o. outcome_key o.execution_outcome.id) shard.receipt_execution_outcomes
    ++ flat_map produced_keys shard.receipt_execution_outcomes

-- The block of a message, its chunks, their transactions, and the outcomes of the shards with the
-- receipts that they have produced.
abbrev pub message_keys : StreamerMessage → List Key
message_keys m =
    block_key m.block.header.hash
    ∷ (map (λ c. chunk_key c.header.chunk_hash) (chunks_of m.shards)
        ++ (flat_map (λ c. map key_of (numbered c)) (chunks_of m.shards)
            ++ flat_map outcome_keys m.shards))

module _ (C : ReceiptsCache) where
  open C use {Cache}

  abbrev receipt_rows : List ExecutionOutcomeReceipt → List Key
  receipt_rows rows = map key (map Tables.execution_outcome_receipt_row rows)

  produced-keys :
      (id : String) (parent : Option String) (i : ℕ) (ids : List String) (c : Cache)
      → receipt_rows (produced C id parent i ids c).0
        ≡ map_from (λ j r. outcome_receipt_key id (as_i32 j) r) i ids
  unfolding produced
  produced-keys id parent i [] c = refl
  produced-keys id parent i (r ∷ ids) c =
      ap (λ ks. outcome_receipt_key id (as_i32 i) r ∷ ks) (produced-keys id parent (i + 1) ids _)

  -- The models of the outcomes of a chunk have the keys of the outcomes.
  outcome_models-Has :
      (shard_id block_timestamp i : ℕ) (outcomes : List OutcomeWithReceipt) (c : Cache)
      → let models = (outcome_models C shard_id block_timestamp i outcomes c).0 in
        (map key (map Tables.execution_outcome_row models.0)
          ≡ map (λ o. outcome_key o.execution_outcome.id) outcomes)
        × (receipt_rows models.1 ≡ flat_map produced_keys outcomes)
  unfolding outcome_models
  outcome_models-Has shard_id block_timestamp i [] c = (refl, refl)
  outcome_models-Has shard_id block_timestamp i (o ∷ outcomes) c =
      let e = o.execution_outcome in
      let (parent, c1) = C.cache_remove (receipt_key e.id) c in
      let (rows, c2) = produced C e.id parent 0 e.outcome.receipt_ids c1 in
      let rest = (outcome_models C shard_id block_timestamp (i + 1) outcomes c2).0.1 in
      let (ids, more) = outcome_models-Has shard_id block_timestamp (i + 1) outcomes c2 in
      (
        ap (λ ks. outcome_key e.id ∷ ks) ids,
        ap (map key) (map-append Tables.execution_outcome_receipt_row rows rest)
            ∙ map-append key (map Tables.execution_outcome_receipt_row rows)
                (map Tables.execution_outcome_receipt_row rest)
            ∙ append-congr (produced-keys e.id parent 0 e.outcome.receipt_ids c1) more,
      )

module _ (E : Environment) where
  outcomes-Establishes :
      (block_timestamp : ℕ) (shard : ShardView)
      → All
          (λ k. Establishes key k (store_execution_outcomes_for_chunk E block_timestamp shard))
          (outcome_keys shard)
  unfolding Establishes
  outcomes-Establishes block_timestamp shard =
      let outcomes = shard.receipt_execution_outcomes in
      let process = store_execution_outcomes_for_chunk E block_timestamp shard in
      All-append (λ k. Establishes key k process)
        (map (λ o. outcome_key o.execution_outcome.id) outcomes) (flat_map produced_keys outcomes)
        (All-under (λ c k. Establishes key k (insert_outcomes E (models c))) _
          (λ c.
            All-map _ _ _ (λ k. inl)
              (subst (λ ks. All (λ k. Has key k (map Tables.execution_outcome_row (models c).0)) ks)
                (outcome_models-Has E.receipts_cache shard.shard_id block_timestamp 0 outcomes c).0
                (Has-rows key (map Tables.execution_outcome_row (models c).0)))))
        (All-under (λ c k. Establishes key k (insert_outcomes E (models c))) _
          (λ c.
            All-map _ _ _ (λ k h. inr (inl h))
              (subst
                (λ ks.
                  All (λ k. Has key k (map Tables.execution_outcome_receipt_row (models c).1)) ks)
                (outcome_models-Has E.receipts_cache shard.shard_id block_timestamp 0 outcomes c).1
                (Has-rows key (map Tables.execution_outcome_receipt_row (models c).1)))))
    where
      models :
          ReceiptsCache.Cache E.receipts_cache
          → List ExecutionOutcome × List ExecutionOutcomeReceipt
      models c =
          (outcome_models E.receipts_cache shard.shard_id block_timestamp 0
            shard.receipt_execution_outcomes c).0

  handle_outcomes-Establishes :
      (strict_mode : Bool) (m : StreamerMessage)
      → All
          (λ k. Establishes key k (handle_outcomes E strict_mode m))
          (flat_map outcome_keys m.shards)
  unfolding Establishes
  handle_outcomes-Establishes strict_mode m =
      let t = m.block.header.timestamp in
      let joined =
        All-flat_map (λ k. Establishes key k (store_execution_outcomes E m.shards t)) outcome_keys
          m.shards
          (join_all-Establishes key (store_execution_outcomes_for_chunk E t) outcome_keys m.shards
            (All-of _ m.shards (outcomes-Establishes t))) in
      elim strict_mode
        as (λ b.
          All (λ k. Establishes key k (handle_outcomes E b m)) (flat_map outcome_keys m.shards)) [
            | true ↦ All-map _ _ (flat_map outcome_keys m.shards) (λ k. inl) joined
            | false ↦ All-map _ _ (flat_map outcome_keys m.shards) (λ k. inl) joined
          ]

  -- If the handler ends with `Ok(())`, it has inserted all that the message asks for.
  pub handle_message-Establishes :
      (strict_mode : Bool) (m : StreamerMessage)
      → All (λ k. Establishes key k (handle_message E strict_mode m)) (message_keys m)
  unfolding Establishes handle_message
  handle_message-Establishes strict_mode m =
      let header = m.block.header in
      let chunk_views = chunks_of m.shards in
      let chunk_keys = map (λ c. chunk_key c.header.chunk_hash) chunk_views in
      let tx_keys = flat_map (λ c. map key_of (numbered c)) chunk_views in
      let P : Key → Type 0 = (λ k. Establishes key k (handle_message E strict_mode m)) in
      (
        inl (store_block-Establishes E m.block),
        All-append P chunk_keys (tx_keys ++ flat_map outcome_keys m.shards)
            (All-map _ _ chunk_keys (λ k h. inr (inl h))
              (All-of_map _ (λ c. chunk_key c.header.chunk_hash) chunk_views
                (store_chunks-Establishes E m.shards header.hash)))
            (All-append P tx_keys (flat_map outcome_keys m.shards)
              (All-map _ _ tx_keys (λ k h. inr (inr (inl (inl (inl h)))))
                (All-flat_map _ (λ c. map key_of (numbered c)) chunk_views
                  (first_pass-Establishes E header.hash header.timestamp chunk_views)))
              (All-map _ _ (flat_map outcome_keys m.shards) (λ k h. inr (inr (inr h)))
                (handle_outcomes-Establishes strict_mode m))),
      )
