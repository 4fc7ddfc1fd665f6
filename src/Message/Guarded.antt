-- ===== src/Message/Guarded.antt =====
-- The references of the rows that `handle_message` inserts: in which order the adapters insert rows
-- that refer to each other.
use Prim.Native.String.{◌++◌ as text_append}
use near_indexer_for_explore.Base.{
  ℕ, String, ◌≡◌, refl, ap, Bool, true, false, not, Option, none, some, List, [], ◌∷◌, All, All-map,
  map, filter, is_empty, length, eqb, ◌⊎◌, inl, inr, Bool-cases, if◌then◌else◌, String-eq, pair-eq,
  ==-refl,
}
use mathlib.Core.Path.{subst}
use near_indexer_for_explore.Text.{decimal}
use near_indexer_for_explore.Accounts
use near_indexer_for_explore.AccessKeys
use near_indexer_for_explore.Transactions
use near_indexer_for_explore.Receipts.Search
use near_indexer_for_explore.Tables
use near_indexer_for_explore.Chain.{ChunkView, ReceiptView, ShardView}
use near_indexer_for_explore.Blocks.{BlockView, chunks_of, chunk_models, from_chunk_view}
use near_indexer_for_explore.Assets.{collect_events}
use near_indexer_for_explore.Assets.Rows.{compose_ft_db_events, compose_nft_db_events}
use near_indexer_for_explore.Assets.Batches.{chunks}
use near_indexer_for_explore.Tables.{
  Key, Row, texts-eq, key, parents, block_key, chunk_key, receipt_row_key, on_accounts,
  on_access_keys,
}
use near_indexer_for_explore.Receipts.Search.{
  Hashes, Progress, searching, found, repeating, find_tx_hashes_for_receipts,
}
use near_indexer_for_explore.Receipts.Rows.{Receipt, chunk_rows}
use near_indexer_for_explore.AccountChanges.{AccountChange, account_changes_models}
use near_indexer_for_explore.Process.{done, both, join_all}
use near_indexer_for_explore.Process.Present.{Has, Establishes}
use near_indexer_for_explore.Process.References.{Guarded}
use near_indexer_for_explore.Process.Joined.{
  All-of, All-both, All-of_map, All-under_map, All-filter, Has-rows, join_all-Guarded,
}
use near_indexer_for_explore.Message.{
  Environment, StreamerMessage, Task, insert_rows, store_block, store_chunks,
  store_chunks_transactions, store_collided, store_transactions, store_found, store_chunk_receipts,
  store_receipts, store_execution_outcomes_for_chunk, handle_accounts, handle_access_keys,
  insert_changes, store_account_changes_for_shard, store_batches, collect_and_store_events,
  handle_outcomes, handle_message,
}
use near_indexer_for_explore.Message.Models.{
  Whenever, ReceiptAt, chunk_rows-ReceiptAt, account_changes-ChangedIn,
}
use near_indexer_for_explore.Message.Owned.{Owned, chunk_rows-OwnedRows}
use near_indexer_for_explore.Message.Adapters.{
  handle_accounts-free, handle_access_keys-free, join_futures-Guarded,
}
use near_indexer_for_explore.Message.Passes.{
  numbered, key_of, first_pass-Establishes, first_pass-Guarded, second_pass-Guarded,
}

-- The process of `store_block` inserts the block, and that of `store_chunks` the chunks.
pub store_block-Establishes :
    (E : Environment) (block : BlockView)
    → Establishes key (block_key block.header.hash) (store_block E block)
unfolding Establishes
store_block-Establishes E block = inl (rw (==-refl (block_key block.header.hash)) refl)

insert_chunks-Establishes :
    (E : Environment) (block_hash : String) (chunks : List ChunkView)
    → let models = map (from_chunk_view block_hash) chunks in
      All
        (λ chunk.
          Establishes key
            (chunk_key chunk.header.chunk_hash)
            (if is_empty models then done else insert_rows E Tables.chunk_row models done))
        chunks
unfolding Establishes
insert_chunks-Establishes E block_hash [] = tt
insert_chunks-Establishes E block_hash (chunk ∷ chunks) =
    let rows = map Tables.chunk_row (map (from_chunk_view block_hash) (chunk ∷ chunks)) in
    All-map (λ c. Has key (chunk_key c.header.chunk_hash) rows) _ (chunk ∷ chunks) (λ c. inl)
      (All-under_map (λ k. Has key k rows) (λ c. chunk_key c.header.chunk_hash) (chunk ∷ chunks)
        (subst (λ ks. All (λ k. Has key k rows) ks) (keys (chunk ∷ chunks)) (Has-rows key rows)))
  where
    keys :
        (cs : List ChunkView)
        → map key (map Tables.chunk_row (map (from_chunk_view block_hash) cs))
          ≡ map (λ c. chunk_key c.header.chunk_hash) cs
    keys [] = refl
    keys (c ∷ cs) = ap (λ ks. chunk_key c.header.chunk_hash ∷ ks) (keys cs)

pub store_chunks-Establishes :
    (E : Environment) (shards : List ShardView) (block_hash : String)
    → All
        (λ chunk.
          Establishes key (chunk_key chunk.header.chunk_hash) (store_chunks E shards block_hash))
        (chunks_of shards)
store_chunks-Establishes E [] block_hash = tt
store_chunks-Establishes E (s ∷ shards) block_hash =
    insert_chunks-Establishes E block_hash (chunks_of (s ∷ shards))

module _ (E : Environment) (Known : Key → Type 0) where
  if-Guarded :
      (b : Bool) (p q : Task E)
      → Guarded key parents Known p
      → Guarded key parents Known q
      → Guarded key parents Known (if b then p else q)
  if-Guarded true p q h g = h
  if-Guarded false p q h g = g

  -- Rows that refer to nothing.
  free_rows :
      {A : Type 0} (inject : A → Row) (models : List A)
      → ((m : A) → parents (inject m) ≡ [])
      → All (λ row. All Known (parents row)) (map inject models)
  free_rows inject models h =
      All-of_map (λ row. All Known (parents row)) inject models (All-of _ models (λ m. rw (h m) tt))

  -- Rows that refer to the receipts among the models, which are known.
  own_rows :
      {A : Type 0} (inject : A → Row) (id_of : A → String) (receipts : List Receipt)
      (models : List A)
      → ((k : Key) → Has key k (map Tables.receipt_row receipts) → Known k)
      → ((m : A) → Known (receipt_row_key (id_of m)) → All Known (parents (inject m)))
      → All (λ m. Owned receipts (id_of m)) models
      → All (λ row. All Known (parents row)) (map inject models)
  own_rows inject id_of receipts models known refer own =
      All-of_map (λ row. All Known (parents row)) inject models
        (All-map _ _ models (λ m h. refer m (known (receipt_row_key (id_of m)) h)) own)

  store_batches-Guarded :
      {A : Type 0} (inject : A → Row) (batches : List (List A))
      → ((m : A) → parents (inject m) ≡ [])
      → Guarded key parents Known (store_batches E inject batches)
  unfolding Guarded
  store_batches-Guarded inject [] h = tt
  store_batches-Guarded inject (models ∷ rest) h =
      (free_rows inject models h, store_batches-Guarded inject rest h)

module _ (E : Environment) (Known : Key → Type 0) (block_hash : String)
    (block : Known (block_key block_hash)) where
  open (E.receipts_cache) use {Cache}

  store_chunks-Guarded :
      (shards : List ShardView) → Guarded key parents Known (store_chunks E shards block_hash)
  unfolding Guarded
  store_chunks-Guarded shards =
      let models = chunk_models block_hash shards in
      let insert = insert_rows E Tables.chunk_row models done in
      let rows =
        All-of_map (λ row. All Known (parents row)) Tables.chunk_row models
          (All-of_map (λ m. All Known (parents (Tables.chunk_row m))) (from_chunk_view block_hash)
            (chunks_of shards) (All-of _ (chunks_of shards) (λ chunk. (block, tt)))) in
      if-Guarded E Known (is_empty shards) done (if is_empty models then done else insert) tt
        (if-Guarded E Known (is_empty models) done insert tt (rows, tt))

  store_collided-Guarded :
      (block_timestamp block_height : ℕ) (chunks : List ChunkView) (o : Option (List String))
      → All
          (λ chunk.
            Known (chunk_key chunk.header.chunk_hash) × All Known (map key_of (numbered chunk)))
          chunks
      → Guarded key parents Known
          (store_collided E block_hash block_timestamp block_height chunks o)
  unfolding Guarded
  store_collided-Guarded block_timestamp block_height chunks none at = tt
  store_collided-Guarded block_timestamp block_height chunks (some inserted) at =
      let count =
        Transactions.count_transactions E.receipts_cache E.decode_args block_hash block_timestamp
          chunks in
      elim (Bool-cases (eqb (length inserted) count)) [
        | inl same ↦ rw (same, store_collided) tt
        | inr fewer ↦
            rw (fewer, store_collided)
              (second_pass-Guarded E block_hash block_timestamp Known block
                (text_append "_issue84_" (decimal block_height))
                (Transactions.not_inserted E.receipts_cache E.decode_args block_hash block_timestamp
                  inserted)
                chunks at)
      ]

  store_found-Guarded :
      (chunk_hash : String) (block_timestamp : ℕ) (receipts : List ReceiptView) (p : Progress)
      → Known (chunk_key chunk_hash)
      → Guarded key parents Known (store_found E block_hash chunk_hash block_timestamp receipts p)
  unfolding Guarded Establishes
  store_found-Guarded chunk_hash block_timestamp receipts (searching left hashes) at = tt
  store_found-Guarded chunk_hash block_timestamp receipts repeating at = tt
  store_found-Guarded chunk_hash block_timestamp receipts Search.failed at = tt
  store_found-Guarded chunk_hash block_timestamp receipts (found hashes) at = λ c.
      let rows = chunk_rows hashes E.decode_args block_hash chunk_hash block_timestamp receipts in
      let own =
        chunk_rows-OwnedRows hashes E.decode_args block_hash chunk_hash block_timestamp receipts in
      (
        (
          All-of_map (λ row. All Known (parents row)) Tables.receipt_row rows.receipts
              (All-map (ReceiptAt hashes block_hash chunk_hash block_timestamp) _ rows.receipts
                (λ m (b, ch). rw (b, ch) (block, (at, tt)))
                (chunk_rows-ReceiptAt hashes block_hash chunk_hash block_timestamp E.decode_args
                  receipts)),
          tt,
        ),
        (
          (
            own_rows E _ Tables.action_receipt_row (λ m. m.receipt_id) rows.receipts
                rows.action_receipts (λ k h. inr (inl h)) (λ m k. (k, tt)) own.action_receipts,
            (
              own_rows E _ Tables.action_receipt_action_row (λ m. m.receipt_id) rows.receipts
                  rows.action_receipt_actions (λ k h. inl (inr (inl h))) (λ m k. (k, tt))
                  own.actions,
              (
                own_rows E _ Tables.output_data_row (λ m. m.output_from_receipt_id) rows.receipts
                    rows.action_receipt_output_data (λ k h. inl (inl (inr (inl h))))
                    (λ m k. (k, tt)) own.outputs,
                (
                  own_rows E _ Tables.input_data_row (λ m. m.input_to_receipt_id) rows.receipts
                      rows.action_receipt_input_data (λ k h. inl (inl (inl (inr (inl h)))))
                      (λ m k. (k, tt)) own.inputs,
                  tt,
                ),
              ),
            ),
          ),
          (
            own_rows E _ Tables.data_receipt_row (λ m. m.receipt_id) rows.receipts
                rows.data_receipts (λ k h. inr (inl h)) (λ m k. (k, tt)) own.data_receipts,
            tt,
          ),
        ),
      )

  insert_changes-Guarded :
      (o : Option (List AccountChange))
      → Whenever (All (λ r. r.changed_in_block_hash ≡ block_hash)) o
      → Guarded key parents Known (insert_changes E o)
  unfolding Guarded
  insert_changes-Guarded none h = tt
  insert_changes-Guarded (some models) h = (
    All-of_map (λ row. All Known (parents row)) Tables.account_change_row models
        (All-map _ _ models (λ r e. rw e (block, tt)) h),
    tt,
  )

module _ (E : Environment) where
  open (E.receipts_cache) use {Cache}

  handle_outcomes-Guarded :
      (Known : Key → Type 0) (strict_mode : Bool) (m : StreamerMessage)
      → Known (block_key m.block.header.hash)
      → Guarded key parents Known (handle_outcomes E strict_mode m)
  unfolding Guarded
  handle_outcomes-Guarded Known strict_mode m block =
      let t = m.block.header.timestamp in
      let h = m.block.header.height in
      let join : (f : ShardView → Task E)
          → ((shard : ShardView) → Guarded key parents Known (f shard))
          → Guarded key parents Known (join_all (map f m.shards)) =
        λ f g. join_all-Guarded key parents Known f m.shards (All-of _ m.shards g) in
      let outcomes = join (store_execution_outcomes_for_chunk E t) (λ shard c. (
        free_rows E _ Tables.execution_outcome_row _ (λ x. refl),
        (free_rows E _ Tables.execution_outcome_receipt_row _ (λ x. refl), tt),
      )) in
      let accounts = join (handle_accounts E h) (λ shard.
        join_futures-Guarded E on_accounts Known
          (Accounts.handle_accounts shard.receipt_execution_outcomes h)
          (handle_accounts-free shard.receipt_execution_outcomes h)) in
      let keys = join (handle_access_keys E h) (λ shard.
        join_futures-Guarded E on_access_keys Known
          (AccessKeys.handle_access_keys E.implicit_public_key shard.receipt_execution_outcomes h)
          (handle_access_keys-free E.implicit_public_key shard.receipt_execution_outcomes h)) in
      let events = join (collect_and_store_events E t) (λ shard.
        let sorted = collect_events E.parse_event shard in
        (
          store_batches-Guarded E Known Tables.ft_event_row
              (chunks (compose_ft_db_events t shard.shard_id sorted.ft)) (λ x. refl),
          store_batches-Guarded E Known Tables.nft_event_row
              (chunks (compose_nft_db_events t shard.shard_id sorted.nft)) (λ x. refl),
        )) in
      let changes = join (store_account_changes_for_shard E m.block.header.hash t) (λ shard.
        let models = account_changes_models m.block.header.hash t 0 shard.state_changes in
        if-Guarded E Known (is_empty shard.state_changes) done (insert_changes E models) tt (
          insert_changes-Guarded E Known m.block.header.hash block models
            (account_changes-ChangedIn m.block.header.hash t 0 shard.state_changes))) in
      elim strict_mode as (λ b. Guarded key parents Known (handle_outcomes E b m)) [
        | true ↦ (outcomes, (accounts, (keys, (events, changes))))
        | false ↦ (outcomes, (accounts, events))
      ]

  -- What `store_transactions` and `store_receipts` need is known when they begin.
  store_both-Guarded :
      (Known : Key → Type 0) (strict_mode : Bool) (m : StreamerMessage)
      → Known (block_key m.block.header.hash)
      → All (λ chunk. Known (chunk_key chunk.header.chunk_hash)) (chunks_of m.shards)
      → let header = m.block.header in
        Guarded key parents Known (
          both
            (store_transactions E m.shards header.hash header.timestamp header.height)
            (store_receipts E strict_mode m.shards header.hash header.timestamp))
  unfolding Guarded
  store_both-Guarded Known strict_mode m block at =
      let header = m.block.header in
      let chunk_views = chunks_of m.shards in
      let first =
        store_chunks_transactions E header.hash header.timestamp "" (λ txs. txs) chunk_views in
      let Later : Key → Type 0 = (λ k. Known k ⊎ Establishes key k first) in
      let pass = first_pass-Establishes E header.hash header.timestamp chunk_views in
      (
        (
          first_pass-Guarded E header.hash header.timestamp Known block chunk_views at,
          (λ answer.
              store_collided-Guarded E Later header.hash (inl block) header.timestamp header.height
                chunk_views answer
                (All-both _ _ chunk_views (All-map _ _ chunk_views (λ c. inl) at) (
                  All-map _ _ chunk_views
                    (λ c. All-map _ Later (map key_of (numbered c)) (λ k. inr)) pass))),
        ),
        join_all-Guarded key parents Known
            (store_chunk_receipts E strict_mode header.hash header.timestamp)
            (filter (λ chunk. not (is_empty chunk.receipts)) chunk_views)
            (All-filter _ (λ chunk. not (is_empty chunk.receipts)) chunk_views
              (All-map _ _ chunk_views
                (λ chunk known c.
                  store_found-Guarded E Known header.hash block chunk.header.chunk_hash
                    header.timestamp chunk.receipts _ known)
                at)),
      )

  -- The handler inserts no row before the rows that it refers to.
  pub handle_message-Guarded :
      (Known : Key → Type 0) (strict_mode : Bool) (m : StreamerMessage)
      → Guarded key parents Known (handle_message E strict_mode m)
  unfolding Guarded handle_message
  handle_message-Guarded Known strict_mode m =
      let header = m.block.header in
      let stored = store_block-Establishes E m.block in
      let chunked = store_chunks-Establishes E m.shards header.hash in
      (
        ((tt, tt), tt),
        (
          store_chunks-Guarded E _ header.hash (inr stored) m.shards,
          (
            store_both-Guarded _ strict_mode m (inl (inr stored))
                (All-map _ _ (chunks_of m.shards) (λ c. inr) chunked),
            handle_outcomes-Guarded _ strict_mode m (inl (inl (inr stored))),
          ),
        ),
      )
