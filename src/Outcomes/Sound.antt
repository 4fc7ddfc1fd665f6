-- ===== src/Outcomes/Sound.antt =====
-- The cache and the rows of receipts after the outcomes of a chunk
-- (db_adapters/execution_outcomes.rs).
use near_indexer_for_explore.Base.{
  ℕ, ◌+◌, String, Option, none, some, List, [], ◌∷◌, map, flat_map, map-append, append-congr, All,
  ◌≡◌, refl, sym, ◌∙◌, ap,
}
use near_indexer_for_explore.Chain.{OutcomeWithReceipt}
use near_indexer_for_explore.Cache.{ReceiptOrDataId, receipt_key, ReceiptsCache}
use near_indexer_for_explore.Receipts.Search.Sound.{SoundCache}
use near_indexer_for_explore.Receipts.Rows.Sound.{cache_set-Sound}
use near_indexer_for_explore.Outcomes.{ExecutionOutcomeReceipt, produced, outcome_models}

abbrev pub link : ExecutionOutcomeReceipt → String × String
link r = (r.executed_receipt_id, r.produced_receipt_id)

-- An executed receipt with each of the receipts that it produces.
abbrev pub links_of : String → List String → List (String × String)
links_of id = map (λ r. (id, r))

module _ (Parent : ReceiptOrDataId → String → Type 0) where
  -- A receipt that an outcome produces has the parent of the receipt that was executed.
  abbrev pub Inherits : OutcomeWithReceipt → Type 0
  Inherits o =
      (h : String)
      → Parent (receipt_key o.execution_outcome.id) h
      → All (λ id. Parent (receipt_key id) h) o.execution_outcome.outcome.receipt_ids

  module _ (C : ReceiptsCache) where
    open C use {Cache, cache_remove, remove_value, remove_keeps}

    produced-Sound :
        (id : String) (parent : Option String) (i : ℕ) (ids : List String) (c : Cache)
        → ((h : String) → parent ≡ some h → All (λ r. Parent (receipt_key r) h) ids)
        → SoundCache Parent C c
        → SoundCache Parent C (produced C id parent i ids c).1
    unfolding produced
    produced-Sound id parent i [] c p s = s
    produced-Sound id none i (r ∷ ids) c p s =
        produced-Sound id none (i + 1) ids c (λ h e. (p h e).1) s
    produced-Sound id (some h) i (r ∷ ids) c p s =
        produced-Sound id (some h) (i + 1) ids _ (λ h' e. (p h' e).1)
          (cache_set-Sound Parent C (receipt_key r) h c (p h refl).0 s)

    produced-ids :
        (id : String) (parent : Option String) (i : ℕ) (ids : List String) (c : Cache)
        → map link (produced C id parent i ids c).0 ≡ links_of id ids
    unfolding produced
    produced-ids id parent i [] c = refl
    produced-ids id parent i (r ∷ ids) c = ap ((id, r) ∷◌) (produced-ids id parent (i + 1) ids _)

    -- The cache holds parents only, and receipts inherit the parent of the receipt that produces
    -- them: after the outcomes of a chunk the cache still holds parents only, and whatever it
    -- held, there is one row for each receipt that an outcome produces, in order.
    pub outcome_models-Sound :
        (shard_id block_timestamp i : ℕ) (outcomes : List OutcomeWithReceipt) (c : Cache)
        → SoundCache Parent C c
        → All Inherits outcomes
        → let result = outcome_models C shard_id block_timestamp i outcomes c in
          SoundCache Parent C result.1
          × (map link result.0.1
              ≡ flat_map
                  (λ o. links_of o.execution_outcome.id o.execution_outcome.outcome.receipt_ids)
                  outcomes)
    unfolding outcome_models
    outcome_models-Sound shard_id block_timestamp i [] c s l = (s, refl)
    outcome_models-Sound shard_id block_timestamp i (o ∷ rest) c s (lo, l) =
        let e = o.execution_outcome in
        let removed = cache_remove (receipt_key e.id) c in
        let s1 : SoundCache Parent C removed.1 =
          λ k h there. s k h (remove_keeps (receipt_key e.id) k c h there) in
        let s2 =
          produced-Sound e.id removed.0 0 e.outcome.receipt_ids removed.1
            (λ h got. lo h (s (receipt_key e.id) h (sym (remove_value (receipt_key e.id) c) ∙ got)))
            s1 in
        let (s3, rows) = outcome_models-Sound shard_id block_timestamp (i + 1) rest _ s2 l in
        (
          s3,
          map-append link (produced C e.id removed.0 0 e.outcome.receipt_ids removed.1).0 _
              ∙ append-congr (produced-ids e.id removed.0 0 e.outcome.receipt_ids removed.1) rows,
        )
