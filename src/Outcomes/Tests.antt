-- ===== src/Outcomes/Tests.antt =====
-- An outcome that produces two receipts, for the theorem on execution_outcomes.rs.
use near_indexer_for_explore.Base.{
  none≢some, ◌≡◌, sym, String, none, some, List, [], ◌∷◌, map, flat_map, inl, inr,
}
use near_indexer_for_explore.Chain.{OutcomeWithReceipt, datum, success_value}
use near_indexer_for_explore.Cache.{ReceiptOrDataId, receipt_key}
use near_indexer_for_explore.Cache.Functional.{
  Entries, with_entry, with_entry-cases, function_cache,
}
use near_indexer_for_explore.Receipts.Search.Sound.{SoundCache}
use near_indexer_for_explore.Outcomes.{outcome_models}
use near_indexer_for_explore.Outcomes.Sound.{link, links_of, outcome_models-Sound}

abbrev outcomes : List OutcomeWithReceipt
outcomes =
    record {
      execution_outcome = record {
        block_hash = "block";
        id = "r1";
        outcome = record {
          logs = [];
          receipt_ids = "r2" ∷ "r3" ∷ [];
          gas_burnt = 0;
          tokens_burnt = 0;
          executor_id = "bob";
          status = success_value;
        };
      };
      receipt = record {
        predecessor_id = "alice";
        receiver_id = "bob";
        receipt_id = "r1";
        receipt = datum "d1" none;
      };
    }
    ∷ []

abbrev entries : Entries
entries = with_entry (receipt_key "r1") (some "tx1") (λ k. none)

abbrev FromTx1 : ReceiptOrDataId → String → Type 0
FromTx1 k h = h ≡ "tx1"

entries_sound : SoundCache FromTx1 function_cache entries
entries_sound k h there = elim (with_entry-cases (receipt_key "r1") k (λ j. none) "tx1" h there) [
  | inl (same, e) ↦ sym e
  | inr missing ↦ absurd (none≢some missing)
]

outcome_models-Sound_example :
    let result = outcome_models function_cache 0 100 0 outcomes entries in
    SoundCache FromTx1 function_cache result.1
    × (map link result.0.1
        ≡ flat_map
            (λ o. links_of o.execution_outcome.id o.execution_outcome.outcome.receipt_ids)
            outcomes)
outcome_models-Sound_example =
    outcome_models-Sound FromTx1 function_cache 0 100 0 outcomes entries entries_sound
      ((λ h p. (p, (p, tt))), tt)
