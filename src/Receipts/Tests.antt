-- ===== src/Receipts/Tests.antt =====
-- A chunk with an action receipt whose parent the database knows and a data receipt whose parent
-- the cache knows, for the theorems on receipts.rs.
use near_indexer_for_explore.Base.{
  ◌⊎◌, Bool, ℕ, zero, suc, ◌==◌, map, String-eq, All-map, some_inj, none≢some, ◌∙◌, ◌≤◌, ◌≡◌, ◌≢◌,
  refl, sym, arith, inl, inr, eq_iff, String, true, false, Option, none, some, List, [], ◌∷◌, All,
  filter, filter_map, flat_map,
}
use mathlib.Core.Path.{subst}
use near_indexer_for_explore.Base.Map.{get}
use near_indexer_for_explore.Chain.{ReceiptView, action, datum, transfer}
use near_indexer_for_explore.Cache.{ReceiptOrDataId, receipt_key, data_key, ReceiptOrDataId-eq}
use near_indexer_for_explore.Cache.Functional.{
  Entries, with_entry, with_entry-cases, function_cache,
}
use near_indexer_for_explore.Serializers.{Json}
use near_indexer_for_explore.Receipts.Search.{
  Hashes, Answer, Queries, found, search, round_step, data_step, from_cache, as_receipt_keys,
  as_data_keys, look_in_cache, find_tx_hashes_for_receipts,
}
use near_indexer_for_explore.Receipts.Search.Invariant.{Holds}
use near_indexer_for_explore.Receipts.Search.Skipped.{
  Ended, find_tx_hashes-data_key, find_tx_hashes-Ended,
}
use near_indexer_for_explore.Receipts.Search.Sound.{
  SoundQueries, SoundCache, Linked, Sound, find_tx_hashes-Sound,
}
use near_indexer_for_explore.Receipts.{lookup_key}
use near_indexer_for_explore.Receipts.Search.Ids.{is_in, AllDistinct}
use near_indexer_for_explore.Receipts.Search.Counts.{keys, Exact}
use near_indexer_for_explore.Receipts.Search.Complete.{find_tx_hashes-Complete}
use near_indexer_for_explore.Receipts.Search.Known.{Has, Has-first, Has-cons}
use near_indexer_for_explore.Receipts.Search.Strict.{Answered, find_tx_hashes-Found}
use near_indexer_for_explore.Receipts.Rows.{
  chunk_rows, store_chunk_receipts, action_receipt, actions_in, output_data, input_data,
  data_receipt,
}
use near_indexer_for_explore.Receipts.Rows.Stored.{has_parent, RowsOf, chunk_rows-eq}
use near_indexer_for_explore.Receipts.Rows.Sound.{
  SoundResult, OutputsLinked, store_chunk_receipts-Sound,
}

abbrev receipts : List ReceiptView
receipts =
    record {
      predecessor_id = "alice";
      receiver_id = "bob";
      receipt_id = "r1";
      receipt = action (record {
        signer_id = "alice";
        signer_public_key = "key";
        gas_price = 1;
        output_data_receivers = record { data_id = "d2"; receiver_id = "carol" } ∷ [];
        input_data_ids = "d0" ∷ [];
        actions = transfer 5 ∷ [];
      });
    }
    ∷ record {
      predecessor_id = "bob";
      receiver_id = "carol";
      receipt_id = "r2";
      receipt = datum "d1" none;
    }
    ∷ []

-- The database knows one parent, and knows it through the outcomes.
abbrev queries : Queries
queries = record {
  by_data_output = λ round ids. none ∷ some [] ∷ [];
  by_outcomes = λ round ids. some (("r1", "tx1") ∷ []);
  by_transactions = λ round ids. some [];
}

abbrev entries : Entries
entries = with_entry (data_key "d1") (some "tx1") (λ k. none)

abbrev no_args : String → Option Json
no_args s = none

abbrev hashes : Hashes
hashes = (receipt_key "r1", "tx1") ∷ []

find_tx_hashes-data_key_example :
    Holds
      (λ r. Unit)
      (λ hs.
        get (data_key "d9") hs
        ≡ get (data_key "d9") (look_in_cache function_cache receipts [] entries).0)
      (find_tx_hashes_for_receipts queries false function_cache 5 receipts entries).0
find_tx_hashes-data_key_example =
    find_tx_hashes-data_key queries false function_cache 5 receipts entries "d9"

find_tx_hashes-Ended_example :
    Ended (find_tx_hashes_for_receipts queries false function_cache 5 receipts entries).0
find_tx_hashes-Ended_example =
    find_tx_hashes-Ended queries function_cache 5 receipts entries (λ round ids. refl) (omega arith)

false≢true : false ≢ true
false≢true h = cc

chunk_rows-eq_example :
    let rows = chunk_rows hashes no_args "block" "chunk" 100 receipts in
    let kept = filter (has_parent hashes) receipts in
    RowsOf hashes kept rows.receipts
    × (rows.action_receipts ≡ filter_map action_receipt kept)
    × (rows.action_receipt_actions ≡ flat_map (actions_in no_args 100) kept)
    × (rows.action_receipt_output_data ≡ flat_map output_data kept)
    × (rows.action_receipt_input_data ≡ flat_map input_data kept)
    × (rows.data_receipts ≡ filter_map data_receipt kept)
chunk_rows-eq_example =
    chunk_rows-eq hashes no_args "block" "chunk" 100 receipts
      (((λ h. false≢true ((eq_iff "r2" "r1").1 h)), tt), (tt, tt))

-- Every receipt here descends from the transaction tx1.
abbrev FromTx1 : ReceiptOrDataId → String → Type 0
FromTx1 k h = h ≡ "tx1"

queries_sound : SoundQueries FromTx1 queries
queries_sound = record {
  data_output_sound =
      λ round ids answer e. subst (λ a. Sound FromTx1 (as_data_keys a)) (some_inj e) tt;
  outcomes_sound =
      λ round ids answer e. subst (λ a. Sound FromTx1 (as_receipt_keys a)) (some_inj e) (refl, tt);
  transactions_sound =
      λ round ids answer e. subst (λ a. Sound FromTx1 (as_receipt_keys a)) (some_inj e) tt;
}

entries_sound : SoundCache FromTx1 function_cache entries
entries_sound k h there = elim (with_entry-cases (data_key "d1") k (λ j. none) "tx1" h there) [
  | inl (same, e) ↦ sym e
  | inr missing ↦ absurd (none≢some missing)
]

linked : All (Linked FromTx1) receipts
linked = (tt, ((λ h p. p), tt))

outputs_linked : All (OutputsLinked FromTx1) receipts
outputs_linked = ((λ h p. (p, tt)), ((λ h p. tt), tt))

find_tx_hashes-Sound_example :
    Holds
      (Linked FromTx1)
      (Sound FromTx1)
      (find_tx_hashes_for_receipts queries true function_cache 3 receipts entries).0
    × SoundCache FromTx1 function_cache
        (find_tx_hashes_for_receipts queries true function_cache 3 receipts entries).1
find_tx_hashes-Sound_example =
    find_tx_hashes-Sound FromTx1 function_cache queries true 3 receipts entries queries_sound
      entries_sound linked

store_chunk_receipts-Sound_example :
    let result =
      store_chunk_receipts function_cache no_args queries true 3 "block" "chunk" 100 receipts
        entries in
    SoundResult FromTx1 result.0 × SoundCache FromTx1 function_cache result.1
store_chunk_receipts-Sound_example =
    store_chunk_receipts-Sound FromTx1 function_cache no_args "block" "chunk" 100 queries true 3
      receipts entries queries_sound entries_sound linked outputs_linked

-- Every id has a row, from the second round on.
abbrev rows_of : String → List String → Answer
rows_of tx_hash = map (λ id. (id, tx_hash))

abbrev late : ℕ → List String → Answer
late zero ids = []
late (suc round) ids = rows_of "tx1" ids

abbrev late_queries : Queries
late_queries = record {
  by_data_output = λ round ids. none ∷ some (late round ids) ∷ [];
  by_outcomes = λ round ids. some (late round ids);
  by_transactions = λ round ids. some (rows_of "tx2" ids);
}

rows_of-Has : (tx_hash : String) (ids : List String) → All (λ id. Has id (rows_of tx_hash ids)) ids
rows_of-Has tx_hash [] = tt
rows_of-Has tx_hash (id ∷ ids) = (
  Has-first id tx_hash (rows_of tx_hash ids),
  All-map _ _ ids (λ other h. Has-cons other (id, tx_hash) (rows_of tx_hash ids) h)
      (rows_of-Has tx_hash ids),
)

late-Has : (round : ℕ) (ids : List String) → 1 ≤ round → All (λ id. Has id (late round ids)) ids
late-Has zero ids h = absurd (omega arith)
late-Has (suc round) ids h = rows_of-Has "tx1" ids

late-asked : (round : ℕ) → late round [] ≡ []
late-asked zero = refl
late-asked (suc round) = refl

late-Answered : Answered late_queries (λ id. id == "r1") 1
late-Answered = record {
  data_output_given = λ round ids. refl;
  outcomes_given = λ round ids. refl;
  transactions_given = λ round ids. refl;
  outcomes_asked = λ round answer e. sym (some_inj e) ∙ late-asked round;
  data_output_there = λ round ids answer h e.
      subst (λ x. All (λ id. Has id x) ids) (some_inj e) (late-Has round ids h);
  outcomes_there = λ round ids answer h e.
      subst (λ x. All (λ id. (id == "r1") ≡ true → Has id x) ids) (some_inj e)
        (All-map _ _ ids (λ id there is_r1. there) (late-Has round ids h));
  transactions_there = λ round ids answer h e.
      subst (λ x. All (λ id. (id == "r1") ≡ false → Has id x) ids) (some_inj e)
        (All-map _ _ ids (λ id there is_other. there) (rows_of-Has "tx2" ids));
}

find_tx_hashes-Found_example :
    (hashes : Hashes) × ((find_tx_hashes_for_receipts late_queries true function_cache 3 receipts
        entries).0
      ≡ found hashes)
find_tx_hashes-Found_example =
    find_tx_hashes-Found late_queries (λ id. id == "r1") 1 function_cache 3 receipts entries
      late-Answered (omega arith)

-- A row for the receipt r1 where it is asked for.
abbrev row_if : Bool → Answer
row_if true = ("r1", "tx1") ∷ []
row_if false = []

abbrev asked_row : List String → Answer
asked_row ids = row_if (is_in "r1" ids)

abbrev exact_queries : Queries
exact_queries = record {
  by_data_output = λ round ids. none ∷ some [] ∷ [];
  by_outcomes = λ round ids. some (asked_row ids);
  by_transactions = λ round ids. some [];
}

row_if-exact :
    (ids : List String) (b : Bool)
    → is_in "r1" ids ≡ b
    → AllDistinct (keys (row_if b)) × All (λ id. is_in id ids ≡ true) (keys (row_if b))
row_if-exact ids true asked = ((refl, tt), (asked, tt))
row_if-exact ids false asked = (tt, tt)

exact_queries-Exact : Exact exact_queries
exact_queries-Exact = record {
  outcomes_exact = λ round ids answer e.
      subst (λ a. AllDistinct (keys a) × All (λ id. is_in id ids ≡ true) (keys a)) (some_inj e)
        (row_if-exact ids (is_in "r1" ids) refl);
  transactions_exact = λ round ids answer e.
      subst (λ a. AllDistinct (keys a) × All (λ id. is_in id ids ≡ true) (keys a)) (some_inj e)
        (tt, tt);
}

abbrev both_hashes : Hashes
both_hashes = (data_key "d1", "tx1") ∷ (receipt_key "r1", "tx1") ∷ []

both_found :
    (find_tx_hashes_for_receipts exact_queries true function_cache 2 receipts entries).0
    ≡ found both_hashes
unfolding find_tx_hashes_for_receipts look_in_cache search round_step data_step from_cache
both_found = refl

find_tx_hashes-Complete_example :
    All (λ r. Has (lookup_key r) both_hashes ⊎ Has (receipt_key r.receipt_id) both_hashes) receipts
find_tx_hashes-Complete_example =
    find_tx_hashes-Complete exact_queries function_cache 2 receipts entries both_hashes
      exact_queries-Exact both_found
