-- ===== src/Receipts/Rows.antt =====
-- models/receipts.rs and `store_chunk_receipts` of db_adapters/receipts.rs: the rows that are
-- stored for the receipts of a chunk, given the hashes that the search has found.
pub mod Stored
pub mod Sound
use near_indexer_for_explore.Base.{
  ℕ, String, Bool, true, false, not, Option, none, some, List, [], ◌∷◌, ◌++◌, map, filter,
  filter_map, flat_map, map_from, is_some, ◌+◌, ◌==◌, String-eq, ◌||◌, if◌then◌else◌,
}
use near_indexer_for_explore.Base.Map.{get}
use near_indexer_for_explore.Base.Words.{as_i32}
use near_indexer_for_explore.Chain.{
  ReceiptView, ReceiptEnumView, action, datum, ActionBody, ActionView, DataReceiverView,
}
use near_indexer_for_explore.Cache.{
  ReceiptOrDataId, receipt_key, data_key, ReceiptOrDataId-eq, ReceiptsCache,
}
use near_indexer_for_explore.Receipts.{lookup_key, is_action}
use near_indexer_for_explore.Receipts.Search.{
  Hashes, Queries, Progress, searching, found, repeating, failed, find_tx_hashes_for_receipts,
}
use near_indexer_for_explore.Serializers.{
  Json, ActionKind, extract_action_type_and_value_from_action_view,
}

pub data ReceiptKind : Type 0 where
  action_kind data_kind : ReceiptKind

abbrev pub kind_of : ReceiptEnumView → ReceiptKind
kind_of (action body) = action_kind
kind_of (datum data_id bytes) = data_kind

pub record Receipt : Type 0 where
  pub receipt_id : String
  pub included_in_block_hash : String
  pub included_in_chunk_hash : String
  pub index_in_chunk : ℕ
  pub included_in_block_timestamp : ℕ
  pub predecessor_account_id : String
  pub receiver_account_id : String
  pub receipt_kind : ReceiptKind
  pub originated_from_transaction_hash : String

pub record DataReceipt : Type 0 where
  pub data_id : String
  pub receipt_id : String
  pub bytes : Option (List ℕ)

pub record ActionReceipt : Type 0 where
  pub receipt_id : String
  pub signer_account_id : String
  pub signer_public_key : String
  pub gas_price : ℕ

pub record ActionReceiptAction : Type 0 where
  pub receipt_id : String
  pub index_in_action_receipt : ℕ
  pub action_kind : ActionKind
  pub args : Json
  pub receipt_predecessor_account_id : String
  pub receipt_receiver_account_id : String
  pub receipt_included_in_block_timestamp : ℕ

pub record ActionReceiptInputData : Type 0 where
  pub input_to_receipt_id : String
  pub input_data_id : String

pub record ActionReceiptOutputData : Type 0 where
  pub output_from_receipt_id : String
  pub output_data_id : String
  pub receiver_account_id : String

abbrev pub from_receipt_view : ReceiptView → String → String → String → ℕ → ℕ → Receipt
from_receipt_view r block_hash transaction_hash chunk_hash index block_timestamp = record {
  receipt_id = r.receipt_id;
  included_in_block_hash = block_hash;
  included_in_chunk_hash = chunk_hash;
  index_in_chunk = index;
  included_in_block_timestamp = block_timestamp;
  predecessor_account_id = r.predecessor_id;
  receiver_account_id = r.receiver_id;
  receipt_kind = kind_of r.receipt;
  originated_from_transaction_hash = transaction_hash;
}

abbrev pub data_receipt_of : String → ReceiptEnumView → Option DataReceipt
data_receipt_of id (action body) = none
data_receipt_of id (datum data_id bytes) =
    some (record { data_id = data_id; receipt_id = id; bytes = bytes })

-- `DataReceipt::try_from`, and its `ok`.
abbrev pub data_receipt : ReceiptView → Option DataReceipt
data_receipt r = data_receipt_of r.receipt_id r.receipt

abbrev pub action_receipt_of : String → ReceiptEnumView → Option ActionReceipt
action_receipt_of id (datum data_id bytes) = none
action_receipt_of id (action body) = some (record {
  receipt_id = id;
  signer_account_id = body.signer_id;
  signer_public_key = body.signer_public_key;
  gas_price = body.gas_price;
})

abbrev pub action_receipt : ReceiptView → Option ActionReceipt
action_receipt r = action_receipt_of r.receipt_id r.receipt

-- The list that a function takes from an action receipt; a data receipt has none.
abbrev pub of_body : {A : Type 0} → (ActionBody → List A) → ReceiptEnumView → List A
of_body f (action body) = f body
of_body f (datum data_id bytes) = []

abbrev pub output_data : ReceiptView → List ActionReceiptOutputData
output_data r =
    of_body
      (λ body.
        map
          (λ receiver. record {
            output_from_receipt_id = r.receipt_id;
            output_data_id = receiver.data_id;
            receiver_account_id = receiver.receiver_id;
          })
          body.output_data_receivers)
      r.receipt

abbrev pub input_data : ReceiptView → List ActionReceiptInputData
input_data r =
    of_body
      (λ body.
        map (λ data_id. record { input_to_receipt_id = r.receipt_id; input_data_id = data_id })
          body.input_data_ids)
      r.receipt

-- `ActionReceiptAction::from_action_view` for the actions of a receipt. The panic on an index
-- beyond i32 is left out.
abbrev pub actions_in : (String → Option Json) → ℕ → ReceiptView → List ActionReceiptAction
actions_in decode_args block_timestamp r =
    of_body
      (λ body.
        map_from
          (λ i a. record {
            receipt_id = r.receipt_id;
            index_in_action_receipt = i;
            action_kind = (extract_action_type_and_value_from_action_view decode_args a).0;
            args = (extract_action_type_and_value_from_action_view decode_args a).1;
            receipt_predecessor_account_id = r.predecessor_id;
            receipt_receiver_account_id = r.receiver_id;
            receipt_included_in_block_timestamp = block_timestamp;
          })
          0 body.actions)
      r.receipt

-- The rows that one call stores.
pub record ReceiptRows : Type 0 where
  pub receipts : List Receipt
  pub action_receipts : List ActionReceipt
  pub action_receipt_actions : List ActionReceiptAction
  pub action_receipt_output_data : List ActionReceiptOutputData
  pub action_receipt_input_data : List ActionReceiptInputData
  pub data_receipts : List DataReceipt

-- `contains` of the set of skipped receipt ids.
abbrev pub contains : String → List String → Bool
contains s [] = false
contains s (t ∷ ts) = (t == s) || contains s ts

module _ (hashes : Hashes) where
  -- The models, and the ids of the receipts whose parent was not found.
  unfoldable pub receipt_models :
      String → String → ℕ → ℕ → List ReceiptView → List Receipt × List String
  receipt_models block_hash chunk_hash block_timestamp index [] = ([], [])
  receipt_models block_hash chunk_hash block_timestamp index (r ∷ rest) =
      let (models, skipped) =
        receipt_models block_hash chunk_hash block_timestamp (index + 1) rest in
      elim (get (lookup_key r) hashes) [
        | some transaction_hash ↦ (
          from_receipt_view r block_hash transaction_hash chunk_hash (as_i32 index) block_timestamp
              ∷ models,
          skipped,
        )
        | none ↦ (models, r.receipt_id ∷ skipped)
      ]

  module _ (C : ReceiptsCache) where
    open C use {Cache, cache_set}

    abbrev pub set_receivers : String → List DataReceiverView → Cache → Cache
    set_receivers transaction_hash [] c = c
    set_receivers transaction_hash (d ∷ ds) c =
        set_receivers transaction_hash ds (cache_set (data_key d.data_id) transaction_hash c)

    -- The data ids of the outputs of a receipt, whose parent is that of the receipt.
    abbrev pub set_outputs : Option String → List DataReceiverView → Cache → Cache
    set_outputs none receivers c = c
    set_outputs (some transaction_hash) receivers c = set_receivers transaction_hash receivers c

    pub cache_outputs : List ReceiptView → Cache → Cache
    cache_outputs [] c = c
    cache_outputs (r ∷ rest) c = cache_outputs rest (
        set_outputs (get (receipt_key r.receipt_id) hashes)
          (of_body (λ body. body.output_data_receivers) r.receipt) c)

  -- `store_receipt_actions` and `store_receipt_data` of the receipts that are not skipped.
  unfoldable pub chunk_rows :
      (String → Option Json) → String → String → ℕ → List ReceiptView → ReceiptRows
  unfolding receipt_models
  chunk_rows decode_args block_hash chunk_hash block_timestamp receipts =
      let (models, skipped) = receipt_models block_hash chunk_hash block_timestamp 0 receipts in
      let kept = filter (λ r. not (contains r.receipt_id skipped)) receipts in
      let actions = filter (λ r. is_action r.receipt) kept in
      let data_kept = filter (λ r. not (is_action r.receipt)) kept in
      record {
        receipts = models;
        action_receipts = filter_map action_receipt actions;
        action_receipt_actions = flat_map (actions_in decode_args block_timestamp) actions;
        action_receipt_output_data = flat_map output_data actions;
        action_receipt_input_data = flat_map input_data actions;
        data_receipts = filter_map data_receipt data_kept;
      }

-- What one call of `store_chunk_receipts` comes to; `still_searching` is a search out of fuel, or one
-- that still repeats a query.
pub data ChunkResult : Type 0 where
  stored : ReceiptRows → ChunkResult
  returned_error : ChunkResult
  still_searching : ChunkResult

module _ (C : ReceiptsCache) (decode_args : String → Option Json) where
  open C use {Cache}

  -- What follows the search: the cache learns the outputs, and the rows are stored.
  unfoldable pub store_found :
      String → String → ℕ → List ReceiptView → Progress → Cache → ChunkResult × Cache
  unfolding chunk_rows cache_outputs
  store_found block_hash chunk_hash block_timestamp receipts (searching left hashes) c =
      (still_searching, c)
  store_found block_hash chunk_hash block_timestamp receipts repeating c = (still_searching, c)
  store_found block_hash chunk_hash block_timestamp receipts failed c = (returned_error, c)
  store_found block_hash chunk_hash block_timestamp receipts (found hashes) c = (
    stored (chunk_rows hashes decode_args block_hash chunk_hash block_timestamp receipts),
    cache_outputs hashes C receipts c,
  )

  unfoldable pub store_chunk_receipts :
      Queries → Bool → ℕ → String → String → ℕ → List ReceiptView → Cache → ChunkResult × Cache
  unfolding store_found
  store_chunk_receipts q strict_mode fuel block_hash chunk_hash block_timestamp receipts c =
      let (search_result, c') = find_tx_hashes_for_receipts q strict_mode C fuel receipts c in
      store_found block_hash chunk_hash block_timestamp receipts search_result c'
