-- ===== src/Assets.antt =====
-- db_adapters/assets: the events that contracts log, and their way into the tables of fungible
-- and non-fungible token events. This file has event_types.rs and events.rs. Parsing JSON
-- (crate `serde_json`) is a parameter.
pub mod Rows
pub mod Batches
pub mod Partition
mod Tests
use near_indexer_for_explore.Base.{
  ℕ, String, Bool, true, false, Option, none, some, List, [], ◌∷◌, ◌++◌, filter_map, ◌==◌,
  String-eq, if◌then◌else◌,
}
use near_indexer_for_explore.Base.Words.{◌>>=◌}
use near_indexer_for_explore.Chain.{OutcomeWithReceipt, ShardView}
use near_indexer_for_explore.Text.{trim, strip_prefix}

pub record FtMintData : Type 0 where
  pub owner_id : String
  pub amount : String
  pub memo : Option String

pub record FtTransferData : Type 0 where
  pub old_owner_id : String
  pub new_owner_id : String
  pub amount : String
  pub memo : Option String

pub record FtBurnData : Type 0 where
  pub owner_id : String
  pub amount : String
  pub memo : Option String

pub data Nep141EventKind : Type 0 where
  ft_mint : List FtMintData → Nep141EventKind
  ft_transfer : List FtTransferData → Nep141EventKind
  ft_burn : List FtBurnData → Nep141EventKind

pub record Nep141Event : Type 0 where
  pub version : String
  pub event_kind : Nep141EventKind

pub record NftMintData : Type 0 where
  pub owner_id : String
  pub token_ids : List String
  pub memo : Option String

pub record NftTransferData : Type 0 where
  pub authorized_id : Option String
  pub old_owner_id : String
  pub new_owner_id : String
  pub token_ids : List String
  pub memo : Option String

pub record NftBurnData : Type 0 where
  pub authorized_id : Option String
  pub owner_id : String
  pub token_ids : List String
  pub memo : Option String

pub data Nep171EventKind : Type 0 where
  nft_mint : List NftMintData → Nep171EventKind
  nft_transfer : List NftTransferData → Nep171EventKind
  nft_burn : List NftBurnData → Nep171EventKind

pub record Nep171Event : Type 0 where
  pub version : String
  pub event_kind : Nep171EventKind

pub data NearEvent : Type 0 where
  nep141 : Nep141Event → NearEvent
  nep171 : Nep171Event → NearEvent

-- Events of a shard with the outcomes whose logs they stand in.
pub record Sorted : Type 0 where
  pub ft : List (Nep141Event × OutcomeWithReceipt)
  pub nft : List (Nep171Event × OutcomeWithReceipt)

module _ (parse_event : String → Option NearEvent) where
  extract_event : String → Option NearEvent
  extract_event untrimmed_log = do
    body ← strip_prefix "EVENT_JSON:" (trim untrimmed_log)
    parse_event (trim body)

  pub extract_events : OutcomeWithReceipt → List NearEvent
  unfolding extract_event
  extract_events outcome = filter_map extract_event outcome.execution_outcome.outcome.logs

  pub push_event : OutcomeWithReceipt → NearEvent → Sorted → Sorted
  push_event outcome (nep141 ft_event) s = record s { ft = s.ft ++ (ft_event, outcome) ∷ [] }
  push_event outcome (nep171 nft_event) s = record s { nft = s.nft ++ (nft_event, outcome) ∷ [] }

  pub push_events : OutcomeWithReceipt → List NearEvent → Sorted → Sorted
  push_events outcome [] s = s
  push_events outcome (event ∷ rest) s = push_events outcome rest (push_event outcome event s)

  unfoldable pub collect_from : List OutcomeWithReceipt → Sorted → Sorted
  collect_from [] s = s
  collect_from (outcome ∷ rest) s =
      collect_from rest (push_events outcome (extract_events outcome) s)

  -- The two vectors that `collect_and_store_events` fills.
  unfoldable pub collect_events : ShardView → Sorted
  unfolding collect_from push_events push_event
  collect_events shard =
      collect_from shard.receipt_execution_outcomes (record { ft = []; nft = [] })

-- actix_diesel's error, as far as `detect_db_error` takes it apart: a unique violation with the
-- name of the constraint, or any other.
pub data DbError : Type 0 where
  unique_violation : Option String → DbError
  other_error : DbError

abbrev constraint_or_empty : Option String → String
constraint_or_empty none = ""
constraint_or_empty (some name) = name

-- The branch on the broken-data constraint only logs.
pub detect_db_error : DbError → String → String → Bool
detect_db_error (unique_violation constraint) duplicate_constraint_name
      broken_data_constraint_name =
    let constraint_name = constraint_or_empty constraint in
    if constraint_name == duplicate_constraint_name then true else false
detect_db_error other_error duplicate_constraint_name broken_data_constraint_name = false
