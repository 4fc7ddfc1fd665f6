-- ===== src/Supply/Daily.antt =====
-- The daily loop of aggregated/circulating_supply/mod.rs, with
-- db_adapters/aggregated/circulating_supply.rs: which days are computed, and what is stored for
-- them. The answers that one round of the loop gets from the node and the database are a record;
-- waiting is left out.
pub mod Covered
use near_indexer_for_explore.Base.{
  ℕ, ◌+◌, ◌-◌, ◌*◌, ◌/◌, ◌%◌, ◌^◌, String, Bool, true, false, not, Option, none, some, List, [],
  ◌∷◌, ◌++◌, ltb, eqb, ◌==◌, String-eq, if◌then◌else◌,
}
use near_indexer_for_explore.Base.Words.{to_u64, to_u128, ◌>>=◌}
use near_indexer_for_explore.Blocks.Latest.{FirstDescending, get_latest_block_before_timestamp}
use near_indexer_for_explore.Supply.{
  Block, CirculatingSupply, ViewClient, transfers_enabled_timestamp,
  compute_circulating_supply_for_block,
}

-- Durations are in nanoseconds.
abbrev second : ℕ
second = 1000000000

abbrev pub day : ℕ
day = 86400 * second

-- `day_to_compute` before the loop: ten minutes into the day after the transfers were enabled.
abbrev pub first_day : ℕ
first_day =
    transfers_enabled_timestamp
    - (transfers_enabled_timestamp / second) % 86400 * second
    + day
    + 600 * second

-- `start_of_day as u64`.
abbrev pub start_of_day : ℕ → ℕ
start_of_day request_datetime = (request_datetime - request_datetime % day) % 2 ^ 64

-- What a failed attempt to insert has done: nothing, or the row is there and the reply was lost.
pub data FailedInsert : Type 0 where
  insert_refused insert_lost : FailedInsert

-- The answers of one round: the timestamps of the final block or errors, the rows of `blocks` when they
-- are asked for, whether the two queries of the database succeed, the lockup accounts, the view
-- client at the block, and the attempts to insert that fail before one succeeds.
pub record Round : Type 0 where
  pub final_timestamps : List (Option ℕ)
  pub blocks : List Block
  pub block_found : Bool
  pub precomputed_found : Bool
  pub lockup_account_ids : Option (List String)
  pub view : ViewClient
  pub failed_inserts : List FailedInsert

-- Whether the wait comes to its end with these answers.
abbrev pub wait_for_loading_needed_blocks : List (Option ℕ) → ℕ → Bool
wait_for_loading_needed_blocks [] day_to_compute = false
wait_for_loading_needed_blocks (none ∷ rest) day_to_compute =
    wait_for_loading_needed_blocks rest day_to_compute
wait_for_loading_needed_blocks (some timestamp ∷ rest) day_to_compute =
    let later = wait_for_loading_needed_blocks rest day_to_compute in
    if ltb day_to_compute timestamp then true else later

abbrev pub has_hash : String → List CirculatingSupply → Bool
has_hash block_hash [] = false
has_hash block_hash (s ∷ rest) =
    if s.computed_at_block_hash == block_hash then true else has_hash block_hash rest

-- The insert that does nothing on a conflict; the hash of the block is the primary key.
abbrev pub insert_supply : CirculatingSupply → List CirculatingSupply → List CirculatingSupply
insert_supply stats supplies =
    if has_hash stats.computed_at_block_hash supplies then supplies else stats ∷ supplies

abbrev pub add_circulating_supply :
    List FailedInsert → CirculatingSupply → List CirculatingSupply → List CirculatingSupply
add_circulating_supply [] stats supplies = insert_supply stats supplies
add_circulating_supply (insert_refused ∷ rest) stats supplies =
    add_circulating_supply rest stats supplies
add_circulating_supply (insert_lost ∷ rest) stats supplies =
    add_circulating_supply rest stats (insert_supply stats supplies)

abbrev pub find_supply : ℕ → List CirculatingSupply → Option ℕ
find_supply timestamp [] = none
find_supply timestamp (s ∷ rest) =
    if eqb s.computed_at_block_timestamp timestamp
    then some s.circulating_tokens_supply
    else find_supply timestamp rest

abbrev pub parse_supply : Option ℕ → Option (Option ℕ)
parse_supply none = some none
parse_supply (some value) = to_u128 value >>= λ supply. some (some supply)

-- `none` is an error.
abbrev pub get_precomputed_circulating_supply_for_timestamp :
    Bool → ℕ → List CirculatingSupply → Option (Option ℕ)
get_precomputed_circulating_supply_for_timestamp ok timestamp supplies =
    if ok then parse_supply (find_supply timestamp supplies) else none

module _ (Q : FirstDescending) where
  -- What follows the precomputed supply: `none` is an error, and else the rows after it.
  abbrev pub collect :
      Round → Block → List CirculatingSupply → Option ℕ → Option (List CirculatingSupply)
  collect r block supplies (some supply) = some supplies
  collect r block supplies none = r.lockup_account_ids >>= λ ids.
      compute_circulating_supply_for_block r.view ids block >>= λ supply.
      some (add_circulating_supply r.failed_inserts supply supplies)

  abbrev pub check_and_collect_daily_circulating_supply :
      Round → ℕ → List CirculatingSupply → Option (List CirculatingSupply)
  check_and_collect_daily_circulating_supply r request_datetime supplies =
      get_latest_block_before_timestamp Q r.block_found r.blocks (start_of_day request_datetime)
      >>= λ block. to_u64 block.block_timestamp >>= λ block_timestamp.
          get_precomputed_circulating_supply_for_timestamp r.precomputed_found block_timestamp
            supplies
          >>= collect r block supplies

  -- The day to compute and the rows of `aggregated__circulating_supply`.
  abbrev pub Progress : Type 0
  Progress = ℕ × List CirculatingSupply

  abbrev pub next_day : Progress → Option (List CirculatingSupply) → Progress
  next_day (day_to_compute, supplies) none = (day_to_compute, supplies)
  next_day (day_to_compute, supplies) (some collected) = (day_to_compute + day, collected)

  -- One round of the loop; while it waits for blocks nothing changes.
  abbrev pub run_round : Round → Progress → Progress
  run_round r (day_to_compute, supplies) =
      if wait_for_loading_needed_blocks r.final_timestamps day_to_compute
      then next_day (day_to_compute, supplies)
          (check_and_collect_daily_circulating_supply r day_to_compute supplies)
      else (day_to_compute, supplies)

  unfoldable pub run_circulating_supply_computation : List Round → Progress → Progress
  run_circulating_supply_computation [] p = p
  run_circulating_supply_computation (r ∷ rest) p =
      run_circulating_supply_computation rest (run_round r p)
