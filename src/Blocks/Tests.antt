-- ===== src/Blocks/Tests.antt =====
-- Rows of `blocks`, for the theorem on db_adapters/blocks.rs.
use near_indexer_for_explore.Base.{ℕ, ◌≤◌, refl, true, List, [], ◌∷◌, arith}
use near_indexer_for_explore.Supply.{Block}
use near_indexer_for_explore.Blocks.Latest.{Among, here, get_latest_block_before_timestamp-Among}
use near_indexer_for_explore.Blocks.Largest.{order}

abbrev at_time : ℕ → Block
at_time timestamp = record {
  block_height = timestamp;
  block_hash = "block";
  prev_block_hash = "before";
  block_timestamp = timestamp;
  total_supply = 1000;
  gas_price = 1;
  author_account_id = "validator";
}

abbrev rows : List Block
rows = at_time 3 ∷ at_time 9 ∷ at_time 5 ∷ []

get_latest_block_before_timestamp-Among_example : Among (at_time 5) rows × (5 ≤ 7) × (3 ≤ 5)
get_latest_block_before_timestamp-Among_example =
    get_latest_block_before_timestamp-Among order true rows 7 (at_time 5) (at_time 3) refl here
      (omega arith)
