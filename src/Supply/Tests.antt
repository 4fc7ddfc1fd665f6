-- ===== src/Supply/Tests.antt =====
-- One lockup account, for the theorem on circulating_supply/mod.rs.
use near_indexer_for_explore.Base.{
  ℕ, ◌+◌, ◌*◌, ◌^◌, ◌≡◌, refl, arith, true, false, none, some, List, [], ◌∷◌, String, String-eq,
  ◌==◌, if◌then◌else◌,
}
use near_indexer_for_explore.Base.Words.{as_i32}
use near_indexer_for_explore.Lockup.{
  LockupContract, transfers_disabled, no_vesting, lockup_end, get_locked_amount,
}
use near_indexer_for_explore.Supply.{
  ViewClient, Block, CirculatingSupply, get_lockup_contract_state, is_bug_inside_contract,
  lockup_locked_amount, sum_lockups, sum_balances, compute_circulating_supply_for_block,
}
use near_indexer_for_explore.Supply.Daily.{
  day, first_day, insert_refused, insert_lost, Round, Progress, run_circulating_supply_computation,
}
use near_indexer_for_explore.Supply.Daily.Covered.{
  IsCovered, run_circulating_supply_computation-covers,
}
use near_indexer_for_explore.Blocks.Latest.{Among}
use near_indexer_for_explore.Blocks.Largest.{order}
use near_indexer_for_explore.Supply.Balanced.{count_positive, compute_circulating_supply-Balanced}

-- A lockup that was never opened by a vote, with its release long over.
abbrev contract : LockupContract
contract = record {
  owner_account_id = "owner.near";
  lockup_information = record {
    lockup_amount = 1000;
    termination_withdrawn_tokens = 0;
    lockup_duration = 0;
    release_duration = none;
    lockup_timestamp = none;
    transfers_information = transfers_disabled "vote.near";
  };
  vesting_information = no_vesting;
  staking_pool_whitelist_account_id = "whitelist.near";
  staking_information = none;
  foundation_account_id = none;
}

abbrev view : ViewClient
view = record {
  lockup_state = λ id. some contract;
  code_hash = λ id. some "4Pfw2RU6e35dUsHQQoFYfwX8KFFvSRNwMSNLXuSFHXrC";
  balance = λ id. some 10;
}

-- Before the transfers were enabled everything is locked.
abbrev block : Block
block = record {
  block_height = 1;
  block_hash = "block";
  prev_block_hash = "genesis";
  block_timestamp = 5;
  total_supply = 5000;
  gas_price = 1;
  author_account_id = "author.near";
}

all_locked : lockup_locked_amount view 5 "a.lockup.near" ≡ some 1000
unfolding lockup_locked_amount get_lockup_contract_state is_bug_inside_contract get_locked_amount
    lockup_end
all_locked = refl

compute_circulating_supply-Balanced_example :
    (s : CirculatingSupply) × (compute_circulating_supply_for_block view
        ("a.lockup.near" ∷ [])
        block
      ≡ some s)
    × (s.circulating_tokens_supply + s.foundation_locked_tokens + s.lockups_locked_tokens ≡ 5000)
    × (s.foundation_locked_tokens ≡ 20)
    × (s.lockups_locked_tokens ≡ 1000)
    × (s.unfinished_lockup_contracts_count ≡ as_i32 (count_positive (1000 ∷ [])))
compute_circulating_supply-Balanced_example =
    compute_circulating_supply-Balanced view ("a.lockup.near" ∷ []) block (1000 ∷ []) (10 ∷ 10 ∷ [])
      (all_locked, tt) (refl, (refl, tt)) (omega arith) (omega arith) (omega arith) (omega arith)

abbrev older : Block
older = record block { block_height = 0; block_hash = "genesis"; block_timestamp = 3 }

-- The node is behind at first; then a query fails; then, with one more block in the database, an
-- insert is refused, and then lost.
abbrev rounds : List Round
rounds =
    record {
      final_timestamps = none ∷ some 5 ∷ [];
      blocks = [];
      block_found = false;
      precomputed_found = true;
      lockup_account_ids = some ("a.lockup.near" ∷ []);
      view = view;
      failed_inserts = [];
    }
    ∷ record {
      final_timestamps = some (2 ^ 62) ∷ [];
      blocks = older ∷ [];
      block_found = true;
      precomputed_found = false;
      lockup_account_ids = some ("a.lockup.near" ∷ []);
      view = view;
      failed_inserts = [];
    }
    ∷ record {
      final_timestamps = none ∷ some (2 ^ 62) ∷ [];
      blocks = older ∷ block ∷ [];
      block_found = true;
      precomputed_found = true;
      lockup_account_ids = some ("a.lockup.near" ∷ []);
      view = view;
      failed_inserts = insert_refused ∷ insert_lost ∷ [];
    }
    ∷ []

abbrev covered : Progress order
covered = run_circulating_supply_computation order rounds (first_day, [])

one_day_later : covered.0 ≡ first_day + day
unfolding run_circulating_supply_computation compute_circulating_supply_for_block sum_lockups
    sum_balances lockup_locked_amount get_lockup_contract_state is_bug_inside_contract
    get_locked_amount lockup_end
one_day_later = refl

abbrev time_of : String → ℕ
time_of block_hash = if block_hash == "block" then 5 else 3

run_circulating_supply_computation-covers_example :
    ((days : ℕ) × (covered.0 ≡ first_day + days * day))
    × IsCovered time_of order (λ r. Among r rounds) first_day covered.1
run_circulating_supply_computation-covers_example =
    let reached = one_day_later in
    run_circulating_supply_computation-covers time_of order rounds [] 0
      (tt, ((refl, tt), ((refl, (refl, tt)), tt))) tt (omega (arith, reached))
