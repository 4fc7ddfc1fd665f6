-- ===== src/Lockup/Tests.antt =====
-- A lockup with a release and a vesting schedule, for the theorems on circulating_supply/lockup.rs.
use near_indexer_for_explore.Base.{◌-◌, ◌≤◌, ◌≡◌, refl, arith, true, false, none, some}
use near_indexer_for_explore.Lockup.{
  LockupContract, Balance, transfers_enabled, vesting_schedule, get_locked_amount, lockup_end,
  unreleased, share, unvested_part, get_unvested_amount, scheduled,
}
use near_indexer_for_explore.Lockup.Bounds.{IsValid, locked_formula, get_locked_amount-eq-formula}
use near_indexer_for_explore.Lockup.Decrease.{
  get_locked_amount-le, get_locked_amount-antitone, get_locked_amount-bug_le,
}

abbrev contract : LockupContract
contract = record {
  owner_account_id = "owner.near";
  lockup_information = record {
    lockup_amount = 1000;
    termination_withdrawn_tokens = 0;
    lockup_duration = 10;
    release_duration = some 100;
    lockup_timestamp = none;
    transfers_information = transfers_enabled 50;
  };
  vesting_information =
      vesting_schedule (record { start_timestamp = 10; cliff_timestamp = 20; end_timestamp = 210 });
  staking_pool_whitelist_account_id = "whitelist.near";
  staking_information = none;
  foundation_account_id = some "foundation.near";
}

contract-IsValid : IsValid contract
contract-IsValid = record {
  amount_u128 = omega arith;
  withdrawn = omega arith;
  transfers = omega arith;
  release = omega arith;
  vesting =
      (record { start_first = omega arith; cliff_next = omega arith; end_u64 = omega arith }, refl);
}

-- Half of the vesting is left at 110, and half of the release at 110.
locked_half : get_locked_amount contract 110 false ≡ some 500
unfolding get_locked_amount lockup_end unreleased share unvested_part get_unvested_amount scheduled
locked_half = refl

get_locked_amount-eq-formula_example :
    get_locked_amount contract 110 false
    ≡ some (locked_formula contract.lockup_information.transfers_information contract 110 false)
get_locked_amount-eq-formula_example =
    get_locked_amount-eq-formula contract 110 false contract-IsValid

get_locked_amount-le_example :
    (v : Balance) × (get_locked_amount contract 70 true ≡ some v) × (v ≤ 1000 - 0)
get_locked_amount-le_example = get_locked_amount-le contract 70 true contract-IsValid

get_locked_amount-antitone_example :
    (v v' : Balance) × (get_locked_amount contract 70 false ≡ some v)
    × (get_locked_amount contract 110 false ≡ some v')
    × (v' ≤ v)
get_locked_amount-antitone_example =
    get_locked_amount-antitone contract 70 110 false contract-IsValid (omega arith)

get_locked_amount-bug_le_example :
    (v v' : Balance) × (get_locked_amount contract 70 true ≡ some v)
    × (get_locked_amount contract 70 false ≡ some v')
    × (v ≤ v')
get_locked_amount-bug_le_example = get_locked_amount-bug_le contract 70 contract-IsValid
