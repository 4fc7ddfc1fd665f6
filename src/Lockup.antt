-- ===== src/Lockup.antt =====
-- aggregated/circulating_supply/lockup_types.rs: the state of a lockup contract, and the getters
-- of aggregated/circulating_supply/lockup.rs that say how much of it is locked at a time.
-- Time is in nanoseconds and amounts are in yoctoNEAR. `none` is a panic.
pub mod Division
pub mod Bounds
pub mod Decrease
mod Tests
use near_indexer_for_explore.Base.{
  ℕ, ◌-◌, max, String, Bool, Option, none, some, leb, ltb, if◌then◌else◌,
}
use near_indexer_for_explore.Base.Words.{
  saturating_add, sub_u64, sub_u128, mul_u256, div_u256, as_u128, ◌>>=◌,
}

abbrev pub Timestamp : Type 0
Timestamp = ℕ

abbrev pub Balance : Type 0
Balance = ℕ

pub data TransfersInformation : Type 0 where
  transfers_enabled : Timestamp → TransfersInformation
  transfers_disabled : String → TransfersInformation

pub record LockupInformation : Type 0 where
  pub lockup_amount : Balance
  pub termination_withdrawn_tokens : Balance
  pub lockup_duration : ℕ
  pub release_duration : Option ℕ
  pub lockup_timestamp : Option Timestamp
  pub transfers_information : TransfersInformation

pub data TransactionStatus : Type 0 where
  idle busy : TransactionStatus

pub record StakingInformation : Type 0 where
  pub staking_pool_account_id : String
  pub status : TransactionStatus
  pub deposit_amount : Balance

pub record VestingSchedule : Type 0 where
  pub start_timestamp : Timestamp
  pub cliff_timestamp : Timestamp
  pub end_timestamp : Timestamp

pub data TerminationStatus : Type 0 where
  vesting_terminated_with_deficit unstaking_in_progress everything_unstaked : TerminationStatus
  withdrawing_from_staking_pool_in_progress ready_to_withdraw : TerminationStatus
  withdrawing_from_account_in_progress : TerminationStatus

pub record TerminationInformation : Type 0 where
  pub unvested_amount : Balance
  pub status : TerminationStatus

-- `no_vesting` is the source's `None`.
pub data VestingInformation : Type 0 where
  no_vesting : VestingInformation
  vesting_hash : String → VestingInformation
  vesting_schedule : VestingSchedule → VestingInformation
  terminating : TerminationInformation → VestingInformation

pub record LockupContract : Type 0 where
  pub owner_account_id : String
  pub lockup_information : LockupInformation
  pub vesting_information : VestingInformation
  pub staking_pool_whitelist_account_id : String
  pub staking_information : Option StakingInformation
  pub foundation_account_id : Option String

-- `U256::from(amount) * part / whole`, cast back.
unfoldable pub share : Balance → ℕ → ℕ → Option Balance
share amount part whole = do
  product ← mul_u256 amount part
  quotient ← div_u256 product whole
  as_u128 quotient

-- The tokens whose linear release has not come yet, once the lockup has passed.
pub unreleased : LockupInformation → Timestamp → Timestamp → Timestamp → Bool → Option Balance
unreleased info transfers_timestamp lockup_timestamp block_timestamp has_bug =
    elim info.release_duration [
      | none ↦ some 0
      | some release_duration ↦
          let start_lockup = if has_bug then transfers_timestamp else lockup_timestamp in
          let end_timestamp = saturating_add start_lockup release_duration in
          if leb end_timestamp block_timestamp
          then some 0
          else share info.lockup_amount (sub_u64 end_timestamp block_timestamp) release_duration
    ]

pub scheduled : Balance → VestingSchedule → Timestamp → Option Balance
scheduled lockup_amount vs block_timestamp =
    if ltb block_timestamp vs.cliff_timestamp
    then some lockup_amount
    else if leb vs.end_timestamp block_timestamp
    then some 0
    else share lockup_amount (sub_u64 vs.end_timestamp block_timestamp)
        (sub_u64 vs.end_timestamp vs.start_timestamp)

unvested_of : VestingInformation → Balance → VestingSchedule → Timestamp → Option Balance
unvested_of (terminating t) lockup_amount vs block_timestamp = some t.unvested_amount
unvested_of no_vesting lockup_amount vs block_timestamp = some 0
unvested_of _ lockup_amount vs block_timestamp = scheduled lockup_amount vs block_timestamp

pub get_unvested_amount : LockupContract → VestingSchedule → Timestamp → Option Balance
unfolding unvested_of
get_unvested_amount self vs block_timestamp =
    unvested_of self.vesting_information self.lockup_information.lockup_amount vs block_timestamp

-- The `match` on the vesting information in `get_locked_amount`.
pub unvested_part : LockupContract → VestingInformation → Timestamp → Option Balance
unvested_part self (vesting_schedule vs) block_timestamp =
    get_unvested_amount self vs block_timestamp
unvested_part self (terminating t) block_timestamp = some t.unvested_amount
unvested_part self _ block_timestamp = some 0

abbrev pub unwrap_or : Option ℕ → ℕ → ℕ
unwrap_or none d = d
unwrap_or (some n) d = n

unfoldable pub lockup_end : LockupInformation → Timestamp → Timestamp
lockup_end info transfers_timestamp =
    max (saturating_add transfers_timestamp info.lockup_duration)
      (unwrap_or info.lockup_timestamp 0)

released_part : LockupContract → Timestamp → Timestamp → Bool → Option Balance
released_part self transfers_timestamp timestamp has_bug =
    let info = self.lockup_information in
    do
      unreleased_amount ←
          unreleased info transfers_timestamp (lockup_end info transfers_timestamp) timestamp
            has_bug
      unvested_amount ← unvested_part self self.vesting_information timestamp
      some (max (unreleased_amount - info.termination_withdrawn_tokens) unvested_amount)

-- Where transfers are not enabled or the lockup has not passed, everything is locked.
locked_at : TransfersInformation → LockupContract → Timestamp → Bool → Option Balance
locked_at (transfers_enabled transfers_timestamp) self timestamp has_bug =
    let info = self.lockup_information in
    if leb (lockup_end info transfers_timestamp) timestamp
    then released_part self transfers_timestamp timestamp has_bug
    else some (sub_u128 info.lockup_amount info.termination_withdrawn_tokens)
locked_at (transfers_disabled poll) self timestamp has_bug =
    let info = self.lockup_information in
    some (sub_u128 info.lockup_amount info.termination_withdrawn_tokens)

unfoldable pub get_locked_amount : LockupContract → Timestamp → Bool → Option Balance
unfolding locked_at released_part
get_locked_amount self timestamp has_bug =
    locked_at self.lockup_information.transfers_information self timestamp has_bug
