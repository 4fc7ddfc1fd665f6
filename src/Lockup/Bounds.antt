-- ===== src/Lockup/Bounds.antt =====
-- What the lockup contract establishes at its initialization, and what is locked as
-- a plain formula, without wrapping or panics, for `get_locked_amount` of aggregated/circulating_supply/lockup.rs.
use near_indexer_for_explore.Base.{
  ℕ, ◌-◌, ◌*◌, ◌/◌, ◌^◌, ◌≤◌, ◌<◌, max, ◌≡◌, refl, ap, Bool, true, false, Option, none, some, arith,
  ltb, leb, Bool-cases, inl, inr, if◌then◌else◌,
}
use near_indexer_for_explore.Base.Words.{saturating_add, sub_u64, sub_u128}
use near_indexer_for_explore.Lockup.{
  Timestamp, Balance, LockupInformation, TransfersInformation, transfers_enabled,
  transfers_disabled, VestingSchedule, VestingInformation, no_vesting, vesting_hash,
  vesting_schedule, terminating, LockupContract, share, unreleased, scheduled, get_unvested_amount,
  unvested_part, lockup_end, released_part, get_locked_amount, locked_at,
}
use near_indexer_for_explore.Lockup.Division.{share-some}

-- A schedule in order, with its end a u64.
pub record ScheduleIsValid (vs : VestingSchedule) : Type 0 where
  pub start_first : vs.start_timestamp ≤ vs.cliff_timestamp
  pub cliff_next : vs.cliff_timestamp ≤ vs.end_timestamp
  pub end_u64 : vs.end_timestamp < 2 ^ 64

-- Tokens are withdrawn only by a termination, and what is unvested is not withdrawn yet.
abbrev pub VestingIsValid : VestingInformation → Balance → Balance → Type 0
VestingIsValid (vesting_schedule vs) amount withdrawn = ScheduleIsValid vs × (withdrawn ≡ 0)
VestingIsValid (terminating t) amount withdrawn = t.unvested_amount ≤ amount - withdrawn
VestingIsValid _ amount withdrawn = Unit

abbrev pub DurationIsValid : Option ℕ → Type 0
DurationIsValid none = Unit
DurationIsValid (some d) = d < 2 ^ 64

abbrev pub TransfersIsValid : TransfersInformation → Type 0
TransfersIsValid (transfers_enabled transfers) = transfers < 2 ^ 64
TransfersIsValid (transfers_disabled poll) = Unit

pub record IsValid (self : LockupContract) : Type 0 where
  pub amount_u128 : self.lockup_information.lockup_amount < 2 ^ 128
  pub withdrawn :
      self.lockup_information.termination_withdrawn_tokens ≤ self.lockup_information.lockup_amount
  pub transfers : TransfersIsValid self.lockup_information.transfers_information
  pub release : DurationIsValid self.lockup_information.release_duration
  pub vesting :
      VestingIsValid self.vesting_information self.lockup_information.lockup_amount
        self.lockup_information.termination_withdrawn_tokens

-- The formulas of the contract's documentation over unbounded numbers.
abbrev pub release_formula : Option ℕ → Balance → Timestamp → Timestamp → Balance
release_formula none amount start t = 0
release_formula (some d) amount start t =
    let end = saturating_add start d in if leb end t then 0 else amount * (end - t) / d

abbrev pub vesting_formula : VestingInformation → Balance → Timestamp → Balance
vesting_formula (vesting_schedule vs) amount t =
    if ltb t vs.cliff_timestamp
    then amount
    else if leb vs.end_timestamp t
    then 0
    else amount * (vs.end_timestamp - t) / (vs.end_timestamp - vs.start_timestamp)
vesting_formula (terminating i) amount t = i.unvested_amount
vesting_formula _ amount t = 0

abbrev pub start_of : LockupInformation → Timestamp → Bool → Timestamp
start_of info transfers bug = if bug then transfers else lockup_end info transfers

-- What is locked once the lockup has passed.
abbrev pub open_formula : LockupContract → Timestamp → Timestamp → Bool → Balance
open_formula self transfers t bug =
    let info = self.lockup_information in
    max
      (release_formula info.release_duration info.lockup_amount (start_of info transfers bug) t
        - info.termination_withdrawn_tokens)
      (vesting_formula self.vesting_information info.lockup_amount t)

abbrev pub locked_formula : TransfersInformation → LockupContract → Timestamp → Bool → Balance
locked_formula (transfers_enabled transfers) self t bug =
    if leb (lockup_end self.lockup_information transfers) t
    then open_formula self transfers t bug
    else self.lockup_information.lockup_amount
      - self.lockup_information.termination_withdrawn_tokens
locked_formula (transfers_disabled poll) self t bug =
    self.lockup_information.lockup_amount - self.lockup_information.termination_withdrawn_tokens

-- What is left of a release whose end is saturated is a part of the whole.
left_le :
    (start d t : ℕ)
    → start ≤ t
    → d < 2 ^ 64
    → t < saturating_add start d
    → saturating_add start d - t ≤ d
left_le start d t h k l = omega arith

share_value :
    (a start d t : ℕ)
    → a < 2 ^ 128
    → start ≤ t
    → d < 2 ^ 64
    → t < saturating_add start d
    → share a (sub_u64 (saturating_add start d) t) d ≡ some (a * (saturating_add start d - t) / d)
share_value a start d t ha hs hd ht =
    let le : saturating_add start d - t ≤ d = left_le start d t hs hd ht in
    let same : sub_u64 (saturating_add start d) t ≡ saturating_add start d - t = omega arith in
    rw same (share-some a (saturating_add start d - t) d ha (omega arith) (omega arith) le)

release_value :
    (a : ℕ) (r : Option ℕ) (start t : ℕ)
    → a < 2 ^ 128
    → DurationIsValid r
    → start ≤ t
    → elim r [
      | none ↦ some 0
      | some d ↦
          if leb (saturating_add start d) t
          then some 0
          else share a (sub_u64 (saturating_add start d) t) d
    ]
      ≡ some (release_formula r a start t)
release_value a none start t ha hd hs = refl
release_value a (some d) start t ha hd hs = elim (Bool-cases (leb (saturating_add start d) t)) [
  | inl over ↦ rw over
  | inr left ↦ rw left (share_value a start d t ha hs hd (ground arith))
]

pub start_of_le :
    (info : LockupInformation) (transfers t : ℕ) (bug : Bool)
    → transfers < 2 ^ 64
    → lockup_end info transfers ≤ t
    → start_of info transfers bug ≤ t
unfolding lockup_end
start_of_le info transfers t true h k = omega arith
start_of_le info transfers t false h k = k

pub unreleased-eq :
    (info : LockupInformation) (transfers t : ℕ) (bug : Bool)
    → info.lockup_amount < 2 ^ 128
    → DurationIsValid info.release_duration
    → transfers < 2 ^ 64
    → lockup_end info transfers ≤ t
    → unreleased info transfers (lockup_end info transfers) t bug
      ≡ some
          (release_formula info.release_duration info.lockup_amount (start_of info transfers bug) t)
unfolding unreleased
unreleased-eq info transfers t bug ha hd hu hs =
    release_value info.lockup_amount info.release_duration (start_of info transfers bug) t ha hd
      (start_of_le info transfers t bug hu hs)

scheduled-eq :
    (a : ℕ) (vs : VestingSchedule) (t : ℕ)
    → a < 2 ^ 128
    → ScheduleIsValid vs
    → scheduled a vs t ≡ some (vesting_formula (vesting_schedule vs) a t)
unfolding scheduled
scheduled-eq a vs t ha v = elim (Bool-cases (ltb t vs.cliff_timestamp)) [
  | inl early ↦ rw early
  | inr late ↦ elim (Bool-cases (leb vs.end_timestamp t)) [
    | inl over ↦ rw (late, over)
    | inr left ↦
        let h : t < vs.end_timestamp = ground arith in
        let k : vs.cliff_timestamp ≤ t = ground arith in
        let p : sub_u64 vs.end_timestamp t ≡ vs.end_timestamp - t = omega arith in
        let w : sub_u64 vs.end_timestamp vs.start_timestamp
            ≡ vs.end_timestamp - vs.start_timestamp =
          omega arith in
        rw (late, left, p, w)
          (share-some a (vs.end_timestamp - t) (vs.end_timestamp - vs.start_timestamp) ha
            (omega arith) (omega arith) (omega arith))
  ]
]

-- The unvested part is the formula's, whichever the vesting information is.
vested_eq :
    (self : LockupContract) (v : VestingInformation) (t : ℕ)
    → self.vesting_information ≡ v
    → IsValid self
    → VestingIsValid v self.lockup_information.lockup_amount
        self.lockup_information.termination_withdrawn_tokens
    → unvested_part self v t ≡ some (vesting_formula v self.lockup_information.lockup_amount t)
unfolding unvested_part get_unvested_amount
vested_eq self (vesting_schedule vs) t e h v =
    rw e (scheduled-eq self.lockup_information.lockup_amount vs t h.amount_u128 v.0)
vested_eq self (terminating i) t e h v = refl
vested_eq self no_vesting t e h v = refl
vested_eq self (vesting_hash d) t e h v = refl

released-eq :
    (self : LockupContract) (transfers t : ℕ) (bug : Bool)
    → IsValid self
    → transfers < 2 ^ 64
    → lockup_end self.lockup_information transfers ≤ t
    → released_part self transfers t bug ≡ some (open_formula self transfers t bug)
unfolding released_part
released-eq self transfers t bug h hu hs = rw (
  unreleased-eq self.lockup_information transfers t bug h.amount_u128 h.release hu hs,
  vested_eq self self.vesting_information t refl h h.vesting,
)

whole-eq : (a w : ℕ) → a < 2 ^ 128 → w ≤ a → sub_u128 a w ≡ a - w
whole-eq a w h k = omega arith

locked_at-eq :
    (i : TransfersInformation) (self : LockupContract) (t : ℕ) (bug : Bool)
    → IsValid self
    → TransfersIsValid i
    → locked_at i self t bug ≡ some (locked_formula i self t bug)
unfolding locked_at
locked_at-eq (transfers_enabled transfers) self t bug h hu =
    elim (Bool-cases (leb (lockup_end self.lockup_information transfers) t)) [
      | inl passed ↦ rw passed (released-eq self transfers t bug h hu (ground arith))
      | inr before ↦ rw before (ap some (whole-eq _ _ h.amount_u128 h.withdrawn))
    ]
locked_at-eq (transfers_disabled poll) self t bug h hu =
    ap some (whole-eq _ _ h.amount_u128 h.withdrawn)

-- For a contract state that the contract's initialization allows, `get_locked_amount` neither
-- panics nor wraps at any time and in either version: it returns the documented formula.
pub get_locked_amount-eq-formula :
    (self : LockupContract) (t : Timestamp) (bug : Bool)
    → IsValid self
    → get_locked_amount self t bug
      ≡ some (locked_formula self.lockup_information.transfers_information self t bug)
unfolding get_locked_amount
get_locked_amount-eq-formula self t bug h =
    locked_at-eq self.lockup_information.transfers_information self t bug h h.transfers
