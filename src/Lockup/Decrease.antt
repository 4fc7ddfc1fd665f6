-- ===== src/Lockup/Decrease.antt =====
-- How the locked amount of `get_locked_amount` (aggregated/circulating_supply/lockup.rs) is
-- bounded, how it changes over time, and what the bug of the first contract version changes.
use near_indexer_for_explore.Base.{
  ℕ, ◌-◌, ◌*◌, ◌/◌, ◌^◌, ◌≤◌, ◌<◌, ◌≡◌, Bool, true, false, Option, none, some, arith, ltb, leb,
  Bool-cases, inl, inr,
}
use near_indexer_for_explore.Base.Words.{saturating_add}
use near_indexer_for_explore.Lockup.{
  Timestamp, Balance, LockupInformation, TransfersInformation, transfers_enabled,
  transfers_disabled, VestingInformation, no_vesting, vesting_hash, vesting_schedule, terminating,
  LockupContract, lockup_end, get_locked_amount,
}
use near_indexer_for_explore.Lockup.Division.{share_le, share_mono}
use near_indexer_for_explore.Lockup.Bounds.{
  IsValid, VestingIsValid, TransfersIsValid, release_formula, vesting_formula, start_of,
  open_formula, locked_formula, get_locked_amount-eq-formula, start_of_le,
}

release_le : (r : Option ℕ) (a start t : ℕ) → start ≤ t → release_formula r a start t ≤ a
release_le none a start t h = omega arith
release_le (some d) a start t h = elim (Bool-cases (leb (saturating_add start d) t)) [
  | inl over ↦ rw over (omega arith)
  | inr left ↦
      let k : t < saturating_add start d = ground arith in
      rw left (share_le a (saturating_add start d - t) d (omega arith) (omega arith))
]

-- The same release at a later time, or from an earlier start.
release_mono :
    (r : Option ℕ) (a s s' t t' : ℕ)
    → s' ≤ s
    → t ≤ t'
    → release_formula r a s' t' ≤ release_formula r a s t
release_mono none a s s' t t' h k = omega arith
release_mono (some d) a s s' t t' h k = elim (Bool-cases (leb (saturating_add s' d) t')) [
  | inl over ↦ rw over (omega arith)
  | inr left ↦
      let p : t' < saturating_add s' d = ground arith in
      let open_too : leb (saturating_add s d) t ≡ false = ground arith in
      rw (left, open_too)
        (share_mono a (saturating_add s' d - t') (saturating_add s d - t) d (omega arith))
]

vesting_le :
    (v : VestingInformation) (a w t : ℕ)
    → w ≤ a
    → VestingIsValid v a w
    → vesting_formula v a t ≤ a - w
vesting_le (vesting_schedule vs) a w t h (s, none_withdrawn) =
    elim (Bool-cases (ltb t vs.cliff_timestamp)) [
      | inl early ↦ rw early (omega arith)
      | inr late ↦ elim (Bool-cases (leb vs.end_timestamp t)) [
        | inl over ↦ rw (late, over) (omega arith)
        | inr left ↦
            let p : t < vs.end_timestamp = ground arith in
            let q : vs.cliff_timestamp ≤ t = ground arith in
            let part = vs.end_timestamp - t in
            let whole = vs.end_timestamp - vs.start_timestamp in
            let fits : a * part / whole ≤ a =
              share_le a part whole (omega (arith, s.start_first)) (omega (arith, s.start_first)) in
            rw (late, left) (omega arith)
      ]
    ]
vesting_le (terminating i) a w t h v = v
vesting_le no_vesting a w t h v = omega arith
vesting_le (vesting_hash d) a w t h v = omega arith

vesting_mono :
    (v : VestingInformation) (a w t t' : ℕ)
    → w ≤ a
    → VestingIsValid v a w
    → t ≤ t'
    → vesting_formula v a t' ≤ vesting_formula v a t
vesting_mono (vesting_schedule vs) a w t t' h v k = elim (Bool-cases (ltb t vs.cliff_timestamp)) [
  | inl early ↦
      let top : vesting_formula (vesting_schedule vs) a t' ≤ a - w =
        vesting_le (vesting_schedule vs) a w t' h v in
      rw early (omega arith)
  | inr late ↦ elim (Bool-cases (leb vs.end_timestamp t')) [
    | inl over ↦
        let late' : ltb t' vs.cliff_timestamp ≡ false = ground arith in
        rw (late', over) (omega arith)
    | inr left ↦
        let late' : ltb t' vs.cliff_timestamp ≡ false = ground arith in
        let left' : leb vs.end_timestamp t ≡ false = ground arith in
        rw (late, late', left, left')
          (share_mono a (vs.end_timestamp - t') (vs.end_timestamp - t)
            (vs.end_timestamp - vs.start_timestamp) (omega arith))
  ]
]
vesting_mono _ a w t t' h v k = omega arith

open_le :
    (self : LockupContract) (transfers t : ℕ) (bug : Bool)
    → IsValid self
    → transfers < 2 ^ 64
    → lockup_end self.lockup_information transfers ≤ t
    → open_formula self transfers t bug
      ≤ self.lockup_information.lockup_amount - self.lockup_information.termination_withdrawn_tokens
open_le self transfers t bug h hu hs =
    let info = self.lockup_information in
    let r =
      release_le info.release_duration info.lockup_amount (start_of info transfers bug) t
        (start_of_le info transfers t bug hu hs) in
    let v =
      vesting_le self.vesting_information info.lockup_amount info.termination_withdrawn_tokens t
        h.withdrawn h.vesting in
    omega (arith, r, v)

locked_le :
    (i : TransfersInformation) (self : LockupContract) (t : ℕ) (bug : Bool)
    → IsValid self
    → TransfersIsValid i
    → locked_formula i self t bug
      ≤ self.lockup_information.lockup_amount - self.lockup_information.termination_withdrawn_tokens
locked_le (transfers_enabled transfers) self t bug h hu =
    elim (Bool-cases (leb (lockup_end self.lockup_information transfers) t)) [
      | inl passed ↦ rw passed (open_le self transfers t bug h hu (ground arith))
      | inr before ↦ rw before (omega arith)
    ]
locked_le (transfers_disabled poll) self t bug h hu = omega arith

open_mono :
    (self : LockupContract) (transfers t t' : ℕ) (bug : Bool)
    → IsValid self
    → t ≤ t'
    → open_formula self transfers t' bug ≤ open_formula self transfers t bug
open_mono self transfers t t' bug h k =
    let info = self.lockup_information in
    let s = start_of info transfers bug in
    let r = release_mono info.release_duration info.lockup_amount s s t t' (omega arith) k in
    let v =
      vesting_mono self.vesting_information info.lockup_amount info.termination_withdrawn_tokens t
        t' h.withdrawn h.vesting k in
    omega (arith, r, v)

locked_mono :
    (i : TransfersInformation) (self : LockupContract) (t t' : ℕ) (bug : Bool)
    → IsValid self
    → TransfersIsValid i
    → t ≤ t'
    → locked_formula i self t' bug ≤ locked_formula i self t bug
locked_mono (transfers_enabled transfers) self t t' bug h hu k =
    elim (Bool-cases (leb (lockup_end self.lockup_information transfers) t)) [
      | inl passed ↦
          let passed' : leb (lockup_end self.lockup_information transfers) t' ≡ true =
            ground arith in
          rw (passed, passed') (open_mono self transfers t t' bug h k)
      | inr before ↦ rw before (locked_le (transfers_enabled transfers) self t' bug h hu)
    ]
locked_mono (transfers_disabled poll) self t t' bug h hu k = omega arith

-- For a valid contract state the call returns, at any time and in either version, an amount of
-- at most the lockup amount less the tokens already withdrawn by a termination.
pub get_locked_amount-le :
    (self : LockupContract) (t : Timestamp) (bug : Bool)
    → IsValid self
    → (v : Balance) × (get_locked_amount self t bug ≡ some v)
      × (v
          ≤ self.lockup_information.lockup_amount
            - self.lockup_information.termination_withdrawn_tokens)
get_locked_amount-le self t bug h = (
  locked_formula self.lockup_information.transfers_information self t bug,
  get_locked_amount-eq-formula self t bug h,
  locked_le self.lockup_information.transfers_information self t bug h h.transfers,
)

-- For a valid contract state the locked amount never grows: at a later time the call returns at
-- most what it returns at an earlier one.
pub get_locked_amount-antitone :
    (self : LockupContract) (t t' : Timestamp) (bug : Bool)
    → IsValid self
    → t ≤ t'
    → (v v' : Balance) × (get_locked_amount self t bug ≡ some v)
      × (get_locked_amount self t' bug ≡ some v')
      × (v' ≤ v)
get_locked_amount-antitone self t t' bug h k =
    let i = self.lockup_information.transfers_information in
    (
      locked_formula i self t bug,
      locked_formula i self t' bug,
      get_locked_amount-eq-formula self t bug h,
      get_locked_amount-eq-formula self t' bug h,
      locked_mono i self t t' bug h h.transfers k,
    )

bug_start_le :
    (info : LockupInformation) (transfers : ℕ)
    → transfers < 2 ^ 64
    → transfers ≤ lockup_end info transfers
unfolding lockup_end
bug_start_le info transfers h = omega arith

bug_formula_le :
    (i : TransfersInformation) (self : LockupContract) (t : ℕ)
    → TransfersIsValid i
    → locked_formula i self t true ≤ locked_formula i self t false
bug_formula_le (transfers_enabled transfers) self t hu =
    let info = self.lockup_information in
    let r =
      release_mono info.release_duration info.lockup_amount (lockup_end info transfers) transfers t
        t (bug_start_le info transfers hu) (omega arith) in
    elim (Bool-cases (leb (lockup_end info transfers) t)) [
      | inl passed ↦ rw passed (omega (arith, r))
      | inr before ↦ rw before (omega arith)
    ]
bug_formula_le (transfers_disabled poll) self t hu = omega arith

-- The bug of the first contract version only releases earlier: for a valid state the amount
-- under `has_bug` is at most the amount without it, at every time.
pub get_locked_amount-bug_le :
    (self : LockupContract) (t : Timestamp)
    → IsValid self
    → (v v' : Balance) × (get_locked_amount self t true ≡ some v)
      × (get_locked_amount self t false ≡ some v')
      × (v ≤ v')
get_locked_amount-bug_le self t h =
    let i = self.lockup_information.transfers_information in
    (
      locked_formula i self t true,
      locked_formula i self t false,
      get_locked_amount-eq-formula self t true h,
      get_locked_amount-eq-formula self t false h,
      bug_formula_le i self t h.transfers,
    )
