-- ===== src/SyncMode.antt =====
-- `construct_near_indexer_config` of main.rs: the sync mode, from the command line and the answer
-- of the database to `latest_block_height`.
mod Tests
use near_indexer_for_explore.Base.{
  ◌<◌, ◌⊎◌, refl, ltb, ℕ, ◌+◌, ◌-◌, ◌≤◌, ◌≡◌, ◌≢◌, arith, Bool-cases, inl, inr, Option, none, some,
  eqb, if◌then◌else◌,
}

pub data SyncModeSubCommand : Type 0 where
  sync_from_interruption : ℕ → SyncModeSubCommand
  sync_from_latest : SyncModeSubCommand
  sync_from_block : ℕ → SyncModeSubCommand

pub data SyncModeEnum : Type 0 where
  from_interruption latest_synced : SyncModeEnum
  block_height : ℕ → SyncModeEnum

-- The latest height, none in an empty table, or an error.
pub data LatestHeight : Type 0 where
  height_found : Option ℕ → LatestHeight
  db_error : LatestHeight

abbrev pub earlier_by : ℕ → LatestHeight → SyncModeEnum
earlier_by delta (height_found (some height)) = block_height (height - delta)
earlier_by delta (height_found none) = from_interruption
earlier_by delta db_error = from_interruption

-- `saturating_sub` is the subtraction of numbers.
unfoldable pub sync_mode : SyncModeSubCommand → LatestHeight → SyncModeEnum
sync_mode (sync_from_interruption delta) latest =
    if eqb delta 1 then from_interruption else earlier_by delta latest
sync_mode (sync_from_block height) latest = block_height height
sync_mode sync_from_latest latest = latest_synced

-- The sync resumes at the height that is the latest one when the delta is added to it, or at 0 where
-- the delta is larger than the latest height. A delta of 1 alone resumes from the interruption.
abbrev pub Resumes : ℕ → ℕ → SyncModeEnum → Type 0
Resumes delta latest (block_height h) =
    (delta ≢ 1) × ((h + delta ≡ latest) ⊎ ((latest < delta) × (h ≡ 0)))
Resumes delta latest from_interruption = delta ≡ 1
Resumes delta latest latest_synced = ⊥

less_delta :
    (delta latest : ℕ)
    → (latest - delta + delta ≡ latest) ⊎ ((latest < delta) × (latest - delta ≡ 0))
less_delta delta latest = elim (Bool-cases (ltb latest delta)) [
  | inl small ↦ inr (ground (arith, small), ground (arith, small))
  | inr large ↦ inl (ground (arith, large))
]

-- With a latest height in the database, continuing from an interruption starts at that height less
-- the delta, or at 0 where the delta is larger, but for a delta of 1, which alone leaves the mode as it
-- is; a delta of 0 starts at the latest height.
pub sync_mode-Resumes :
    (delta latest : ℕ)
    → Resumes delta latest (sync_mode (sync_from_interruption delta) (height_found (some latest)))
unfolding sync_mode
sync_mode-Resumes delta latest = elim (Bool-cases (eqb delta 1)) [
  | inl one ↦ rw one (ground (arith, one))
  | inr other ↦ rw other ((ground (arith, other)), less_delta delta latest)
]
