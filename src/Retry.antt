-- ===== src/Retry.antt =====
-- src/retriable.rs: the macro `await_retry_or_panic!`, as a loop over the state that its query
-- reads and changes. The waits are returned in milliseconds; logging is left out.
pub mod Attempts
mod Tests
use near_indexer_for_explore.Base.{
  ℕ, zero, suc, ◌*◌, Bool, true, false, Option, none, some, List, [], ◌∷◌, ltb, if◌then◌else◌,
}

-- What a query returns.
pub data Reply (E A : Type 0) : Type 0 where
  ok : A → Reply E A
  err : E → Reply E A

-- `break Some(res)` and `break None`, or the `return Err(..)` when the attempts are used up.
pub data Exit (A : Type 0) : Type 0 where
  finished : Option A → Exit A
  gave_up : Exit A

-- INTERVAL and MAX_DELAY_TIME of main.rs.
abbrev pub initial_interval : ℕ
initial_interval = 100

abbrev pub max_delay_time : ℕ
max_delay_time = 120_000

abbrev pub next_interval : ℕ → ℕ
next_interval interval = if ltb interval max_delay_time then interval * 2 else interval

abbrev pub Waits : Type 0
Waits = List ℕ

abbrev pub after_wait : {A S : Type 0} → ℕ → Exit A × Waits × S → Exit A × Waits × S
after_wait interval (x, waits, s) = (x, interval ∷ waits, s)

-- The `match` on the reply of an attempt. `again` is the next round of the loop.
abbrev pub answer :
    {E A S : Type 0}
    → (E → Bool)
    → ℕ
    → (S → Exit A × Waits × S)
    → Reply E A × S
    → Exit A × Waits × S
answer is_error_handled interval again (ok res, s) = (finished (some res), [], s)
answer is_error_handled interval again (err e, s) = elim (is_error_handled e) [
  | true ↦ (finished none, [], s)
  | false ↦ after_wait interval (again s)
]

module _ {E A S : Type 0} (query : S → Reply E A × S) (is_error_handled : E → Bool) where
  -- `left` attempts are left, and the next wait is `interval`.
  pub retry_loop : ℕ → ℕ → S → Exit A × Waits × S
  retry_loop zero interval s = (gave_up, [], s)
  retry_loop (suc left) interval s =
      answer is_error_handled interval (retry_loop left (next_interval interval)) (query s)

  pub await_retry : ℕ → S → Exit A × Waits × S
  await_retry number_of_retries s = retry_loop number_of_retries initial_interval s
