-- ===== src/Retry/Tests.antt =====
-- A query that fails twice and then answers, for the theorems on retriable.rs.
use near_indexer_for_explore.Base.{
  ℕ, zero, suc, ◌*◌, ◌<◌, ◌≡◌, refl, Bool, false, some, [], ◌∷◌, All,
}
use near_indexer_for_explore.Retry.{
  Reply, ok, err, finished, initial_interval, max_delay_time, retry_loop, await_retry,
}
use near_indexer_for_explore.Retry.Attempts.{
  Ended, backoff, await_retry-Ended, await_retry-waits_bounded,
}

abbrev flaky : ℕ → Reply Bool ℕ × ℕ
flaky zero = (ok 7, zero)
flaky (suc failures) = (err false, failures)

abbrev handled : Bool → Bool
handled e = e

third_time : await_retry flaky handled 10 2 ≡ (finished (some 7), 100 ∷ 200 ∷ [], 0)
unfolding await_retry retry_loop
third_time = refl

await_retry-Ended_example :
    let (x, waits, v) = await_retry flaky handled 10 2 in
    (k : ℕ) × Ended flaky handled 10 2 x k v × (waits ≡ backoff initial_interval k)
await_retry-Ended_example = await_retry-Ended flaky handled 10 2

await_retry-waits_bounded_example :
    All (λ w. w < 2 * max_delay_time) (await_retry flaky handled 10 2).1
await_retry-waits_bounded_example = await_retry-waits_bounded flaky handled 10 2
