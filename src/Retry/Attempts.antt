-- ===== src/Retry/Attempts.antt =====
-- What `await_retry_or_panic!` (src/retriable.rs) has done when it ends, and how long it waited.
use near_indexer_for_explore.Base.{
  ℕ, zero, suc, ◌+◌, ◌*◌, ◌<◌, ◌≡◌, refl, ap, Bool, true, false, none, some, [], ◌∷◌, arith, All,
  Bool-cases, inl, inr,
}
use near_indexer_for_explore.Retry.{
  Reply, ok, err, Exit, finished, gave_up, initial_interval, max_delay_time, next_interval, Waits,
  after_wait, answer, retry_loop, await_retry,
}

-- The waits after `n` failed attempts, from the first one on.
abbrev pub backoff : ℕ → ℕ → Waits
backoff interval zero = []
backoff interval (suc n) = interval ∷ backoff (next_interval interval) n

abbrev pub total : Waits → ℕ
total [] = 0
total (w ∷ ws) = w + total ws

module _ {E A S : Type 0} (query : S → Reply E A × S) (is_error_handled : E → Bool) where
  -- `n` attempts in a row that failed with an error that is not handled.
  pub data Failed : ℕ → S → S → Type 0 where
    none_yet : (s : S) → Failed zero s s
    failed :
        {n : ℕ} {s s' u : S} (e : E)
        → query s ≡ (err e, s')
        → is_error_handled e ≡ false
        → Failed n s' u
        → Failed (suc n) s u

  -- How the macro may end: after `k` failed attempts, and with the state that it leaves.
  pub data Ended (n : ℕ) (s : S) : Exit A → ℕ → S → Type 0 where
    succeeded :
        (k : ℕ) (u v : S) (a : A)
        → k < n
        → Failed k s u
        → query u ≡ (ok a, v)
        → Ended n s (finished (some a)) k v
    handled :
        (k : ℕ) (u v : S) (e : E)
        → k < n
        → Failed k s u
        → query u ≡ (err e, v)
        → is_error_handled e ≡ true
        → Ended n s (finished none) k v
    exhausted : (u : S) → Failed n s u → Ended n s gave_up n u

  one_more :
      {n : ℕ} {s s' : S} (e : E)
      → query s ≡ (err e, s')
      → is_error_handled e ≡ false
      → {x : Exit A} {k : ℕ} {v : S} → Ended n s' x k v
      → Ended (suc n) s x (suc k) v
  one_more e q h (succeeded k u v a l f r) =
      succeeded (suc k) u v a (omega arith) (failed e q h f) r
  one_more e q h (handled k u v d l f r g) =
      handled (suc k) u v d (omega arith) (failed e q h f) r g
  one_more e q h (exhausted u f) = exhausted u (failed e q h f)

  -- The number of failed attempts before the end.
  abbrev Explained : ℕ → ℕ → S → Exit A × Waits × S → Type 0
  Explained n interval s (x, waits, v) = (k : ℕ) × Ended n s x k v × (waits ≡ backoff interval k)

  step-Explained :
      (n interval : ℕ) (s s' : S) (e : E)
      → query s ≡ (err e, s')
      → is_error_handled e ≡ false
      → (r : Exit A × Waits × S) → Explained n (next_interval interval) s' r
      → Explained (suc n) interval s (after_wait interval r)
  step-Explained n interval s s' e q h (x, waits, v) (k, ended, w) =
      (suc k, one_more e q h ended, ap (◌∷◌ interval) w)

  answer-Explained :
      (n interval : ℕ) (s : S) (again : S → Exit A × Waits × S)
      → ((s' : S) → Explained n (next_interval interval) s' (again s'))
      → (q : Reply E A × S) → query s ≡ q
      → Explained (suc n) interval s (answer is_error_handled interval again q)
  answer-Explained n interval s again h (ok a, s') q =
      (0, succeeded 0 s s' a (omega arith) (none_yet s) q, refl)
  answer-Explained n interval s again h (err e, s') q = elim (Bool-cases (is_error_handled e)) [
    | inl yes_handled ↦
        rw (yes_handled, answer)
          (0, handled 0 s s' e (omega arith) (none_yet s) q yes_handled, refl)
    | inr not_handled ↦
        rw (not_handled, answer) (step-Explained n interval s s' e q not_handled (again s') (h s'))
  ]

  loop-Explained :
      (n interval : ℕ) (s : S)
      → Explained n interval s (retry_loop query is_error_handled n interval s)
  unfolding retry_loop
  loop-Explained zero interval s = (0, exhausted s (none_yet s), refl)
  loop-Explained (suc n) interval s =
      answer-Explained n interval s (retry_loop query is_error_handled n (next_interval interval))
        (loop-Explained n (next_interval interval)) (query s) refl

  -- The macro makes at most `n` attempts. It returns a result exactly as the first attempt that
  -- is no failure leaves it, ends without one where an error is handled, and gives up only when
  -- all `n` attempts have failed; it has waited once after each failed attempt.
  pub await_retry-Ended :
      (n : ℕ) (s : S)
      → let (x, waits, v) = await_retry query is_error_handled n s in
        (k : ℕ) × Ended n s x k v × (waits ≡ backoff initial_interval k)
  unfolding await_retry
  await_retry-Ended n s = loop-Explained n initial_interval s

-- The intervals that the doubling can reach stay below twice the maximum.
abbrev Bounded : ℕ → Type 0
Bounded w = w < 2 * max_delay_time

backoff-Bounded : (interval n : ℕ) → Bounded interval → All Bounded (backoff interval n)
backoff-Bounded interval zero h = tt
backoff-Bounded interval (suc n) h = (h, backoff-Bounded (next_interval interval) n (ground arith))

-- However many attempts the macro makes, no single wait reaches twice the maximal delay.
pub await_retry-waits_bounded :
    {E A S : Type 0} (query : S → Reply E A × S) (is_error_handled : E → Bool) (n : ℕ) (s : S)
    → All (λ w. w < 2 * max_delay_time) (await_retry query is_error_handled n s).1
await_retry-waits_bounded query is_error_handled n s =
    let (k, ended, waits) = await_retry-Ended query is_error_handled n s in
    rw waits (backoff-Bounded initial_interval k (omega arith))
