-- ===== src/Lockup/Division.antt =====
-- Shares of an amount by a quotient of times, `amount * part / whole`.
use near_indexer_for_explore.Base.{ℕ, ◌*◌, ◌/◌, ◌^◌, ◌≤◌, ◌<◌, ◌≡◌, some, arith}
use near_indexer_for_explore.Lockup.{share}

pub div_le_of_le_mul : (a b d : ℕ) → 0 < d → a ≤ b * d → a / d ≤ b
div_le_of_le_mul a b d h p = grind arith

pub div_mono : (a b d : ℕ) → a ≤ b → a / d ≤ b / d
div_mono a b d h = grind arith

pub mul_mono_right : (a b c : ℕ) → b ≤ c → a * b ≤ a * c
mul_mono_right a b c h = grind arith

-- A part of the whole gives no more than the amount.
pub share_le : (a p w : ℕ) → 0 < w → p ≤ w → a * p / w ≤ a
share_le a p w h q = div_le_of_le_mul (a * p) a w h (mul_mono_right a p w q)

pub share_mono : (a p q w : ℕ) → p ≤ q → a * p / w ≤ a * q / w
share_mono a p q w h = div_mono (a * p) (a * q) w (mul_mono_right a p q h)

mul_bound : (a p : ℕ) → a < 2 ^ 128 → p < 2 ^ 64 → a * p < 2 ^ 256
mul_bound a p h q = grind arith

-- With a part of a positive whole nothing panics.
pub share-some :
    (a p w : ℕ) → a < 2 ^ 128 → p < 2 ^ 64 → 0 < w → p ≤ w → share a p w ≡ some (a * p / w)
unfolding share
share-some a p w ha hp hw hle = ground (arith, mul_bound a p ha hp, share_le a p w hw hle)
