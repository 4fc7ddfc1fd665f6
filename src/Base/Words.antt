-- ===== src/Base/Words.antt =====
-- Unsigned machine integers as numbers. The release build wraps on overflow; `U256` of the
-- `uint` crate panics, and a panic is `none`.
use near_indexer_for_explore.Base.Tests.{ltb, eqb, if◌then◌else◌}
use native.Mathlib.Omega.{arith}
use mathlib.Core.Path.{◌≡◌, refl}
use Prim.Native.Nat.{ℕ, ◌<◌, ◌+◌, ◌-◌, ◌*◌, ◌/◌, ◌%◌, ◌^◌, min}
use mathlib.Core.Option.{Option, none, some}

-- A computation that may panic; the rest of a `do` block runs if it does not.
infixl 5 ◌>>=◌
abbrev pub ◌>>=◌ : {A B : Type 0} → Option A → (A → Option B) → Option B
none >>= f = none
some a >>= f = f a

abbrev pub u64_max : ℕ
u64_max = 2 ^ 64 - 1

-- `u64::saturating_add`.
abbrev pub saturating_add : ℕ → ℕ → ℕ
saturating_add a b = min (a + b) u64_max

-- `-` on u64 and on u128.
abbrev pub sub_u64 : ℕ → ℕ → ℕ
sub_u64 a b = (a + 2 ^ 64 - b) % 2 ^ 64

abbrev pub sub_u128 : ℕ → ℕ → ℕ
sub_u128 a b = (a + 2 ^ 128 - b) % 2 ^ 128

-- `+` on u128.
abbrev pub add_u128 : ℕ → ℕ → ℕ
add_u128 a b = (a + b) % 2 ^ 128

-- `*`, `/` and `as_u128` of `U256`.
abbrev pub mul_u256 : ℕ → ℕ → Option ℕ
mul_u256 a b = if ltb (a * b) (2 ^ 256) then some (a * b) else none

abbrev pub div_u256 : ℕ → ℕ → Option ℕ
div_u256 a b = if eqb b 0 then none else some (a / b)

abbrev pub as_u128 : ℕ → Option ℕ
as_u128 a = if ltb a (2 ^ 128) then some a else none

-- `as i32` of a count.
abbrev pub as_i32 : ℕ → ℕ
as_i32 n = n % 2 ^ 32

-- The numbers of columns that `to_u64` of `BigDecimal` and the parsing of a `u128` give back; columns
-- are numbers here.
abbrev pub to_u64 : ℕ → Option ℕ
to_u64 n = if ltb n (2 ^ 64) then some n else none

abbrev pub to_u128 : ℕ → Option ℕ
to_u128 n = if ltb n (2 ^ 128) then some n else none

pub to_u64-below : (n : ℕ) → n < 2 ^ 64 → to_u64 n ≡ some n
to_u64-below n h = ground arith

pub to_u128-below : (n : ℕ) → n < 2 ^ 128 → to_u128 n ≡ some n
to_u128-below n h = ground arith

pub to_u64-same : (n m : ℕ) → to_u64 n ≡ some m → n ≡ m
to_u64-same n m h = ground (arith, h)

-- Where the rest of a computation has a result, so has the first part.
pub bind-some :
    {A B : Type 0} (o : Option A) (f : A → Option B) (b : B)
    → (o >>= f) ≡ some b
    → (a : A) × (o ≡ some a) × (f a ≡ some b)
bind-some none f b e = absurd cc
bind-some (some a) f b e = (a, refl, e)
