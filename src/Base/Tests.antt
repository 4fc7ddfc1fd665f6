-- ===== src/Base/Tests.antt =====
-- Boolean tests, the conditional, and equality tests as an interface.
use Prim.Native.Nat.{ℕ, compare, Ordering}
use Prim.Native.String.{String}
use mathlib.Core.Path.{◌≡◌, refl}
use mathlib.Core.Logic.{◌≢◌, ◌↔◌, ◌⊎◌, inl, inr}
use mathlib.Core.Bool.{Bool, true, false, ◌&&◌}
use mathlib.Core.Option.{Option, none, some}
use native.Mathlib.Omega.{arith}
use text.Mathlib.Text.{◌==◌ as text_eq}
use text.Mathlib.TextEquality.{eq_iff}

abbrev pub ltb : ℕ → ℕ → Bool
ltb a b = elim (compare a b) [ Ordering.lt ↦ true | _ ↦ false ]

abbrev pub leb : ℕ → ℕ → Bool
leb a b = elim (compare a b) [ Ordering.gt ↦ false | _ ↦ true ]

abbrev pub eqb : ℕ → ℕ → Bool
eqb a b = elim (compare a b) [ Ordering.eq ↦ true | _ ↦ false ]

infix 1 if◌then◌else◌
abbrev pub if◌then◌else◌ {ℓ} : {A : Type ℓ} → Bool → A → A → A
if true then x else y = x
if false then x else y = y

pub eqb_iff : (a b : ℕ) → (eqb a b ≡ true) ↔ (a ≡ b)
eqb_iff a b = ground arith

pub Bool-cases : (b : Bool) → (b ≡ true) ⊎ (b ≡ false)
Bool-cases true = inl refl
Bool-cases false = inr refl

pub Option-cases {ℓ} : {A : Type ℓ} (o : Option A) → (o ≡ none) ⊎ ((a : A) × (o ≡ some a))
Option-cases none = inl refl
Option-cases (some a) = inr (a, refl)

pub some_inj {ℓ} : {A : Type ℓ} {a b : A} → some a ≡ some b → a ≡ b
some_inj h = cc

pub none≢some {ℓ} : {A : Type ℓ} {a : A} → none ≢ some a
none≢some h = cc

abbrev pub is_some {ℓ} : {A : Type ℓ} → Option A → Bool
is_some none = false
is_some (some a) = true

-- Rust's `PartialEq` of a type whose values are compared.
pub record Eq (A : Type 0) : Type 0 where
  pub beq : A → A → Bool
  pub beq_iff : (a b : A) → (beq a b ≡ true) ↔ (a ≡ b)

infix 50 ◌==◌
abbrev pub ◌==◌ : {A : Type 0} ⦃e : Eq A⦄ → A → A → Bool
◌==◌ ⦃e⦄ = e.beq

instance abbrev pub ℕ-eq : Eq ℕ
ℕ-eq = record { beq = eqb; beq_iff = eqb_iff }

instance abbrev pub String-eq : Eq String
String-eq = record { beq = text_eq; beq_iff = eq_iff }

abbrev pub pair_eq : {A B : Type 0} ⦃e : Eq A⦄ ⦃f : Eq B⦄ → A × B → A × B → Bool
pair_eq ⦃e⦄ ⦃f⦄ p q = e.beq p.0 q.0 && f.beq p.1 q.1

pub pair_eq_iff :
    {A B : Type 0} ⦃e : Eq A⦄ ⦃f : Eq B⦄ (p q : A × B) → (pair_eq p q ≡ true) ↔ (p ≡ q)
pair_eq_iff ⦃e⦄ ⦃f⦄ (a, b) (c, d) = (
  (λ h. ground (arith, e.beq_iff a c, f.beq_iff b d)),
  (λ h. ground (arith, e.beq_iff a c, f.beq_iff b d)),
)

instance abbrev pub pair-eq : {A B : Type 0} ⦃e : Eq A⦄ ⦃f : Eq B⦄ → Eq (A × B)
pair-eq ⦃e⦄ ⦃f⦄ = record { beq = pair_eq; beq_iff = pair_eq_iff }

module _ {A : Type 0} ⦃e : Eq A⦄ where
  pub ==-refl : (a : A) → (a == a) ≡ true
  ==-refl a = (e.beq_iff a a).1 refl

  pub ==-sym : (a b : A) → (a == b) ≡ (b == a)
  ==-sym a b = ground (arith, e.beq_iff a b, e.beq_iff b a)
