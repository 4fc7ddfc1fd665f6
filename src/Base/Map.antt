-- ===== src/Base/Map.antt =====
-- `std::collections::HashMap` as an association list. The order in which a map is walked is
-- the order of first insertion here.
use near_indexer_for_explore.Base.Tests.{Eq, ◌==◌, if◌then◌else◌, is_some}
use mathlib.Core.Path.{◌≡◌, refl}
use mathlib.Core.Bool.{Bool}
use mathlib.Core.Option.{Option, none, some}
use mathlib.Core.List.{List, [], ◌∷◌, map}
use native.Mathlib.Omega.{arith}

abbrev pub Map : Type 0 → Type 0 → Type 0
Map K V = List (K × V)

abbrev pub values : {K V : Type 0} → Map K V → List V
values = map (λ e. e.1)

-- `or_insert_with` where the entry is vacant, `and_modify` where it is occupied.
abbrev pub or_modify : {V : Type 0} → (V → V) → V → Option V → V
or_modify f v none = v
or_modify f v (some w) = f w

module _ {K V : Type 0} ⦃e : Eq K⦄ where
  abbrev pub get : K → Map K V → Option V
  get k [] = none
  get k ((j, v) ∷ m) = if j == k then some v else get k m

  abbrev pub contains_key : K → Map K V → Bool
  contains_key k m = is_some (get k m)

  abbrev pub insert : K → V → Map K V → Map K V
  insert k v [] = (k, v) ∷ []
  insert k v ((j, w) ∷ m) = if j == k then (j, v) ∷ m else (j, w) ∷ insert k v m

  -- `entry(k).and_modify(f).or_insert_with(v)`.
  abbrev pub upsert : K → (V → V) → V → Map K V → Map K V
  upsert k f v [] = (k, v) ∷ []
  upsert k f v ((j, w) ∷ m) = if j == k then (j, f w) ∷ m else (j, w) ∷ upsert k f v m

  -- `extend` with pairs, later pairs over earlier ones.
  abbrev pub extend : Map K V → List (K × V) → Map K V
  extend m [] = m
  extend m ((k, v) ∷ ps) = extend (insert k v m) ps

  pub get-insert :
      (k j : K) (v : V) (m : Map K V) → get j (insert k v m) ≡ (if k == j then some v else get j m)
  get-insert k j v [] = refl
  get-insert k j v ((i, w) ∷ m) =
      ground (arith, e.beq_iff i k, e.beq_iff i j, e.beq_iff k j, get-insert k j v m)

  pub get-upsert :
      (k j : K) (f : V → V) (v : V) (m : Map K V)
      → get j (upsert k f v m) ≡ (if k == j then some (or_modify f v (get k m)) else get j m)
  get-upsert k j f v [] = refl
  get-upsert k j f v ((i, w) ∷ m) =
      ground (arith, e.beq_iff i k, e.beq_iff i j, e.beq_iff k j, get-upsert k j f v m)
