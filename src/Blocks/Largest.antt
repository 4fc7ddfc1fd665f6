-- ===== src/Blocks/Largest.antt =====
-- A function that takes the largest row, as `ORDER BY .. DESC LIMIT 1` does.
use near_indexer_for_explore.Base.{
  ℕ, ◌≤◌, ◌≡◌, refl, Option, none, some, List, [], ◌∷◌, arith, leb, if◌then◌else◌, Bool-cases,
  Option-cases, inl, inr, none≢some, some_inj,
}
use mathlib.Core.Path.{subst}
use near_indexer_for_explore.Supply.{Block}
use near_indexer_for_explore.Blocks.Latest.{Among, here, there, FirstDescending}

-- The larger of a row and the largest of the others.
abbrev pub larger : (Block → ℕ) → Block → Option Block → Block
larger f r none = r
larger f r (some m) = if leb (f m) (f r) then r else m

abbrev pub largest_of : (Block → ℕ) → List Block → Option Block
largest_of f [] = none
largest_of f (r ∷ rows) = some (larger f r (largest_of f rows))

larger-Among :
    (r : Block) (rows : List Block) (f : Block → ℕ) (o : Option Block)
    → ((m : Block) → o ≡ some m → Among m rows)
    → Among (larger f r o) (r ∷ rows)
larger-Among r rows f none h = here
larger-Among r rows f (some m) h = elim (Bool-cases (leb (f m) (f r))) [
  | inl first ↦ rw first here
  | inr second ↦ rw second (there (h m refl))
]

pub largest_of-Among :
    (f : Block → ℕ) (rows : List Block) (b : Block) → largest_of f rows ≡ some b → Among b rows
largest_of-Among f [] b e = absurd (none≢some e)
largest_of-Among f (r ∷ rows) b e =
    subst (λ x. Among x (r ∷ rows)) (some_inj e)
      (larger-Among r rows f (largest_of f rows) (largest_of-Among f rows))

le_larger : (f : Block → ℕ) (r : Block) (o : Option Block) → f r ≤ f (larger f r o)
le_larger f r none = omega arith
le_larger f r (some m) = ground arith

le_larger_of : (f : Block → ℕ) (r m : Block) → f m ≤ f (larger f r (some m))
le_larger_of f r m = ground arith

pub largest_of-largest :
    (f : Block → ℕ) (rows : List Block) (x : Block)
    → Among x rows
    → (b : Block) → largest_of f rows ≡ some b
    → f x ≤ f b
largest_of-largest f [] x a b e = elim a [ ]
largest_of-largest f (r ∷ rows) x here b e =
    subst (λ y. f r ≤ f y) (some_inj e) (le_larger f r (largest_of f rows))
largest_of-largest f (r ∷ rows) x (there a) b e = elim (Option-cases (largest_of f rows)) [
  | inl missing ↦ absurd (empty_rows rows missing a)
  | inr (m, found) ↦
      let least = largest_of-largest f rows x a m found in
      let more = le_larger_of f r m in
      subst (λ y. f x ≤ f y) (some_inj (rw found at e)) (omega (arith, least, more))
]
  where
    empty_rows : (rows : List Block) → largest_of f rows ≡ none → Among x rows → ⊥
    empty_rows [] e a = elim a [ ]
    empty_rows (s ∷ rows) e a = cc

pub none_left : (f : Block → ℕ) (rows : List Block) → largest_of f rows ≡ none → rows ≡ []
none_left f [] e = refl
none_left f (r ∷ rows) e = cc

abbrev pub order : FirstDescending
order = record {
  first_of = largest_of;
  among = largest_of-Among;
  largest = λ f rows b x e a. largest_of-largest f rows x a b e;
  no_rows = none_left;
}
