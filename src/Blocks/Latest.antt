-- ===== src/Blocks/Latest.antt =====
-- The queries of db_adapters/blocks.rs on the rows of `blocks`. `ORDER BY .. DESC LIMIT 1` is a
-- parameter, of which it is assumed that it gives a row whose column is the largest, if there is any row.
use near_indexer_for_explore.Base.{
  ℕ, ◌≤◌, ◌≡◌, refl, sym, ap, ◌∙◌, Bool, true, false, Option, none, some, List, [], ◌∷◌, arith,
  filter, leb, if◌then◌else◌, Bool-cases, ◌⊎◌, inl, inr, none≢some,
}
use mathlib.Core.Path.{subst}
use near_indexer_for_explore.Base.Words.{to_u64, ◌>>=◌}
use near_indexer_for_explore.Supply.{Block}

-- One of the rows.
pub data Among {A : Type 0} (x : A) : List A → Type 0 where
  here : {xs : List A} → Among x (x ∷ xs)
  there : {y : A} {xs : List A} → Among x xs → Among x (y ∷ xs)

pub record FirstDescending : Type 1 where
  pub first_of : (Block → ℕ) → List Block → Option Block
  pub among :
      (column : Block → ℕ) (rows : List Block) (b : Block)
      → first_of column rows ≡ some b
      → Among b rows
  pub largest :
      (column : Block → ℕ) (rows : List Block) (b x : Block)
      → first_of column rows ≡ some b
      → Among x rows
      → column x ≤ column b
  pub no_rows : (column : Block → ℕ) (rows : List Block) → first_of column rows ≡ none → rows ≡ []

module _ (Q : FirstDescending) where
  open Q use {first_of, among, largest, no_rows}

  -- A failed query is an error, `none`; no row, or a height beyond u64, is no height.
  abbrev pub latest_block_height : Bool → List Block → Option (Option ℕ)
  latest_block_height query_succeeds rows =
      if query_succeeds
      then some (first_of (λ b. b.block_height) rows >>= λ b. to_u64 b.block_height)
      else none

  -- No row is an error too.
  abbrev pub get_latest_block_before_timestamp : Bool → List Block → ℕ → Option Block
  get_latest_block_before_timestamp query_succeeds rows timestamp =
      if query_succeeds
      then first_of (λ b. b.block_timestamp) (filter (λ b. leb b.block_timestamp timestamp) rows)
      else none

  Among-cases : {b r : Block} {rows : List Block} → Among b (r ∷ rows) → (b ≡ r) ⊎ Among b rows
  Among-cases here = inl refl
  Among-cases (there a) = inr a

  Among-filter :
      (p : Block → Bool) (b : Block) (rows : List Block)
      → Among b (filter p rows)
      → Among b rows × (p b ≡ true)
  Among-filter p b [] a = elim a [ ]
  Among-filter p b (r ∷ rows) a = elim (Bool-cases (p r)) [
    | inr dropped ↦
        let (found, holds) = Among-filter p b rows (rw dropped at a) in (there found, holds)
    | inl kept ↦ elim (Among-cases (rw kept at a)) [
      | inl same ↦ subst (λ x. Among x (r ∷ rows) × (p x ≡ true)) (sym same) (here, kept)
      | inr later ↦ let (found, holds) = Among-filter p b rows later in (there found, holds)
    ]
  ]

  filter-Among :
      (p : Block → Bool) (x : Block) (rows : List Block)
      → Among x rows
      → p x ≡ true
      → Among x (filter p rows)
  filter-Among p x (r ∷ rows) a holds = elim (Bool-cases (p r)) [
    | inr dropped ↦ elim (Among-cases a) [
      | inl same ↦ absurd (true≢false (sym holds ∙ ap p same ∙ dropped))
      | inr later ↦ rw dropped (filter-Among p x rows later holds)
    ]
    | inl kept ↦ elim (Among-cases a) [
      | inl same ↦ rw kept (subst (λ y. Among x (y ∷ filter p rows)) same here)
      | inr later ↦ rw kept (there (filter-Among p x rows later holds))
    ]
  ]
    where
      true≢false : true ≡ false → ⊥
      true≢false h = cc
  filter-Among p x [] a holds = elim a [ ]

  pub get_latest_block_before_timestamp-row :
      (ok : Bool) (rows : List Block) (timestamp : ℕ) (b : Block)
      → get_latest_block_before_timestamp ok rows timestamp ≡ some b
      → Among b rows
  get_latest_block_before_timestamp-row false rows timestamp b e = absurd (none≢some e)
  get_latest_block_before_timestamp-row true rows timestamp b e =
      let p : Block → Bool = (λ r. leb r.block_timestamp timestamp) in
      (Among-filter p b rows (among (λ r. r.block_timestamp) (filter p rows) b e)).0

  -- A block that `get_latest_block_before_timestamp` gives is one of the rows, not after the timestamp,
  -- and no earlier than any row that is not after the timestamp.
  pub get_latest_block_before_timestamp-Among :
      (ok : Bool) (rows : List Block) (timestamp : ℕ) (b x : Block)
      → get_latest_block_before_timestamp ok rows timestamp ≡ some b
      → Among x rows
      → x.block_timestamp ≤ timestamp
      → Among b rows × (b.block_timestamp ≤ timestamp) × (x.block_timestamp ≤ b.block_timestamp)
  get_latest_block_before_timestamp-Among false rows timestamp b x e a early = absurd (none≢some e)
  get_latest_block_before_timestamp-Among true rows timestamp b x e a early =
      let p : Block → Bool = (λ r. leb r.block_timestamp timestamp) in
      let (found, holds) =
        Among-filter p b rows (among (λ r. r.block_timestamp) (filter p rows) b e) in
      (
        found,
        ground (arith, holds),
        largest (λ r. r.block_timestamp) (filter p rows) b x e
            (filter-Among p x rows a (ground (arith, early))),
      )
