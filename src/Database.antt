-- ===== src/Database.antt =====
-- The tables of the PostgreSQL database as the adapters use them: statements that diesel sends,
-- rows found by their key, and futures that are joined by `try_join!`. The database itself is a
-- parameter, of which the documented effect of each statement on each row is assumed.
pub mod Concurrent
pub mod Keyed
pub mod Sequential
pub mod Functional
use near_indexer_for_explore.Base.{
  Eq, ◌==◌, ◌≡◌, Bool, Option, none, some, List, [], ◌∷◌, ◌&&◌, if◌then◌else◌,
}

-- `insert_into(..).values(rows).on_conflict_do_nothing()`, and `update(filter).set(..)` with the
-- filters on the columns of the key apart from those on the other columns.
pub data Statement (K R : Type 0) : Type 0 where
  insert_do_nothing : List R → Statement K R
  update : (K → Bool) → (R → Bool) → (R → R) → Statement K R

-- An async block: the statements that it awaits, in order.
abbrev pub Future : Type 0 → Type 0 → Type 0
Future K R = List (Statement K R)

-- A row that is there stays.
abbrev pub insert_at : {R : Type 0} → Option R → Option R → Option R
insert_at new none = new
insert_at new (some r) = some r

module _ {K R : Type 0} ⦃e : Eq K⦄ (key : R → K) where
  -- The first of the rows that has the key.
  abbrev pub find_row : K → List R → Option R
  find_row k [] = none
  find_row k (r ∷ rs) = if key r == k then some r else find_row k rs

  -- What a statement makes of the row with a key, if there is one.
  abbrev pub effect : Statement K R → K → Option R → Option R
  effect (insert_do_nothing rows) k r = insert_at (find_row k rows) r
  effect (update on_key p f) k none = none
  effect (update on_key p f) k (some r) = some (if on_key k && p r then f r else r)

  -- An `UPDATE` that sets no column of the key.
  abbrev pub KeepsKey : Statement K R → Type 0
  KeepsKey (insert_do_nothing rows) = Unit
  KeepsKey (update on_key p f) = (r : R) → key (f r) ≡ key r

  -- A table with a unique key.
  pub record Table : Type 1 where
    pub Tab : Type 0
    pub row : Tab → K → Option R
    pub run : Statement K R → Tab → Tab
    pub row-run :
        (s : Statement K R) (t : Tab) (k : K) → KeepsKey s → row (run s t) k ≡ effect s k (row t k)
