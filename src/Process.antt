-- ===== src/Process.antt =====
-- The async blocks of src/main.rs and of the adapters as processes over the tables and the
-- receipts cache, and the steps that they make. The macro `await_retry_or_panic!` is a number of
-- attempts that are left; waiting and logging are left out. Answers of queries are not
-- interpreted: a process goes on with any answer.
pub mod Present
pub mod References
pub mod Joined
pub mod Progress
pub mod Batches
use near_indexer_for_explore.Base.{
  Eq, ℕ, zero, suc, String, ◌≡◌, Bool, true, false, ◌||◌, Option, List, [], ◌∷◌, is_some,
}
use near_indexer_for_explore.Database.{Statement, insert_do_nothing, Table}

-- The constructors are: `Ok(())`; an early `Err`; a panic; a search or a query
-- that goes on; work under the lock of the cache; a
-- query; a statement with the attempts that are left of it; a plain insert with the attempts that are
-- left of it, where a duplicate is handled; `first.await?` with what follows; and `try_join!`.
pub data Process (K R C : Type 0) : Type 0 where
  done failed panicked stuck : Process K R C
  locked : (C → C) → (C → Process K R C) → Process K R C
  asked : (Option (List String) → Process K R C) → Process K R C
  attempts : ℕ → Statement K R → Process K R C → Process K R C
  batch : ℕ → List R → Process K R C → Process K R C
  after : Process K R C → Process K R C → Process K R C
  both : Process K R C → Process K R C → Process K R C

-- `try_join_all`.
abbrev pub join_all : {K R C : Type 0} → List (Process K R C) → Process K R C
join_all [] = done
join_all (p ∷ ps) = both p (join_all ps)

module _ {K R : Type 0} ⦃e : Eq K⦄ {key : R → K} (T : Table key) where
  open T use {Tab, row, run}

  abbrev pub any_present : List R → Tab → Bool
  any_present [] t = false
  any_present (r ∷ rs) t = is_some (row t (key r)) || any_present rs t

module _ {K R C : Type 0} ⦃e : Eq K⦄ {key : R → K} (T : Table key) where
  open T use {Tab, row, run}

  -- A step of a process. A statement is executed and answered; or it is executed and its answer is
  -- lost, so that it is attempted again; or it is refused and attempted again. Where no attempt is
  -- left, the process fails. A plain insert is refused as a duplicate where a row is there.
  -- The first error of a joined process ends the other one.
  pub data Step : Process K R C → Tab → C → Process K R C → Tab → C → Type 0 where
    lock :
        {f : C → C} {q : C → Process K R C} {t : Tab} {c : C} → Step (locked f q) t c (q c) t (f c)
    ask :
        {q : Option (List String) → Process K R C} {t : Tab} {c : C} (a : Option (List String))
        → Step (asked q) t c (q a) t c
    replied :
        {n : ℕ} {s : Statement K R} {q : Process K R C} {t : Tab} {c : C}
        → Step (attempts (suc n) s q) t c q (run s t) c
    reply_lost :
        {n : ℕ} {s : Statement K R} {q : Process K R C} {t : Tab} {c : C}
        → Step (attempts (suc n) s q) t c (attempts n s q) (run s t) c
    refused :
        {n : ℕ} {s : Statement K R} {q : Process K R C} {t : Tab} {c : C}
        → Step (attempts (suc n) s q) t c (attempts n s q) t c
    gave_up :
        {s : Statement K R} {q : Process K R C} {t : Tab} {c : C}
        → Step (attempts zero s q) t c failed t c
    inserted :
        {n : ℕ} {rows : List R} {q : Process K R C} {t : Tab} {c : C}
        → any_present T rows t ≡ false
        → Step (batch (suc n) rows q) t c q (run (insert_do_nothing rows) t) c
    insert_lost :
        {n : ℕ} {rows : List R} {q : Process K R C} {t : Tab} {c : C}
        → any_present T rows t ≡ false
        → Step (batch (suc n) rows q) t c (batch n rows q) (run (insert_do_nothing rows) t) c
    insert_refused :
        {n : ℕ} {rows : List R} {q : Process K R C} {t : Tab} {c : C}
        → Step (batch (suc n) rows q) t c (batch n rows q) t c
    duplicate :
        {n : ℕ} {rows : List R} {q : Process K R C} {t : Tab} {c : C}
        → any_present T rows t ≡ true
        → Step (batch (suc n) rows q) t c q t c
    insert_gave_up :
        {rows : List R} {q : Process K R C} {t : Tab} {c : C}
        → Step (batch zero rows q) t c failed t c
    first :
        {p p' q : Process K R C} {t t' : Tab} {c c' : C}
        → Step p t c p' t' c'
        → Step (after p q) t c (after p' q) t' c'
    next : {q : Process K R C} {t : Tab} {c : C} → Step (after done q) t c q t c
    returned : {q : Process K R C} {t : Tab} {c : C} → Step (after failed q) t c failed t c
    left :
        {p p' q : Process K R C} {t t' : Tab} {c c' : C}
        → Step p t c p' t' c'
        → Step (both p q) t c (both p' q) t' c'
    right :
        {p q q' : Process K R C} {t t' : Tab} {c c' : C}
        → Step q t c q' t' c'
        → Step (both p q) t c (both p q') t' c'
    joined : {t : Tab} {c : C} → Step (both done done) t c done t c
    left_failed : {q : Process K R C} {t : Tab} {c : C} → Step (both failed q) t c failed t c
    right_failed : {p : Process K R C} {t : Tab} {c : C} → Step (both p failed) t c failed t c

-- The statements of a future, one after the other.
abbrev pub in_order : {K R C : Type 0} → ℕ → List (Statement K R) → Process K R C
in_order n [] = done
in_order n (s ∷ f) = attempts n s (in_order n f)

-- Plain inserts of batches of rows, one after the other, with ten attempts each.
abbrev pub in_batches : {K R C : Type 0} → List (List R) → Process K R C
in_batches [] = done
in_batches (rows ∷ rest) = batch 10 rows (in_batches rest)
