-- ===== src/Process/Batches.antt =====
-- Plain inserts of batches of rows, where a duplicate is taken for rows that are written already.
use near_indexer_for_explore.Base.{
  Eq, ℕ, ◌≡◌, refl, sym, ◌∙◌, true, Option, none, some, List, [], ◌∷◌, All, All-map,
}
use mathlib.Core.Path.{subst}
use near_indexer_for_explore.Database.{Table, insert_do_nothing, insert_at, find_row}
use near_indexer_for_explore.Process.{
  Process, done, failed, batch, Step, inserted, insert_lost, insert_refused, duplicate,
  insert_gave_up, any_present, in_batches,
}
use near_indexer_for_explore.Process.Present.{Present, Keeps, Has, run-Present, run-Inserts}
use near_indexer_for_explore.Process.Progress.{Steps, ended, then_steps, Steps-Present}
use near_indexer_for_explore.Process.Joined.{Has-rows, All-under_map}

module _ {K R : Type 0} ⦃e : Eq K⦄ (key : R → K) where
  -- No row of the second list has the key of a row of the first.
  abbrev pub Apart : List R → List R → Type 0
  Apart rows others = All (λ r. find_row key (key r) rows ≡ none) others

  abbrev pub AllApart : List (List R) → Type 0
  AllApart [] = Unit
  AllApart (rows ∷ rest) = All (Apart rows) rest × AllApart rest

module _ {K R : Type 0} ⦃e : Eq K⦄ {key : R → K} (T : Table key) where
  open T use {Tab, row, run, row-run}

  abbrev pub AllPresent : Tab → List R → Type 0
  AllPresent t rows = All (λ r. Present T t (key r)) rows

  -- Of the rows all are there, or none.
  abbrev pub AllOrNone : Tab → List R → Type 0
  AllOrNone t rows = any_present T rows t ≡ true → AllPresent t rows

  insert_nothing : {A : Type 0} (r : Option A) → insert_at none r ≡ r
  insert_nothing none = refl
  insert_nothing (some r) = refl

  row-apart :
      (rows : List R) (t : Tab) (k : K)
      → find_row key k rows ≡ none
      → row (run (insert_do_nothing rows) t) k ≡ row t k
  row-apart rows t k h = row-run (insert_do_nothing rows) t k tt ∙ rw h (insert_nothing (row t k))

  any_present-Apart :
      (rows others : List R) (t : Tab)
      → Apart key rows others
      → any_present T others (run (insert_do_nothing rows) t) ≡ any_present T others t
  any_present-Apart rows [] t h = refl
  any_present-Apart rows (r ∷ others) t (h, hs) =
      rw (row-apart rows t (key r) h, any_present-Apart rows others t hs) refl

  AllPresent-run :
      (rows others : List R) (t : Tab)
      → AllPresent t others
      → AllPresent (run (insert_do_nothing rows) t) others
  AllPresent-run rows others t h =
      All-map _ _ others (λ r. run-Present T (insert_do_nothing rows) t (key r) tt) h

  AllPresent-own : (rows : List R) (t : Tab) → AllPresent (run (insert_do_nothing rows) t) rows
  AllPresent-own rows t =
      All-map _ _ rows (λ r. run-Inserts T (insert_do_nothing rows) t (key r) tt)
        (All-under_map (λ k. Has key k rows) key rows (Has-rows key rows))

  AllOrNone-run :
      (rows others : List R) (t : Tab)
      → Apart key rows others
      → AllOrNone t others
      → AllOrNone (run (insert_do_nothing rows) t) others
  AllOrNone-run rows others t h old there =
      AllPresent-run rows others t (old (sym (any_present-Apart rows others t h) ∙ there))

  or_none_after :
      (rows : List R) (t : Tab) (others : List (List R))
      → All (Apart key rows) others
      → All (AllOrNone t) others
      → All (AllOrNone (run (insert_do_nothing rows) t)) others
  or_none_after rows t [] a h = tt
  or_none_after rows t (o ∷ others) (a, as_) (h, hs) =
      (AllOrNone-run rows o t a h, or_none_after rows t others as_ hs)

module _ {K R : Type 0} ⦃e : Eq K⦄ {key : R → K} (T : Table key) (C : Type 0) where
  open T use {Tab, run}

  -- The batches that are left, and the process that inserts them or has failed.
  data Going : List (List R) → Process K R C → Type 0 where
    nothing_left : Going [] done
    trying :
        (n : ℕ) (rows : List R) (rest : List (List R))
        → Going (rows ∷ rest) (batch n rows (in_batches rest))
    broken : (batches : List (List R)) → Going batches failed

  in_batches-Going : (batches : List (List R)) → Going batches (in_batches batches)
  in_batches-Going [] = nothing_left
  in_batches-Going (rows ∷ rest) = trying 10 rows rest

  Going-Keeps : {batches : List (List R)} {p : Process K R C} → Going batches p → Keeps key p
  unfolding Keeps
  Going-Keeps nothing_left = tt
  Going-Keeps (trying n rows []) = tt
  Going-Keeps (trying n rows (r ∷ rest)) = Going-Keeps (trying 10 r rest)
  Going-Keeps (broken batches) = tt

  -- After a step the same batches are left, or one less.
  data Next (t : Tab) : List (List R) → Process K R C → Type 0 where
    same :
        {batches : List (List R)} {p : Process K R C}
        → Going batches p
        → All (AllOrNone T t) batches
        → Next t batches p
    one_less :
        {rows : List R} {rest : List (List R)} {p : Process K R C}
        → AllPresent T t rows
        → Going rest p
        → All (AllOrNone T t) rest
        → Next t (rows ∷ rest) p

  Step-Next :
      {n : ℕ} {rows : List R} {rest : List (List R)} {p : Process K R C} {t u : Tab} {c d : C}
      → Step T (batch n rows (in_batches rest)) t c p u d
      → AllApart key (rows ∷ rest)
      → All (AllOrNone T t) (rows ∷ rest)
      → Next u (rows ∷ rest) p
  Step-Next {rows = rows} {rest = rest} {t = t} (inserted x) (a, apart) (h, hs) =
      one_less (AllPresent-own T rows t) (in_batches-Going rest) (or_none_after T rows t rest a hs)
  Step-Next {rows = rows} {rest = rest} {t = t} (insert_lost {n = n} x) (a, apart) (h, hs) =
      same (trying n rows rest)
        ((λ there. AllPresent-own T rows t), or_none_after T rows t rest a hs)
  Step-Next {rows = rows} {rest = rest} (insert_refused {n = n}) apart h =
      same (trying n rows rest) h
  Step-Next {rest = rest} (duplicate there) apart (h, hs) =
      one_less (h there) (in_batches-Going rest) hs
  Step-Next {rows = rows} {rest = rest} insert_gave_up apart h = same (broken (rows ∷ rest)) h

  no_step_done : {p : Process K R C} {t u : Tab} {c d : C} {A : Type 0} → Step T done t c p u d → A
  no_step_done s = elim s [ ]

  no_step_failed :
      {p : Process K R C} {t u : Tab} {c d : C} {A : Type 0} → Step T failed t c p u d → A
  no_step_failed s = elim s [ ]

  Going-Next :
      {batches : List (List R)} {p q : Process K R C} {t u : Tab} {c d : C}
      → Going batches p
      → Step T p t c q u d
      → AllApart key batches
      → All (AllOrNone T t) batches
      → Next u batches q
  Going-Next nothing_left s apart h = no_step_done s
  Going-Next (trying n rows rest) s apart h = Step-Next s apart h
  Going-Next (broken batches) s apart h = no_step_failed s

  at_done : (batches : List (List R)) (t : Tab) → Going batches done → All (AllPresent T t) batches
  at_done [] t nothing_left = tt
  at_done (rows ∷ rest) t g = elim g [ ]

  finish :
      {batches : List (List R)} {p q : Process K R C} {t u : Tab} {c d : C}
      → Steps T p t c q u d
      → Next t batches p
      → AllApart key batches
      → ((left : List (List R))
          → Going left p
          → AllApart key left
          → All (AllOrNone T t) left
          → All (AllPresent T u) left)
      → All (AllPresent T u) batches
  finish more (same {batches = batches} g h) apart later = later batches g apart h
  finish more (one_less {rows = rows} {rest = rest} now g h) (a, apart) later = (
    All-map _ _ rows (λ r. Steps-Present T (key r) more (Going-Keeps g)) now,
    later rest g apart h,
  )

  Steps-AllPresent :
      (batches : List (List R)) {p q : Process K R C} {t u : Tab} {c d : C}
      → Steps T p t c q u d
      → q ≡ done
      → Going batches p
      → AllApart key batches
      → All (AllOrNone T t) batches
      → All (AllPresent T u) batches
  Steps-AllPresent batches (ended {t = t}) e g apart h =
      at_done batches t (subst (Going batches) e g)
  Steps-AllPresent batches (then_steps s more) e g apart h =
      finish more (Going-Next g s apart h) apart
        (λ left g' apart' h'. Steps-AllPresent left more e g' apart' h')

  -- The rows have different keys, and of each batch the tables have all rows or none. If the loop ends
  -- with `Ok(())`, however attempts fail and replies are lost, all rows are there: a batch
  -- that is taken for a duplicate was written before.
  pub in_batches-AllPresent :
      (batches : List (List R)) (t u : Tab) (c d : C)
      → AllApart key batches
      → All (AllOrNone T t) batches
      → Steps T (in_batches batches) t c done u d
      → All (AllPresent T u) batches
  in_batches-AllPresent batches t u c d apart h steps =
      Steps-AllPresent batches steps refl (in_batches-Going batches) apart h
