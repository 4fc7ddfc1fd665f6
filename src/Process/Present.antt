-- ===== src/Process/Present.antt =====
-- Rows that a process is going to leave in the tables, by their keys.
use near_indexer_for_explore.Base.{
  Eq, String, ◌≡◌, refl, true, Option, none, some, List, is_some, ◌⊎◌, inl, inr,
}
use near_indexer_for_explore.Database.{
  Statement, insert_do_nothing, update, insert_at, find_row, effect, KeepsKey, Table,
}
use near_indexer_for_explore.Process.{
  Process, done, failed, panicked, stuck, locked, asked, attempts, batch, after, both, Step, lock,
  ask, replied, reply_lost, refused, gave_up, inserted, insert_lost, insert_refused, duplicate,
  insert_gave_up, first, next, returned, left, right, joined, left_failed, right_failed,
}

module _ {K R : Type 0} ⦃e : Eq K⦄ (key : R → K) where
  -- One of the rows has the key.
  abbrev pub Has : K → List R → Type 0
  Has k rows = is_some (find_row key k rows) ≡ true

  abbrev pub Inserts : K → Statement K R → Type 0
  Inserts k (insert_do_nothing rows) = Has k rows
  Inserts k (update on_key p f) = ⊥

  -- If the process ends with `Ok(())`, it has inserted a row with the key on its way.
  unfoldable pub Establishes : {C : Type 0} → K → Process K R C → Type 0
  Establishes k done = ⊥
  Establishes k failed = Unit
  Establishes k panicked = Unit
  Establishes k stuck = Unit
  Establishes {C} k (locked f q) = (c : C) → Establishes k (q c)
  Establishes k (asked q) = (a : Option (List String)) → Establishes k (q a)
  Establishes k (attempts n s q) = Inserts k s ⊎ Establishes k q
  Establishes k (batch n rows q) = Establishes k q
  Establishes k (after p q) = Establishes k p ⊎ Establishes k q
  Establishes k (both p q) = Establishes k p ⊎ Establishes k q

  -- No statement of the process changes a key.
  unfoldable pub Keeps : {C : Type 0} → Process K R C → Type 0
  Keeps done = Unit
  Keeps failed = Unit
  Keeps panicked = Unit
  Keeps stuck = Unit
  Keeps {C} (locked f q) = (c : C) → Keeps (q c)
  Keeps (asked q) = (a : Option (List String)) → Keeps (q a)
  Keeps (attempts n s q) = KeepsKey key s × Keeps q
  Keeps (batch n rows q) = Keeps q
  Keeps (after p q) = Keeps p × Keeps q
  Keeps (both p q) = Keeps p × Keeps q

module _ {K R : Type 0} ⦃e : Eq K⦄ {key : R → K} (T : Table key) where
  open T use {Tab, row, run, row-run}

  abbrev pub Present : Tab → K → Type 0
  Present t k = is_some (row t k) ≡ true

  effect-some :
      (s : Statement K R) (k : K) (r : Option R)
      → is_some r ≡ true
      → is_some (effect key s k r) ≡ true
  effect-some (insert_do_nothing rows) k (some r) h = refl
  effect-some (update on_key p f) k (some r) h = refl
  effect-some s k none h = absurd cc

  insert_at-some : (new r : Option R) → is_some new ≡ true → is_some (insert_at new r) ≡ true
  insert_at-some new none h = h
  insert_at-some new (some r) h = refl

  -- A row that is there stays.
  pub run-Present :
      (s : Statement K R) (t : Tab) (k : K) → KeepsKey key s → Present t k → Present (run s t) k
  run-Present s t k keeps h = rw (row-run s t k keeps) (effect-some s k (row t k) h)

  pub run-Inserts :
      (s : Statement K R) (t : Tab) (k : K) → KeepsKey key s → Inserts key k s → Present (run s t) k
  run-Inserts (insert_do_nothing rows) t k keeps h =
      rw (row-run (insert_do_nothing rows) t k tt)
        (insert_at-some (find_row key k rows) (row t k) h)
  run-Inserts (update on_key p f) t k keeps h = absurd h

module _ {K R C : Type 0} ⦃e : Eq K⦄ {key : R → K} (T : Table key) where
  open T use {Tab}

  pub Step-Present :
      {p p' : Process K R C} {t t' : Tab} {c c' : C} (k : K)
      → Step T p t c p' t' c'
      → Keeps key p
      → Present T t k
      → Present T t' k
  unfolding Keeps
  Step-Present k lock g h = h
  Step-Present k (ask a) g h = h
  Step-Present k replied (g, gs) h = run-Present T _ _ k g h
  Step-Present k reply_lost (g, gs) h = run-Present T _ _ k g h
  Step-Present k refused g h = h
  Step-Present k gave_up g h = h
  Step-Present k (inserted {rows = rows} x) g h = run-Present T (insert_do_nothing rows) _ k tt h
  Step-Present k (insert_lost {rows = rows} x) g h = run-Present T (insert_do_nothing rows) _ k tt h
  Step-Present k insert_refused g h = h
  Step-Present k (duplicate x) g h = h
  Step-Present k insert_gave_up g h = h
  Step-Present k (first s) (g, gs) h = Step-Present k s g h
  Step-Present k next g h = h
  Step-Present k returned g h = h
  Step-Present k (left s) (g, gs) h = Step-Present k s g h
  Step-Present k (right s) (g, gs) h = Step-Present k s gs h
  Step-Present k joined g h = h
  Step-Present k left_failed g h = h
  Step-Present k right_failed g h = h

  pub Step-Keeps :
      {p p' : Process K R C} {t t' : Tab} {c c' : C}
      → Step T p t c p' t' c'
      → Keeps key p
      → Keeps key p'
  unfolding Keeps
  Step-Keeps (lock {c = c}) g = g c
  Step-Keeps (ask a) g = g a
  Step-Keeps replied (g, gs) = gs
  Step-Keeps reply_lost g = g
  Step-Keeps refused g = g
  Step-Keeps gave_up g = tt
  Step-Keeps (inserted x) g = g
  Step-Keeps (insert_lost x) g = g
  Step-Keeps insert_refused g = g
  Step-Keeps (duplicate x) g = g
  Step-Keeps insert_gave_up g = tt
  Step-Keeps (first s) (g, gs) = (Step-Keeps s g, gs)
  Step-Keeps next (g, gs) = gs
  Step-Keeps returned g = tt
  Step-Keeps (left s) (g, gs) = (Step-Keeps s g, gs)
  Step-Keeps (right s) (g, gs) = (g, Step-Keeps s gs)
  Step-Keeps joined g = tt
  Step-Keeps left_failed g = tt
  Step-Keeps right_failed g = tt

  -- The row is there, or the process is going to insert it.
  abbrev pub Owes : Tab → K → Process K R C → Type 0
  Owes t k p = Present T t k ⊎ Establishes key k p

  pub Establishes-Step :
      {p p' : Process K R C} {t t' : Tab} {c c' : C} (k : K)
      → Step T p t c p' t' c'
      → Keeps key p
      → Establishes key k p
      → Owes t' k p'
  unfolding Keeps Establishes
  Establishes-Step k (lock {c = c}) g h = inr (h c)
  Establishes-Step k (ask a) g h = inr (h a)
  Establishes-Step k replied (g, gs) (inl h) = inl (run-Inserts T _ _ k g h)
  Establishes-Step k replied (g, gs) (inr h) = inr h
  Establishes-Step k reply_lost g h = inr h
  Establishes-Step k refused g h = inr h
  Establishes-Step k gave_up g h = inr tt
  Establishes-Step k (inserted x) g h = inr h
  Establishes-Step k (insert_lost x) g h = inr h
  Establishes-Step k insert_refused g h = inr h
  Establishes-Step k (duplicate x) g h = inr h
  Establishes-Step k insert_gave_up g h = inr tt
  Establishes-Step k (first s) (g, gs) (inl h) = elim (Establishes-Step k s g h) [
    | inl there ↦ inl there
    | inr later ↦ inr (inl later)
  ]
  Establishes-Step k (first s) (g, gs) (inr h) = inr (inr h)
  Establishes-Step k next g (inl h) = absurd h
  Establishes-Step k next g (inr h) = inr h
  Establishes-Step k returned g h = inr tt
  Establishes-Step k (left s) (g, gs) (inl h) = elim (Establishes-Step k s g h) [
    | inl there ↦ inl there
    | inr later ↦ inr (inl later)
  ]
  Establishes-Step k (left s) g (inr h) = inr (inr h)
  Establishes-Step k (right s) g (inl h) = inr (inl h)
  Establishes-Step k (right s) (g, gs) (inr h) = elim (Establishes-Step k s gs h) [
    | inl there ↦ inl there
    | inr later ↦ inr (inr later)
  ]
  Establishes-Step k joined g (inl h) = absurd h
  Establishes-Step k joined g (inr h) = absurd h
  Establishes-Step k left_failed g h = inr tt
  Establishes-Step k right_failed g h = inr tt

  -- What a process owes, it has paid or still owes after a step.
  pub Owes-Step :
      {p p' : Process K R C} {t t' : Tab} {c c' : C} (k : K)
      → Step T p t c p' t' c'
      → Keeps key p
      → Owes t k p
      → Owes t' k p'
  Owes-Step k s g (inl h) = inl (Step-Present k s g h)
  Owes-Step k s g (inr h) = Establishes-Step k s g h
