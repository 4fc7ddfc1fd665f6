-- ===== src/Process/References.antt =====
-- References between rows, as the foreign keys of the tables are: the rows that a row refers to,
-- and the processes that insert no row before those that it refers to.
use mathlib.Core.Path.{subst}
use near_indexer_for_explore.Base.{
  Eq, String, ◌≡◌, refl, sym, ◌∙◌, Option, none, some, List, [], ◌∷◌, ◌⊎◌, inl, inr, All, All-map,
  Bool-cases, some_inj, ◌==◌, ◌&&◌,
}
use near_indexer_for_explore.Database.{
  Statement, insert_do_nothing, update, find_row, effect, KeepsKey, Table,
}
use near_indexer_for_explore.Process.{
  Process, done, failed, panicked, stuck, locked, asked, attempts, batch, after, both, Step, lock,
  ask, replied, reply_lost, refused, gave_up, inserted, insert_lost, insert_refused, duplicate,
  insert_gave_up, first, next, returned, left, right, joined, left_failed, right_failed,
}
use near_indexer_for_explore.Process.Present.{
  Inserts, Establishes, Keeps, Present, run-Present, run-Inserts, Step-Present, Owes, Owes-Step,
}

either : {A B X : Type 0} → (A → B) → A ⊎ X → B ⊎ X
either f (inl a) = inl (f a)
either f (inr x) = inr x

module _ {K R : Type 0} ⦃e : Eq K⦄ (key : R → K) (parents : R → List K) where
  -- The rows of the statement refer to known rows only.
  abbrev pub Refers : (K → Type 0) → Statement K R → Type 0
  Refers Known (insert_do_nothing rows) = All (λ r. All Known (parents r)) rows
  Refers Known (update on_key p f) = (r : R) → parents (f r) ≡ parents r

  -- Where a row with a known key is there, the process inserts rows that refer to rows that are
  -- there.
  unfoldable pub Guarded : {C : Type 0} → (K → Type 0) → Process K R C → Type 0
  Guarded Known done = Unit
  Guarded Known failed = Unit
  Guarded Known panicked = Unit
  Guarded Known stuck = Unit
  Guarded {C} Known (locked f q) = (c : C) → Guarded Known (q c)
  Guarded Known (asked q) = (a : Option (List String)) → Guarded Known (q a)
  Guarded Known (attempts n s q) = Refers Known s × Guarded (λ k. Known k ⊎ Inserts key k s) q
  Guarded Known (batch n rows q) = All (λ r. All Known (parents r)) rows × Guarded Known q
  Guarded Known (after p q) = Guarded Known p × Guarded (λ k. Known k ⊎ Establishes key k p) q
  Guarded Known (both p q) = Guarded Known p × Guarded Known q

  rows_know :
      {P Q : K → Type 0}
      → ((k : K) → P k → Q k)
      → (rows : List R) → All (λ r. All P (parents r)) rows
      → All (λ r. All Q (parents r)) rows
  rows_know {P} {Q} h rows = All-map _ _ rows (λ r. All-map P Q (parents r) h)

  Refers-know :
      {P Q : K → Type 0} → ((k : K) → P k → Q k) → (s : Statement K R) → Refers P s → Refers Q s
  Refers-know h (insert_do_nothing rows) g = rows_know h rows g
  Refers-know h (update on_key p f) g = g

  -- What is guarded stays so where more is known.
  pub Guarded-know :
      {C : Type 0} (p : Process K R C) (P Q : K → Type 0)
      → ((k : K) → P k → Q k)
      → Guarded P p
      → Guarded Q p
  unfolding Guarded
  Guarded-know done P Q h g = tt
  Guarded-know failed P Q h g = tt
  Guarded-know panicked P Q h g = tt
  Guarded-know stuck P Q h g = tt
  Guarded-know {C = C} (locked f q) P Q h g = λ c. Guarded-know (q c) P Q h (g c)
  Guarded-know (asked q) P Q h g = λ a. Guarded-know (q a) P Q h (g a)
  Guarded-know (attempts n s q) P Q h (g, gs) = (
    Refers-know h s g,
    Guarded-know q (λ k. P k ⊎ Inserts key k s) (λ k. Q k ⊎ Inserts key k s) (λ k. either (h k)) gs,
  )
  Guarded-know (batch n rows q) P Q h (g, gs) = (rows_know h rows g, Guarded-know q P Q h gs)
  Guarded-know (after p q) P Q h (g, gs) = (
    Guarded-know p P Q h g,
    Guarded-know q (λ k. P k ⊎ Establishes key k p) (λ k. Q k ⊎ Establishes key k p)
        (λ k. either (h k)) gs,
  )
  Guarded-know (both p q) P Q h (g, gs) = (Guarded-know p P Q h g, Guarded-know q P Q h gs)

module _ {K R : Type 0} ⦃e : Eq K⦄ {key : R → K} (parents : R → List K) (T : Table key) where
  open T use {Tab, row, run, row-run}

  -- Every row that a row refers to is there.
  unfoldable pub References : Tab → Type 0
  References t = (k : K) (r : R) → row t k ≡ some r → All (Present T t) (parents r)

  found_refers :
      (P : K → Type 0) (k : K) (rows : List R) (r : R)
      → All (λ r. All P (parents r)) rows
      → find_row key k rows ≡ some r
      → All P (parents r)
  found_refers P k [] r g h = absurd cc
  found_refers P k (x ∷ xs) r (g, gs) h = elim (Bool-cases (key x == k)) [
    | inl hit ↦ subst (λ y. All P (parents y)) (some_inj (rw hit at h)) g
    | inr miss ↦ found_refers P k xs r gs (rw miss at h)
  ]

  effect-Refers :
      (t : Tab) (s : Statement K R) (k : K) (o : Option R) (r : R)
      → ((x : R) → o ≡ some x → All (Present T t) (parents x))
      → Refers key parents (Present T t) s
      → effect key s k o ≡ some r
      → All (Present T t) (parents r)
  effect-Refers t (insert_do_nothing rows) k none r old g h =
      found_refers (Present T t) k rows r g h
  effect-Refers t (insert_do_nothing rows) k (some x) r old g h = old r h
  effect-Refers t (update on_key p f) k none r old g h = absurd cc
  effect-Refers t (update on_key p f) k (some x) r old g h = elim (Bool-cases (on_key k && p x)) [
    | inl hit ↦
        let same : f x ≡ r = some_inj (rw hit at h) in
        subst (λ y. All (Present T t) (parents y)) same (rw (g x) (old x refl))
    | inr miss ↦ old r (rw miss at h)
  ]

  pub run-References :
      (s : Statement K R) (t : Tab)
      → KeepsKey key s
      → Refers key parents (Present T t) s
      → References t
      → References (run s t)
  unfolding References
  run-References s t keeps g old k r h =
      All-map (Present T t) (Present T (run s t)) (parents r) (λ j. run-Present T s t j keeps)
        (effect-Refers t s k (row t k) r (old k) g (sym (row-run s t k keeps) ∙ h))

module _ {K R C : Type 0} ⦃e : Eq K⦄ {key : R → K} (parents : R → List K) (T : Table key) where
  open T use {Tab}

  -- A step keeps the references, and leaves a process that is guarded by the rows that are there.
  pub Step-References :
      {p p' : Process K R C} {t t' : Tab} {c c' : C}
      → Step T p t c p' t' c'
      → Keeps key p
      → Guarded key parents (Present T t) p
      → References parents T t
      → References parents T t'
  unfolding Keeps Guarded
  Step-References lock k g h = h
  Step-References (ask a) k g h = h
  Step-References replied (k, ks) (g, gs) h = run-References parents T _ _ k g h
  Step-References reply_lost (k, ks) (g, gs) h = run-References parents T _ _ k g h
  Step-References refused k g h = h
  Step-References gave_up k g h = h
  Step-References (inserted {rows = rows} x) k (g, gs) h =
      run-References parents T (insert_do_nothing rows) _ tt g h
  Step-References (insert_lost {rows = rows} x) k (g, gs) h =
      run-References parents T (insert_do_nothing rows) _ tt g h
  Step-References insert_refused k g h = h
  Step-References (duplicate x) k g h = h
  Step-References insert_gave_up k g h = h
  Step-References (first s) (k, ks) (g, gs) h = Step-References s k g h
  Step-References next k g h = h
  Step-References returned k g h = h
  Step-References (left s) (k, ks) (g, gs) h = Step-References s k g h
  Step-References (right s) (k, ks) (g, gs) h = Step-References s ks gs h
  Step-References joined k g h = h
  Step-References left_failed k g h = h
  Step-References right_failed k g h = h

  later :
      {p p' : Process K R C} {t t' : Tab} {c c' : C}
      → Step T p t c p' t' c'
      → Keeps key p
      → (q : Process K R C) → Guarded key parents (Present T t) q
      → Guarded key parents (Present T t') q
  later {t = t} {t' = t'} s k q =
      Guarded-know key parents q (Present T t) (Present T t') (λ j. Step-Present T j s k)

  pub Step-Guarded :
      {p p' : Process K R C} {t t' : Tab} {c c' : C}
      → Step T p t c p' t' c'
      → Keeps key p
      → Guarded key parents (Present T t) p
      → Guarded key parents (Present T t') p'
  unfolding Keeps Guarded Establishes
  Step-Guarded (lock {c = c}) k g = g c
  Step-Guarded (ask a) k g = g a
  Step-Guarded (replied {n = n} {s = s} {q = q} {t = t}) (k, ks) (g, gs) =
      Guarded-know key parents q (λ j. Present T t j ⊎ Inserts key j s) (Present T (T.run s t))
        (λ j o. elim o [
          | inl there ↦ run-Present T s t j k there
          | inr new ↦ run-Inserts T s t j k new
        ])
        gs
  Step-Guarded (reply_lost {n = n} {s = s} {q = q} {t = t} {c = c}) k g =
      later (reply_lost {n = n} {s = s} {q = q} {t = t} {c = c}) k (attempts n s q) g
  Step-Guarded refused k g = g
  Step-Guarded gave_up k g = tt
  Step-Guarded (inserted {n = n} {rows = rows} {q = q} {t = t} {c = c} x) k (g, gs) =
      later (inserted {n = n} {rows = rows} {q = q} {t = t} {c = c} x) k q gs
  Step-Guarded (insert_lost {n = n} {rows = rows} {q = q} {t = t} {c = c} x) k g =
      later (insert_lost {n = n} {rows = rows} {q = q} {t = t} {c = c} x) k (batch n rows q) g
  Step-Guarded insert_refused k g = g
  Step-Guarded (duplicate x) k (g, gs) = gs
  Step-Guarded insert_gave_up k g = tt
  Step-Guarded (first {p = p} {p' = p'} {q = q} {t = t} {t' = t'} s) (k, ks) (g, gs) = (
    Step-Guarded s k g,
    Guarded-know key parents q (λ j. Owes T t j p) (λ j. Owes T t' j p') (λ j. Owes-Step T j s k)
        gs,
  )
  Step-Guarded (next {q = q} {t = t}) k (g, gs) =
      Guarded-know key parents q (λ j. Owes {C = C} T t j done) (Present T t)
        (λ j o. elim o [ inl there ↦ there | inr never ↦ absurd never ]) gs
  Step-Guarded returned k g = tt
  Step-Guarded (left {q = q} s) (k, ks) (g, gs) = (Step-Guarded s k g, later s k q gs)
  Step-Guarded (right {p = p} s) (k, ks) (g, gs) = (later s ks p g, Step-Guarded s ks gs)
  Step-Guarded joined k g = tt
  Step-Guarded left_failed k g = tt
  Step-Guarded right_failed k g = tt
