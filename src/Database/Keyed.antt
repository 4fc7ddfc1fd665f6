-- ===== src/Database/Keyed.antt =====
-- Lists of rows with distinct keys, as the values of a `HashMap` are: looking a row up after a
-- filter, and running one statement for each row.
use near_indexer_for_explore.Base.{
  Eq, ◌==◌, ◌≡◌, refl, ap, sym, ◌∙◌, ◌≢◌, Bool, false, Option, none, some, List, [], ◌∷◌, ◌++◌, map,
  filter, arith, Bool-cases, inl, inr, if◌then◌else◌, All,
}
use near_indexer_for_explore.Base.Map.{Map, values, get, insert, upsert, get-insert, get-upsert}
use near_indexer_for_explore.Database.{Statement, Future, insert_do_nothing, effect, find_row}
use near_indexer_for_explore.Database.Concurrent.{apply_future, Idle, Repeatable}

some≢none : {A : Type 0} {a : A} → some a ≢ none
some≢none h = cc

abbrev pub keep_if : {R : Type 0} → (R → Bool) → Option R → Option R
keep_if p none = none
keep_if p (some r) = if p r then some r else none

module _ {K R : Type 0} ⦃e : Eq K⦄ (key : R → K) where
  abbrev pub Distinct : List R → Type 0
  Distinct [] = Unit
  Distinct (r ∷ rs) = (find_row key (key r) rs ≡ none) × Distinct rs

  pub find_row-filter :
      (p : R → Bool) (k : K) (rs : List R)
      → Distinct rs
      → find_row key k (filter p rs) ≡ keep_if p (find_row key k rs)
  find_row-filter p k [] d = refl
  find_row-filter p k (r ∷ rs) (fresh, d) = elim (Bool-cases (key r == k)) [
    | inl same ↦
        let here : key r ≡ k = (e.beq_iff (key r) k).0 same in
        let absent : find_row key k rs ≡ none = rw here at fresh in
        ground (arith, find_row-filter p k rs d)
    | inr other ↦ ground (arith, find_row-filter p k rs d)
  ]

  pub find_row-key : (k : K) (rs : List R) (v : R) → find_row key k rs ≡ some v → key v ≡ k
  find_row-key k [] v h = cc
  find_row-key k (r ∷ rs) v h = ground (arith, e.beq_iff (key r) k, find_row-key k rs v)

  pub absent_filter :
      (p : R → Bool) (k : K) (rs : List R)
      → Distinct rs
      → find_row key k rs ≡ none
      → find_row key k (filter p rs) ≡ none
  absent_filter p k rs d h = rw (find_row-filter p k rs d, h)

  pub filter-Distinct : (p : R → Bool) (rs : List R) → Distinct rs → Distinct (filter p rs)
  filter-Distinct p [] d = tt
  filter-Distinct p (r ∷ rs) (fresh, d) = elim (Bool-cases (p r)) [
    | inl kept ↦ rw kept (absent_filter p (key r) rs d fresh, filter-Distinct p rs d)
    | inr dropped ↦ rw dropped (filter-Distinct p rs d)
  ]

  -- Statements that each touch the row of their own value only.
  abbrev pub OwnRow : (R → Statement K R) → Type 0
  OwnRow statement =
      (v : R) (k : K) (r : Option R) → (key v == k) ≡ false → effect key (statement v) k r ≡ r

  abbrev pub apply_own : (R → Statement K R) → K → Option R → Option R → Option R
  apply_own statement k none r = r
  apply_own statement k (some v) r = effect key (statement v) k r

  pub apply_future-map :
      (statement : R → Statement K R)
      → OwnRow statement
      → (k : K) (rs : List R) (r : Option R) → Distinct rs
      → apply_future key k (map statement rs) r ≡ apply_own statement k (find_row key k rs) r
  apply_future-map statement own k [] r d = refl
  apply_future-map statement own k (v ∷ rs) r (fresh, d) = elim (Bool-cases (key v == k)) [
    | inl same ↦
        let here : key v ≡ k = (e.beq_iff (key v) k).0 same in
        let absent : find_row key k rs ≡ none = rw here at fresh in
        rw same (apply_future-map statement own k rs (effect key (statement v) k r) d ∙ rw absent)
    | inr other ↦ rw other (
        apply_future-map statement own k rs (effect key (statement v) k r) d
        ∙ ap (apply_own statement k (find_row key k rs)) (own v k r other))
  ]

  pub apply_future-map-filter :
      (statement : R → Statement K R)
      → OwnRow statement
      → (p : R → Bool) (k : K) (rs : List R) (r : Option R) → Distinct rs
      → apply_future key k (map statement (filter p rs)) r
        ≡ apply_own statement k (keep_if p (find_row key k rs)) r
  apply_future-map-filter statement own p k rs r d =
      apply_future-map statement own k (filter p rs) r (filter-Distinct p rs d)
      ∙ ap (λ o. apply_own statement k o r) (find_row-filter p k rs d)

  pub All-map_statement :
      (P : Statement K R → Type 0) (statement : R → Statement K R) (rs : List R)
      → ((v : R) → P (statement v))
      → All P (map statement rs)
  All-map_statement P statement [] h = tt
  All-map_statement P statement (r ∷ rs) h = (h r, All-map_statement P statement rs h)

  -- Statements for rows of which none has the key do nothing at it.
  pub map-Idle :
      (statement : R → Statement K R)
      → OwnRow statement
      → (k : K) (rs : List R) → find_row key k rs ≡ none
      → All (Idle key k) (map statement rs)
  map-Idle statement own k [] h = tt
  map-Idle statement own k (v ∷ rs) h = elim (Bool-cases (key v == k)) [
    | inl same ↦ absurd (some≢none (rw same at h))
    | inr other ↦ ((λ r. own v k r other), map-Idle statement own k rs (rw other at h))
  ]

  pub insert-Idle :
      (k : K) (rs : List R) → find_row key k rs ≡ none → Idle key k (insert_do_nothing rs)
  insert-Idle k rs h none = h
  insert-Idle k rs h (some r) = refl

  pub insert-Repeatable : (k : K) (rs : List R) → Repeatable key k (insert_do_nothing rs)
  insert-Repeatable k rs none = ground arith
  insert-Repeatable k rs (some r) = refl

  pub apply_future-append :
      (k : K) (f g : Future K R) (r : Option R)
      → apply_future key k (f ++ g) r ≡ apply_future key k g (apply_future key k f r)
  apply_future-append k [] g r = refl
  apply_future-append k (s ∷ f) g r = apply_future-append k f g (effect key s k r)

  -- A map that files each row under its key.
  abbrev pub IsKeyed : Map K R → Type 0
  IsKeyed [] = Unit
  IsKeyed ((k, r) ∷ m) = (key r ≡ k) × (get k m ≡ none) × IsKeyed m

  pub find_row-values : (k : K) (m : Map K R) → IsKeyed m → find_row key k (values m) ≡ get k m
  find_row-values k [] h = refl
  find_row-values k ((j, r) ∷ m) (same, fresh, h) = rw (same, find_row-values k m h)

  pub values-Distinct : (m : Map K R) → IsKeyed m → Distinct (values m)
  values-Distinct [] h = tt
  values-Distinct ((j, r) ∷ m) (same, fresh, h) =
      (rw same (find_row-values j m h ∙ fresh), values-Distinct m h)

  pub insert-IsKeyed :
      (k : K) (r : R) (m : Map K R) → key r ≡ k → IsKeyed m → IsKeyed (insert k r m)
  insert-IsKeyed k r [] same h = (same, refl, tt)
  insert-IsKeyed k r ((j, w) ∷ m) same (own, fresh, h) = elim (Bool-cases (j == k)) [
    | inl hit ↦ rw hit (same ∙ sym ((e.beq_iff j k).0 hit), fresh, h)
    | inr miss ↦ rw miss (
      own,
      ground (arith, get-insert k j r m, e.beq_iff j k, e.beq_iff k j),
      insert-IsKeyed k r m same h,
    )
  ]

  pub upsert-IsKeyed :
      (k : K) (f : R → R) (r : R) (m : Map K R)
      → key r ≡ k
      → ((w : R) → key (f w) ≡ key w)
      → IsKeyed m
      → IsKeyed (upsert k f r m)
  upsert-IsKeyed k f r [] same keeps h = (same, refl, tt)
  upsert-IsKeyed k f r ((j, w) ∷ m) same keeps (own, fresh, h) = elim (Bool-cases (j == k)) [
    | inl hit ↦ rw hit (keeps w ∙ own, fresh, h)
    | inr miss ↦ rw miss (
      own,
      ground (arith, get-upsert k j f r m, e.beq_iff j k, e.beq_iff k j),
      upsert-IsKeyed k f r m same keeps h,
    )
  ]
