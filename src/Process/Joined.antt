-- ===== src/Process/Joined.antt =====
-- What holds of the processes that `try_join_all` joins and of the inserts of a list of rows.
use near_indexer_for_explore.Base.{
  Eq, ℕ, ◌≡◌, refl, Bool, List, [], ◌∷◌, ◌⊎◌, inl, inr, All, All-map, All-append, map, filter,
  flat_map, map_from, ◌+◌, Bool-cases, ◌==◌, ==-refl,
}
use near_indexer_for_explore.Database.{Statement, insert_do_nothing, update, KeepsKey}
use near_indexer_for_explore.Process.{Process, join_all, in_order}
use near_indexer_for_explore.Process.Present.{Has, Inserts, Establishes, Keeps}
use near_indexer_for_explore.Process.References.{Guarded, Refers}

pub All-of {κ} : {A : Type 0} (P : A → Type κ) (xs : List A) → ((x : A) → P x) → All P xs
All-of P [] h = tt
All-of P (x ∷ xs) h = (h x, All-of P xs h)

pub All-under :
    {A X : Type 0} (P : X → A → Type 0) (xs : List A)
    → ((c : X) → All (P c) xs)
    → All (λ x. (c : X) → P c x) xs
All-under P [] h = tt
All-under P (x ∷ xs) h = ((λ c. (h c).0), All-under P xs (λ c. (h c).1))

pub All-both {κ} :
    {A : Type 0} (P Q : A → Type κ) (xs : List A) → All P xs → All Q xs → All (λ x. P x × Q x) xs
All-both P Q [] h g = tt
All-both P Q (x ∷ xs) (h, hs) (g, gs) = ((h, g), All-both P Q xs hs gs)

pub All-of_map {κ} :
    {A B : Type 0} (P : B → Type κ) (f : A → B) (xs : List A)
    → All (λ x. P (f x)) xs
    → All P (map f xs)
All-of_map P f [] h = tt
All-of_map P f (x ∷ xs) (h, hs) = (h, All-of_map P f xs hs)

pub All-under_map {κ} :
    {A B : Type 0} (P : B → Type κ) (f : A → B) (xs : List A)
    → All P (map f xs)
    → All (λ x. P (f x)) xs
All-under_map P f [] h = tt
All-under_map P f (x ∷ xs) (h, hs) = (h, All-under_map P f xs hs)

pub All-map_from {κ} :
    {A B : Type 0} (P : B → Type κ) (f : ℕ → A → B) (i : ℕ) (xs : List A)
    → ((j : ℕ) (x : A) → P (f j x))
    → All P (map_from f i xs)
All-map_from P f i [] h = tt
All-map_from P f i (x ∷ xs) h = (h i x, All-map_from P f (i + 1) xs h)

pub All-flat_map {κ} :
    {A B : Type 0} (P : B → Type κ) (f : A → List B) (xs : List A)
    → All (λ x. All P (f x)) xs
    → All P (flat_map f xs)
All-flat_map P f [] h = tt
All-flat_map P f (x ∷ xs) (h, hs) = All-append P (f x) (flat_map f xs) h (All-flat_map P f xs hs)

pub All-filter {κ} :
    {A : Type 0} (P : A → Type κ) (p : A → Bool) (xs : List A) → All P xs → All P (filter p xs)
All-filter P p [] h = tt
All-filter P p (x ∷ xs) (h, hs) = elim (Bool-cases (p x)) [
  | inl kept ↦ rw kept (h, All-filter P p xs hs)
  | inr dropped ↦ rw dropped (All-filter P p xs hs)
]

module _ {K R : Type 0} ⦃e : Eq K⦄ (key : R → K) where
  pub Has-more : (r : R) (rows : List R) (k : K) → Has key k rows → Has key k (r ∷ rows)
  Has-more r rows k h = elim (Bool-cases (key r == k)) [
    | inl hit ↦ rw hit refl
    | inr miss ↦ rw miss h
  ]

  -- A list of rows has the keys of its rows.
  pub Has-rows : (rows : List R) → All (λ k. Has key k rows) (map key rows)
  Has-rows [] = tt
  Has-rows (r ∷ rows) =
      (rw (==-refl (key r)) refl, All-map _ _ (map key rows) (Has-more r rows) (Has-rows rows))

  module _ {C : Type 0} where
    pub join_all-Keeps :
        {A : Type 0} (f : A → Process K R C) (xs : List A)
        → ((x : A) → Keeps key (f x))
        → Keeps key (join_all (map f xs))
    unfolding Keeps
    join_all-Keeps f [] h = tt
    join_all-Keeps f (x ∷ xs) h = (h x, join_all-Keeps f xs h)

    pub join_all-Establishes :
        {A : Type 0} (f : A → Process K R C) (keys : A → List K) (xs : List A)
        → All (λ x. All (λ k. Establishes key k (f x)) (keys x)) xs
        → All (λ x. All (λ k. Establishes key k (join_all (map f xs))) (keys x)) xs
    unfolding Establishes
    join_all-Establishes f keys [] h = tt
    join_all-Establishes f keys (x ∷ xs) (h, hs) = (
      All-map _ _ (keys x) (λ k. inl) h,
      All-map _ _ xs (λ y. All-map _ _ (keys y) (λ k. inr)) (join_all-Establishes f keys xs hs),
    )

  module _ {C : Type 0} (parents : R → List K) where
    pub join_all-Guarded :
        {A : Type 0} (Known : K → Type 0) (f : A → Process K R C) (xs : List A)
        → All (λ x. Guarded key parents Known (f x)) xs
        → Guarded key parents Known (join_all (map f xs))
    unfolding Guarded
    join_all-Guarded Known f [] h = tt
    join_all-Guarded Known f (x ∷ xs) (h, hs) = (h, join_all-Guarded Known f xs hs)

module _ {K R : Type 0} ⦃e : Eq K⦄ (key : R → K) (parents : R → List K) where
  -- A statement that changes neither keys nor references, on rows that refer to nothing.
  abbrev pub Free : Statement K R → Type 0
  Free (insert_do_nothing rows) = All (λ r. parents r ≡ []) rows
  Free (update on_key p f) = ((r : R) → key (f r) ≡ key r) × ((r : R) → parents (f r) ≡ parents r)

  Free-Keeps : (s : Statement K R) → Free s → KeepsKey key s
  Free-Keeps (insert_do_nothing rows) h = tt
  Free-Keeps (update on_key p f) (h, hs) = h

  Free-Refers : (Known : K → Type 0) (s : Statement K R) → Free s → Refers key parents Known s
  Free-Refers Known (insert_do_nothing rows) h = All-map _ _ rows (λ r x. rw x tt) h
  Free-Refers Known (update on_key p f) (h, hs) = hs

  module _ (C : Type 0) where
    pub in_order-Keeps :
        (n : ℕ) (f : List (Statement K R)) → All Free f → Keeps key (in_order {C = C} n f)
    unfolding Keeps
    in_order-Keeps n [] h = tt
    in_order-Keeps n (s ∷ f) (h, hs) = (Free-Keeps s h, in_order-Keeps n f hs)

    pub in_order-Guarded :
        (n : ℕ) (f : List (Statement K R)) (Known : K → Type 0)
        → All Free f
        → Guarded key parents Known (in_order {C = C} n f)
    unfolding Guarded
    in_order-Guarded n [] Known h = tt
    in_order-Guarded n (s ∷ f) Known (h, hs) =
        (Free-Refers Known s h, in_order-Guarded n f (λ k. Known k ⊎ Inserts key k s) hs)
