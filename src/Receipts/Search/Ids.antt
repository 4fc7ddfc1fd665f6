-- ===== src/Receipts/Search/Ids.antt =====
-- Lists of ids: distinct ids that are as many as those that they are among.
use near_indexer_for_explore.Base.{
  suc, ◌≤◌, String, Bool, true, false, List, [], ◌∷◌, All, ◌≡◌, refl, ap, arith, Bool-cases, ◌⊎◌,
  inl, inr, length, ◌==◌, eq_iff, String-eq, if◌then◌else◌,
}

abbrev pub is_in : String → List String → Bool
is_in id [] = false
is_in id (x ∷ ids) = if x == id then true else is_in id ids

abbrev pub AllDistinct : List String → Type 0
AllDistinct [] = Unit
AllDistinct (x ∷ ids) = (is_in x ids ≡ false) × AllDistinct ids

abbrev without : String → List String → List String
without id [] = []
without id (x ∷ ids) = if x == id then ids else x ∷ without id ids

length-without :
    (id : String) (ids : List String)
    → is_in id ids ≡ true
    → length ids ≡ suc (length (without id ids))
length-without id [] h = absurd cc
length-without id (x ∷ ids) h = elim (Bool-cases (x == id)) [
  | inl same ↦ rw same refl
  | inr other ↦ rw other (ap suc (length-without id ids (rw other at h)))
]

is_in-without :
    (id other : String) (ids : List String)
    → (other == id) ≡ false
    → is_in other ids ≡ true
    → is_in other (without id ids) ≡ true
is_in-without id other [] ne h = absurd cc
is_in-without id other (x ∷ ids) ne h =
    ground (arith, eq_iff x id, eq_iff x other, eq_iff other id, is_in-without id other ids ne)

is_in_one :
    (id other : String) (ids : List String)
    → is_in other ids ≡ true
    → ((id == other) ≡ true) ⊎ (is_in other (without id ids) ≡ true)
is_in_one id other ids h = elim (Bool-cases (other == id)) [
  | inl same ↦ inl (ground (arith, same, eq_iff id other, eq_iff other id))
  | inr different ↦ inr (is_in-without id other ids different h)
]

-- Distinct ids that are as many as those that they are among are all of them.
pub all_of_them :
    (xs ids : List String)
    → AllDistinct xs
    → All (λ x. is_in x ids ≡ true) xs
    → length ids ≤ length xs
    → (id : String) → is_in id ids ≡ true
    → is_in id xs ≡ true
all_of_them [] [] distinct among few id h = h
all_of_them [] (y ∷ ids) distinct among few id h = absurd (omega (arith, few))
all_of_them (x ∷ xs) ids (new, distinct) (there, among) few id h =
    let n = length-without x ids there in
    elim (is_in_one x id ids h) [
      | inl same ↦ rw same refl
      | inr other ↦
          let later =
            all_of_them xs (without x ids) distinct (others xs new among) (omega (arith, n, few)) id
              other in
          elim (Bool-cases (x == id)) [
            | inl same ↦ rw same refl
            | inr different ↦ rw different later
          ]
    ]
  where
    others :
        (ys : List String)
        → is_in x ys ≡ false
        → All (λ y. is_in y ids ≡ true) ys
        → All (λ y. is_in y (without x ids) ≡ true) ys
    others [] new h = tt
    others (y ∷ ys) new (h, hs) = elim (Bool-cases (y == x)) [
      | inl same ↦ absurd (true_false (rw same at new))
      | inr different ↦ (is_in-without x y ids different h, others ys (rw different at new) hs)
    ]
      where
        true_false : true ≡ false → ⊥
        true_false e = cc
