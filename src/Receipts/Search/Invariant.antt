-- ===== src/Receipts/Search/Invariant.antt =====
-- What holds of the receipts and of the hashes all through the search of the database.
use near_indexer_for_explore.Base.{
  ℕ, zero, suc, ◌+◌, ◌-◌, String, Bool, true, false, Option, none, some, List, [], ◌∷◌, filter, All,
  ◌≡◌, refl, is_empty, Bool-cases, inl, inr, eqb, ltb, length,
}
use near_indexer_for_explore.Base.Map.{extend}
use near_indexer_for_explore.Chain.{ReceiptView}
use near_indexer_for_explore.Cache.{ReceiptOrDataId, ReceiptOrDataId-eq}
use near_indexer_for_explore.Receipts.Search.{
  Hashes, Answer, Queries, Progress, searching, found, repeating, failed, first_answer, answer_step,
  ◌then_go◌, as_receipt_keys, data_ids, action_ids, take_in, data_step, query_step, round_step,
  search, next_round, data_pairs,
}

pub All-filter :
    {A : Type 0} (P : A → Type 0) (p : A → Bool) (xs : List A) → All P xs → All P (filter p xs)
All-filter P p [] h = tt
All-filter P p (x ∷ xs) (hx, h) = elim (Bool-cases (p x)) [
  | inl held ↦ rw held (hx, All-filter P p xs h)
  | inr other ↦ rw other (All-filter P p xs h)
]

-- `Ok` of the receipts and `P` of the hashes, however far the search is.
abbrev pub Holds : (ReceiptView → Type 0) → (Hashes → Type 0) → Progress → Type 0
Holds Ok P (searching receipts hashes) = All Ok receipts × P hashes
Holds Ok P (found hashes) = P hashes
Holds Ok P repeating = Unit
Holds Ok P failed = Unit

-- Pairs that may come in are `Good`, and `P` is kept when they do.
pub record Kept (q : Queries) (Ok : ReceiptView → Type 0) (P : Hashes → Type 0) : Type 1 where
  pub Good : ReceiptOrDataId × String → Type 0
  pub data_good :
      (round : ℕ) (rs : List ReceiptView) (answer : Answer)
      → first_answer (q.by_data_output round (data_ids rs)) ≡ some answer
      → All Ok rs
      → All Good (data_pairs answer rs)
  pub outcomes_good :
      (round : ℕ) (ids : List String) (answer : Answer)
      → q.by_outcomes round ids ≡ some answer
      → All Good (as_receipt_keys answer)
  pub transactions_good :
      (round : ℕ) (ids : List String) (answer : Answer)
      → q.by_transactions round ids ≡ some answer
      → All Good (as_receipt_keys answer)
  pub extended :
      (hashes : Hashes) (pairs : List (ReceiptOrDataId × String))
      → P hashes
      → All Good pairs
      → P (extend hashes pairs)

module _ (q : Queries) (Ok : ReceiptView → Type 0) (P : Hashes → Type 0) (k : Kept q Ok P) where
  then_go-Holds :
      (p : Progress) (f : List ReceiptView → Hashes → Progress)
      → Holds Ok P p
      → ((rs : List ReceiptView) (hs : Hashes) → All Ok rs → P hs → Holds Ok P (f rs hs))
      → Holds Ok P (p then_go f)
  then_go-Holds (searching rs hs) f h step = step rs hs h.0 h.1
  then_go-Holds (found hs) f h step = h
  then_go-Holds repeating f h step = tt
  then_go-Holds failed f h step = tt

  take_in-Holds :
      (pairs : List (ReceiptOrDataId × String)) (rs : List ReceiptView) (hs : Hashes)
      → All k.Good pairs
      → All Ok rs
      → P hs
      → Holds Ok P (take_in pairs rs hs)
  take_in-Holds pairs rs hs good ok h = elim (Bool-cases (eqb (length pairs) (length rs))) [
    | inl all_found ↦ rw all_found (k.extended hs pairs h good)
    | inr more ↦ rw more (All-filter Ok _ rs ok, k.extended hs pairs h good)
  ]

  next_round-Holds :
      (strict_mode : Bool) (retries : ℕ) (again : ℕ → List ReceiptView → Hashes → Progress)
      (p : Progress)
      → Holds Ok P p
      → ((n : ℕ) (rs : List ReceiptView) (hs : Hashes)
          → All Ok rs
          → P hs
          → Holds Ok P (again n rs hs))
      → Holds Ok P (next_round strict_mode retries again p)
  next_round-Holds strict_mode retries again repeating h step = tt
  next_round-Holds strict_mode retries again failed h step = tt
  next_round-Holds strict_mode retries again (found hs) h step = h
  next_round-Holds true retries again (searching rs hs) h step = step retries rs hs h.0 h.1
  next_round-Holds false retries again (searching rs hs) h step =
      elim (Bool-cases (ltb 0 retries)) [
        | inl more ↦ rw more (step (retries - 1) rs hs h.0 h.1)
        | inr last ↦ rw last h.1
      ]

  answer_step-Holds :
      (o : Option Answer) (rs : List ReceiptView) (hs : Hashes)
      → ((answer : Answer) → o ≡ some answer → All k.Good (data_pairs answer rs))
      → All Ok rs
      → P hs
      → Holds Ok P (answer_step o rs hs)
  answer_step-Holds none rs hs good ok h = tt
  answer_step-Holds (some answer) rs hs good ok h =
      take_in-Holds (data_pairs answer rs) rs hs (good answer refl) ok h

  data_step-Holds :
      (round : ℕ) (rs : List ReceiptView) (hs : Hashes)
      → All Ok rs
      → P hs
      → Holds Ok P (data_step q round rs hs)
  unfolding data_step
  data_step-Holds round rs hs ok h = elim (Bool-cases (is_empty (data_ids rs))) [
    | inl nothing ↦ rw nothing (ok, h)
    | inr some_ids ↦
        rw some_ids (answer_step-Holds _ rs hs (λ answer e. k.data_good round rs answer e ok) ok h)
  ]

  query_step-Holds :
      (o : Option Answer) (rs : List ReceiptView) (hs : Hashes)
      → ((answer : Answer) → o ≡ some answer → All k.Good (as_receipt_keys answer))
      → All Ok rs
      → P hs
      → Holds Ok P (query_step o rs hs)
  query_step-Holds none rs hs good ok h = tt
  query_step-Holds (some answer) rs hs good ok h =
      take_in-Holds (as_receipt_keys answer) rs hs (good answer refl) ok h

  round_step-Holds :
      (round : ℕ) (rs : List ReceiptView) (hs : Hashes)
      → All Ok rs
      → P hs
      → Holds Ok P (round_step q round rs hs)
  unfolding round_step
  round_step-Holds round rs hs ok h =
      then_go-Holds _ _
        (then_go-Holds _ _ (data_step-Holds round rs hs ok h)
          (λ rs hs ok h. query_step-Holds _ rs hs (k.outcomes_good round (action_ids rs)) ok h))
        (λ rs hs ok h. query_step-Holds _ rs hs (k.transactions_good round (action_ids rs)) ok h)

  pub search-Holds :
      (strict_mode : Bool) (fuel round retries : ℕ) (rs : List ReceiptView) (hs : Hashes)
      → All Ok rs
      → P hs
      → Holds Ok P (search q strict_mode fuel round retries rs hs)
  unfolding search
  search-Holds strict_mode zero round retries rs hs ok h = (ok, h)
  search-Holds strict_mode (suc fuel) round retries rs hs ok h =
      next_round-Holds strict_mode retries _ (round_step q round rs hs)
        (round_step-Holds round rs hs ok h)
        (λ n rs hs ok h. search-Holds strict_mode fuel (round + 1) n rs hs ok h)
