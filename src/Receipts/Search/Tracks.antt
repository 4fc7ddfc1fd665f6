-- ===== src/Receipts/Search/Tracks.antt =====
-- One receipt in a search of `find_tx_hashes_for_receipts` (db_adapters/receipts.rs) in strict mode: it
-- is left, or has a hash.
use near_indexer_for_explore.Base.{
  ℕ, zero, suc, ◌+◌, String, Bool, true, false, Option, none, some, List, [], ◌∷◌, filter, All, ◌≡◌,
  refl, ap, ◌∙◌, is_empty, Bool-cases, ◌⊎◌, inl, inr, eqb, length, ◌==◌, eq_iff, String-eq,
}
use near_indexer_for_explore.Base.Map.{contains_key, extend}
use near_indexer_for_explore.Chain.{ReceiptView}
use near_indexer_for_explore.Cache.{ReceiptOrDataId, receipt_key, ReceiptOrDataId-eq}
use near_indexer_for_explore.Receipts.Search.{
  Hashes, Answer, Queries, Progress, searching, found, repeating, first_answer, answer_step,
  as_receipt_keys, as_data_keys, action_ids, query_step, not_found, take_in, via_data_output,
  data_pairs, data_ids, data_step, round_step, search, next_round, look_in_cache,
  not_found_in_cache, ◌then_go◌, find_tx_hashes_for_receipts,
}
use near_indexer_for_explore.Receipts.Search
use near_indexer_for_explore.Receipts.Search.Known.{Has, Has-extend_old, Has-extend_new}
use near_indexer_for_explore.Receipts.Search.Ids.{is_in, AllDistinct}
use near_indexer_for_explore.Receipts.Search.Counts.{
  keys, Exact, ids_of, CountsAll, exact-CountsAll, data_pairs-CountsAll,
}

-- The id is among the receipts that are left, or has a hash.
abbrev pub LeftOrKnown : String → List ReceiptView → Hashes → Type 0
LeftOrKnown id rs hs = (is_in id (ids_of rs) ≡ true) ⊎ Has (receipt_key id) hs

-- The receipt with the id is not lost: when the search has ended, it has a hash.
abbrev pub Tracks : String → Progress → Type 0
Tracks id (searching rs hs) = LeftOrKnown id rs hs
Tracks id (found hs) = Has (receipt_key id) hs
Tracks id repeating = Unit
Tracks id Search.failed = Unit

filter-is_in :
    (id : String) (hs : Hashes) (rs : List ReceiptView)
    → contains_key (receipt_key id) hs ≡ false
    → is_in id (ids_of rs) ≡ true
    → is_in id (ids_of (filter (not_found hs) rs)) ≡ true
filter-is_in id hs [] unknown h = absurd cc
filter-is_in id hs (r ∷ rs) unknown h = elim (Bool-cases (r.receipt_id == id)) [
  | inl same ↦
      let stays : contains_key (receipt_key r.receipt_id) hs ≡ false =
        ap (λ x. contains_key (receipt_key x) hs) ((eq_iff r.receipt_id id).0 same) ∙ unknown in
      rw stays (rw same refl)
  | inr other ↦
      let later = filter-is_in id hs rs unknown (rw other at h) in
      elim (Bool-cases (contains_key (receipt_key r.receipt_id) hs)) [
        | inl known ↦ rw known later
        | inr stays ↦ rw stays (rw other later)
      ]
]

module _ (id : String) where
  take_in-Tracks :
      (pairs : List (ReceiptOrDataId × String)) (rs : List ReceiptView) (hs : Hashes)
      → CountsAll pairs rs
      → LeftOrKnown id rs hs
      → Tracks id (take_in pairs rs hs)
  take_in-Tracks pairs rs hs all h =
      elim (Bool-cases (contains_key (receipt_key id) (extend hs pairs))) [
        | inl known ↦ elim (Bool-cases (eqb (length pairs) (length rs))) [
          | inl same ↦ rw same known
          | inr differ ↦ rw differ (inr known)
        ]
        | inr unknown ↦ elim h [
          | inr old ↦ absurd (true_false (Has-extend_old (receipt_key id) hs pairs old) unknown)
          | inl left ↦ elim (Bool-cases (eqb (length pairs) (length rs))) [
            | inl same ↦ rw same (Has-extend_new (receipt_key id) hs pairs (all same id left))
            | inr differ ↦ rw differ (inl (filter-is_in id (extend hs pairs) rs unknown left))
          ]
        ]
      ]
    where
      true_false : {b : Bool} → b ≡ true → b ≡ false → ⊥
      true_false h e = cc

  then_go-Tracks :
      (p : Progress) (f : List ReceiptView → Hashes → Progress)
      → Tracks id p
      → ((rs : List ReceiptView) (hs : Hashes) → LeftOrKnown id rs hs → Tracks id (f rs hs))
      → Tracks id (p then_go f)
  then_go-Tracks (searching rs hs) f h step = step rs hs h
  then_go-Tracks (found hs) f h step = h
  then_go-Tracks repeating f h step = tt
  then_go-Tracks Search.failed f h step = tt

  answer_step-Tracks :
      (o : Option Answer) (rs : List ReceiptView) (hs : Hashes)
      → LeftOrKnown id rs hs
      → Tracks id (answer_step o rs hs)
  answer_step-Tracks none rs hs h = tt
  answer_step-Tracks (some answer) rs hs h =
      take_in-Tracks (data_pairs answer rs) rs hs (data_pairs-CountsAll answer rs) h

  query_step-Tracks :
      (o : Option Answer) (rs : List ReceiptView) (hs : Hashes)
      → ((answer : Answer)
          → o ≡ some answer
          → AllDistinct (keys answer) × All (λ x. is_in x (action_ids rs) ≡ true) (keys answer))
      → LeftOrKnown id rs hs
      → Tracks id (query_step o rs hs)
  query_step-Tracks none rs hs exact h = tt
  query_step-Tracks (some answer) rs hs exact h =
      let (distinct, asked) = exact answer refl in
      take_in-Tracks (as_receipt_keys answer) rs hs (exact-CountsAll answer rs distinct asked) h

  module _ (q : Queries) (exact : Exact q) where
    data_step-Tracks :
        (round : ℕ) (rs : List ReceiptView) (hs : Hashes)
        → LeftOrKnown id rs hs
        → Tracks id (data_step q round rs hs)
    unfolding data_step
    data_step-Tracks round rs hs h = elim (Bool-cases (is_empty (data_ids rs))) [
      | inl nothing ↦ rw nothing h
      | inr some_ids ↦
          rw some_ids
            (answer_step-Tracks (first_answer (q.by_data_output round (data_ids rs))) rs hs h)
    ]

    round_step-Tracks :
        (round : ℕ) (rs : List ReceiptView) (hs : Hashes)
        → LeftOrKnown id rs hs
        → Tracks id (round_step q round rs hs)
    unfolding round_step
    round_step-Tracks round rs hs h =
        then_go-Tracks _ _
          (then_go-Tracks _ _ (data_step-Tracks round rs hs h) (λ rs hs.
            query_step-Tracks (q.by_outcomes round (action_ids rs)) rs hs
              (exact.outcomes_exact round (action_ids rs))))
          (λ rs hs.
            query_step-Tracks (q.by_transactions round (action_ids rs)) rs hs
              (exact.transactions_exact round (action_ids rs)))

    next_round-Tracks :
        (retries : ℕ) (again : ℕ → List ReceiptView → Hashes → Progress) (p : Progress)
        → Tracks id p
        → ((rs : List ReceiptView) (hs : Hashes)
            → LeftOrKnown id rs hs
            → Tracks id (again retries rs hs))
        → Tracks id (next_round true retries again p)
    next_round-Tracks retries again (searching rs hs) h more = more rs hs h
    next_round-Tracks retries again (found hs) h more = h
    next_round-Tracks retries again repeating h more = tt
    next_round-Tracks retries again Search.failed h more = tt

    pub search-Tracks :
        (fuel round retries : ℕ) (rs : List ReceiptView) (hs : Hashes)
        → LeftOrKnown id rs hs
        → Tracks id (search q true fuel round retries rs hs)
    unfolding search
    search-Tracks zero round retries rs hs h = h
    search-Tracks (suc fuel) round retries rs hs h =
        next_round-Tracks retries (λ n rs hs. search q true fuel (round + 1) n rs hs) _
          (round_step-Tracks round rs hs h)
          (λ rs hs h. search-Tracks fuel (round + 1) retries rs hs h)
