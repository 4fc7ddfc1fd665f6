-- ===== src/Receipts/Search/Skipped.antt =====
-- The keys under which `find_tx_hashes_for_receipts` (db_adapters/receipts.rs) files what the
-- database answers, and the end of the search.
use near_indexer_for_explore.Base.{
  ℕ, zero, suc, ◌+◌, ◌-◌, ◌<◌, String, Bool, true, false, none, some, List, [], ◌∷◌, filter,
  filter_map, All, ◌≡◌, refl, ◌∙◌, arith, is_empty, Bool-cases, Option-cases, inl, inr, is_some,
  length, eqb, Option, ltb, ◌==◌, true,
}
use near_indexer_for_explore.Base.Map.{get, insert, extend, get-insert}
use near_indexer_for_explore.Chain.{ReceiptView, ReceiptEnumView, action, datum}
use near_indexer_for_explore.Cache.{ReceiptOrDataId, data_key, ReceiptOrDataId-eq, ReceiptsCache}
use near_indexer_for_explore.Receipts.Search.{
  Hashes, Answer, Queries, Progress, searching, found, repeating, failed, first_answer, answer_step,
  via_data_output, as_receipt_keys, as_data_keys, data_ids, action_ids, ◌then_go◌, data_pairs,
  take_in, query_step, data_step, next_round, round_step, search, look_in_cache, not_found_in_cache,
  find_tx_hashes_for_receipts,
}
use near_indexer_for_explore.Receipts.Search.Invariant.{Holds, Kept, search-Holds}

abbrev NotFor : String → ReceiptOrDataId × String → Type 0
NotFor d p = (p.0 == data_key d) ≡ false

get-extend_others :
    (d : String) (hs : Hashes) (pairs : List (ReceiptOrDataId × String))
    → All (NotFor d) pairs
    → get (data_key d) (extend hs pairs) ≡ get (data_key d) hs
get-extend_others d hs [] h = refl
get-extend_others d hs ((k, v) ∷ pairs) (other, h) =
    get-extend_others d (insert k v hs) pairs h ∙ (get-insert k (data_key d) v hs ∙ rw other refl)

receipt_keys_others : (d : String) (answer : Answer) → All (NotFor d) (as_receipt_keys answer)
receipt_keys_others d [] = tt
receipt_keys_others d (p ∷ answer) = (refl, receipt_keys_others d answer)

via_data_others :
    (d : String) (answered : Hashes) (rs : List ReceiptView)
    → All (NotFor d) (filter_map (λ r. via_data_output answered r r.receipt) rs)
via_data_others d answered [] = tt
via_data_others d answered (r ∷ rs) = one r.receipt (via_data_others d answered rs)
  where
    one :
        (e : ReceiptEnumView)
        → All (NotFor d) (filter_map (λ r. via_data_output answered r r.receipt) rs)
        → All (NotFor d) (elim (via_data_output answered r e) [
          | none ↦ filter_map (λ r. via_data_output answered r r.receipt) rs
          | some y ↦ y ∷ filter_map (λ r. via_data_output answered r r.receipt) rs
        ])
    one (action body) rest = rest
    one (datum data_id bytes) rest = elim (Option-cases (get (data_key data_id) answered)) [
      | inl missing ↦ rw missing rest
      | inr (h, there) ↦ rw there (refl, rest)
    ]

module _ (q : Queries) (d : String) (before : Hashes) where
  abbrev AsBefore : Hashes → Type 0
  AsBefore hs = get (data_key d) hs ≡ get (data_key d) before

  abbrev others_kept : Kept q (λ r. Unit) AsBefore
  others_kept = record {
    Good = NotFor d;
    data_good = λ round rs answer e ok. via_data_others d (extend [] (as_data_keys answer)) rs;
    outcomes_good = λ round ids answer e. receipt_keys_others d answer;
    transactions_good = λ round ids answer e. receipt_keys_others d answer;
    extended = λ hs pairs h good. get-extend_others d hs pairs good ∙ h;
  }

All-ok : {A : Type 0} (xs : List A) → All {0, 0} (λ x. Unit) xs
All-ok [] = tt
All-ok (x ∷ xs) = (tt, All-ok xs)

-- The search of the database files what it finds under receipt ids only: whatever the answers of
-- the database and however often it is asked, a hash that is found for a data id is the one that
-- the cache gave.
pub find_tx_hashes-data_key :
    (q : Queries) (strict_mode : Bool) (C : ReceiptsCache) (fuel : ℕ) (receipts : List ReceiptView)
    (c : ReceiptsCache.Cache C) (data_id : String)
    → Holds
        (λ r. Unit)
        (λ hs. get (data_key data_id) hs ≡ get (data_key data_id) (look_in_cache C receipts [] c).0)
        (find_tx_hashes_for_receipts q strict_mode C fuel receipts c).0
unfolding find_tx_hashes_for_receipts
find_tx_hashes-data_key q strict_mode C fuel receipts c data_id =
    let hashes = (look_in_cache C receipts [] c).0 in
    let left = filter (not_found_in_cache hashes) receipts in
    elim (Bool-cases (is_empty left)) [
      | inl none_left ↦ rw none_left refl
      | inr some_left ↦ rw some_left (
          search-Holds q (λ r. Unit) _ (others_kept q data_id hashes) strict_mode fuel 0 4 left
            hashes (All-ok left) refl)
    ]

-- The search has come to an end.
abbrev pub Ended : Progress → Type 0
Ended (searching receipts hashes) = ⊥
Ended repeating = ⊥
Ended _ = Unit

module _ (q : Queries) where
  -- Whenever the query by data output is made, one of its attempts succeeds.
  abbrev pub Succeeds : Type 0
  Succeeds =
      (round : ℕ) (ids : List String) → is_some (first_answer (q.by_data_output round ids)) ≡ true

  -- Not in the midst of a query.
  abbrev Between : Progress → Type 0
  Between repeating = ⊥
  Between _ = Unit

  then_go-Between :
      (p : Progress) (f : List ReceiptView → Hashes → Progress)
      → Between p
      → ((rs : List ReceiptView) (hs : Hashes) → Between (f rs hs))
      → Between (p then_go f)
  then_go-Between (searching rs hs) f h step = step rs hs
  then_go-Between (found hs) f h step = tt
  then_go-Between repeating f h step = h
  then_go-Between failed f h step = tt

  take_in-Between :
      (pairs : List (ReceiptOrDataId × String)) (rs : List ReceiptView) (hs : Hashes)
      → Between (take_in pairs rs hs)
  take_in-Between pairs rs hs = elim (Bool-cases (eqb (length pairs) (length rs))) [
    | inl all_found ↦ rw all_found tt
    | inr more ↦ rw more tt
  ]

  query_step-Between :
      (o : Option Answer) (rs : List ReceiptView) (hs : Hashes) → Between (query_step o rs hs)
  query_step-Between none rs hs = tt
  query_step-Between (some answer) rs hs = take_in-Between (as_receipt_keys answer) rs hs

  answer_step-Between :
      (o : Option Answer) (rs : List ReceiptView) (hs : Hashes)
      → is_some o ≡ true
      → Between (answer_step o rs hs)
  answer_step-Between none rs hs h = absurd cc
  answer_step-Between (some answer) rs hs h = take_in-Between (data_pairs answer rs) rs hs

  module _ (succeeds : Succeeds) where
    data_step-Between :
        (round : ℕ) (rs : List ReceiptView) (hs : Hashes) → Between (data_step q round rs hs)
    unfolding data_step
    data_step-Between round rs hs = elim (Bool-cases (is_empty (data_ids rs))) [
      | inl nothing ↦ rw nothing tt
      | inr some_ids ↦ rw some_ids (answer_step-Between _ rs hs (succeeds round (data_ids rs)))
    ]

    round_step-Between :
        (round : ℕ) (rs : List ReceiptView) (hs : Hashes) → Between (round_step q round rs hs)
    unfolding round_step
    round_step-Between round rs hs =
        then_go-Between _ _
          (then_go-Between _ _ (data_step-Between round rs hs)
            (λ rs hs. query_step-Between (q.by_outcomes round (action_ids rs)) rs hs))
          (λ rs hs. query_step-Between (q.by_transactions round (action_ids rs)) rs hs)

    next_round-Ended :
        (retries : ℕ) (again : ℕ → List ReceiptView → Hashes → Progress) (p : Progress)
        → Between p
        → ((rs : List ReceiptView) (hs : Hashes)
            → ltb 0 retries ≡ true
            → Ended (again (retries - 1) rs hs))
        → Ended (next_round false retries again p)
    next_round-Ended retries again repeating b h = b
    next_round-Ended retries again failed b h = tt
    next_round-Ended retries again (found hs) b h = tt
    next_round-Ended retries again (searching rs hs) b h = elim (Bool-cases (ltb 0 retries)) [
      | inl more ↦ rw more (h rs hs more)
      | inr last ↦ rw last tt
    ]

    search-Ended :
        (fuel round retries : ℕ) (rs : List ReceiptView) (hs : Hashes)
        → retries < fuel
        → Ended (search q false fuel round retries rs hs)
    unfolding search
    search-Ended zero round retries rs hs h = ground arith
    search-Ended (suc fuel) round retries rs hs h =
        next_round-Ended retries (λ n rs hs. search q false fuel (round + 1) n rs hs)
          (round_step q round rs hs) (round_step-Between round rs hs)
          (λ rs hs more. search-Ended fuel (round + 1) (retries - 1) rs hs (ground arith))

-- When it is not strict and the query by data output, which is repeated on errors without a bound,
-- succeeds at some attempt whenever it is made, the search of `find_tx_hashes_for_receipts` ends
-- with a result or an error within five rounds, whatever the answers are: with fuel for more than four
-- rounds it is neither still searching nor in the midst of a query.
pub find_tx_hashes-Ended :
    (q : Queries) (C : ReceiptsCache) (fuel : ℕ) (receipts : List ReceiptView)
    (c : ReceiptsCache.Cache C)
    → Succeeds q
    → 4 < fuel
    → Ended (find_tx_hashes_for_receipts q false C fuel receipts c).0
unfolding find_tx_hashes_for_receipts
find_tx_hashes-Ended q C fuel receipts c succeeds h =
    let hashes = (look_in_cache C receipts [] c).0 in
    let left = filter (not_found_in_cache hashes) receipts in
    elim (Bool-cases (is_empty left)) [
      | inl none_left ↦ rw none_left tt
      | inr some_left ↦ rw some_left (search-Ended q succeeds fuel 0 4 left hashes h)
    ]
