-- ===== src/Receipts/Search/Strict.antt =====
-- The search of `find_tx_hashes_for_receipts` (db_adapters/receipts.rs) in strict mode, where the
-- database comes to know the parents while the search goes on.
use near_indexer_for_explore.Base.{
  ℕ, zero, suc, ◌+◌, ◌<◌, ◌≤◌, String, Bool, true, false, Option, none, some, List, [], ◌∷◌, filter,
  All, All-map, ◌≡◌, refl, arith, is_empty, is_some, Bool-cases, Option-cases, inl, inr, String-eq,
}
use near_indexer_for_explore.Base.Map.{extend}
use near_indexer_for_explore.Process.Joined.{All-of, All-both}
use near_indexer_for_explore.Chain.{ReceiptView, ReceiptEnumView, action, datum}
use near_indexer_for_explore.Cache.{ReceiptOrDataId, data_key, ReceiptOrDataId-eq, ReceiptsCache}
use near_indexer_for_explore.Receipts.{is_action}
use near_indexer_for_explore.Receipts.Search
use near_indexer_for_explore.Receipts.Search.{
  Hashes, Answer, Queries, Progress, searching, found, repeating, first_answer, answer_step,
  as_receipt_keys, as_data_keys, data_id_of, data_ids, action_ids, query_step, data_pairs,
  data_step, round_step, search, next_round, look_in_cache, not_found_in_cache,
  find_tx_hashes_for_receipts,
}
use near_indexer_for_explore.Receipts.Search.Known.{
  Has, Has-extend_new, Has-as_receipt_keys, Has-as_data_keys, KnownOr, Left, then_go-Left,
  take_in-Left, IsAction, data_pairs-Known, action_ids-All, none_in,
}

module _ (q : Queries) where
  -- No query is given up, that by data output succeeds at some attempt, no rows are answered for ids that were not asked for, and from the round
  -- `from` on a data id, a receipt of an outcome and a receipt of a transaction have a row each.
  pub record Answered (by_outcome : String → Bool) (from : ℕ) : Type 0 where
    pub data_output_given :
        (round : ℕ) (ids : List String) → is_some (first_answer (q.by_data_output round ids)) ≡ true
    pub outcomes_given : (round : ℕ) (ids : List String) → is_some (q.by_outcomes round ids) ≡ true
    pub transactions_given :
        (round : ℕ) (ids : List String) → is_some (q.by_transactions round ids) ≡ true
    pub outcomes_asked :
        (round : ℕ) (answer : Answer) → q.by_outcomes round [] ≡ some answer → answer ≡ []
    pub data_output_there :
        (round : ℕ) (ids : List String) (answer : Answer)
        → from ≤ round
        → first_answer (q.by_data_output round ids) ≡ some answer
        → All (λ id. Has id answer) ids
    pub outcomes_there :
        (round : ℕ) (ids : List String) (answer : Answer)
        → from ≤ round
        → q.by_outcomes round ids ≡ some answer
        → All (λ id. by_outcome id ≡ true → Has id answer) ids
    pub transactions_there :
        (round : ℕ) (ids : List String) (answer : Answer)
        → from ≤ round
        → q.by_transactions round ids ≡ some answer
        → All (λ id. by_outcome id ≡ false → Has id answer) ids

  query_step-Left :
      (P : ReceiptView → Type 0) (o : Option Answer) (rs : List ReceiptView) (hs : Hashes)
      → is_some o ≡ true
      → ((answer : Answer) → o ≡ some answer → All (KnownOr P (as_receipt_keys answer)) rs)
      → Left P (query_step o rs hs)
  query_step-Left P none rs hs given h = absurd cc
  query_step-Left P (some answer) rs hs given h =
      take_in-Left P (as_receipt_keys answer) rs hs (h answer refl)

  abbrev Any : ReceiptView → Type 0
  Any r = Unit

  Any-KnownOr :
      (pairs : List (ReceiptOrDataId × String)) (rs : List ReceiptView) → All (KnownOr Any pairs) rs
  Any-KnownOr pairs rs = All-of _ rs (λ r. inl tt)

  answer_step-Left :
      (P : ReceiptView → Type 0) (o : Option Answer) (rs : List ReceiptView) (hs : Hashes)
      → is_some o ≡ true
      → ((answer : Answer) → o ≡ some answer → All (KnownOr P (data_pairs answer rs)) rs)
      → Left P (answer_step o rs hs)
  answer_step-Left P none rs hs given h = absurd cc
  answer_step-Left P (some answer) rs hs given h =
      take_in-Left P (data_pairs answer rs) rs hs (h answer refl)

  no_data-IsAction : (rs : List ReceiptView) → is_empty (data_ids rs) ≡ true → All IsAction rs
  no_data-IsAction [] h = tt
  no_data-IsAction (r ∷ rs) h = one r.receipt h (no_data-IsAction rs)
    where
      one :
          (e : ReceiptEnumView)
          → is_empty (elim (data_id_of e) [ none ↦ data_ids rs | some d ↦ d ∷ data_ids rs ]) ≡ true
          → (is_empty (data_ids rs) ≡ true → All IsAction rs)
          → (is_action e ≡ true) × All IsAction rs
      one (action body) h rest = (refl, rest h)
      one (datum data_id bytes) h rest = absurd cc

  module _ {by_outcome : String → Bool} {from : ℕ} (a : Answered by_outcome from) where
    data_step-Any :
        (round : ℕ) (rs : List ReceiptView) (hs : Hashes) → Left Any (data_step q round rs hs)
    unfolding data_step
    data_step-Any round rs hs = elim (Bool-cases (is_empty (data_ids rs))) [
      | inl nothing ↦ rw nothing (All-of _ rs (λ r. tt))
      | inr some_ids ↦ rw some_ids (
          answer_step-Left Any _ rs hs (a.data_output_given round (data_ids rs))
            (λ answer e. Any-KnownOr (data_pairs answer rs) rs))
    ]

    -- A round that does not fail.
    round_step-Any :
        (round : ℕ) (rs : List ReceiptView) (hs : Hashes) → Left Any (round_step q round rs hs)
    unfolding round_step
    round_step-Any round rs hs =
        then_go-Left Any Any _ _
          (then_go-Left Any Any _ _ (data_step-Any round rs hs) (λ rs hs h.
            query_step-Left Any _ rs hs (a.outcomes_given round (action_ids rs))
              (λ answer e. Any-KnownOr (as_receipt_keys answer) rs)))
          (λ rs hs h.
            query_step-Left Any _ rs hs (a.transactions_given round (action_ids rs))
              (λ answer e. Any-KnownOr (as_receipt_keys answer) rs))

    data_step-Left :
        (round : ℕ) (rs : List ReceiptView) (hs : Hashes)
        → from ≤ round
        → Left IsAction (data_step q round rs hs)
    unfolding data_step
    data_step-Left round rs hs late = elim (Bool-cases (is_empty (data_ids rs))) [
      | inl nothing ↦ rw nothing (no_data-IsAction rs nothing)
      | inr some_ids ↦ rw some_ids (
          answer_step-Left IsAction _ rs hs (a.data_output_given round (data_ids rs)) (λ answer e.
            data_pairs-Known (extend [] (as_data_keys answer)) rs (
              All-map _ _ (data_ids rs)
                (λ d there.
                  Has-extend_new (data_key d) [] (as_data_keys answer)
                    (Has-as_data_keys d answer there))
                (a.data_output_there round (data_ids rs) answer late e))))
    ]

    -- An action receipt that no outcome has produced.
    abbrev OfTransaction : ReceiptView → Type 0
    OfTransaction r = IsAction r × (by_outcome r.receipt_id ≡ false)

    outcomes-Known :
        (round : ℕ) (rs : List ReceiptView) (answer : Answer)
        → from ≤ round
        → q.by_outcomes round (action_ids rs) ≡ some answer
        → All IsAction rs
        → All (KnownOr OfTransaction (as_receipt_keys answer)) rs
    outcomes-Known round rs answer late e actions =
        All-map _ _ rs
          (λ r (act, h). elim (Bool-cases (by_outcome r.receipt_id)) [
            | inl produced ↦ inr (Has-as_receipt_keys r.receipt_id answer (h produced))
            | inr not_produced ↦ inl (act, not_produced)
          ])
          (action_ids-All _ rs actions (a.outcomes_there round (action_ids rs) answer late e))

    transactions-Known :
        (round : ℕ) (rs : List ReceiptView) (answer : Answer)
        → from ≤ round
        → q.by_transactions round (action_ids rs) ≡ some answer
        → All OfTransaction rs
        → All (KnownOr (λ r. ⊥) (as_receipt_keys answer)) rs
    transactions-Known round rs answer late e left =
        All-map _ _ rs (λ r (l, (act, h)). inr (Has-as_receipt_keys r.receipt_id answer (h l.1)))
          (All-both _ _ rs left (
            action_ids-All _ rs (All-map _ _ rs (λ r l. l.0) left)
              (a.transactions_there round (action_ids rs) answer late e)))

    round_step-Left :
        (round : ℕ) (rs : List ReceiptView) (hs : Hashes)
        → from ≤ round
        → Left (λ r. ⊥) (round_step q round rs hs)
    unfolding round_step
    round_step-Left round rs hs late =
        then_go-Left OfTransaction (λ r. ⊥) _ _
          (then_go-Left IsAction OfTransaction _ _ (data_step-Left round rs hs late) (λ rs hs h.
            query_step-Left OfTransaction _ rs hs (a.outcomes_given round (action_ids rs))
              (λ answer e. outcomes-Known round rs answer late e h)))
          (λ rs hs h.
            query_step-Left (λ r. ⊥) _ rs hs (a.transactions_given round (action_ids rs))
              (λ answer e. transactions-Known round rs answer late e h))

    -- With no receipts left, a round ends the search.
    round_step-empty :
        (round : ℕ) (hs : Hashes) → (r : Hashes) × (round_step q round [] hs ≡ found r)
    unfolding round_step data_step
    round_step-empty round hs = elim (Option-cases (q.by_outcomes round [])) [
      | inl none_given ↦ absurd (none_in (a.outcomes_given round []) none_given)
      | inr (answer, e) ↦
          (extend hs (as_receipt_keys answer), rw (e, a.outcomes_asked round answer e) refl)
    ]

    abbrev Finds : Progress → Type 0
    Finds p = (r : Hashes) × (p ≡ found r)

    goes_on :
        (P : ReceiptView → Type 0) (retries : ℕ) (again : ℕ → List ReceiptView → Hashes → Progress)
        (p : Progress)
        → Left P p
        → ((rs : List ReceiptView) (hs : Hashes) → All P rs → Finds (again retries rs hs))
        → Finds (next_round true retries again p)
    goes_on P retries again (searching rs hs) h more = more rs hs h
    goes_on P retries again (found hs) h more = (hs, refl)
    goes_on P retries again repeating h more = absurd h
    goes_on P retries again Search.failed h more = absurd h

    -- The round after the first one that the database has all rows for.
    last_round :
        (fuel round retries : ℕ) (rs : List ReceiptView) (hs : Hashes)
        → 0 < fuel
        → All (λ r. ⊥) rs
        → Finds (search q true fuel round retries rs hs)
    unfolding search
    last_round zero round retries rs hs h none_left = absurd (omega arith)
    last_round (suc fuel) round retries (r ∷ rs) hs h none_left = absurd (none_left.0)
    last_round (suc fuel) round retries [] hs h none_left =
        let (r, e) = round_step-empty round hs in (r, rw e refl)

    search-Finds :
        (left round fuel retries : ℕ) (rs : List ReceiptView) (hs : Hashes)
        → round + left ≡ from
        → left + 1 < fuel
        → Finds (search q true fuel round retries rs hs)
    unfolding search
    search-Finds left round zero retries rs hs e h = absurd (omega arith)
    search-Finds zero round (suc fuel) retries rs hs e h =
        goes_on (λ r. ⊥) retries (λ n rs hs. search q true fuel (round + 1) n rs hs) _
          (round_step-Left round rs hs (omega arith))
          (λ rs hs none_left. last_round fuel (round + 1) retries rs hs (omega arith) none_left)
    search-Finds (suc left) round (suc fuel) retries rs hs e h =
        goes_on Any retries (λ n rs hs. search q true fuel (round + 1) n rs hs) _
          (round_step-Any round rs hs)
          (λ rs hs h'. search-Finds left (round + 1) fuel retries rs hs (omega arith) (omega arith))

-- In strict mode the search of `find_tx_hashes_for_receipts` ends with a result: if no query is given
-- up and that by data output succeeds at some attempt, the outcomes have no rows for an empty list of ids, and from the round `from` on the database has a
-- row for every id that it is asked for (a data id among the output data, the id of an action receipt
-- among the outcomes or among the transactions), then it has found hashes within `from + 2` rounds,
-- however many that are.
pub find_tx_hashes-Found :
    (q : Queries) (by_outcome : String → Bool) (from : ℕ) (C : ReceiptsCache) (fuel : ℕ)
    (receipts : List ReceiptView) (c : ReceiptsCache.Cache C)
    → Answered q by_outcome from
    → from + 1 < fuel
    → (hashes : Hashes) × ((find_tx_hashes_for_receipts q true C fuel receipts c).0 ≡ found hashes)
unfolding find_tx_hashes_for_receipts
find_tx_hashes-Found q by_outcome from C fuel receipts c a enough =
    let hashes = (look_in_cache C receipts [] c).0 in
    let left = filter (not_found_in_cache hashes) receipts in
    elim (Bool-cases (is_empty left)) [
      | inl none_left ↦ rw none_left (hashes, refl)
      | inr some_left ↦
          rw some_left (search-Finds q a from 0 fuel 4 left hashes (omega arith) enough)
    ]
