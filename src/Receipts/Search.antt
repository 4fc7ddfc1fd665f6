-- ===== src/Receipts/Search.antt =====
-- `find_tx_hashes_for_receipts` (db_adapters/receipts.rs): parents from the cache first, then
-- from the database, round by round. The answers of the database are a parameter, by the round
-- in which it is asked. The query by data output is repeated until it succeeds, so that its answers
-- are those of its attempts in turn, `none` an error; of the other two queries `none` is one that
-- `await_retry_or_panic!` gave up.
pub mod Complete
pub mod Counts
pub mod Ids
pub mod Invariant
pub mod Known
pub mod Skipped
pub mod Sound
pub mod Strict
pub mod Tracks
use near_indexer_for_explore.Base.{
  ℕ, zero, suc, ◌+◌, ◌-◌, String, Bool, true, false, not, Option, none, some, List, [], ◌∷◌, map,
  filter, filter_map, is_empty, is_some, length, eqb, ltb, if◌then◌else◌,
}
use near_indexer_for_explore.Base.Map.{Map, get, contains_key, extend}
use near_indexer_for_explore.Chain.{ReceiptView, ReceiptEnumView, action, datum}
use near_indexer_for_explore.Cache.{
  ReceiptOrDataId, receipt_key, data_key, ReceiptOrDataId-eq, ReceiptsCache,
}
use near_indexer_for_explore.Receipts.{lookup_key, is_action}

abbrev pub Hashes : Type 0
Hashes = Map ReceiptOrDataId String

-- Pairs of a queried id and a transaction hash.
abbrev pub Answer : Type 0
Answer = List (String × String)

pub record Queries : Type 0 where
  pub by_data_output : ℕ → List String → List (Option Answer)
  pub by_outcomes : ℕ → List String → Option Answer
  pub by_transactions : ℕ → List String → Option Answer

-- The loop of the query by data output, on the answers of its attempts: without a success among
-- them it has not come to its end.
abbrev pub first_answer : List (Option Answer) → Option Answer
first_answer [] = none
first_answer (none ∷ rest) = first_answer rest
first_answer (some answer ∷ rest) = some answer

-- How far a search has come: it goes on, it still repeats a query, or it has ended with its result
-- or with an error.
pub data Progress : Type 0 where
  searching : List ReceiptView → Hashes → Progress
  found : Hashes → Progress
  repeating failed : Progress

infixl 5 ◌then_go◌
abbrev pub ◌then_go◌ : Progress → (List ReceiptView → Hashes → Progress) → Progress
(searching receipts hashes) then_go f = f receipts hashes
(found hashes) then_go f = found hashes
repeating then_go f = repeating
failed then_go f = failed

abbrev pub add_found : ReceiptOrDataId → Option String → Hashes → Hashes
add_found k none hashes = hashes
add_found k (some v) hashes = extend hashes ((k, v) ∷ [])

module _ (C : ReceiptsCache) where
  open C use {Cache, cache_get, cache_remove}

  -- The parent of one receipt from the cache; that of a data receipt is taken out.
  unfoldable pub from_cache : ReceiptView → ReceiptEnumView → Cache → Option String × Cache
  from_cache r (action body) c = cache_get (receipt_key r.receipt_id) c
  from_cache r (datum data_id bytes) c = cache_remove (data_key data_id) c

  unfoldable pub look_in_cache : List ReceiptView → Hashes → Cache → Hashes × Cache
  unfolding from_cache
  look_in_cache [] hashes c = (hashes, c)
  look_in_cache (r ∷ rest) hashes c =
      let (parent, c') = from_cache r r.receipt c in
      look_in_cache rest (add_found (lookup_key r) parent hashes) c'

-- `retain` with the key of the kind of the receipt, and with the receipt id.
abbrev pub not_found_in_cache : Hashes → ReceiptView → Bool
not_found_in_cache hashes r = not (contains_key (lookup_key r) hashes)

abbrev pub not_found : Hashes → ReceiptView → Bool
not_found hashes r = not (contains_key (receipt_key r.receipt_id) hashes)

abbrev pub data_id_of : ReceiptEnumView → Option String
data_id_of (action body) = none
data_id_of (datum data_id bytes) = some data_id

abbrev pub data_ids : List ReceiptView → List String
data_ids receipts = filter_map (λ r. data_id_of r.receipt) receipts

abbrev pub action_ids : List ReceiptView → List String
action_ids receipts = map (λ r. r.receipt_id) (filter (λ r. is_action r.receipt) receipts)

abbrev pub as_data_keys : Answer → List (ReceiptOrDataId × String)
as_data_keys = map (λ p. (data_key p.0, p.1))

abbrev pub as_receipt_keys : Answer → List (ReceiptOrDataId × String)
as_receipt_keys = map (λ p. (receipt_key p.0, p.1))

-- A data receipt whose data id was answered, filed under its receipt id.
abbrev pub via_data_output :
    Hashes → ReceiptView → ReceiptEnumView → Option (ReceiptOrDataId × String)
via_data_output answered r (action body) = none
via_data_output answered r (datum data_id bytes) = elim (get (data_key data_id) answered) [
  | none ↦ none
  | some tx_hash ↦ some (receipt_key r.receipt_id, tx_hash)
]

-- New pairs come in; the search ends if there are as many as receipts, else those found go.
abbrev pub take_in : List (ReceiptOrDataId × String) → List ReceiptView → Hashes → Progress
take_in pairs receipts hashes =
    let hashes' = extend hashes pairs in
    if eqb (length pairs) (length receipts)
    then found hashes'
    else searching (filter (not_found hashes') receipts) hashes'

-- An answer to one of the two queries by receipt id.
abbrev pub query_step : Option Answer → List ReceiptView → Hashes → Progress
query_step none receipts hashes = failed
query_step (some answer) receipts hashes = take_in (as_receipt_keys answer) receipts hashes

-- The end of a round, before the next one: in strict mode the search goes on, else it has
-- `retries_left` further rounds.
abbrev pub next_round : Bool → ℕ → (ℕ → List ReceiptView → Hashes → Progress) → Progress → Progress
next_round strict_mode retries_left again repeating = repeating
next_round strict_mode retries_left again failed = failed
next_round strict_mode retries_left again (found hashes) = found hashes
next_round true retries_left again (searching receipts hashes) = again retries_left receipts hashes
next_round false retries_left again (searching receipts hashes) =
    if ltb 0 retries_left then again (retries_left - 1) receipts hashes else found hashes

-- The pairs that an answer to the query by data output gives, under the ids of the receipts.
abbrev pub data_pairs : Answer → List ReceiptView → List (ReceiptOrDataId × String)
data_pairs answer receipts =
    let answered = extend [] (as_data_keys answer) in
    filter_map (λ r. via_data_output answered r r.receipt) receipts

abbrev pub answer_step : Option Answer → List ReceiptView → Hashes → Progress
answer_step none receipts hashes = repeating
answer_step (some answer) receipts hashes = take_in (data_pairs answer receipts) receipts hashes

module _ (q : Queries) where
  unfoldable pub data_step : ℕ → List ReceiptView → Hashes → Progress
  data_step round receipts hashes =
      if is_empty (data_ids receipts)
      then searching receipts hashes
      else answer_step (first_answer (q.by_data_output round (data_ids receipts))) receipts hashes

  unfoldable pub round_step : ℕ → List ReceiptView → Hashes → Progress
  unfolding data_step
  round_step round receipts hashes =
      data_step round receipts hashes
      then_go (λ rs hs. query_step (q.by_outcomes round (action_ids rs)) rs hs)
      then_go (λ rs hs. query_step (q.by_transactions round (action_ids rs)) rs hs)

  module _ (strict_mode : Bool) where
    -- The rounds of the loop, at most `fuel` of them.
    unfoldable pub search : ℕ → ℕ → ℕ → List ReceiptView → Hashes → Progress
    unfolding round_step
    search zero round retries_left receipts hashes = searching receipts hashes
    search (suc fuel) round retries_left receipts hashes =
        next_round strict_mode retries_left (λ n rs hs. search fuel (round + 1) n rs hs)
          (round_step round receipts hashes)

    -- The search at the start of `store_chunk_receipts`.
    unfoldable pub find_tx_hashes_for_receipts :
        (C : ReceiptsCache)
        → ℕ
        → List ReceiptView
        → ReceiptsCache.Cache C
        → Progress × ReceiptsCache.Cache C
    unfolding look_in_cache search
    find_tx_hashes_for_receipts C fuel receipts c =
        let (hashes, c') = look_in_cache C receipts [] c in
        let left = filter (not_found_in_cache hashes) receipts in
        let searched = search fuel 0 4 left hashes in
        (if is_empty left then found hashes else searched, c')
