-- ===== src/Receipts/Search/Complete.antt =====
-- What a search of `find_tx_hashes_for_receipts` (db_adapters/receipts.rs) in strict mode makes of all
-- receipts.
use near_indexer_for_explore.Base.{
  ℕ, String, Bool, true, List, [], ◌∷◌, filter, All, All-map, ◌≡◌, refl, is_empty, Bool-cases, ◌⊎◌,
  inl, inr, ◌==◌, eq_iff, String-eq,
}
use mathlib.Core.Path.{subst}
use near_indexer_for_explore.Base.Map.{contains_key}
use near_indexer_for_explore.Chain.{ReceiptView}
use near_indexer_for_explore.Cache.{ReceiptOrDataId, receipt_key, ReceiptOrDataId-eq, ReceiptsCache}
use near_indexer_for_explore.Receipts.{lookup_key}
use near_indexer_for_explore.Receipts.Search.{
  Hashes, Queries, found, as_receipt_keys, data_pairs, search, look_in_cache, not_found_in_cache,
  find_tx_hashes_for_receipts,
}
use near_indexer_for_explore.Receipts.Search.Known.{Has, Has-extend_old}
use near_indexer_for_explore.Receipts.Search.Invariant.{Holds, Kept, search-Holds}
use near_indexer_for_explore.Receipts.Search.Ids.{is_in}
use near_indexer_for_explore.Process.Joined.{All-of}
use near_indexer_for_explore.Receipts.Search.Counts.{Exact, ids_of}
use near_indexer_for_explore.Receipts.Search.Tracks.{Tracks, search-Tracks}

-- A hash that is found stays.
abbrev known_kept : (q : Queries) (k : ReceiptOrDataId) → Kept q (λ r. Unit) (Has k)
known_kept q k = record {
  Good = λ p. Unit;
  data_good = λ round rs answer e ok. All-of _ (data_pairs answer rs) (λ p. tt);
  outcomes_good = λ round ids answer e. All-of _ (as_receipt_keys answer) (λ p. tt);
  transactions_good = λ round ids answer e. All-of _ (as_receipt_keys answer) (λ p. tt);
  extended = λ hs pairs h good. Has-extend_old k hs pairs h;
}

filter-more :
    (id : String) (p : ReceiptView → Bool) (r : ReceiptView) (rs : List ReceiptView)
    → is_in id (ids_of (filter p rs)) ≡ true
    → is_in id (ids_of (filter p (r ∷ rs))) ≡ true
filter-more id p r rs h = elim (Bool-cases (p r)) [
  | inr dropped ↦ rw dropped h
  | inl kept ↦
      rw kept (elim (Bool-cases (r.receipt_id == id)) [
        | inl same ↦ rw same refl
        | inr other ↦ rw other h
      ])
]

filter-first :
    (p : ReceiptView → Bool) (r : ReceiptView) (rs : List ReceiptView)
    → p r ≡ true
    → is_in r.receipt_id (ids_of (filter p (r ∷ rs))) ≡ true
filter-first p r rs kept = rw kept (rw ((eq_iff r.receipt_id r.receipt_id).1 refl) refl)

-- The receipt was in the cache, or is left for the search.
abbrev CachedOrLeft : Hashes → List ReceiptView → ReceiptView → Type 0
CachedOrLeft hs rs r =
    Has (lookup_key r) hs ⊎ (is_in r.receipt_id (ids_of (filter (not_found_in_cache hs) rs)) ≡ true)

CachedOrLeft-all : (hs : Hashes) (rs : List ReceiptView) → All (CachedOrLeft hs rs) rs
CachedOrLeft-all hs [] = tt
CachedOrLeft-all hs (r ∷ rs) = (
  elim (Bool-cases (contains_key (lookup_key r) hs)) [
    | inl known ↦ inl known
    | inr unknown ↦ inr (filter-first (not_found_in_cache hs) r rs (rw unknown refl))
  ],
  All-map _ _ rs
      (λ x h. elim h [
        | inl known ↦ inl known
        | inr left ↦ inr (filter-more x.receipt_id (not_found_in_cache hs) r rs left)
      ])
      (CachedOrLeft-all hs rs),
)

empty_is_in :
    (id : String) (rs : List ReceiptView) → is_empty rs ≡ true → is_in id (ids_of rs) ≡ true → ⊥
empty_is_in id [] e h = cc
empty_is_in id (r ∷ rs) e h = cc

found_inj : {hs gs : Hashes} → found hs ≡ found gs → hs ≡ gs
found_inj e = cc

-- The queries by receipt id have one row for an id at most, and only for ids that they are asked for.
-- Then a search of `find_tx_hashes_for_receipts` in strict mode that has ended with a result, whatever
-- the answers of the database are besides, has left no receipt out: each one has a hash under the
-- key that it is looked up by in the cache, or under its receipt id.
pub find_tx_hashes-Complete :
    (q : Queries) (C : ReceiptsCache) (fuel : ℕ) (receipts : List ReceiptView)
    (c : ReceiptsCache.Cache C) (hashes : Hashes)
    → Exact q
    → (find_tx_hashes_for_receipts q true C fuel receipts c).0 ≡ found hashes
    → All (λ r. Has (lookup_key r) hashes ⊎ Has (receipt_key r.receipt_id) hashes) receipts
unfolding find_tx_hashes_for_receipts
find_tx_hashes-Complete q C fuel receipts c hashes exact e =
    let cached = (look_in_cache C receipts [] c).0 in
    let left = filter (not_found_in_cache cached) receipts in
    elim (Bool-cases (is_empty left)) [
      | inl none_left ↦
          let same = found_inj (rw none_left at e) in
          All-map _ _ receipts
            (λ r h. elim h [
              | inl known ↦ inl (subst (Has (lookup_key r)) same known)
              | inr there ↦ absurd (empty_is_in r.receipt_id left none_left there)
            ])
            (CachedOrLeft-all cached receipts)
      | inr some_left ↦
          let ended : search q true fuel 0 4 left cached ≡ found hashes = rw some_left at e in
          All-map _ _ receipts
            (λ r h. elim h [
              | inl known ↦ inl (
                  subst (Holds (λ r. Unit) (Has (lookup_key r))) ended (
                    search-Holds q (λ r. Unit) (Has (lookup_key r)) (known_kept q (lookup_key r))
                      true fuel 0 4 left cached (All-of _ left (λ x. tt)) known))
              | inr there ↦ inr (
                  subst (Tracks r.receipt_id) ended
                    (search-Tracks r.receipt_id q exact fuel 0 4 left cached (inl there)))
            ])
            (CachedOrLeft-all cached receipts)
    ]
