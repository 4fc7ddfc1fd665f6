-- ===== src/Receipts/Search/Sound.antt =====
-- The hashes that `find_tx_hashes_for_receipts` (db_adapters/receipts.rs) finds, against a notion
-- of parent.
use near_indexer_for_explore.Base.{
  ℕ, String, Bool, Option, none, some, List, [], ◌∷◌, filter, filter_map, All, ◌≡◌, refl, sym, ◌∙◌,
  arith, is_empty, Bool-cases, Option-cases, inl, inr, ◌==◌,
}
use mathlib.Core.Path.{subst}
use near_indexer_for_explore.Base.Map.{get, insert, extend}
use near_indexer_for_explore.Chain.{ReceiptView, ReceiptEnumView, action, datum}
use near_indexer_for_explore.Cache.{
  ReceiptOrDataId, receipt_key, data_key, ReceiptOrDataId-eq, same_id_iff, ReceiptsCache,
}
use near_indexer_for_explore.Receipts.{lookup_key, lookup_key_of}
use near_indexer_for_explore.Receipts.Search.{
  Hashes, Answer, Queries, via_data_output, as_receipt_keys, as_data_keys, data_ids, first_answer,
  from_cache, add_found, look_in_cache, not_found_in_cache, find_tx_hashes_for_receipts,
}
use near_indexer_for_explore.Receipts.Search.Invariant.{Holds, Kept, search-Holds, All-filter}

-- `Parent k h`: the transaction `h` is the parent of the receipts that are looked up under `k`.
module _ (Parent : ReceiptOrDataId → String → Type 0) where
  abbrev pub Sound : List (ReceiptOrDataId × String) → Type 0
  Sound = All (λ p. Parent p.0 p.1)

  -- The cache holds parents only.
  abbrev pub SoundCache : (C : ReceiptsCache) → ReceiptsCache.Cache C → Type 0
  SoundCache C c =
      (k : ReceiptOrDataId) (h : String) → ReceiptsCache.entry C c k ≡ some h → Parent k h

  -- The parent of the data of a data receipt is the parent of the receipt.
  abbrev pub LinkedTo : String → ReceiptEnumView → Type 0
  LinkedTo id (action body) = Unit
  LinkedTo id (datum data_id bytes) =
      (h : String) → Parent (data_key data_id) h → Parent (receipt_key id) h

  abbrev pub Linked : ReceiptView → Type 0
  Linked r = LinkedTo r.receipt_id r.receipt

  -- The database answers with parents only.
  pub record SoundQueries (q : Queries) : Type 0 where
    pub data_output_sound :
        (round : ℕ) (ids : List String) (answer : Answer)
        → first_answer (q.by_data_output round ids) ≡ some answer
        → Sound (as_data_keys answer)
    pub outcomes_sound :
        (round : ℕ) (ids : List String) (answer : Answer)
        → q.by_outcomes round ids ≡ some answer
        → Sound (as_receipt_keys answer)
    pub transactions_sound :
        (round : ℕ) (ids : List String) (answer : Answer)
        → q.by_transactions round ids ≡ some answer
        → Sound (as_receipt_keys answer)

  insert-Sound :
      (k : ReceiptOrDataId) (h : String) (m : Hashes) → Parent k h → Sound m → Sound (insert k h m)
  insert-Sound k h [] p s = (p, tt)
  insert-Sound k h ((j, w) ∷ m) p (pj, s) = elim (Bool-cases (j == k)) [
    | inl same ↦ rw same (subst (λ x. Parent x h) (sym ((same_id_iff j k).0 same)) p, s)
    | inr other ↦ rw other (pj, insert-Sound k h m p s)
  ]

  extend-Sound :
      (m : Hashes) (pairs : List (ReceiptOrDataId × String))
      → Sound m
      → Sound pairs
      → Sound (extend m pairs)
  extend-Sound m [] s h = s
  extend-Sound m ((k, v) ∷ pairs) s (p, h) =
      extend-Sound (insert k v m) pairs (insert-Sound k v m p s) h

  pub get-Sound :
      (k : ReceiptOrDataId) (h : String) (m : Hashes) → Sound m → get k m ≡ some h → Parent k h
  get-Sound k h [] s e = cc
  get-Sound k h ((j, w) ∷ m) (p, s) e = elim (Bool-cases (j == k)) [
    | inl same ↦
        subst (λ x. Parent x h) ((same_id_iff j k).0 same)
          (subst (Parent j) (ground (arith, same)) p)
    | inr other ↦ get-Sound k h m s (ground (arith, other))
  ]

  via_data_sound :
      (answered : Hashes) (rs : List ReceiptView)
      → Sound answered
      → All Linked rs
      → Sound (filter_map (λ r. via_data_output answered r r.receipt) rs)
  via_data_sound answered [] s l = tt
  via_data_sound answered (r ∷ rs) s (lr, l) = one r.receipt lr (via_data_sound answered rs s l)
    where
      one :
          (e : ReceiptEnumView)
          → LinkedTo r.receipt_id e
          → Sound (filter_map (λ r. via_data_output answered r r.receipt) rs)
          → Sound (elim (via_data_output answered r e) [
            | none ↦ filter_map (λ r. via_data_output answered r r.receipt) rs
            | some y ↦ y ∷ filter_map (λ r. via_data_output answered r r.receipt) rs
          ])
      one (action body) le rest = rest
      one (datum data_id bytes) le rest = elim (Option-cases (get (data_key data_id) answered)) [
        | inl missing ↦ rw missing rest
        | inr (h, there) ↦ rw there (le h (get-Sound (data_key data_id) h answered s there), rest)
      ]

  abbrev sound_kept : (q : Queries) → SoundQueries q → Kept q Linked Sound
  sound_kept q sq = record {
    Good = λ p. Parent p.0 p.1;
    data_good = λ round rs answer e ok.
        via_data_sound _ rs
          (extend-Sound [] _ tt (sq.data_output_sound round (data_ids rs) answer e)) ok;
    outcomes_good = sq.outcomes_sound;
    transactions_good = sq.transactions_sound;
    extended = extend-Sound;
  }

  module _ (C : ReceiptsCache) where
    open C use {
      Cache, entry, cache_get, cache_remove, get_value, get_keeps, remove_value, remove_keeps,
    }

    -- What `from_cache` gives is an entry, and it adds none.
    from_cache_sound :
        (r : ReceiptView) (e : ReceiptEnumView) (c : Cache)
        → SoundCache C c
        → ((h : String) → (from_cache C r e c).0 ≡ some h → Parent (lookup_key_of r.receipt_id e) h)
          × SoundCache C (from_cache C r e c).1
    unfolding from_cache
    from_cache_sound r (action body) c s = (
      (λ h got. s _ h (sym (get_value _ c) ∙ got)),
      (λ k h there. s k h (get_keeps _ k c h there)),
    )
    from_cache_sound r (datum data_id bytes) c s = (
      (λ h got. s _ h (sym (remove_value _ c) ∙ got)),
      (λ k h there. s k h (remove_keeps _ k c h there)),
    )

    add_found-Sound :
        (k : ReceiptOrDataId) (o : Option String) (m : Hashes)
        → ((h : String) → o ≡ some h → Parent k h)
        → Sound m
        → Sound (add_found k o m)
    add_found-Sound k none m p s = s
    add_found-Sound k (some h) m p s = insert-Sound k h m (p h refl) s

    look_in_cache-Sound :
        (rs : List ReceiptView) (m : Hashes) (c : Cache)
        → Sound m
        → SoundCache C c
        → Sound (look_in_cache C rs m c).0 × SoundCache C (look_in_cache C rs m c).1
    unfolding look_in_cache
    look_in_cache-Sound [] m c s sc = (s, sc)
    look_in_cache-Sound (r ∷ rs) m c s sc =
        let (parent, kept) = from_cache_sound r r.receipt c sc in
        look_in_cache-Sound rs _ (from_cache C r r.receipt c).1
          (add_found-Sound (lookup_key r) (from_cache C r r.receipt c).0 m parent s) kept

    -- Where the cache and the database hold parents only, and the parent of a data receipt's data is
    -- the parent of the receipt, every hash that `find_tx_hashes_for_receipts` has found, in
    -- strict mode or not and for any number of rounds, is that of a parent, and the cache still
    -- holds parents only.
    pub find_tx_hashes-Sound :
        (q : Queries) (strict_mode : Bool) (fuel : ℕ) (rs : List ReceiptView) (c : Cache)
        → SoundQueries q
        → SoundCache C c
        → All Linked rs
        → Holds Linked Sound (find_tx_hashes_for_receipts q strict_mode C fuel rs c).0
          × SoundCache C (find_tx_hashes_for_receipts q strict_mode C fuel rs c).1
    unfolding find_tx_hashes_for_receipts
    find_tx_hashes-Sound q strict_mode fuel rs c sq sc linked =
        let (s, sc') = look_in_cache-Sound rs [] c tt sc in
        let hashes = (look_in_cache C rs [] c).0 in
        let left = filter (not_found_in_cache hashes) rs in
        elim (Bool-cases (is_empty left)) [
          | inl none_left ↦ rw none_left (s, sc')
          | inr some_left ↦ rw some_left (
            search-Holds q Linked Sound (sound_kept q sq) strict_mode fuel 0 4 left hashes
                (All-filter Linked _ rs linked) s,
            sc',
          )
        ]
