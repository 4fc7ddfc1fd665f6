-- ===== src/Receipts/Rows/Stored.antt =====
-- The rows that `store_chunk_receipts` (db_adapters/receipts.rs) stores, table by table.
use near_indexer_for_explore.Base.{
  ℕ, String, Bool, false, not, Option, none, some, List, [], ◌∷◌, ◌++◌, filter, filter_map,
  flat_map, is_some, ◌+◌, ==-refl, String-eq, ◌≡◌, ◌≢◌, refl, sym, ap, arith, All, Bool-cases,
  Option-cases, inl, inr, eq_iff,
}
use mathlib.Core.Path.{subst}
use near_indexer_for_explore.Base.Map.{get}
use near_indexer_for_explore.Chain.{ReceiptView, ReceiptEnumView, action, datum, ActionBody}
use near_indexer_for_explore.Cache.{ReceiptOrDataId-eq}
use near_indexer_for_explore.Receipts.{lookup_key, is_action}
use near_indexer_for_explore.Receipts.Search.{Hashes}
use near_indexer_for_explore.Serializers.{Json}
use near_indexer_for_explore.Receipts.Rows.{
  Receipt, receipt_models, chunk_rows, contains, action_receipt, actions_in, output_data,
  input_data, data_receipt, of_body, action_receipt_of, data_receipt_of,
}

-- No two receipts have one id.
abbrev pub Distinct : List ReceiptView → Type 0
Distinct [] = Unit
Distinct (r ∷ rs) = All (λ s. s.receipt_id ≢ r.receipt_id) rs × Distinct rs

abbrev pub has_parent : Hashes → ReceiptView → Bool
has_parent hashes r = is_some (get (lookup_key r) hashes)

-- The row is one of this receipt, under the hash that the search found for it.
abbrev pub RowOf : Hashes → ReceiptView → Receipt → Type 0
RowOf hashes r m =
    (m.receipt_id ≡ r.receipt_id)
    × (get (lookup_key r) hashes ≡ some m.originated_from_transaction_hash)

-- Rows and receipts in step.
abbrev pub RowsOf : Hashes → List ReceiptView → List Receipt → Type 0
RowsOf hashes [] [] = Unit
RowsOf hashes (r ∷ rs) (m ∷ ms) = RowOf hashes r m × RowsOf hashes rs ms
RowsOf hashes _ _ = ⊥

filter-congr :
    {A : Type 0} (p q : A → Bool) (xs : List A)
    → All (λ x. p x ≡ q x) xs
    → filter p xs ≡ filter q xs
filter-congr p q [] h = refl
filter-congr p q (x ∷ xs) (e, h) = rw (e, filter-congr p q xs h) refl

module _ {A B : Type 0} where
  filter_map-filter :
      (f : A → Option B) (p : A → Bool) (xs : List A)
      → ((x : A) → p x ≡ false → f x ≡ none)
      → filter_map f (filter p xs) ≡ filter_map f xs
  filter_map-filter f p [] h = refl
  filter_map-filter f p (x ∷ xs) h = elim (Bool-cases (p x)) [
    | inl held ↦
        rw held (ap (λ ys. elim (f x) [ none ↦ ys | some y ↦ y ∷ ys ]) (filter_map-filter f p xs h))
    | inr other ↦ rw (other, h x other, filter_map) (filter_map-filter f p xs h)
  ]

  flat_map-filter :
      (f : A → List B) (p : A → Bool) (xs : List A)
      → ((x : A) → p x ≡ false → f x ≡ [])
      → flat_map f (filter p xs) ≡ flat_map f xs
  flat_map-filter f p [] h = refl
  flat_map-filter f p (x ∷ xs) h = elim (Bool-cases (p x)) [
    | inl held ↦ rw held (ap (f x ++◌) (flat_map-filter f p xs h))
    | inr other ↦ rw (other, h x other) (flat_map-filter f p xs h)
  ]

-- Data receipts have no action rows, and action receipts no data row.
action_receipt-none :
    (r : ReceiptEnumView) (id : String) → is_action r ≡ false → action_receipt_of id r ≡ none
action_receipt-none (action body) id h = cc
action_receipt-none (datum data_id bytes) id h = refl

data_receipt-none :
    (r : ReceiptEnumView) (id : String) → not (is_action r) ≡ false → data_receipt_of id r ≡ none
data_receipt-none (action body) id h = refl
data_receipt-none (datum data_id bytes) id h = cc

of_body-none :
    {A : Type 0} (f : ActionBody → List A) (r : ReceiptEnumView)
    → is_action r ≡ false
    → of_body f r ≡ []
of_body-none f (action body) h = cc
of_body-none f (datum data_id bytes) h = refl

module _ (hashes : Hashes) (block_hash chunk_hash : String) (block_timestamp : ℕ) where
  models-RowsOf :
      (i : ℕ) (rs : List ReceiptView)
      → RowsOf hashes
          (filter (has_parent hashes) rs)
          (receipt_models hashes block_hash chunk_hash block_timestamp i rs).0
  unfolding receipt_models
  models-RowsOf i [] = tt
  models-RowsOf i (r ∷ rs) = elim (Option-cases (get (lookup_key r) hashes)) [
    | inl missing ↦ rw (missing, receipt_models) (models-RowsOf (i + 1) rs)
    | inr (h, there) ↦ rw (there, receipt_models) ((refl, there), models-RowsOf (i + 1) rs)
  ]

  -- The ids of the receipts that are skipped from the index `i` on.
  abbrev skipped_at : ℕ → List ReceiptView → List String
  skipped_at i rs = (receipt_models hashes block_hash chunk_hash block_timestamp i rs).1

  skipped-missing :
      (i : ℕ) (r : ReceiptView) (rs : List ReceiptView)
      → get (lookup_key r) hashes ≡ none
      → skipped_at i (r ∷ rs) ≡ r.receipt_id ∷ skipped_at (i + 1) rs
  unfolding receipt_models
  skipped-missing i r rs missing = rw (missing, skipped_at, receipt_models) refl

  skipped-found :
      (i : ℕ) (r : ReceiptView) (rs : List ReceiptView) (h : String)
      → get (lookup_key r) hashes ≡ some h
      → skipped_at i (r ∷ rs) ≡ skipped_at (i + 1) rs
  unfolding receipt_models
  skipped-found i r rs h there = rw (there, skipped_at, receipt_models) refl

  others_not_skipped :
      (s : String) (i : ℕ) (rs : List ReceiptView)
      → All (λ r. r.receipt_id ≢ s) rs
      → contains s (skipped_at i rs) ≡ false
  unfolding receipt_models
  others_not_skipped s i [] h = refl
  others_not_skipped s i (r ∷ rs) (other, h) =
      let rest = others_not_skipped s (i + 1) rs h in
      elim (Option-cases (get (lookup_key r) hashes)) [
        | inl missing ↦ rw (skipped-missing i r rs missing) (ground (arith, eq_iff r.receipt_id s))
        | inr (v, there) ↦ rw (skipped-found i r rs v there) rest
      ]

  abbrev KeptIff : List String → List ReceiptView → Type 0
  KeptIff skipped rs = All (λ r. not (contains r.receipt_id skipped) ≡ has_parent hashes r) rs

  skip_other :
      (id : String) (skipped : List String) (rs : List ReceiptView)
      → All (λ s. s.receipt_id ≢ id) rs
      → KeptIff skipped rs
      → KeptIff (id ∷ skipped) rs
  skip_other id skipped [] others h = tt
  skip_other id skipped (s ∷ rs) (other, others) (e, h) =
      (ground (arith, eq_iff id s.receipt_id), skip_other id skipped rs others h)

  kept_iff : (i : ℕ) (rs : List ReceiptView) → Distinct rs → KeptIff (skipped_at i rs) rs
  kept_iff i [] h = tt
  kept_iff i (r ∷ rs) (others, h) =
      let rest = kept_iff (i + 1) rs h in
      elim (Option-cases (get (lookup_key r) hashes)) [
        | inl missing ↦
            subst (λ sk. KeptIff sk (r ∷ rs)) (sym (skipped-missing i r rs missing))
              (
                rw (missing, ==-refl r.receipt_id) refl,
                skip_other (r.receipt_id) (skipped_at (i + 1) rs) rs others rest,
              )
        | inr (v, there) ↦
            subst (λ sk. KeptIff sk (r ∷ rs)) (sym (skipped-found i r rs v there))
              (rw (there, others_not_skipped r.receipt_id (i + 1) rs others) refl, rest)
      ]

-- No two receipts of the chunk have one id: the rows that are stored are those of the receipts
-- whose parent was found, in their order, each `receipts` row with the hash that was found for its
-- receipt, and the rows of the other tables from those receipts and no others.
pub chunk_rows-eq :
    (hashes : Hashes) (decode_args : String → Option Json) (block_hash chunk_hash : String)
    (block_timestamp : ℕ) (rs : List ReceiptView)
    → Distinct rs
    → let rows = chunk_rows hashes decode_args block_hash chunk_hash block_timestamp rs in
      let kept = filter (has_parent hashes) rs in
      RowsOf hashes kept rows.receipts
      × (rows.action_receipts ≡ filter_map action_receipt kept)
      × (rows.action_receipt_actions ≡ flat_map (actions_in decode_args block_timestamp) kept)
      × (rows.action_receipt_output_data ≡ flat_map output_data kept)
      × (rows.action_receipt_input_data ≡ flat_map input_data kept)
      × (rows.data_receipts ≡ filter_map data_receipt kept)
unfolding chunk_rows
chunk_rows-eq hashes decode_args block_hash chunk_hash block_timestamp rs distinct =
    let same =
      filter-congr _ _ rs (kept_iff hashes block_hash chunk_hash block_timestamp 0 rs distinct) in
    let kept = filter (has_parent hashes) rs in
    (
      models-RowsOf hashes block_hash chunk_hash block_timestamp 0 rs,
      rw same (
          filter_map-filter action_receipt _ kept
            (λ r. action_receipt-none r.receipt r.receipt_id)),
      rw same (flat_map-filter _ _ kept (λ r. of_body-none _ r.receipt)),
      rw same (flat_map-filter output_data _ kept (λ r. of_body-none _ r.receipt)),
      rw same (flat_map-filter input_data _ kept (λ r. of_body-none _ r.receipt)),
      rw same
          (filter_map-filter data_receipt _ kept (λ r. data_receipt-none r.receipt r.receipt_id)),
    )
