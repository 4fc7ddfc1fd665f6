-- ===== src/Message/Owned.antt =====
-- The rows that belong to a receipt, and the row of the receipt itself.
use mathlib.Core.Path.{subst}
use near_indexer_for_explore.Base.{
  ℕ, ◌+◌, String, ◌≡◌, refl, sym, ap, ◌∙◌, ◌⊎◌, inl, inr, true, false, not, Option, none, some,
  List, [], ◌∷◌, All, All-map, map, filter, filter_map, Bool-cases, Option-cases, String-eq,
  pair-eq, ==-refl, some_inj, none≢some, ◌==◌,
}
use near_indexer_for_explore.Base.Map.{get}
use near_indexer_for_explore.Base.Words.{as_i32}
use near_indexer_for_explore.Cache.{ReceiptOrDataId-eq}
use near_indexer_for_explore.Chain.{ReceiptView, ReceiptEnumView, ActionBody, action, datum}
use near_indexer_for_explore.Serializers.{Json}
use near_indexer_for_explore.Receipts.{lookup_key, is_action}
use near_indexer_for_explore.Receipts.Search.{Hashes}
use near_indexer_for_explore.Receipts.Rows.{
  Receipt, from_receipt_view, ActionReceipt, DataReceipt, ReceiptRows, receipt_models, chunk_rows,
  contains, action_receipt, data_receipt, actions_in, output_data, input_data, of_body,
}
use near_indexer_for_explore.Tables.{texts-eq, key, receipt_row, receipt_row_key}
use near_indexer_for_explore.Process.Present.{Has}
use near_indexer_for_explore.Process.Joined.{
  All-of, All-of_map, All-filter, All-flat_map, All-map_from, Has-more,
}

-- The receipt with the id has a row among the models.
abbrev pub Owned : List Receipt → String → Type 0
Owned models id = Has key (receipt_row_key id) (map receipt_row models)

All-filter_map :
    {A B : Type 0} (P : A → Type 0) (Q : B → Type 0) (f : A → Option B) (xs : List A)
    → ((x : A) (y : B) → P x → f x ≡ some y → Q y)
    → All P xs
    → All Q (filter_map f xs)
All-filter_map {A} {B} P Q f [] h g = tt
All-filter_map {A} {B} P Q f (x ∷ xs) h (g, gs) = go (f x) refl (All-filter_map P Q f xs h gs)
  where
    go :
        (o : Option B)
        → f x ≡ o
        → All Q (filter_map f xs)
        → All Q (elim o [ none ↦ filter_map f xs | some y ↦ y ∷ filter_map f xs ])
    go none e more = more
    go (some y) e more = (h x y g e, more)

All-kept :
    (P : ReceiptView → Type 0) (skipped : List String) (rs : List ReceiptView)
    → All (λ r. (contains r.receipt_id skipped ≡ true) ⊎ P r) rs
    → All P (filter (λ r. not (contains r.receipt_id skipped)) rs)
All-kept P skipped [] h = tt
All-kept P skipped (r ∷ rs) (h, hs) = elim (Bool-cases (contains r.receipt_id skipped)) [
  | inl out ↦ rw out (All-kept P skipped rs hs)
  | inr kept ↦ elim h [
    | inl out ↦ absurd (true≢false (sym out ∙ kept))
    | inr p ↦ rw kept (p, All-kept P skipped rs hs)
  ]
]
  where
    true≢false : true ≡ false → ⊥
    true≢false h = cc

module _ (hashes : Hashes) (block_hash chunk_hash : String) (block_timestamp : ℕ) where
  -- The models and the ids that are skipped, from the index on.
  abbrev models_from : ℕ → List ReceiptView → List Receipt × List String
  models_from i rs = receipt_models hashes block_hash chunk_hash block_timestamp i rs

  abbrev SkippedOrOwned : List Receipt × List String → ReceiptView → Type 0
  SkippedOrOwned (models, skipped) r =
      (contains r.receipt_id skipped ≡ true) ⊎ Owned models r.receipt_id

  contains_more :
      (id other : String) (skipped : List String)
      → contains id skipped ≡ true
      → contains id (other ∷ skipped) ≡ true
  contains_more id other skipped h = elim (Bool-cases (other == id)) [
    | inl hit ↦ rw hit refl
    | inr miss ↦ rw (miss, h) refl
  ]

  models_from-missing :
      (i : ℕ) (r : ReceiptView) (rs : List ReceiptView)
      → get (lookup_key r) hashes ≡ none
      → models_from i (r ∷ rs)
        ≡ ((models_from (i + 1) rs).0, r.receipt_id ∷ (models_from (i + 1) rs).1)
  unfolding receipt_models
  models_from-missing i r rs h = rw (h, receipt_models) refl

  models_from-found :
      (i : ℕ) (r : ReceiptView) (rs : List ReceiptView) (hash : String)
      → get (lookup_key r) hashes ≡ some hash
      → models_from i (r ∷ rs) ≡ (
        from_receipt_view r block_hash hash chunk_hash (as_i32 i) block_timestamp
            ∷ (models_from (i + 1) rs).0,
        (models_from (i + 1) rs).1,
      )
  unfolding receipt_models
  models_from-found i r rs hash h = rw (h, receipt_models) refl

  models_from-owned : (i : ℕ) (rs : List ReceiptView) → All (SkippedOrOwned (models_from i rs)) rs
  models_from-owned i [] = tt
  models_from-owned i (r ∷ rs) =
      let more = models_from-owned (i + 1) rs in
      elim (Option-cases (get (lookup_key r) hashes)) [
        | inl missing ↦
            subst (λ ms. All (SkippedOrOwned ms) (r ∷ rs))
              (sym (models_from-missing i r rs missing))
              (
                inl (rw (==-refl r.receipt_id) refl),
                All-map (SkippedOrOwned (models_from (i + 1) rs)) _ rs
                    (λ x h. elim h [
                      | inl out ↦
                          inl
                            (contains_more x.receipt_id r.receipt_id (models_from (i + 1) rs).1 out)
                      | inr own ↦ inr own
                    ])
                    more,
              )
        | inr (hash, there) ↦
            subst (λ ms. All (SkippedOrOwned ms) (r ∷ rs))
              (sym (models_from-found i r rs hash there))
              (
                inr (rw (==-refl (receipt_row_key r.receipt_id)) refl),
                All-map (SkippedOrOwned (models_from (i + 1) rs)) _ rs
                    (λ x h. elim h [
                      | inl out ↦ inl out
                      | inr own ↦ inr (
                          Has-more key
                            (receipt_row (
                              from_receipt_view r block_hash hash chunk_hash (as_i32 i)
                                block_timestamp))
                            (map receipt_row (models_from (i + 1) rs).0)
                            (receipt_row_key x.receipt_id) own)
                    ])
                    more,
              )
      ]

action_receipt-id :
    (r : ReceiptView) (e : ReceiptEnumView) (y : ActionReceipt)
    → action_receipt (record r { receipt = e }) ≡ some y
    → y.receipt_id ≡ r.receipt_id
action_receipt-id r (action body) y h = sym (ap (λ x. x.receipt_id) (some_inj h))
action_receipt-id r (datum data_id bytes) y h = absurd (none≢some h)

data_receipt-id :
    (r : ReceiptView) (e : ReceiptEnumView) (y : DataReceipt)
    → data_receipt (record r { receipt = e }) ≡ some y
    → y.receipt_id ≡ r.receipt_id
data_receipt-id r (action body) y h = absurd (none≢some h)
data_receipt-id r (datum data_id bytes) y h = sym (ap (λ x. x.receipt_id) (some_inj h))

of_body-All :
    {A : Type 0} (P : A → Type 0) (f : ActionBody → List A) (e : ReceiptEnumView)
    → ((body : ActionBody) → All P (f body))
    → All P (of_body f e)
of_body-All P f (action body) h = h body
of_body-All P f (datum data_id bytes) h = tt

-- The rows that `store_receipt_actions` and `store_receipt_data` insert are those of receipts that
-- `save_receipts` has inserted.
pub record OwnedRows (rows : ReceiptRows) : Type 0 where
  pub action_receipts : All (λ m. Owned rows.receipts m.receipt_id) rows.action_receipts
  pub actions : All (λ m. Owned rows.receipts m.receipt_id) rows.action_receipt_actions
  pub outputs :
      All (λ m. Owned rows.receipts m.output_from_receipt_id) rows.action_receipt_output_data
  pub inputs : All (λ m. Owned rows.receipts m.input_to_receipt_id) rows.action_receipt_input_data
  pub data_receipts : All (λ m. Owned rows.receipts m.receipt_id) rows.data_receipts

pub chunk_rows-OwnedRows :
    (hashes : Hashes) (decode_args : String → Option Json) (block_hash chunk_hash : String)
    (block_timestamp : ℕ) (rs : List ReceiptView)
    → OwnedRows (chunk_rows hashes decode_args block_hash chunk_hash block_timestamp rs)
unfolding chunk_rows
chunk_rows-OwnedRows hashes decode_args block_hash chunk_hash block_timestamp rs =
    let result = receipt_models hashes block_hash chunk_hash block_timestamp 0 rs in
    let Own : ReceiptView → Type 0 = (λ r. Owned result.0 r.receipt_id) in
    let kept_rs = filter (λ r. not (contains r.receipt_id result.1)) rs in
    let kept =
      All-kept Own result.1 rs
        (models_from-owned hashes block_hash chunk_hash block_timestamp 0 rs) in
    let acts = filter (λ r. is_action r.receipt) kept_rs in
    let own_acts = All-filter Own (λ r. is_action r.receipt) kept_rs kept in
    record {
      action_receipts =
          All-filter_map Own (λ m. Owned result.0 m.receipt_id) action_receipt acts
            (λ r y own e. rw (action_receipt-id r r.receipt y e) own) own_acts;
      actions =
          All-flat_map (λ m. Owned result.0 m.receipt_id) (actions_in decode_args block_timestamp)
            acts
            (All-map Own _ acts
              (λ r own.
                of_body-All _ _ r.receipt (λ body. All-map_from _ _ 0 body.actions (λ i a. own)))
              own_acts);
      outputs =
          All-flat_map (λ m. Owned result.0 m.output_from_receipt_id) output_data acts
            (All-map Own _ acts
              (λ r own. of_body-All _ _ r.receipt (λ body.
                All-of_map _ _ body.output_data_receivers
                  (All-of _ body.output_data_receivers (λ x. own))))
              own_acts);
      inputs =
          All-flat_map (λ m. Owned result.0 m.input_to_receipt_id) input_data acts
            (All-map Own _ acts
              (λ r own. of_body-All _ _ r.receipt (λ body.
                All-of_map _ _ body.input_data_ids (All-of _ body.input_data_ids (λ x. own))))
              own_acts);
      data_receipts =
          All-filter_map Own (λ m. Owned result.0 m.receipt_id) data_receipt
            (filter (λ r. not (is_action r.receipt)) kept_rs)
            (λ r y own e. rw (data_receipt-id r r.receipt y e) own)
            (All-filter Own (λ r. not (is_action r.receipt)) kept_rs kept);
    }
