-- ===== src/Receipts/Search/Counts.antt =====
-- Counting the rows of an answer against the receipts that are left, as
-- `find_tx_hashes_for_receipts` (db_adapters/receipts.rs) does.
use near_indexer_for_explore.Base.{
  ℕ, suc, ◌≤◌, String, true, Option, none, some, List, [], ◌∷◌, filter_map, All, All-map, ◌≡◌, refl,
  sym, ap, ◌∙◌, arith, Bool-cases, Option-cases, inl, inr, eqb, eqb_iff, length, map, ◌==◌, eq_iff,
  String-eq, some_inj, none≢some,
}
use mathlib.Core.Path.{subst}
use near_indexer_for_explore.Base.Map.{get, extend}
use near_indexer_for_explore.Chain.{ReceiptView, ReceiptEnumView, action, datum}
use near_indexer_for_explore.Cache.{ReceiptOrDataId, receipt_key, data_key, ReceiptOrDataId-eq}
use near_indexer_for_explore.Receipts.{is_action}
use near_indexer_for_explore.Receipts.Search.{
  Hashes, Answer, Queries, as_receipt_keys, as_data_keys, action_ids, via_data_output, data_pairs,
}
use near_indexer_for_explore.Receipts.Search.Known.{Has, Has-as_receipt_keys, Has-first, Has-cons}
use near_indexer_for_explore.Receipts.Search.Ids.{is_in, AllDistinct, all_of_them}

abbrev pub keys : Answer → List String
keys = map (λ p. p.0)

-- The queries by receipt id answer with one row for an id at most, and only for ids that they are
-- asked for.
pub record Exact (q : Queries) : Type 0 where
  pub outcomes_exact :
      (round : ℕ) (ids : List String) (answer : Answer)
      → q.by_outcomes round ids ≡ some answer
      → AllDistinct (keys answer) × All (λ id. is_in id ids ≡ true) (keys answer)
  pub transactions_exact :
      (round : ℕ) (ids : List String) (answer : Answer)
      → q.by_transactions round ids ≡ some answer
      → AllDistinct (keys answer) × All (λ id. is_in id ids ≡ true) (keys answer)

abbrev pub ids_of : List ReceiptView → List String
ids_of = map (λ r. r.receipt_id)

-- The ids of all the receipts are among the pairs, if there are as many pairs as receipts.
abbrev pub CountsAll : List (ReceiptOrDataId × String) → List ReceiptView → Type 0
CountsAll pairs rs =
    eqb (length pairs) (length rs) ≡ true
    → (id : String) → is_in id (ids_of rs) ≡ true
    → Has (receipt_key id) pairs

action_ids-ids_of :
    (id : String) (rs : List ReceiptView)
    → is_in id (action_ids rs) ≡ true
    → is_in id (ids_of rs) ≡ true
action_ids-ids_of id [] h = absurd cc
action_ids-ids_of id (r ∷ rs) h = elim (Bool-cases (r.receipt_id == id)) [
  | inl same ↦ rw same refl
  | inr other ↦ rw other (
      action_ids-ids_of id rs (elim (Bool-cases (is_action r.receipt)) [
        | inl acts ↦ rw other at (rw acts at h)
        | inr not_action ↦ rw not_action at h
      ]))
]

length-map : {A B : Type 0} (f : A → B) (xs : List A) → length (map f xs) ≡ length xs
length-map f [] = refl
length-map f (x ∷ xs) = ap suc (length-map f xs)

keys-Has : (id : String) (answer : Answer) → is_in id (keys answer) ≡ true → Has id answer
keys-Has id [] h = absurd cc
keys-Has id ((k, v) ∷ answer) h = elim (Bool-cases (k == id)) [
  | inl same ↦ rw same refl
  | inr other ↦ rw other (keys-Has id answer (rw other at h))
]

pub exact-CountsAll :
    (answer : Answer) (rs : List ReceiptView)
    → AllDistinct (keys answer)
    → All (λ id. is_in id (action_ids rs) ≡ true) (keys answer)
    → CountsAll (as_receipt_keys answer) rs
exact-CountsAll answer rs distinct asked counted id h =
    let same = (eqb_iff (length (as_receipt_keys answer)) (length rs)).0 counted in
    let n = length-map {B = ReceiptOrDataId × String} (λ p. (receipt_key p.0, p.1)) answer in
    let m = length-map {B = String} (λ p. p.0) answer in
    let k = length-map {B = String} (λ r. r.receipt_id) rs in
    Has-as_receipt_keys id answer (
      keys-Has id answer (
        all_of_them (keys answer) (ids_of rs) distinct
          (All-map _ _ (keys answer) (λ x. action_ids-ids_of x rs) asked)
          (omega (arith, same, n, m, k)) id h))

filter_map-none :
    {A B : Type 0} (f : A → Option B) (x : A) (xs : List A)
    → f x ≡ none
    → filter_map f (x ∷ xs) ≡ filter_map f xs
filter_map-none f x xs e = rw (e, filter_map) refl

filter_map-some :
    {A B : Type 0} (f : A → Option B) (x : A) (xs : List A) (y : B)
    → f x ≡ some y
    → filter_map f (x ∷ xs) ≡ y ∷ filter_map f xs
filter_map-some f x xs y e = rw (e, filter_map) refl

length-filter_map :
    {A B : Type 0} (f : A → Option B) (xs : List A) → length (filter_map f xs) ≤ length xs
length-filter_map f [] = omega arith
length-filter_map f (x ∷ xs) =
    let n = length-filter_map f xs in
    elim (Option-cases (f x)) [
      | inl nothing ↦ let m = ap length (filter_map-none f x xs nothing) in omega (arith, n, m)
      | inr (y, there) ↦ let m = ap length (filter_map-some f x xs y there) in omega (arith, n, m)
    ]

via_data_output-key :
    (answered : Hashes) (r : ReceiptView) (e : ReceiptEnumView) (p : ReceiptOrDataId × String)
    → via_data_output answered r e ≡ some p
    → p.0 ≡ receipt_key r.receipt_id
via_data_output-key answered r (action body) p h = absurd (none≢some h)
via_data_output-key answered r (datum data_id bytes) p h =
    elim (Option-cases (get (data_key data_id) answered)) [
      | inl missing ↦ absurd (none≢some (rw (missing, via_data_output) at h))
      | inr (tx_hash, there) ↦ sym (ap (λ x. x.0) (some_inj (rw (there, via_data_output) at h)))
    ]

via_pairs-CountsAll :
    (answered : Hashes) (rs : List ReceiptView)
    → let via = filter_map (λ r. via_data_output answered r r.receipt) in
      length (via rs) ≡ length rs
      → (id : String) → is_in id (ids_of rs) ≡ true
      → Has (receipt_key id) (via rs)
via_pairs-CountsAll answered [] counted id h = absurd cc
via_pairs-CountsAll answered (r ∷ rs) counted id h =
    let g : ReceiptView → Option (ReceiptOrDataId × String) =
      (λ r. via_data_output answered r r.receipt) in
    elim (Option-cases (g r)) [
      | inl nothing ↦
          let n = length-filter_map g rs in
          let m = ap length (filter_map-none g r rs nothing) in
          absurd (omega (arith, n, m, counted))
      | inr (p, there) ↦
          let m = ap length (filter_map-some g r rs p there) in
          let own = via_data_output-key answered r r.receipt p there in
          subst (Has (receipt_key id)) (sym (filter_map-some g r rs p there))
            (elim (Bool-cases (r.receipt_id == id)) [
              | inl same ↦
                  let here = own ∙ ap receipt_key ((eq_iff r.receipt_id id).0 same) in
                  subst (λ k. Has k (p ∷ filter_map g rs)) here
                    (Has-first p.0 p.1 (filter_map g rs))
              | inr other ↦
                  Has-cons (receipt_key id) p (filter_map g rs)
                    (via_pairs-CountsAll answered rs (omega (arith, m, counted)) id (rw other at h))
            ])
    ]

pub data_pairs-CountsAll :
    (answer : Answer) (rs : List ReceiptView) → CountsAll (data_pairs answer rs) rs
data_pairs-CountsAll answer rs counted id h =
    via_pairs-CountsAll (extend [] (as_data_keys answer)) rs
      ((eqb_iff (length (data_pairs answer rs)) (length rs)).0 counted) id h
