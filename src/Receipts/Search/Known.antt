-- ===== src/Receipts/Search/Known.antt =====
-- Which ids pairs of ids and hashes know, and which receipts `find_tx_hashes_for_receipts`
-- (db_adapters/receipts.rs) goes on with after pairs came in.
use near_indexer_for_explore.Base.{
  String, true, Option, none, some, List, [], ◌∷◌, filter, filter_map, All, All-map, ◌≡◌, refl, sym,
  ◌∙◌, arith, is_some, Bool-cases, Option-cases, ◌⊎◌, inl, inr, some_inj, map, if◌then◌else◌, eqb,
  length, ◌==◌, Eq, String-eq,
}
use mathlib.Core.Path.{subst}
use near_indexer_for_explore.Base.Map.{Map, get, contains_key, insert, extend, get-insert}
use near_indexer_for_explore.Process.Joined.{All-both}
use near_indexer_for_explore.Chain.{ReceiptView, ReceiptEnumView, action, datum}
use near_indexer_for_explore.Cache.{ReceiptOrDataId, receipt_key, data_key, ReceiptOrDataId-eq}
use near_indexer_for_explore.Receipts.{is_action}
use near_indexer_for_explore.Receipts.Search.{
  Hashes, Answer, Progress, searching, found, repeating, failed, ◌then_go◌, via_data_output,
  as_receipt_keys, as_data_keys, data_id_of, data_ids, action_ids, not_found, take_in,
}

abbrev pub Has : {K V : Type 0} → ⦃e : Eq K⦄ → K → Map K V → Type 0
Has k m = contains_key k m ≡ true

module _ {K V : Type 0} ⦃e : Eq K⦄ where
  Has-insert_same : (k j : K) (v : V) (m : Map K V) → (j == k) ≡ true → Has k (insert j v m)
  Has-insert_same k j v m same = rw (get-insert j k v m, same) refl

  Has-insert_old : (k j : K) (v : V) (m : Map K V) → Has k m → Has k (insert j v m)
  Has-insert_old k j v m h = elim (Bool-cases (j == k)) [
    | inl same ↦ Has-insert_same k j v m same
    | inr other ↦ rw (get-insert j k v m, other) h
  ]

  pub Has-extend_old : (k : K) (m : Map K V) (ps : List (K × V)) → Has k m → Has k (extend m ps)
  Has-extend_old k m [] h = h
  Has-extend_old k m ((j, v) ∷ ps) h = Has-extend_old k (insert j v m) ps (Has-insert_old k j v m h)

  pub Has-extend_new : (k : K) (m : Map K V) (ps : List (K × V)) → Has k ps → Has k (extend m ps)
  Has-extend_new k m [] h = absurd cc
  Has-extend_new k m ((j, v) ∷ ps) h = elim (Bool-cases (j == k)) [
    | inl same ↦ Has-extend_old k (insert j v m) ps (Has-insert_same k j v m same)
    | inr other ↦ Has-extend_new k (insert j v m) ps (ground (arith, h, other))
  ]

  pub Has-first : (k : K) (v : V) (ps : List (K × V)) → Has k ((k, v) ∷ ps)
  Has-first k v ps = rw ((e.beq_iff k k).1 refl) refl

  pub Has-cons : (k : K) (p : K × V) (ps : List (K × V)) → Has k ps → Has k (p ∷ ps)
  Has-cons k (j, v) ps h = elim (Bool-cases (j == k)) [
    | inl same ↦ rw same refl
    | inr other ↦ rw other h
  ]

pub Has-as_receipt_keys :
    (id : String) (answer : Answer) → Has id answer → Has (receipt_key id) (as_receipt_keys answer)
Has-as_receipt_keys id [] h = absurd cc
Has-as_receipt_keys id ((j, v) ∷ ps) h = elim (Bool-cases (j == id)) [
  | inl same ↦ rw same refl
  | inr other ↦ rw other (Has-as_receipt_keys id ps (ground (arith, h, other)))
]

pub Has-as_data_keys :
    (id : String) (answer : Answer) → Has id answer → Has (data_key id) (as_data_keys answer)
Has-as_data_keys id [] h = absurd cc
Has-as_data_keys id ((j, v) ∷ ps) h = elim (Bool-cases (j == id)) [
  | inl same ↦ rw same refl
  | inr other ↦ rw other (Has-as_data_keys id ps (ground (arith, h, other)))
]

-- A receipt for which `P` holds, or whose id the pairs know.
abbrev pub KnownOr : (ReceiptView → Type 0) → List (ReceiptOrDataId × String) → ReceiptView → Type 0
KnownOr P pairs r = P r ⊎ Has (receipt_key r.receipt_id) pairs

-- The search has not failed nor is it in the midst of a query, and `P` holds of the receipts that are left.
abbrev pub Left : (ReceiptView → Type 0) → Progress → Type 0
Left P (searching receipts hashes) = All P receipts
Left P (found hashes) = Unit
Left P repeating = ⊥
Left P failed = ⊥

pub then_go-Left :
    (P Q : ReceiptView → Type 0) (p : Progress) (f : List ReceiptView → Hashes → Progress)
    → Left P p
    → ((rs : List ReceiptView) (hs : Hashes) → All P rs → Left Q (f rs hs))
    → Left Q (p then_go f)
then_go-Left P Q (searching rs hs) f h step = step rs hs h
then_go-Left P Q (found hs) f h step = tt
then_go-Left P Q repeating f h step = h
then_go-Left P Q failed f h step = h

filter-Left :
    (P : ReceiptView → Type 0) (pairs : List (ReceiptOrDataId × String)) (hs : Hashes)
    (rs : List ReceiptView)
    → All (KnownOr P pairs) rs
    → All P (filter (not_found (extend hs pairs)) rs)
filter-Left P pairs hs [] h = tt
filter-Left P pairs hs (r ∷ rs) (inl p, h) = elim (Bool-cases (not_found (extend hs pairs) r)) [
  | inl stays ↦ rw stays (p, filter-Left P pairs hs rs h)
  | inr goes ↦ rw goes (filter-Left P pairs hs rs h)
]
filter-Left P pairs hs (r ∷ rs) (inr there, h) =
    rw (Has-extend_new (receipt_key r.receipt_id) hs pairs there) (filter-Left P pairs hs rs h)

pub take_in-Left :
    (P : ReceiptView → Type 0) (pairs : List (ReceiptOrDataId × String)) (rs : List ReceiptView)
    (hs : Hashes)
    → All (KnownOr P pairs) rs
    → Left P (take_in pairs rs hs)
take_in-Left P pairs rs hs h = elim (Bool-cases (eqb (length pairs) (length rs))) [
  | inl all_found ↦ rw all_found tt
  | inr more ↦ rw more (filter-Left P pairs hs rs h)
]

abbrev pub IsAction : ReceiptView → Type 0
IsAction r = is_action r.receipt ≡ true

All-of_filter_map :
    {A B : Type 0} (Q : B → Type 0) (f : A → Option B) (xs : List A)
    → All Q (filter_map f xs)
    → All (λ x. (y : B) → f x ≡ some y → Q y) xs
All-of_filter_map Q f [] h = tt
All-of_filter_map {B = B} Q f (x ∷ xs) h = one (f x) refl h (All-of_filter_map Q f xs)
  where
    one :
        (o : Option B)
        → f x ≡ o
        → All Q (elim o [ none ↦ filter_map f xs | some y ↦ y ∷ filter_map f xs ])
        → (All Q (filter_map f xs) → All (λ x. (y : B) → f x ≡ some y → Q y) xs)
        → ((y : B) → f x ≡ some y → Q y) × All (λ x. (y : B) → f x ≡ some y → Q y) xs
    one none e h rest = ((λ y there. absurd cc), rest h)
    one (some z) e (hz, h) rest = ((λ y there. subst Q (some_inj (sym e ∙ there)) hz), rest h)

Has-filter_map :
    {A K V : Type 0} ⦃e : Eq K⦄ (g : A → Option (K × V)) (xs : List A)
    → All (λ x. (p : K × V) → g x ≡ some p → Has p.0 (filter_map g xs)) xs
Has-filter_map g [] = tt
Has-filter_map {K = K} {V = V} ⦃e⦄ g (x ∷ xs) = one (g x) refl (Has-filter_map g xs)
  where
    one :
        (o : Option (K × V))
        → g x ≡ o
        → All (λ x. (p : K × V) → g x ≡ some p → Has p.0 (filter_map g xs)) xs
        → ((p : K × V)
            → g x ≡ some p
            → Has p.0 (elim o [ none ↦ filter_map g xs | some y ↦ y ∷ filter_map g xs ]))
          × All
              (λ x.
                (p : K × V)
                → g x ≡ some p
                → Has p.0 (elim o [ none ↦ filter_map g xs | some y ↦ y ∷ filter_map g xs ]))
              xs
    one none nothing h = ((λ p there. absurd cc), h)
    one (some q) is_q h = (
      (λ p there.
          subst (λ z. Has p.0 (z ∷ filter_map g xs)) (some_inj (sym there ∙ is_q))
            (Has-first p.0 p.1 (filter_map g xs))),
      All-map _ _ xs (λ y h p there. Has-cons p.0 q (filter_map g xs) (h p there)) h,
    )

pub none_in : {A : Type 0} {o : Option A} → is_some o ≡ true → o ≡ none → ⊥
none_in h e = absurd cc

known_via :
    (answered : Hashes) (pairs : List (ReceiptOrDataId × String)) (r : ReceiptView)
    (e : ReceiptEnumView)
    → ((d : String) → data_id_of e ≡ some d → Has (data_key d) answered)
    → ((p : ReceiptOrDataId × String) → via_data_output answered r e ≡ some p → Has p.0 pairs)
    → (is_action e ≡ true) ⊎ Has (receipt_key r.receipt_id) pairs
known_via answered pairs r (action body) h g = inl refl
known_via answered pairs r (datum data_id bytes) h g =
    elim (Option-cases (get (data_key data_id) answered)) [
      | inl missing ↦ absurd (none_in (h data_id refl) missing)
      | inr (tx_hash, there) ↦
          inr (g (receipt_key r.receipt_id, tx_hash) (rw (there, via_data_output) refl))
    ]

pub data_pairs-Known :
    (answered : Hashes) (rs : List ReceiptView)
    → All (λ d. Has (data_key d) answered) (data_ids rs)
    → All (KnownOr IsAction (filter_map (λ r. via_data_output answered r r.receipt) rs)) rs
data_pairs-Known answered rs h =
    All-map _ _ rs (λ r (a, b). known_via answered _ r r.receipt a b)
      (All-both _ _ rs (All-of_filter_map _ _ rs h) (Has-filter_map _ rs))

pub action_ids-All :
    (Q : String → Type 0) (rs : List ReceiptView)
    → All IsAction rs
    → All Q (action_ids rs)
    → All (λ r. IsAction r × Q r.receipt_id) rs
action_ids-All Q [] a h = tt
action_ids-All Q (r ∷ rs) (a, others) h =
    let both : All Q (r.receipt_id ∷ action_ids rs) =
      subst
        (λ b. All Q (
          map (λ r. r.receipt_id)
            (if b
              then r ∷ filter (λ r. is_action r.receipt) rs
              else filter (λ r. is_action r.receipt) rs)))
        a h in
    ((a, both.0), action_ids-All Q rs others both.1)
