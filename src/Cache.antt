-- ===== src/Cache.antt =====
-- `ReceiptsCache` of main.rs: parents of receipts, filed by receipt id or data id. The cache
-- (`SizedCache` of the crate `cached`) is a parameter: it may forget entries at any time, and
-- gives back only what was set.
pub mod Functional
use near_indexer_for_explore.Base.{
  String, ◌≡◌, ◌↔◌, ◌⊎◌, Bool, true, false, Option, some, none, arith, eq_iff, Eq, ◌==◌, String-eq,
}

pub data ReceiptOrDataId : Type 0 where
  receipt_key : String → ReceiptOrDataId
  data_key : String → ReceiptOrDataId

abbrev pub same_id : ReceiptOrDataId → ReceiptOrDataId → Bool
same_id (receipt_key a) (receipt_key b) = a == b
same_id (data_key a) (data_key b) = a == b
same_id _ _ = false

pub same_id_iff : (a b : ReceiptOrDataId) → (same_id a b ≡ true) ↔ (a ≡ b)
same_id_iff (receipt_key a) (receipt_key b) =
    ((λ h. ground (arith, eq_iff a b)), (λ h. ground (arith, eq_iff a b)))
same_id_iff (data_key a) (data_key b) =
    ((λ h. ground (arith, eq_iff a b)), (λ h. ground (arith, eq_iff a b)))
same_id_iff (receipt_key a) (data_key b) = ((λ h. cc), (λ h. cc))
same_id_iff (data_key a) (receipt_key b) = ((λ h. cc), (λ h. cc))

instance abbrev pub ReceiptOrDataId-eq : Eq ReceiptOrDataId
ReceiptOrDataId-eq = record { beq = same_id; beq_iff = same_id_iff }

pub record ReceiptsCache : Type 1 where
  pub Cache : Type 0
  -- What the cache holds for a key.
  pub entry : Cache → ReceiptOrDataId → Option String
  pub cache_get : ReceiptOrDataId → Cache → Option String × Cache
  pub cache_set : ReceiptOrDataId → String → Cache → Cache
  pub cache_remove : ReceiptOrDataId → Cache → Option String × Cache
  pub get_value : (k : ReceiptOrDataId) (c : Cache) → (cache_get k c).0 ≡ entry c k
  pub get_keeps :
      (k j : ReceiptOrDataId) (c : Cache) (v : String)
      → entry (cache_get k c).1 j ≡ some v
      → entry c j ≡ some v
  pub set_entry :
      (k j : ReceiptOrDataId) (c : Cache) (v w : String)
      → entry (cache_set k v c) j ≡ some w
      → ((k ≡ j) × (v ≡ w)) ⊎ (entry c j ≡ some w)
  pub remove_value : (k : ReceiptOrDataId) (c : Cache) → (cache_remove k c).0 ≡ entry c k
  pub remove_keeps :
      (k j : ReceiptOrDataId) (c : Cache) (v : String)
      → entry (cache_remove k c).1 j ≡ some v
      → entry c j ≡ some v
