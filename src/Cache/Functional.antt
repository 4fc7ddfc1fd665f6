-- ===== src/Cache/Functional.antt =====
-- A cache that is a function and forgets nothing: an instance of the interface.
use near_indexer_for_explore.Base.{
  String, ◌≡◌, refl, ◌⊎◌, inl, inr, Bool-cases, Option, none, some, ◌==◌, if◌then◌else◌, arith,
}
use near_indexer_for_explore.Cache.{ReceiptOrDataId, ReceiptOrDataId-eq, same_id_iff, ReceiptsCache}

abbrev pub Entries : Type 0
Entries = ReceiptOrDataId → Option String

abbrev pub with_entry : ReceiptOrDataId → Option String → Entries → Entries
with_entry k o c j = if k == j then o else c j

pub with_entry-cases :
    (k j : ReceiptOrDataId) (c : Entries) (v w : String)
    → with_entry k (some v) c j ≡ some w
    → ((k ≡ j) × (v ≡ w)) ⊎ (c j ≡ some w)
with_entry-cases k j c v w h = elim (Bool-cases (k == j)) [
  | inl same ↦ inl ((same_id_iff k j).0 same, ground (arith, same, h))
  | inr other ↦ inr (ground (arith, other, h))
]

pub without_entry-keeps :
    (k j : ReceiptOrDataId) (c : Entries) (w : String)
    → with_entry k none c j ≡ some w
    → c j ≡ some w
without_entry-keeps k j c w h = ground (arith, h)

abbrev pub function_cache : ReceiptsCache
function_cache = record {
  Cache = Entries;
  entry = λ c k. c k;
  cache_get = λ k c. (c k, c);
  cache_set = λ k v c. with_entry k (some v) c;
  cache_remove = λ k c. (c k, with_entry k none c);
  get_value = λ k c. refl;
  get_keeps = λ k j c v h. h;
  set_entry = with_entry-cases;
  remove_value = λ k c. refl;
  remove_keeps = without_entry-keeps;
}
