-- ===== src/Receipts.antt =====
-- db_adapters/receipts.rs and models/receipts.rs: the receipts of a chunk, the search for the
-- transactions that they originate from, and the rows that are stored.
pub mod Search
pub mod Rows
mod Tests
use near_indexer_for_explore.Base.{ℕ, String, Bool, true, false, List, [], ◌∷◌}
use near_indexer_for_explore.Chain.{ReceiptView, ReceiptEnumView, action, datum}
use near_indexer_for_explore.Cache.{ReceiptOrDataId, receipt_key, data_key}

-- The key under which the parent of a receipt is looked up, by the kind of the receipt.
abbrev pub lookup_key_of : String → ReceiptEnumView → ReceiptOrDataId
lookup_key_of receipt_id (action body) = receipt_key receipt_id
lookup_key_of receipt_id (datum data_id bytes) = data_key data_id

abbrev pub lookup_key : ReceiptView → ReceiptOrDataId
lookup_key r = lookup_key_of r.receipt_id r.receipt

abbrev pub is_action : ReceiptEnumView → Bool
is_action (action body) = true
is_action (datum data_id bytes) = false
