-- ===== src/Receipts/Rows/Sound.antt =====
-- The hashes that `store_chunk_receipts` (db_adapters/receipts.rs) stores with receipts, and the
-- entries that it adds to the cache, against a notion of parent.
use near_indexer_for_explore.Base.{
  ℕ, ◌+◌, String, Bool, Option, none, some, List, [], ◌∷◌, All, ◌≡◌, refl, Option-cases, inl, inr,
}
use mathlib.Core.Path.{subst}
use near_indexer_for_explore.Base.Map.{get}
use near_indexer_for_explore.Chain.{ReceiptView, ReceiptEnumView, action, datum, DataReceiverView}
use near_indexer_for_explore.Cache.{
  ReceiptOrDataId, receipt_key, data_key, ReceiptOrDataId-eq, ReceiptsCache,
}
use near_indexer_for_explore.Receipts.{lookup_key, lookup_key_of}
use near_indexer_for_explore.Receipts.Search.{
  Hashes, Queries, Progress, searching, found, repeating, failed,
}
use near_indexer_for_explore.Receipts.Search.Invariant.{Holds}
use near_indexer_for_explore.Receipts.Search.Sound.{
  Sound, SoundCache, SoundQueries, Linked, LinkedTo, get-Sound, find_tx_hashes-Sound,
}
use near_indexer_for_explore.Serializers.{Json}
use near_indexer_for_explore.Receipts.Rows.{
  Receipt, ChunkResult, stored, of_body, receipt_models, chunk_rows, set_receivers, set_outputs,
  cache_outputs, store_found, store_chunk_receipts,
}

module _ (Parent : ReceiptOrDataId → String → Type 0) where
  -- The parent of a receipt is that of the data that it outputs.
  abbrev pub OutputsLinked : ReceiptView → Type 0
  OutputsLinked r =
      (h : String)
      → Parent (receipt_key r.receipt_id) h
      → All (λ d. Parent (data_key d.data_id) h)
          (of_body (λ body. body.output_data_receivers) r.receipt)

  abbrev pub SoundRow : Receipt → Type 0
  SoundRow m = Parent (receipt_key m.receipt_id) m.originated_from_transaction_hash

  abbrev pub SoundResult : ChunkResult → Type 0
  SoundResult (stored rows) = All SoundRow rows.receipts
  SoundResult _ = Unit

  parent_of_receipt :
      (id h : String) (e : ReceiptEnumView)
      → LinkedTo Parent id e
      → Parent (lookup_key_of id e) h
      → Parent (receipt_key id) h
  parent_of_receipt id h (action body) l p = p
  parent_of_receipt id h (datum data_id bytes) l p = l h p

  models-SoundRow :
      (hashes : Hashes) (block_hash chunk_hash : String) (block_timestamp i : ℕ)
      (rs : List ReceiptView)
      → Sound Parent hashes
      → All (Linked Parent) rs
      → All SoundRow (receipt_models hashes block_hash chunk_hash block_timestamp i rs).0
  unfolding receipt_models
  models-SoundRow hashes block_hash chunk_hash block_timestamp i [] s l = tt
  models-SoundRow hashes block_hash chunk_hash block_timestamp i (r ∷ rs) s (lr, l) =
      let rest = models-SoundRow hashes block_hash chunk_hash block_timestamp (i + 1) rs s l in
      elim (Option-cases (get (lookup_key r) hashes)) [
        | inl missing ↦ rw (missing, receipt_models) rest
        | inr (h, there) ↦
            rw (there, receipt_models)
              (
                parent_of_receipt r.receipt_id h r.receipt lr
                    (get-Sound Parent (lookup_key r) h hashes s there),
                rest,
              )
      ]

  module _ (C : ReceiptsCache) where
    open C use {Cache, cache_set, set_entry, entry}

    pub cache_set-Sound :
        (k : ReceiptOrDataId) (h : String) (c : Cache)
        → Parent k h
        → SoundCache Parent C c
        → SoundCache Parent C (cache_set k h c)
    cache_set-Sound k h c p s j w there = elim (set_entry k j c h w there) [
      | inl (ek, eh) ↦ subst (λ x. Parent x w) ek (subst (Parent k) eh p)
      | inr before ↦ s j w before
    ]

    set_receivers-Sound :
        (hashes : Hashes) (h : String) (ds : List DataReceiverView) (c : Cache)
        → All (λ d. Parent (data_key d.data_id) h) ds
        → SoundCache Parent C c
        → SoundCache Parent C (set_receivers hashes C h ds c)
    set_receivers-Sound hashes h [] c p s = s
    set_receivers-Sound hashes h (d ∷ ds) c (p, ps) s =
        set_receivers-Sound hashes h ds (cache_set (data_key d.data_id) h c) ps
          (cache_set-Sound (data_key d.data_id) h c p s)

    set_outputs-Sound :
        (hashes : Hashes) (o : Option String) (ds : List DataReceiverView) (c : Cache)
        → ((h : String) → o ≡ some h → All (λ d. Parent (data_key d.data_id) h) ds)
        → SoundCache Parent C c
        → SoundCache Parent C (set_outputs hashes C o ds c)
    set_outputs-Sound hashes none ds c p s = s
    set_outputs-Sound hashes (some h) ds c p s = set_receivers-Sound hashes h ds c (p h refl) s

    cache_outputs-Sound :
        (hashes : Hashes) (rs : List ReceiptView) (c : Cache)
        → Sound Parent hashes
        → All OutputsLinked rs
        → SoundCache Parent C c
        → SoundCache Parent C (cache_outputs hashes C rs c)
    unfolding cache_outputs
    cache_outputs-Sound hashes [] c sh l s = s
    cache_outputs-Sound hashes (r ∷ rs) c sh (lr, l) s = cache_outputs-Sound hashes rs _ sh l (
        set_outputs-Sound hashes _ _ c
          (λ h there. lr h (get-Sound Parent (receipt_key r.receipt_id) h hashes sh there)) s)

    module _ (decode_args : String → Option Json) (block_hash chunk_hash : String)
        (block_timestamp : ℕ) where
      store_found-Sound :
          (rs : List ReceiptView) (p : Progress) (c : Cache)
          → Holds (Linked Parent) (Sound Parent) p
          → SoundCache Parent C c
          → All (Linked Parent) rs
          → All OutputsLinked rs
          → let result = store_found C decode_args block_hash chunk_hash block_timestamp rs p c in
            SoundResult result.0 × SoundCache Parent C result.1
      unfolding store_found chunk_rows
      store_found-Sound rs (searching left hashes) c h s l lo = (tt, s)
      store_found-Sound rs repeating c h s l lo = (tt, s)
      store_found-Sound rs failed c h s l lo = (tt, s)
      store_found-Sound rs (found hashes) c h s l lo = (
        models-SoundRow hashes block_hash chunk_hash block_timestamp 0 rs h l,
        cache_outputs-Sound hashes rs c h lo s,
      )

      -- Where the cache and the database hold parents only, and data has the parent of the
      -- receipt that outputs it and gives it to the receipt that carries it, every row that
      -- `store_chunk_receipts` stores in `receipts` has the hash of the receipt's parent, in
      -- strict mode or not and for any number of rounds, and the cache still holds parents only.
      pub store_chunk_receipts-Sound :
          (q : Queries) (strict_mode : Bool) (fuel : ℕ) (rs : List ReceiptView) (c : Cache)
          → SoundQueries Parent q
          → SoundCache Parent C c
          → All (Linked Parent) rs
          → All OutputsLinked rs
          → let result =
              store_chunk_receipts C decode_args q strict_mode fuel block_hash chunk_hash
                block_timestamp rs c in
            SoundResult result.0 × SoundCache Parent C result.1
      unfolding store_chunk_receipts
      store_chunk_receipts-Sound q strict_mode fuel rs c sq sc l lo =
          let (s, sc') = find_tx_hashes-Sound Parent C q strict_mode fuel rs c sq sc l in
          store_found-Sound rs _ _ s sc' l lo
