-- ===== src/Assets/Batches.antt =====
-- `chunks(CHUNK_SIZE_FOR_BATCH_INSERT)`, and the loops of `store_ft_events` and
-- `store_nft_events` (db_adapters/assets) that insert the chunks one after the other.
use near_indexer_for_explore.Base.{ℕ, zero, suc, List, [], ◌∷◌, length, take, drop}

-- CHUNK_SIZE_FOR_BATCH_INSERT of db_adapters/mod.rs.
abbrev pub chunk_size : ℕ
chunk_size = 500

module _ {A : Type 0} where
  -- `slice::chunks` of the standard library, on as much fuel as there are elements.
  unfoldable pub chunks_on : ℕ → List A → List (List A)
  chunks_on zero xs = []
  chunks_on (suc fuel) [] = []
  chunks_on (suc fuel) (x ∷ xs) =
      take chunk_size (x ∷ xs) ∷ chunks_on fuel (drop chunk_size (x ∷ xs))

  unfoldable pub chunks : List A → List (List A)
  unfolding chunks_on
  chunks xs = chunks_on (length xs) xs
