-- ===== src/Blocks.antt =====
-- The blocks and chunks of a message: models/blocks.rs, models/chunks.rs, and the models that
-- db_adapters/chunks.rs collects. Numbers go through their decimal text unchanged.
pub mod Latest
pub mod Largest
mod Tests
use near_indexer_for_explore.Base.{ℕ, String, List, filter_map, map}
use near_indexer_for_explore.Chain.{ChunkView, ShardView}
use near_indexer_for_explore.Supply.{Block}

pub record BlockHeaderView : Type 0 where
  pub height : ℕ
  pub hash : String
  pub prev_hash : String
  pub timestamp : ℕ
  pub total_supply : ℕ
  pub gas_price : ℕ

pub record BlockView : Type 0 where
  pub author : String
  pub header : BlockHeaderView

-- `impl From<&BlockView> for Block`.
abbrev pub from_block_view : BlockView → Block
from_block_view block_view = record {
  block_height = block_view.header.height;
  block_hash = block_view.header.hash;
  prev_block_hash = block_view.header.prev_hash;
  block_timestamp = block_view.header.timestamp;
  total_supply = block_view.header.total_supply;
  gas_price = block_view.header.gas_price;
  author_account_id = block_view.author;
}

pub record Chunk : Type 0 where
  pub included_in_block_hash : String
  pub chunk_hash : String
  pub shard_id : ℕ
  pub signature : String
  pub gas_limit : ℕ
  pub gas_used : ℕ
  pub author_account_id : String

abbrev pub from_chunk_view : String → ChunkView → Chunk
from_chunk_view block_hash chunk_view = record {
  included_in_block_hash = block_hash;
  chunk_hash = chunk_view.header.chunk_hash;
  shard_id = chunk_view.header.shard_id;
  signature = chunk_view.header.signature;
  gas_limit = chunk_view.header.gas_limit;
  gas_used = chunk_view.header.gas_used;
  author_account_id = chunk_view.author;
}

-- `shards.iter().filter_map(|shard| shard.chunk.as_ref())`.
abbrev pub chunks_of : List ShardView → List ChunkView
chunks_of shards = filter_map (λ shard. shard.chunk) shards

abbrev pub chunk_models : String → List ShardView → List Chunk
chunk_models block_hash shards = map (from_chunk_view block_hash) (chunks_of shards)
