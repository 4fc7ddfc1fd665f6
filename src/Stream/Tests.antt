-- ===== src/Stream/Tests.antt =====
-- A message with a block, a chunk with a transaction, and an outcome, and a run of its handler, for
-- the theorems on main.rs.
use near_indexer_for_explore.Base.{
  ◌≡◌, refl, arith, true, false, Option, none, some, [], ◌∷◌, All, String-eq, pair-eq, none≢some,
}
use near_indexer_for_explore.Chain.{success_receipt_id, transfer}
use near_indexer_for_explore.Cache.Functional.{Entries, function_cache}
use near_indexer_for_explore.Database.{Table}
use near_indexer_for_explore.Database.Functional.{function_table}
use near_indexer_for_explore.Tables.{Key, Row, texts-eq, key, parents, chunk_key, chunk_row}
use near_indexer_for_explore.Process.{
  done, Step, lock, ask, replied, reply_lost, first, next, left, right, joined,
}
use near_indexer_for_explore.Process.Present.{Present}
use near_indexer_for_explore.Process.References.{References}
use near_indexer_for_explore.Process.Progress.{Steps, ended, then_steps}
use near_indexer_for_explore.Message.{Environment, StreamerMessage, Task, handle_message}
use near_indexer_for_explore.Message.Complete.{message_keys}
use near_indexer_for_explore.Stream.{
  Listener, Reach, this, at_start, step, start, advance, take_result, succeeded, listen_blocks,
}
use near_indexer_for_explore.Stream.Safe.{listen_blocks-Stored, listen_blocks-References}
use near_indexer_for_explore.Transactions
use near_indexer_for_explore.Outcomes
use near_indexer_for_explore.Accounts
use near_indexer_for_explore.Assets
use near_indexer_for_explore.Assets.Rows
use near_indexer_for_explore.Assets.Batches

abbrev environment : Environment
environment = record {
  receipts_cache = function_cache;
  decode_args = λ s. none;
  implicit_public_key = λ s. none;
  parse_event = λ s. none;
  queries = λ chunk_hash. record {
    by_data_output = λ round ids. some [] ∷ [];
    by_outcomes = λ round ids. some [];
    by_transactions = λ round ids. some [];
  };
  rounds = 5;
}

abbrev tables : Table key
tables = function_table key

abbrev no_rows : Key → Option Row
no_rows k = none

abbrev no_entries : Entries
no_entries k = none

abbrev message : StreamerMessage
message = record {
  block = record {
    author = "validator";
    header = record {
      height = 10;
      hash = "block";
      prev_hash = "before";
      timestamp = 100;
      total_supply = 1000;
      gas_price = 1;
    };
  };
  shards =
      record {
        shard_id = 0;
        chunk = some (record {
          author = "validator";
          header = record {
            chunk_hash = "chunk";
            shard_id = 0;
            signature = "sig";
            gas_limit = 10;
            gas_used = 1;
          };
          transactions =
              record {
                transaction = record {
                  signer_id = "alice";
                  public_key = "key";
                  nonce = 1;
                  receiver_id = "bob";
                  actions = transfer 5 ∷ [];
                  signature = "sig";
                  hash = "tx1";
                };
                outcome = record {
                  block_hash = "block";
                  id = "tx1";
                  outcome = record {
                    logs = [];
                    receipt_ids = "r1" ∷ [];
                    gas_burnt = 1;
                    tokens_burnt = 1;
                    executor_id = "alice";
                    status = success_receipt_id;
                  };
                };
              }
              ∷ [];
          receipts = [];
        });
        receipt_execution_outcomes = [];
        state_changes = [];
      }
      ∷ [];
}

infixr 5 ◌then◌
◌then◌ :
    {p q r : Task environment} {t u v : Key → Option Row} {c d e : Entries}
    → Step tables p t c q u d
    → Steps tables q u d r v e
    → Steps tables p t c r v e
s then more = then_steps s more

-- The answer to the insert of the block is lost once.
handled_message :
    (u : Key → Option Row) × (d : Entries) × Steps tables
      (handle_message environment false message)
      no_rows
      no_entries
      done
      u
      d
unfolding handle_message Transactions.store_chunk_transactions Transactions.transaction_models
    Outcomes.outcome_models Outcomes.produced Accounts.handle_accounts Assets.collect_events
    Assets.collect_from Rows.compose_ft_db_events Rows.compose_nft_db_events Rows.ft_events_from
    Rows.nft_events_from Batches.chunks Batches.chunks_on
handled_message = (
  _,
  _,
  first reply_lost
      then first replied
      then next
      then first replied
      then next
      then first (left (first (left lock)))
      then first (left (first (left replied)))
      then first (left (first (left replied)))
      then first (left (first joined))
      then first (left next)
      then first (left (ask (some ("r1" ∷ []))))
      then first joined
      then next
      then left (left lock)
      then left (left replied)
      then left (left replied)
      then left joined
      then right (left joined)
      then right (right (left joined))
      then right (right joined)
      then right joined
      then joined
      then ended,
)

abbrev handling : Task environment → (Key → Option Row) → Entries → Listener environment tables
handling p t c = record {
  stream = [];
  handlers = (message, p) ∷ [];
  handled = [];
  tables = t;
  cache = c;
}

-- A handler that makes steps, as a listener with one handler.
along :
    {s : Listener environment tables} {p q : Task environment} {t u : Key → Option Row}
    {c d : Entries}
    → Reach environment tables false 2 s (handling p t c)
    → Steps tables p t c q u d
    → Reach environment tables false 2 s (handling q u d)
along r ended = r
along r (then_steps s more) = along (step r (advance (this s))) more

abbrev final_tables : Key → Option Row
final_tables = handled_message.0

abbrev at_end : Listener environment tables
at_end = record {
  stream = [];
  handlers = [];
  handled = (message, true) ∷ [];
  tables = final_tables;
  cache = handled_message.1;
}

-- The listener is told to stop after one of two blocks.
end_reached :
    Reach environment tables false 2
      (listen_blocks environment tables (some 1) (message ∷ message ∷ []) no_rows no_entries)
      at_end
end_reached =
    step (along (step at_start (start (omega arith))) handled_message.2) (take_result succeeded)

listen_blocks-Stored_example : All (Present tables at_end.tables) (message_keys message)
listen_blocks-Stored_example =
    listen_blocks-Stored environment tables false 2 (some 1) (message ∷ message ∷ []) no_rows
      no_entries at_end message 0 end_reached refl

no_rows-References : References parents tables no_rows
unfolding References
no_rows-References k r there = absurd (none≢some there)

abbrev the_chunk : Row
the_chunk = chunk_row (record {
  included_in_block_hash = "block";
  chunk_hash = "chunk";
  shard_id = 0;
  signature = "sig";
  gas_limit = 10;
  gas_used = 1;
  author_account_id = "validator";
})

chunk_there : tables.row at_end.tables (chunk_key "chunk") ≡ some the_chunk
unfolding handled_message
chunk_there = refl

listen_blocks-References_example : All (Present tables at_end.tables) (parents the_chunk)
listen_blocks-References_example =
    listen_blocks-References environment tables false 2 (some 1) (message ∷ message ∷ []) no_rows
      no_entries at_end (chunk_key "chunk") the_chunk no_rows-References end_reached chunk_there
