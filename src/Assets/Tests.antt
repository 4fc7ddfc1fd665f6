-- ===== src/Assets/Tests.antt =====
-- Events of one outcome, for the theorems on db_adapters/assets.
use near_indexer_for_explore.Base.{Option, ◌≡◌, none, some, List, [], ◌∷◌, flat_map, String}
use near_indexer_for_explore.Chain.{OutcomeWithReceipt, ShardView, datum, success_value}
use near_indexer_for_explore.Assets.Partition.{ft_events_of, nft_events_of, collect_events-eq}
use near_indexer_for_explore.Assets.{
  NearEvent, nep141, collect_events, Nep141Event, ft_mint, ft_transfer, Nep171Event, nft_mint,
  nft_burn,
}
use near_indexer_for_explore.Assets.Rows.{compose_ft_db_events, compose_nft_db_events}
use near_indexer_for_explore.Assets.Rows.Compose.{
  number, ft_entries, nft_entries, compose_ft_db_events-eq, compose_nft_db_events-eq,
}

abbrev outcome : OutcomeWithReceipt
outcome = record {
  execution_outcome = record {
    block_hash = "block";
    id = "r1";
    outcome = record {
      logs = [];
      receipt_ids = [];
      gas_burnt = 0;
      tokens_burnt = 0;
      executor_id = "token";
      status = success_value;
    };
  };
  receipt = record {
    predecessor_id = "alice";
    receiver_id = "token";
    receipt_id = "r1";
    receipt = datum "d1" none;
  };
}

abbrev ft_events : List (Nep141Event × OutcomeWithReceipt)
ft_events =
    (
      record {
        version = "1.0.0";
        event_kind = ft_mint (record { owner_id = "bob"; amount = "5"; memo = none } ∷ []);
      },
      outcome,
    )
    ∷ (
      record {
        version = "1.0.0";
        event_kind = ft_transfer (
            record {
              old_owner_id = "bob";
              new_owner_id = "carol";
              amount = "2";
              memo = some "gift";
            }
            ∷ []);
      },
      outcome,
    )
    ∷ []

abbrev nft_events : List (Nep171Event × OutcomeWithReceipt)
nft_events =
    (
      record {
        version = "1.0.0";
        event_kind =
            nft_mint (record { owner_id = "bob"; token_ids = "t1" ∷ "t2" ∷ []; memo = none } ∷ []);
      },
      outcome,
    )
    ∷ (
      record {
        version = "1.0.0";
        event_kind = nft_burn (
            record { authorized_id = none; owner_id = "bob"; token_ids = "t1" ∷ []; memo = none }
            ∷ []);
      },
      outcome,
    )
    ∷ []

compose_ft_db_events-eq_example :
    compose_ft_db_events 100 0 ft_events ≡ number 0 (ft_entries 100 0 ft_events)
compose_ft_db_events-eq_example = compose_ft_db_events-eq 100 0 ft_events

compose_nft_db_events-eq_example :
    compose_nft_db_events 100 0 nft_events ≡ number 0 (nft_entries 100 0 nft_events)
compose_nft_db_events-eq_example = compose_nft_db_events-eq 100 0 nft_events

-- Every log that has the prefix is a mint.
abbrev parse_mint : String → Option NearEvent
parse_mint body = some (
    nep141 (record {
      version = "1.0.0";
      event_kind = ft_mint (record { owner_id = "bob"; amount = "5"; memo = none } ∷ []);
    }))

abbrev shard : ShardView
shard = record {
  shard_id = 0;
  chunk = none;
  receipt_execution_outcomes =
      record outcome {
        execution_outcome = record outcome.execution_outcome {
          outcome = record outcome.execution_outcome.outcome {
            logs = " EVENT_JSON:{}" ∷ "other" ∷ [];
          };
        };
      }
      ∷ [];
  state_changes = [];
}

collect_events-eq_example :
    ((collect_events parse_mint shard).ft
      ≡ flat_map (ft_events_of parse_mint) shard.receipt_execution_outcomes)
    × ((collect_events parse_mint shard).nft
        ≡ flat_map (nft_events_of parse_mint) shard.receipt_execution_outcomes)
collect_events-eq_example = collect_events-eq parse_mint shard
