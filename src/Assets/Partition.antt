-- ===== src/Assets/Partition.antt =====
-- The two vectors that `collect_and_store_events` (db_adapters/assets/events.rs) fills.
use near_indexer_for_explore.Base.{
  String, Option, none, some, List, [], ◌∷◌, ◌++◌, filter_map, flat_map, ◌≡◌, sym, ap, ◌∙◌,
}
use mathlib.Core.List.{append_assoc, append-nil}
use near_indexer_for_explore.Chain.{OutcomeWithReceipt, ShardView}
use near_indexer_for_explore.Assets.{
  NearEvent, nep141, nep171, Nep141Event, Nep171Event, Sorted, extract_events, push_event,
  push_events, collect_from, collect_events,
}

abbrev pub ft_of : OutcomeWithReceipt → NearEvent → Option (Nep141Event × OutcomeWithReceipt)
ft_of outcome (nep141 event) = some (event, outcome)
ft_of outcome (nep171 event) = none

abbrev pub nft_of : OutcomeWithReceipt → NearEvent → Option (Nep171Event × OutcomeWithReceipt)
nft_of outcome (nep141 event) = none
nft_of outcome (nep171 event) = some (event, outcome)

module _ (parse_event : String → Option NearEvent) where
  -- The events of one outcome, with the outcome.
  abbrev pub ft_events_of : OutcomeWithReceipt → List (Nep141Event × OutcomeWithReceipt)
  ft_events_of outcome = filter_map (ft_of outcome) (extract_events parse_event outcome)

  abbrev pub nft_events_of : OutcomeWithReceipt → List (Nep171Event × OutcomeWithReceipt)
  nft_events_of outcome = filter_map (nft_of outcome) (extract_events parse_event outcome)

  push_events-eq :
      (o : OutcomeWithReceipt) (es : List NearEvent) (s : Sorted)
      → ((push_events parse_event o es s).ft ≡ s.ft ++ filter_map (ft_of o) es)
        × ((push_events parse_event o es s).nft ≡ s.nft ++ filter_map (nft_of o) es)
  unfolding push_events push_event
  push_events-eq o [] s = (sym (append-nil s.ft), sym (append-nil s.nft))
  push_events-eq o (nep141 event ∷ es) s =
      let (ft, nft) = push_events-eq o es (record s { ft = s.ft ++ (event, o) ∷ [] }) in
      (ft ∙ append_assoc s.ft ((event, o) ∷ []) (filter_map (ft_of o) es), nft)
  push_events-eq o (nep171 event ∷ es) s =
      let (ft, nft) = push_events-eq o es (record s { nft = s.nft ++ (event, o) ∷ [] }) in
      (ft, nft ∙ append_assoc s.nft ((event, o) ∷ []) (filter_map (nft_of o) es))

  collect_from-eq :
      (os : List OutcomeWithReceipt) (s : Sorted)
      → ((collect_from parse_event os s).ft ≡ s.ft ++ flat_map ft_events_of os)
        × ((collect_from parse_event os s).nft ≡ s.nft ++ flat_map nft_events_of os)
  unfolding collect_from
  collect_from-eq [] s = (sym (append-nil s.ft), sym (append-nil s.nft))
  collect_from-eq (o ∷ os) s =
      let pushed = push_events parse_event o (extract_events parse_event o) s in
      let (ft, nft) = collect_from-eq os pushed in
      let (ft', nft') = push_events-eq o (extract_events parse_event o) s in
      (
        ft
            ∙ ap (λ xs. xs ++ flat_map ft_events_of os) ft'
            ∙ append_assoc s.ft (ft_events_of o) (flat_map ft_events_of os),
        nft
            ∙ ap (λ xs. xs ++ flat_map nft_events_of os) nft'
            ∙ append_assoc s.nft (nft_events_of o) (flat_map nft_events_of os),
      )

  -- Whatever the logs parse to, the two vectors of a shard hold the fungible and the non-fungible
  -- events of its outcomes, each event once, with its outcome, in the order of the outcomes and of
  -- their logs.
  pub collect_events-eq :
      (shard : ShardView)
      → ((collect_events parse_event shard).ft
          ≡ flat_map ft_events_of shard.receipt_execution_outcomes)
        × ((collect_events parse_event shard).nft
            ≡ flat_map nft_events_of shard.receipt_execution_outcomes)
  unfolding collect_events
  collect_events-eq shard =
      collect_from-eq shard.receipt_execution_outcomes (record { ft = []; nft = [] })
