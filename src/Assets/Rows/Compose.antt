-- ===== src/Assets/Rows/Compose.antt =====
-- `compose_ft_db_events` and `compose_nft_db_events` (db_adapters/assets) against a description
-- without loops: one row for each entry, numbered from zero over the whole shard.
use near_indexer_for_explore.Base.{
  ℕ, suc, ◌+◌, String, ◌≡◌, refl, ap, sym, ◌∙◌, List, [], ◌∷◌, ◌++◌, map, arith, length, flat_map,
  length-append,
}
use mathlib.Core.List.{append_assoc, append-nil}
use near_indexer_for_explore.Chain.{OutcomeWithReceipt}
use near_indexer_for_explore.Text.{escape_default}
use near_indexer_for_explore.Assets.{
  FtMintData, FtTransferData, FtBurnData, Nep141EventKind, ft_mint, ft_transfer, ft_burn,
  Nep141Event, NftMintData, NftTransferData, NftBurnData, Nep171EventKind, nft_mint, nft_transfer,
  nft_burn, Nep171Event,
}
use near_indexer_for_explore.Assets.Rows.{
  mint, transfer, burn, FungibleTokenEvent, NonFungibleTokenEvent, ft_row, push_ft_kind,
  push_tokens, minted, transferred, burnt, push_nft_mints, push_nft_transfers, push_nft_burns,
  push_nft_kind, ft_events_from, compose_ft_db_events, nft_events_from, compose_nft_db_events,
}

-- Rows that wait for their number, numbered from `i` on.
abbrev pub number : {A : Type 0} → ℕ → List (ℕ → A) → List A
number i [] = []
number i (f ∷ fs) = f i ∷ number (i + 1) fs

module _ {A : Type 0} where
  number-append :
      (i : ℕ) (fs gs : List (ℕ → A))
      → number i (fs ++ gs) ≡ number i fs ++ number (i + length fs) gs
  number-append i [] gs = let e : i ≡ i + 0 = omega arith in ap (λ j. number j gs) e
  number-append i (f ∷ fs) gs =
      let e : i + 1 + length fs ≡ i + suc (length fs) = omega arith in
      ap (◌∷◌ (f i)) (number-append (i + 1) fs gs ∙ ap (λ j. number (i + 1) fs ++ number j gs) e)

  push_step :
      (out : List A) (f : ℕ → A) (fs : List (ℕ → A))
      → (out ++ f (length out) ∷ []) ++ number (length (out ++ f (length out) ∷ [])) fs
        ≡ out ++ number (length out) (f ∷ fs)
  push_step out f fs =
      append_assoc out (f (length out) ∷ []) _
      ∙ ap (λ j. out ++ f (length out) ∷ number j fs) (length-append out (f (length out) ∷ []))

  append_step :
      (out : List A) (fs gs : List (ℕ → A))
      → (out ++ number (length out) fs) ++ number (length (out ++ number (length out) fs)) gs
        ≡ out ++ number (length out) (fs ++ gs)
  append_step out fs gs =
      append_assoc out (number (length out) fs) _
      ∙ ap (λ j. out ++ (number (length out) fs ++ number j gs)) (sizes out fs)
      ∙ ap (λ l. out ++ l) (sym (number-append (length out) fs gs))
    where
      length-number : (i : ℕ) (l : List (ℕ → A)) → length (number i l) ≡ length l
      length-number i [] = refl
      length-number i (f ∷ l) = ap suc (length-number (i + 1) l)

      sizes :
          (o : List A) (l : List (ℕ → A)) → length (o ++ number (length o) l) ≡ length o + length l
      sizes o l =
          length-append o (number (length o) l)
          ∙ ap (λ n. length o + n) (length-number (length o) l)

module _ (block_timestamp shard_id : ℕ) (outcome : OutcomeWithReceipt) where
  abbrev mint_entry : FtMintData → ℕ → FungibleTokenEvent
  mint_entry e index =
      ft_row block_timestamp shard_id outcome index e.amount mint "" (escape_default e.owner_id)
        e.memo

  abbrev transfer_entry : FtTransferData → ℕ → FungibleTokenEvent
  transfer_entry e index =
      ft_row block_timestamp shard_id outcome index e.amount transfer
        (escape_default e.old_owner_id) (escape_default e.new_owner_id) e.memo

  abbrev burn_entry : FtBurnData → ℕ → FungibleTokenEvent
  burn_entry e index =
      ft_row block_timestamp shard_id outcome index e.amount burn (escape_default e.owner_id) ""
        e.memo

  abbrev ft_rows : Nep141EventKind → List (ℕ → FungibleTokenEvent)
  ft_rows (ft_mint es) = map mint_entry es
  ft_rows (ft_transfer es) = map transfer_entry es
  ft_rows (ft_burn es) = map burn_entry es

  push_ft_kind-eq :
      (kind : Nep141EventKind) (out : List FungibleTokenEvent)
      → push_ft_kind block_timestamp shard_id outcome kind out
        ≡ out ++ number (length out) (ft_rows kind)
  unfolding push_ft_kind
  push_ft_kind-eq (ft_mint []) out = sym (append-nil out)
  push_ft_kind-eq (ft_mint (e ∷ es)) out =
      push_ft_kind-eq (ft_mint es) _ ∙ push_step out (mint_entry e) (map mint_entry es)
  push_ft_kind-eq (ft_transfer []) out = sym (append-nil out)
  push_ft_kind-eq (ft_transfer (e ∷ es)) out =
      push_ft_kind-eq (ft_transfer es) _ ∙ push_step out (transfer_entry e) (map transfer_entry es)
  push_ft_kind-eq (ft_burn []) out = sym (append-nil out)
  push_ft_kind-eq (ft_burn (e ∷ es)) out =
      push_ft_kind-eq (ft_burn es) _ ∙ push_step out (burn_entry e) (map burn_entry es)

  -- The rows of one event of non-fungible tokens: one for each token of each entry.
  abbrev nft_rows : Nep171EventKind → List (ℕ → NonFungibleTokenEvent)
  nft_rows (nft_mint es) =
      flat_map (λ e. map (λ t index. minted block_timestamp shard_id outcome e index t) e.token_ids)
        es
  nft_rows (nft_transfer es) =
      flat_map
        (λ e. map (λ t index. transferred block_timestamp shard_id outcome e index t) e.token_ids)
        es
  nft_rows (nft_burn es) =
      flat_map (λ e. map (λ t index. burnt block_timestamp shard_id outcome e index t) e.token_ids)
        es

  push_tokens-eq :
      (entry : ℕ → String → NonFungibleTokenEvent) (ts : List String)
      (out : List NonFungibleTokenEvent)
      → push_tokens block_timestamp shard_id outcome entry ts out
        ≡ out ++ number (length out) (map (λ t index. entry index t) ts)
  unfolding push_tokens
  push_tokens-eq entry [] out = sym (append-nil out)
  push_tokens-eq entry (t ∷ ts) out =
      push_tokens-eq entry ts _
      ∙ push_step out (λ index. entry index t) (map (λ u index. entry index u) ts)

  push_nft_mints-eq :
      (es : List NftMintData) (out : List NonFungibleTokenEvent)
      → push_nft_mints block_timestamp shard_id outcome es out
        ≡ out ++ number (length out) (nft_rows (nft_mint es))
  unfolding push_nft_mints
  push_nft_mints-eq [] out = sym (append-nil out)
  push_nft_mints-eq (e ∷ es) out =
      rw (push_tokens-eq (minted block_timestamp shard_id outcome e) e.token_ids out) (
        push_nft_mints-eq es _
        ∙ append_step out
            (map (λ t index. minted block_timestamp shard_id outcome e index t) e.token_ids)
            (nft_rows (nft_mint es)))

  push_nft_transfers-eq :
      (es : List NftTransferData) (out : List NonFungibleTokenEvent)
      → push_nft_transfers block_timestamp shard_id outcome es out
        ≡ out ++ number (length out) (nft_rows (nft_transfer es))
  unfolding push_nft_transfers
  push_nft_transfers-eq [] out = sym (append-nil out)
  push_nft_transfers-eq (e ∷ es) out =
      rw (push_tokens-eq (transferred block_timestamp shard_id outcome e) e.token_ids out) (
        push_nft_transfers-eq es _
        ∙ append_step out
            (map (λ t index. transferred block_timestamp shard_id outcome e index t) e.token_ids)
            (nft_rows (nft_transfer es)))

  push_nft_burns-eq :
      (es : List NftBurnData) (out : List NonFungibleTokenEvent)
      → push_nft_burns block_timestamp shard_id outcome es out
        ≡ out ++ number (length out) (nft_rows (nft_burn es))
  unfolding push_nft_burns
  push_nft_burns-eq [] out = sym (append-nil out)
  push_nft_burns-eq (e ∷ es) out =
      rw (push_tokens-eq (burnt block_timestamp shard_id outcome e) e.token_ids out) (
        push_nft_burns-eq es _
        ∙ append_step out
            (map (λ t index. burnt block_timestamp shard_id outcome e index t) e.token_ids)
            (nft_rows (nft_burn es)))

  push_nft_kind-eq :
      (kind : Nep171EventKind) (out : List NonFungibleTokenEvent)
      → push_nft_kind block_timestamp shard_id outcome kind out
        ≡ out ++ number (length out) (nft_rows kind)
  unfolding push_nft_kind
  push_nft_kind-eq (nft_mint es) out = push_nft_mints-eq es out
  push_nft_kind-eq (nft_transfer es) out = push_nft_transfers-eq es out
  push_nft_kind-eq (nft_burn es) out = push_nft_burns-eq es out

module _ (block_timestamp shard_id : ℕ) where
  -- The rows of all events of a shard, in order, each waiting for its number.
  abbrev pub ft_entries : List (Nep141Event × OutcomeWithReceipt) → List (ℕ → FungibleTokenEvent)
  ft_entries = flat_map (λ e. ft_rows block_timestamp shard_id e.1 e.0.event_kind)

  abbrev pub nft_entries :
      List (Nep171Event × OutcomeWithReceipt) → List (ℕ → NonFungibleTokenEvent)
  nft_entries = flat_map (λ e. nft_rows block_timestamp shard_id e.1 e.0.event_kind)

  ft_events_from-eq :
      (es : List (Nep141Event × OutcomeWithReceipt)) (out : List FungibleTokenEvent)
      → ft_events_from block_timestamp shard_id es out ≡ out ++ number (length out) (ft_entries es)
  unfolding ft_events_from
  ft_events_from-eq [] out = sym (append-nil out)
  ft_events_from-eq ((event, outcome) ∷ es) out =
      rw (push_ft_kind-eq block_timestamp shard_id outcome event.event_kind out) (
        ft_events_from-eq es _
        ∙ append_step out (ft_rows block_timestamp shard_id outcome event.event_kind)
            (ft_entries es))

  nft_events_from-eq :
      (es : List (Nep171Event × OutcomeWithReceipt)) (out : List NonFungibleTokenEvent)
      → nft_events_from block_timestamp shard_id es out
        ≡ out ++ number (length out) (nft_entries es)
  unfolding nft_events_from
  nft_events_from-eq [] out = sym (append-nil out)
  nft_events_from-eq ((event, outcome) ∷ es) out =
      rw (push_nft_kind-eq block_timestamp shard_id outcome event.event_kind out) (
        nft_events_from-eq es _
        ∙ append_step out (nft_rows block_timestamp shard_id outcome event.event_kind)
            (nft_entries es))

  -- The rows of fungible-token events are one for each entry of each event, in the order of the
  -- outcomes and their logs, numbered from zero without gaps over the whole shard.
  pub compose_ft_db_events-eq :
      (events : List (Nep141Event × OutcomeWithReceipt))
      → compose_ft_db_events block_timestamp shard_id events ≡ number 0 (ft_entries events)
  unfolding compose_ft_db_events
  compose_ft_db_events-eq events = ft_events_from-eq events []

  -- The rows of non-fungible-token events are one for each token of each entry of each event, in
  -- order, numbered from zero without gaps over the whole shard.
  pub compose_nft_db_events-eq :
      (events : List (Nep171Event × OutcomeWithReceipt))
      → compose_nft_db_events block_timestamp shard_id events ≡ number 0 (nft_entries events)
  unfolding compose_nft_db_events
  compose_nft_db_events-eq events = nft_events_from-eq events []
