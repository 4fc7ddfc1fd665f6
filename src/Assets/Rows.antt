-- ===== src/Assets/Rows.antt =====
-- models/assets: the rows of the two tables, and `compose_ft_db_events` and
-- `compose_nft_db_events` of db_adapters/assets, loop by loop.
pub mod Compose
use near_indexer_for_explore.Base.{ℕ, String, Option, none, some, List, [], ◌∷◌, ◌++◌, length}
use near_indexer_for_explore.Base.Words.{as_i32}
use near_indexer_for_explore.Chain.{OutcomeWithReceipt}
use near_indexer_for_explore.Text.{escape_default}
use near_indexer_for_explore.Assets.{
  FtMintData, FtTransferData, FtBurnData, Nep141EventKind, ft_mint, ft_transfer, ft_burn,
  Nep141Event, NftMintData, NftTransferData, NftBurnData, Nep171EventKind, nft_mint, nft_transfer,
  nft_burn, Nep171Event,
}

-- `FtEventKind` and `NftEventKind` of models/enums.rs.
pub data EventKind : Type 0 where
  mint transfer burn : EventKind

pub record FungibleTokenEvent : Type 0 where
  pub emitted_for_receipt_id : String
  pub emitted_at_block_timestamp : ℕ
  pub emitted_in_shard_id : ℕ
  pub emitted_index_of_event_entry_in_shard : ℕ
  pub emitted_by_contract_account_id : String
  pub amount : String
  pub event_kind : EventKind
  pub token_old_owner_account_id : String
  pub token_new_owner_account_id : String
  pub event_memo : String

pub record NonFungibleTokenEvent : Type 0 where
  pub emitted_for_receipt_id : String
  pub emitted_at_block_timestamp : ℕ
  pub emitted_in_shard_id : ℕ
  pub emitted_index_of_event_entry_in_shard : ℕ
  pub emitted_by_contract_account_id : String
  pub token_id : String
  pub event_kind : EventKind
  pub token_old_owner_account_id : String
  pub token_new_owner_account_id : String
  pub token_authorized_account_id : String
  pub event_memo : String

abbrev pub or_empty : Option String → String
or_empty none = ""
or_empty (some s) = s

-- `push` to a vector.
abbrev pub push {ℓ} : {A : Type ℓ} → List A → A → List A
push xs x = xs ++ x ∷ []

module _ (block_timestamp shard_id : ℕ) (outcome : OutcomeWithReceipt) where
  -- A row with the index that is next: the length of the vector so far.
  abbrev pub ft_row : ℕ → String → EventKind → String → String → Option String → FungibleTokenEvent
  ft_row index amount kind old_owner new_owner memo = record {
    emitted_for_receipt_id = outcome.receipt.receipt_id;
    emitted_at_block_timestamp = block_timestamp;
    emitted_in_shard_id = shard_id;
    emitted_index_of_event_entry_in_shard = as_i32 index;
    emitted_by_contract_account_id = outcome.receipt.receiver_id;
    amount = amount;
    event_kind = kind;
    token_old_owner_account_id = old_owner;
    token_new_owner_account_id = new_owner;
    event_memo = escape_default (or_empty memo);
  }

  push_mints : List FtMintData → List FungibleTokenEvent → List FungibleTokenEvent
  push_mints [] ft_events = ft_events
  push_mints (e ∷ rest) ft_events = push_mints rest (
      push ft_events
        (ft_row (length ft_events) e.amount mint "" (escape_default e.owner_id) e.memo))

  push_transfers : List FtTransferData → List FungibleTokenEvent → List FungibleTokenEvent
  push_transfers [] ft_events = ft_events
  push_transfers (e ∷ rest) ft_events = push_transfers rest (
      push ft_events (
        ft_row (length ft_events) e.amount transfer (escape_default e.old_owner_id)
          (escape_default e.new_owner_id) e.memo))

  push_burns : List FtBurnData → List FungibleTokenEvent → List FungibleTokenEvent
  push_burns [] ft_events = ft_events
  push_burns (e ∷ rest) ft_events = push_burns rest (
      push ft_events
        (ft_row (length ft_events) e.amount burn (escape_default e.owner_id) "" e.memo))

  pub push_ft_kind : Nep141EventKind → List FungibleTokenEvent → List FungibleTokenEvent
  unfolding push_mints push_transfers push_burns
  push_ft_kind (ft_mint mint_events) ft_events = push_mints mint_events ft_events
  push_ft_kind (ft_transfer transfer_events) ft_events = push_transfers transfer_events ft_events
  push_ft_kind (ft_burn burn_events) ft_events = push_burns burn_events ft_events

  abbrev pub nft_row :
      ℕ → EventKind → String → String → String → Option String → String → NonFungibleTokenEvent
  nft_row index kind old_owner new_owner authorized memo token_id = record {
    emitted_for_receipt_id = outcome.receipt.receipt_id;
    emitted_at_block_timestamp = block_timestamp;
    emitted_in_shard_id = shard_id;
    emitted_index_of_event_entry_in_shard = as_i32 index;
    emitted_by_contract_account_id = outcome.receipt.receiver_id;
    token_id = escape_default token_id;
    event_kind = kind;
    token_old_owner_account_id = old_owner;
    token_new_owner_account_id = new_owner;
    token_authorized_account_id = authorized;
    event_memo = escape_default (or_empty memo);
  }

  -- `for token_id in &event.token_ids`.
  push_tokens :
      (ℕ → String → NonFungibleTokenEvent)
      → List String
      → List NonFungibleTokenEvent
      → List NonFungibleTokenEvent
  push_tokens entry [] nft_events = nft_events
  push_tokens entry (token_id ∷ rest) nft_events =
      push_tokens entry rest (push nft_events (entry (length nft_events) token_id))

  abbrev pub minted : NftMintData → ℕ → String → NonFungibleTokenEvent
  minted e index = nft_row index mint "" (escape_default e.owner_id) "" e.memo

  abbrev pub transferred : NftTransferData → ℕ → String → NonFungibleTokenEvent
  transferred e index =
      nft_row index transfer (escape_default e.old_owner_id) (escape_default e.new_owner_id)
        (escape_default (or_empty e.authorized_id)) e.memo

  abbrev pub burnt : NftBurnData → ℕ → String → NonFungibleTokenEvent
  burnt e index =
      nft_row index burn (escape_default e.owner_id) "" (escape_default (or_empty e.authorized_id))
        e.memo

  push_nft_mints : List NftMintData → List NonFungibleTokenEvent → List NonFungibleTokenEvent
  push_nft_mints [] nft_events = nft_events
  push_nft_mints (e ∷ rest) nft_events =
      push_nft_mints rest (push_tokens (minted e) e.token_ids nft_events)

  push_nft_transfers :
      List NftTransferData → List NonFungibleTokenEvent → List NonFungibleTokenEvent
  push_nft_transfers [] nft_events = nft_events
  push_nft_transfers (e ∷ rest) nft_events =
      push_nft_transfers rest (push_tokens (transferred e) e.token_ids nft_events)

  push_nft_burns : List NftBurnData → List NonFungibleTokenEvent → List NonFungibleTokenEvent
  push_nft_burns [] nft_events = nft_events
  push_nft_burns (e ∷ rest) nft_events =
      push_nft_burns rest (push_tokens (burnt e) e.token_ids nft_events)

  pub push_nft_kind : Nep171EventKind → List NonFungibleTokenEvent → List NonFungibleTokenEvent
  unfolding push_nft_mints push_nft_transfers push_nft_burns push_tokens
  push_nft_kind (nft_mint mint_events) nft_events = push_nft_mints mint_events nft_events
  push_nft_kind (nft_transfer transfer_events) nft_events =
      push_nft_transfers transfer_events nft_events
  push_nft_kind (nft_burn burn_events) nft_events = push_nft_burns burn_events nft_events

module _ (block_timestamp shard_id : ℕ) where
  unfoldable pub ft_events_from :
      List (Nep141Event × OutcomeWithReceipt) → List FungibleTokenEvent → List FungibleTokenEvent
  ft_events_from [] ft_events = ft_events
  ft_events_from ((event, outcome) ∷ rest) ft_events =
      ft_events_from rest (push_ft_kind block_timestamp shard_id outcome event.event_kind ft_events)

  unfoldable pub compose_ft_db_events :
      List (Nep141Event × OutcomeWithReceipt) → List FungibleTokenEvent
  unfolding ft_events_from push_ft_kind
  compose_ft_db_events events_with_outcomes = ft_events_from events_with_outcomes []

  unfoldable pub nft_events_from :
      List (Nep171Event × OutcomeWithReceipt)
      → List NonFungibleTokenEvent
      → List NonFungibleTokenEvent
  nft_events_from [] nft_events = nft_events
  nft_events_from ((event, outcome) ∷ rest) nft_events =
      nft_events_from rest
        (push_nft_kind block_timestamp shard_id outcome event.event_kind nft_events)

  unfoldable pub compose_nft_db_events :
      List (Nep171Event × OutcomeWithReceipt) → List NonFungibleTokenEvent
  unfolding nft_events_from push_nft_kind
  compose_nft_db_events events_with_outcomes = nft_events_from events_with_outcomes []
