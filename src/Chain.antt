-- ===== src/Chain.antt =====
-- The messages of the NEAR node, as far as the indexer takes them apart: the variants that it
-- matches and the fields that it reads. A hash, a key or an account id is the text that its
-- `to_string` gives. Payloads that the indexer passes over are left out.
use near_indexer_for_explore.Base.{ℕ, String, Bool, true, false, Option, List}

pub data AccessKeyPermissionView : Type 0 where
  function_call : Option ℕ → String → List String → AccessKeyPermissionView
  full_access : AccessKeyPermissionView

pub record AccessKeyView : Type 0 where
  pub nonce : ℕ
  pub permission : AccessKeyPermissionView

-- The bytes of a contract's code, and the base64 text of a call's arguments.
pub data ActionView : Type 0 where
  create_account : ActionView
  deploy_contract : List ℕ → ActionView
  call_function : String → String → ℕ → ℕ → ActionView
  transfer : ℕ → ActionView
  stake : ℕ → String → ActionView
  add_key : String → AccessKeyView → ActionView
  delete_key : String → ActionView
  delete_account : String → ActionView

pub record DataReceiverView : Type 0 where
  pub data_id : String
  pub receiver_id : String

-- The fields of `ReceiptEnumView::Action`.
pub record ActionBody : Type 0 where
  pub signer_id : String
  pub signer_public_key : String
  pub gas_price : ℕ
  pub output_data_receivers : List DataReceiverView
  pub input_data_ids : List String
  pub actions : List ActionView

pub data ReceiptEnumView : Type 0 where
  action : ActionBody → ReceiptEnumView
  datum : String → Option (List ℕ) → ReceiptEnumView

pub record ReceiptView : Type 0 where
  pub predecessor_id : String
  pub receiver_id : String
  pub receipt_id : String
  pub receipt : ReceiptEnumView

pub data ExecutionStatusView : Type 0 where
  unknown failure success_value success_receipt_id : ExecutionStatusView

pub record ExecutionOutcomeView : Type 0 where
  pub logs : List String
  pub receipt_ids : List String
  pub gas_burnt : ℕ
  pub tokens_burnt : ℕ
  pub executor_id : String
  pub status : ExecutionStatusView

pub record ExecutionOutcomeWithIdView : Type 0 where
  pub block_hash : String
  pub id : String
  pub outcome : ExecutionOutcomeView

pub record OutcomeWithReceipt : Type 0 where
  pub execution_outcome : ExecutionOutcomeWithIdView
  pub receipt : ReceiptView

pub record SignedTransactionView : Type 0 where
  pub signer_id : String
  pub public_key : String
  pub nonce : ℕ
  pub receiver_id : String
  pub actions : List ActionView
  pub signature : String
  pub hash : String

-- `outcome` is the field `outcome.execution_outcome` of the message.
pub record TransactionWithOutcome : Type 0 where
  pub transaction : SignedTransactionView
  pub outcome : ExecutionOutcomeWithIdView

pub record ChunkHeaderView : Type 0 where
  pub chunk_hash : String
  pub shard_id : ℕ
  pub signature : String
  pub gas_limit : ℕ
  pub gas_used : ℕ

pub record ChunkView : Type 0 where
  pub author : String
  pub header : ChunkHeaderView
  pub transactions : List TransactionWithOutcome
  pub receipts : List ReceiptView

pub record AccountView : Type 0 where
  pub amount : ℕ
  pub locked : ℕ
  pub code_hash : String
  pub storage_usage : ℕ

pub data StateChangeCauseView : Type 0 where
  not_writable_to_disk initial_state : StateChangeCauseView
  transaction_processing : String → StateChangeCauseView
  action_receipt_processing_started : String → StateChangeCauseView
  action_receipt_gas_reward : String → StateChangeCauseView
  receipt_processing : String → StateChangeCauseView
  postponed_receipt : String → StateChangeCauseView
  updated_delayed_receipts validator_accounts_update : StateChangeCauseView
  migration resharding : StateChangeCauseView

-- `other_change` is any variant but the two of accounts.
pub data StateChangeValueView : Type 0 where
  account_update : String → AccountView → StateChangeValueView
  account_deletion : String → StateChangeValueView
  other_change : StateChangeValueView

pub record StateChangeWithCauseView : Type 0 where
  pub cause : StateChangeCauseView
  pub value : StateChangeValueView

pub record ShardView : Type 0 where
  pub shard_id : ℕ
  pub chunk : Option ChunkView
  pub receipt_execution_outcomes : List OutcomeWithReceipt
  pub state_changes : List StateChangeWithCauseView

-- The `matches!` of the adapters on a successful status.
abbrev pub is_successful : ExecutionStatusView → Bool
is_successful success_value = true
is_successful success_receipt_id = true
is_successful _ = false
