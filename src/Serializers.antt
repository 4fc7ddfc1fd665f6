-- ===== src/Serializers.antt =====
-- models/serializers.rs and the kinds of models/enums.rs: the JSON that is stored for an action.
-- The decoding of the arguments of a call, `base64::decode` and then `serde_json::from_slice`, is
-- the parameter `decode_args`. A JSON object is the list of its members.
pub mod Escaped
mod Tests
use near_indexer_for_explore.Base.{ℕ, String, Bool, Option, none, some, List, [], ◌∷◌, map}
use near_indexer_for_explore.Chain.{
  AccessKeyPermissionView, function_call, full_access, AccessKeyView, ActionView, create_account,
  deploy_contract, call_function, transfer, stake, add_key, delete_key, delete_account,
}
use near_indexer_for_explore.Text.{escape_default, decimal, hex_bytes}

-- An integer, or the literal of any other number of a document.
pub data Number : Type 0 where
  integer : ℕ → Number
  literal : String → Number

-- `serde_json::Value`, with lists of values and of members.
mutual
  pub data Json : Type 0 where
    null : Json
    boolean : Bool → Json
    number : Number → Json
    text : String → Json
    array : Values → Json
    object : Members → Json

  pub data Values : Type 0 where
    end_values : Values
    value : Json → Values → Values

  pub data Members : Type 0 where
    end_members : Members
    member : String → Json → Members → Members

unfoldable mutual
  pub escape_json : Json → Json
  escape_json (object members) = object (escape_members members)
  escape_json (array values) = array (escape_values values)
  escape_json (text s) = text (escape_default s)
  escape_json null = null
  escape_json (boolean b) = boolean b
  escape_json (number n) = number n

  pub escape_values : Values → Values
  escape_values end_values = end_values
  escape_values (value j vs) = value (escape_json j) (escape_values vs)

  pub escape_members : Members → Members
  escape_members end_members = end_members
  escape_members (member k j ms) = member k (escape_json j) (escape_members ms)

pub data ActionKind : Type 0 where
  create_account_kind deploy_contract_kind function_call_kind transfer_kind : ActionKind
  stake_kind add_key_kind delete_key_kind delete_account_kind : ActionKind

abbrev pub texts : List String → Values
texts [] = end_values
texts (s ∷ ss) = value (text s) (texts ss)

-- One member, and further ones.
abbrev pub field : String → Json → Json
field k j = object (member k j end_members)

abbrev dec_format : Option ℕ → Json
dec_format none = null
dec_format (some n) = text (decimal n)

-- The conversion of a permission, and the JSON that its serde attributes give.
abbrev pub permission_json : AccessKeyPermissionView → Json
permission_json full_access = field "permission_kind" (text "FULL_ACCESS")
permission_json (function_call allowance receiver_id method_names) = object (
    member "permission_kind" (text "FUNCTION_CALL") (
      member "permission_details"
        (object (
          member "allowance" (dec_format allowance) (
            member "receiver_id" (text (escape_default receiver_id)) (
              member "method_names" (array (texts (map escape_default method_names)))
                end_members))))
        end_members))

abbrev pub access_key_json : AccessKeyView → Json
access_key_json k = object (
    member "nonce" (number (integer k.nonce))
      (member "permission" (permission_json k.permission) end_members))

-- The last member of the arguments of a call: the decoded ones, escaped.
abbrev pub args_json : Option Json → Members
args_json none = end_members
args_json (some j) = member "args_json" (escape_json j) end_members

module _ (decode_args : String → Option Json) where
  unfoldable pub extract_action_type_and_value_from_action_view : ActionView → ActionKind × Json
  extract_action_type_and_value_from_action_view create_account =
      (create_account_kind, object end_members)
  extract_action_type_and_value_from_action_view (deploy_contract code) =
      (deploy_contract_kind, field "code_sha256" (text (hex_bytes code)))
  extract_action_type_and_value_from_action_view (call_function method_name args gas deposit) = (
    function_call_kind,
    object (
        member "method_name" (text (escape_default method_name)) (
          member "args_base64" (text args) (
            member "gas" (number (integer gas))
              (member "deposit" (text (decimal deposit)) (args_json (decode_args args)))))),
  )
  extract_action_type_and_value_from_action_view (transfer deposit) =
      (transfer_kind, field "deposit" (text (decimal deposit)))
  extract_action_type_and_value_from_action_view (stake amount public_key) = (
    stake_kind,
    object (
        member "stake" (text (decimal amount)) (member "public_key" (text public_key) end_members)),
  )
  extract_action_type_and_value_from_action_view (add_key public_key access_key) = (
    add_key_kind,
    object (
        member "public_key" (text public_key)
          (member "access_key" (access_key_json access_key) end_members)),
  )
  extract_action_type_and_value_from_action_view (delete_key public_key) =
      (delete_key_kind, field "public_key" (text public_key))
  extract_action_type_and_value_from_action_view (delete_account beneficiary_id) =
      (delete_account_kind, field "beneficiary_id" (text beneficiary_id))
