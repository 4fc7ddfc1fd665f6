-- ===== src/Serializers/Escaped.antt =====
-- What `escape_json` does to the texts and the names of a document, and what reaches the
-- database of an action.
use near_indexer_for_explore.Base.{
  String, Option, none, some, List, [], ◌∷◌, ◌++◌, map, ◌≡◌, refl, arith,
}
use near_indexer_for_explore.Chain.{
  AccessKeyPermissionView, function_call, full_access, ActionView, create_account, deploy_contract,
  call_function, transfer, stake, add_key, delete_key, delete_account,
}
use near_indexer_for_explore.Text.{escape_default}
use near_indexer_for_explore.Text.Printable.{
  Printable, escape_default-Printable, decimal-Printable, hex_bytes-Printable,
}
use near_indexer_for_explore.Serializers.{
  Json, null, boolean, number, text, array, object, Values, end_values, value, Members, end_members,
  member, escape_json, escape_values, escape_members, texts, args_json, permission_json,
  extract_action_type_and_value_from_action_view,
}

-- Every text value of a document, names of members left out, is printable.
unfoldable mutual
  pub PrintableJson : Json → Type 0
  PrintableJson (object members) = PrintableMembers members
  PrintableJson (array values) = PrintableValues values
  PrintableJson (text s) = Printable s
  PrintableJson null = Unit
  PrintableJson (boolean b) = Unit
  PrintableJson (number n) = Unit

  pub PrintableValues : Values → Type 0
  PrintableValues end_values = Unit
  PrintableValues (value j vs) = PrintableJson j × PrintableValues vs

  pub PrintableMembers : Members → Type 0
  PrintableMembers end_members = Unit
  PrintableMembers (member k j ms) = PrintableJson j × PrintableMembers ms

-- The names of the members of all objects of a document, in order.
unfoldable mutual
  pub keys : Json → List String
  keys (object members) = keys_of_members members
  keys (array values) = keys_of_values values
  keys (text s) = []
  keys null = []
  keys (boolean b) = []
  keys (number n) = []

  pub keys_of_values : Values → List String
  keys_of_values end_values = []
  keys_of_values (value j vs) = keys j ++ keys_of_values vs

  pub keys_of_members : Members → List String
  keys_of_members end_members = []
  keys_of_members (member k j ms) = k ∷ (keys j ++ keys_of_members ms)

mutual
  unfolding escape_json PrintableJson

  escape_json_printable : (j : Json) → PrintableJson (escape_json j)
  escape_json_printable (object members) = escape_members_printable members
  escape_json_printable (array values) = escape_values_printable values
  escape_json_printable (text s) = escape_default-Printable s
  escape_json_printable null = tt
  escape_json_printable (boolean b) = tt
  escape_json_printable (number n) = tt

  escape_values_printable : (vs : Values) → PrintableValues (escape_values vs)
  escape_values_printable end_values = tt
  escape_values_printable (value j vs) = (escape_json_printable j, escape_values_printable vs)

  escape_members_printable : (ms : Members) → PrintableMembers (escape_members ms)
  escape_members_printable end_members = tt
  escape_members_printable (member k j ms) = (escape_json_printable j, escape_members_printable ms)

mutual
  unfolding escape_json keys

  keys_kept : (j : Json) → keys (escape_json j) ≡ keys j
  keys_kept (object members) = keys_of_members_kept members
  keys_kept (array values) = keys_of_values_kept values
  keys_kept (text s) = refl
  keys_kept null = refl
  keys_kept (boolean b) = refl
  keys_kept (number n) = refl

  keys_of_values_kept : (vs : Values) → keys_of_values (escape_values vs) ≡ keys_of_values vs
  keys_of_values_kept end_values = refl
  keys_of_values_kept (value j vs) = rw (keys_kept j, keys_of_values_kept vs) refl

  keys_of_members_kept : (ms : Members) → keys_of_members (escape_members ms) ≡ keys_of_members ms
  keys_of_members_kept end_members = refl
  keys_of_members_kept (member k j ms) = rw (keys_kept j, keys_of_members_kept ms) refl

-- `escape_json` makes every text value of a document printable, at any depth, and leaves all
-- names of members as they are, so that a name with a null character keeps it.
pub escape_json-texts : (j : Json) → PrintableJson (escape_json j) × (keys (escape_json j) ≡ keys j)
escape_json-texts j = (escape_json_printable j, keys_kept j)

-- The texts of an action that are stored as they come are printable.
abbrev pub RawPrintable : ActionView → Type 0
RawPrintable (call_function method_name args gas deposit) = Printable args
RawPrintable (stake amount public_key) = Printable public_key
RawPrintable (add_key public_key access_key) = Printable public_key
RawPrintable (delete_key public_key) = Printable public_key
RawPrintable (delete_account beneficiary_id) = Printable beneficiary_id
RawPrintable _ = Unit

texts_printable : (ss : List String) → PrintableValues (texts (map escape_default ss))
unfolding PrintableJson
texts_printable [] = tt
texts_printable (s ∷ ss) = (escape_default-Printable s, texts_printable ss)

permission_printable : (p : AccessKeyPermissionView) → PrintableJson (permission_json p)
unfolding PrintableJson
permission_printable full_access = omega arith
permission_printable (function_call none receiver_id method_names) = (
  omega arith,
  ((tt, (escape_default-Printable receiver_id, (texts_printable method_names, tt))), tt),
)
permission_printable (function_call (some n) receiver_id method_names) = (
  omega arith,
  (
    (
      decimal-Printable n,
      (escape_default-Printable receiver_id, (texts_printable method_names, tt)),
    ),
    tt,
  ),
)

args_printable : (o : Option Json) → PrintableMembers (args_json o)
unfolding PrintableJson
args_printable none = tt
args_printable (some j) = (escape_json_printable j, tt)

-- Whatever the arguments of a call decode to, all text values of the JSON that is stored for an
-- action are printable, if the texts are that the code takes over as they come: the base64 of the
-- arguments, public keys and the beneficiary.
pub extract_action_type_and_value-Printable :
    (decode_args : String → Option Json) (a : ActionView)
    → RawPrintable a
    → PrintableJson (extract_action_type_and_value_from_action_view decode_args a).1
unfolding PrintableJson extract_action_type_and_value_from_action_view
extract_action_type_and_value-Printable decode_args create_account h = tt
extract_action_type_and_value-Printable decode_args (deploy_contract code) h =
    (hex_bytes-Printable code, tt)
extract_action_type_and_value-Printable decode_args (call_function name args gas deposit) h = (
  escape_default-Printable name,
  (h, (tt, (decimal-Printable deposit, args_printable (decode_args args)))),
)
extract_action_type_and_value-Printable decode_args (transfer deposit) h =
    (decimal-Printable deposit, tt)
extract_action_type_and_value-Printable decode_args (stake amount public_key) h =
    (decimal-Printable amount, (h, tt))
extract_action_type_and_value-Printable decode_args (add_key public_key access_key) h =
    (h, ((tt, (permission_printable access_key.permission, tt)), tt))
extract_action_type_and_value-Printable decode_args (delete_key public_key) h = (h, tt)
extract_action_type_and_value-Printable decode_args (delete_account beneficiary_id) h = (h, tt)
