-- ===== src/Serializers/Tests.antt =====
-- A call whose arguments decode to an object, for the theorems on models/serializers.rs.
use near_indexer_for_explore.Base.{String, Option, some, ◌≡◌, arith}
use near_indexer_for_explore.Chain.{ActionView, call_function}
use near_indexer_for_explore.Serializers.{
  Json, text, escape_json, field, extract_action_type_and_value_from_action_view,
}
use near_indexer_for_explore.Serializers.Escaped.{
  PrintableJson, keys, escape_json-texts, extract_action_type_and_value-Printable,
}

abbrev null_everywhere : Json
null_everywhere = field "k\0" (text "v\0")

escape_json-texts_example :
    PrintableJson (escape_json null_everywhere)
    × (keys (escape_json null_everywhere) ≡ keys null_everywhere)
escape_json-texts_example = escape_json-texts null_everywhere

abbrev decode_any : String → Option Json
decode_any s = some null_everywhere

abbrev call : ActionView
call = call_function "mint" "e30=" 300 1

extract_action_type_and_value-Printable_example :
    PrintableJson (extract_action_type_and_value_from_action_view decode_any call).1
extract_action_type_and_value-Printable_example =
    extract_action_type_and_value-Printable decode_any call (omega arith)
