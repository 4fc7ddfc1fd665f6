-- ===== src/Message/Tests.antt =====
-- Batches of events of which one was written before, for the theorem on the inserts of events.
use near_indexer_for_explore.Base.{ℕ, refl, Option, none, List, [], ◌∷◌, All, String-eq, pair-eq}
use near_indexer_for_explore.Text.{decimal}
use near_indexer_for_explore.Database.{Table, insert_do_nothing}
use near_indexer_for_explore.Database.Functional.{function_table}
use near_indexer_for_explore.Assets.Rows.{mint}
use near_indexer_for_explore.Tables.{Key, Row, texts-eq, key, ft_event_row}
use near_indexer_for_explore.Process.{
  Process, Step, done, in_batches, insert_lost, insert_refused, duplicate,
}
use near_indexer_for_explore.Process.Progress.{Steps, ended, then_steps}
use near_indexer_for_explore.Process.Batches.{
  AllPresent, AllOrNone, AllApart, in_batches-AllPresent,
}

abbrev event : ℕ → Row
event i = ft_event_row (record {
  emitted_for_receipt_id = "r1";
  emitted_at_block_timestamp = 100;
  emitted_in_shard_id = 0;
  emitted_index_of_event_entry_in_shard = i;
  emitted_by_contract_account_id = "token";
  amount = "5";
  event_kind = mint;
  token_old_owner_account_id = "";
  token_new_owner_account_id = "bob";
  event_memo = "";
})

abbrev batches : List (List Row)
batches = (event 0 ∷ event 1 ∷ []) ∷ (event 2 ∷ []) ∷ []

abbrev tables : Table key
tables = function_table key

-- The first batch was written by an earlier run.
abbrev before : Key → Option Row
before = tables.run (insert_do_nothing (event 0 ∷ event 1 ∷ [])) (λ k. none)

apart : AllApart key batches
unfolding decimal
apart = (((refl, tt), tt), (tt, tt))

all_or_none : All (AllOrNone tables before) batches
unfolding decimal
all_or_none = ((λ there. (refl, (refl, tt))), ((λ there. absurd cc), tt))

infixr 5 ◌then◌
◌then◌ :
    {p q r : Process Key Row Unit} {t u v : Key → Option Row} {c d e : Unit}
    → Step tables p t c q u d
    → Steps tables q u d r v e
    → Steps tables p t c r v e
s then more = then_steps s more

-- The first batch is refused once and then a duplicate; the reply to the second is lost.
stored : (u : Key → Option Row) × Steps tables (in_batches batches) before tt done u tt
unfolding decimal
stored =
    (_, insert_refused then duplicate refl then insert_lost refl then duplicate refl then ended)

in_batches-AllPresent_example : All (AllPresent tables stored.0) batches
in_batches-AllPresent_example =
    in_batches-AllPresent tables Unit batches before stored.0 tt tt apart all_or_none stored.1
