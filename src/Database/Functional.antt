-- ===== src/Database/Functional.antt =====
-- A table that is a function from keys to rows, with the effects of the statements as they are
-- documented: an instance of the interface.
use near_indexer_for_explore.Base.{Eq, refl, Option}
use near_indexer_for_explore.Database.{effect, Table}

abbrev pub function_table : {K R : Type 0} ⦃e : Eq K⦄ (key : R → K) → Table key
function_table {K} {R} key = record {
  Tab = K → Option R;
  row = λ t k. t k;
  run = λ s t k. effect key s k (t k);
  row-run = λ s t k h. refl;
}
