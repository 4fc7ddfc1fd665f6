-- ===== src/Process/Progress.antt =====
-- Steps of a process on its own.
use near_indexer_for_explore.Base.{Eq}
use near_indexer_for_explore.Database.{Table}
use near_indexer_for_explore.Process.Present.{Present, Keeps, Step-Present, Step-Keeps}
use near_indexer_for_explore.Process.{Process, Step}

module _ {K R C : Type 0} ⦃e : Eq K⦄ {key : R → K} (T : Table key) where
  open T use {Tab}

  -- Steps of a process on its own.
  pub data Steps : Process K R C → Tab → C → Process K R C → Tab → C → Type 0 where
    ended : {p : Process K R C} {t : Tab} {c : C} → Steps p t c p t c
    then_steps :
        {p q r : Process K R C} {t u v : Tab} {c d f : C}
        → Step T p t c q u d
        → Steps q u d r v f
        → Steps p t c r v f

  -- Steps of a process that changes no key keep the rows that are there.
  pub Steps-Present :
      {p q : Process K R C} {t u : Tab} {c d : C} (k : K)
      → Steps p t c q u d
      → Keeps key p
      → Present T t k
      → Present T u k
  Steps-Present k ended g h = h
  Steps-Present k (then_steps s more) g h =
      Steps-Present k more (Step-Keeps T s g) (Step-Present T k s g h)
