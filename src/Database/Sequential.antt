-- ===== src/Database/Sequential.antt =====
-- Runs that take one future after the other, in any order that is wanted.
use near_indexer_for_explore.Base.{Eq, ◌≡◌, refl, ap, ◌∙◌, List, [], ◌∷◌, All}
use near_indexer_for_explore.Database.{Future, KeepsKey, Table}
use near_indexer_for_explore.Database.Concurrent.{
  here, there, Run, stop, replied, reply_lost, apply_future,
}

module _ {K R : Type 0} ⦃e : Eq K⦄ {key : R → K} (T : Table key) where
  open T use {Tab, row, run, row-run}

  abbrev pub run_all : Future K R → Tab → Tab
  run_all [] t = t
  run_all (s ∷ f) t = run_all f (run s t)

  pub row-run_all :
      (k : K) (f : Future K R) (t : Tab)
      → All (KeepsKey key) f
      → row (run_all f t) k ≡ apply_future key k f (row t k)
  row-run_all k [] t h = refl
  row-run_all k (s ∷ f) t (h, hs) =
      row-run_all k f (run s t) hs ∙ ap (apply_future key k f) (row-run s t k h)

  pub run_first :
      (f : Future K R) (fs : List (Future K R)) (t : Tab) → Run T (f ∷ fs) t ([] ∷ fs) (run_all f t)
  run_first [] fs t = stop
  run_first (s ∷ f) fs t = replied here (run_first f fs (run s t))

  pub Run-trans :
      {fs gs hs : List (Future K R)} {t u v : Tab}
      → Run T fs t gs u
      → Run T gs u hs v
      → Run T fs t hs v
  Run-trans stop q = q
  Run-trans (replied a p) q = replied a (Run-trans p q)
  Run-trans (reply_lost a p) q = reply_lost a (Run-trans p q)

  pub Run-there :
      (f : Future K R) {fs gs : List (Future K R)} {t u : Tab}
      → Run T fs t gs u
      → Run T (f ∷ fs) t (f ∷ gs) u
  Run-there f stop = stop
  Run-there f (replied a p) = replied (there a) (Run-there f p)
  Run-there f (reply_lost a p) = reply_lost (there a) (Run-there f p)
