-- ===== src/Database/Concurrent.antt =====
-- Futures that run concurrently, with statements that are retried, against running them one after
-- the other; statements that commute, and statements that may be repeated.
use near_indexer_for_explore.Base.{Eq, ◌≡◌, refl, ap, sym, ◌∙◌, Option, List, [], ◌∷◌, All, All-map}
use near_indexer_for_explore.Database.{Statement, Future, KeepsKey, effect, Table}

-- The next statement of one of the futures.
pub data Advance {K R : Type 0}
    : List (Future K R) → Statement K R → List (Future K R) → Type 0 where
  here :
      {s : Statement K R} {f : Future K R} {fs : List (Future K R)}
      → Advance ((s ∷ f) ∷ fs) s (f ∷ fs)
  there :
      {s : Statement K R} {f : Future K R} {fs gs : List (Future K R)}
      → Advance fs s gs
      → Advance (f ∷ fs) s (f ∷ gs)

module _ {K R : Type 0} ⦃e : Eq K⦄ {key : R → K} (T : Table key) where
  open T use {Tab, row, run, row-run}

  -- Attempts at the next statements, in any order of the futures. An attempt may be executed
  -- and its reply lost, so that it is made again; one that is refused changes nothing.
  pub data Run : List (Future K R) → Tab → List (Future K R) → Tab → Type 0 where
    stop : {fs : List (Future K R)} {t : Tab} → Run fs t fs t
    replied :
        {fs gs hs : List (Future K R)} {s : Statement K R} {t u : Tab}
        → Advance fs s gs
        → Run gs (run s t) hs u
        → Run fs t hs u
    reply_lost :
        {fs gs hs : List (Future K R)} {s : Statement K R} {t u : Tab}
        → Advance fs s gs
        → Run fs (run s t) hs u
        → Run fs t hs u

module _ {K R : Type 0} ⦃e : Eq K⦄ (key : R → K) (k : K) where
  -- The futures one after the other.
  abbrev pub apply_future : Future K R → Option R → Option R
  apply_future [] r = r
  apply_future (s ∷ f) r = apply_future f (effect key s k r)

  abbrev pub apply_all : List (Future K R) → Option R → Option R
  apply_all [] r = r
  apply_all (f ∷ fs) r = apply_all fs (apply_future f r)

  abbrev pub Commute : Statement K R → Statement K R → Type 0
  Commute s u =
      (r : Option R) → effect key u k (effect key s k r) ≡ effect key s k (effect key u k r)

  -- Every statement of each later future commutes with every statement of each earlier one.
  abbrev pub Commuting : List (Future K R) → Type 0
  Commuting [] = Unit
  Commuting (f ∷ fs) = All (λ g. All (λ s. All (Commute s) f) g) fs × Commuting fs

  abbrev pub Repeatable : Statement K R → Type 0
  Repeatable s = (r : Option R) → effect key s k (effect key s k r) ≡ effect key s k r

  -- A statement that never changes the row with the key.
  abbrev pub Idle : Statement K R → Type 0
  Idle s = (r : Option R) → effect key s k r ≡ r

  pub Commute-Idle_left : (f g : Future K R) → All Idle f → All (λ s. All (Commute s) f) g
  Commute-Idle_left f [] i = tt
  Commute-Idle_left f (s ∷ g) i = (
    All-map Idle (Commute s) f (λ u h r. h (effect key s k r) ∙ ap (effect key s k) (sym (h r))) i,
    Commute-Idle_left f g i,
  )

  All-Commute : (s : Statement K R) (f : Future K R) → Idle s → All (Commute s) f
  All-Commute s [] i = tt
  All-Commute s (u ∷ f) i =
      ((λ r. ap (effect key u k) (i r) ∙ sym (i (effect key u k r))), All-Commute s f i)

  pub Commute-Idle_right : (f g : Future K R) → All Idle g → All (λ s. All (Commute s) f) g
  Commute-Idle_right f g i = All-map Idle (λ s. All (Commute s) f) g (λ s. All-Commute s f) i

  abbrev pub AllStatements : (Statement K R → Type 0) → List (Future K R) → Type 0
  AllStatements P = All (All P)

  effect-apply_future :
      (s : Statement K R) (f : Future K R) (r : Option R)
      → All (Commute s) f
      → effect key s k (apply_future f r) ≡ apply_future f (effect key s k r)
  effect-apply_future s [] r c = refl
  effect-apply_future s (u ∷ f) r (c, cs) =
      effect-apply_future s f (effect key u k r) cs ∙ ap (apply_future f) (sym (c r))

  of_Advance :
      {fs gs : List (Future K R)} {s : Statement K R} (P : Statement K R → Type 0)
      → Advance fs s gs
      → AllStatements P fs
      → P s × AllStatements P gs
  of_Advance P here ((p, ps), rest) = (p, (ps, rest))
  of_Advance P (there a) (p, rest) = let (q, qs) = of_Advance P a rest in (q, (p, qs))

  Commuting-Advance :
      {fs gs : List (Future K R)} {s : Statement K R}
      → Advance fs s gs
      → Commuting fs
      → Commuting gs
  Commuting-Advance (here {s = s} {f = f} {fs = fs}) (c, rest) = (
    All-map _ _ fs
        (λ g. All-map (λ u. All (Commute u) (s ∷ f)) (λ u. All (Commute u) f) g (λ u p. p.1)) c,
    rest,
  )
  Commuting-Advance (there {f = f} a) (c, rest) =
      ((of_Advance (λ s. All (Commute s) f) a c).1, Commuting-Advance a rest)

  -- Where statements commute, the statement that is run may as well have been the first.
  apply_all-Advance :
      {fs gs : List (Future K R)} {s : Statement K R} (r : Option R)
      → Advance fs s gs
      → Commuting fs
      → apply_all fs r ≡ apply_all gs (effect key s k r)
  apply_all-Advance r here c = refl
  apply_all-Advance r (there {f = f} {gs = gs} a) (c, rest) =
      apply_all-Advance (apply_future f r) a rest
      ∙ ap (apply_all gs) (effect-apply_future _ f r (of_Advance (λ s. All (Commute s) f) a c).0)

  -- A statement whose reply is lost leaves what the futures still do to the row unchanged.
  apply_all-lost :
      {fs gs : List (Future K R)} {s : Statement K R} (r : Option R)
      → Advance fs s gs
      → Commuting fs
      → Repeatable s
      → apply_all fs (effect key s k r) ≡ apply_all fs r
  apply_all-lost {fs} {gs} {s} r a c same =
      apply_all-Advance (effect key s k r) a c
      ∙ ap (apply_all gs) (same r)
      ∙ sym (apply_all-Advance r a c)

module _ {K R : Type 0} ⦃e : Eq K⦄ {key : R → K} (T : Table key) (k : K) where
  open T use {Tab, row, run, row-run}

  -- However attempts interleave and replies are lost, what is still to be done to a row after
  -- the attempts, done to the row that they left, is what was to be done before them.
  pub apply_all-Run :
      {fs gs : List (Future K R)} {t u : Tab}
      → Run T fs t gs u
      → Commuting key k fs
      → AllStatements key k (Repeatable key k) fs
      → AllStatements key k (KeepsKey key) fs
      → apply_all key k gs (row u k) ≡ apply_all key k fs (row t k)
  apply_all-Run stop c i kk = refl
  apply_all-Run {t = t} (replied {fs = fs} {gs = gs} {hs = hs} {s = s} {u = u} a r) c i kk =
      let (ks, kks) = of_Advance key k (KeepsKey key) a kk in
      apply_all-Run r (Commuting-Advance key k a c) (of_Advance key k (Repeatable key k) a i).1 kks
      ∙ ap (apply_all key k gs) (row-run s t k ks)
      ∙ sym (apply_all-Advance key k (row t k) a c)
  apply_all-Run {t = t} (reply_lost {fs = fs} {gs = gs} {hs = hs} {s = s} {u = u} a r) c i kk =
      let (ks, kks) = of_Advance key k (KeepsKey key) a kk in
      apply_all-Run r c i kk
      ∙ ap (apply_all key k fs) (row-run s t k ks)
      ∙ apply_all-lost key k (row t k) a c (of_Advance key k (Repeatable key k) a i).0
