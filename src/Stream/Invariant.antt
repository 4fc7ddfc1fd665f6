-- ===== src/Stream/Invariant.antt =====
-- What holds of the listener in every state that it may come to: the rows of the messages and
-- the references between rows.
use near_indexer_for_explore.Base.{
  ℕ, ◌≡◌, Bool, true, Option, List, All, All-map, inl, inr, String-eq, pair-eq,
}
use near_indexer_for_explore.Tables.{Key, texts-eq, key, parents}
use near_indexer_for_explore.Database.{Table}
use near_indexer_for_explore.Process.{done, Step}
use near_indexer_for_explore.Process.Present.{
  Present, Establishes, Keeps, Owes, Step-Present, Step-Keeps, Owes-Step,
}
use near_indexer_for_explore.Process.References.{
  Guarded, Guarded-know, References, Step-References, Step-Guarded,
}
use near_indexer_for_explore.Message.{Environment, StreamerMessage, Task, handle_message}
use near_indexer_for_explore.Message.Keeps.{handle_message-Keeps}
use near_indexer_for_explore.Message.Guarded.{handle_message-Guarded}
use near_indexer_for_explore.Message.Complete.{message_keys, handle_message-Establishes}
use near_indexer_for_explore.Stream.{
  Handler, Ready, succeeded, gave_error, later, Listener, Advance, this, another, StreamStep, start,
  advance, take_result, unwind, listen_blocks, Reach, at_start, step,
}

module _ (E : Environment) (T : Table key) where
  open T use {Tab}
  open (E.receipts_cache) use {Cache}

  -- A handler that changes no key, inserts no row before those that it refers to, and whose message
  -- is stored or going to be.
  pub record IsWell (t : Tab) (h : Handler E) : Type 0 where
    pub keeps : Keeps key h.1
    pub guarded : Guarded key parents (Present T t) h.1
    pub owes : All (λ k. Owes T t k h.1) (message_keys h.0)

  -- If the result of the message was `Ok(())`, its rows are there.
  abbrev pub IsStored : Tab → StreamerMessage × Bool → Type 0
  IsStored t (m, ok) = ok ≡ true → All (Present T t) (message_keys m)

  pub record Inv (t0 : Tab) (s : Listener E T) : Type 0 where
    pub well : All (IsWell s.tables) s.handlers
    pub stored : All (IsStored s.tables) s.handled
    pub refer : References parents T t0 → References parents T s.tables

  abbrev Kept : Tab → Tab → Type 0
  Kept t t' = (k : Key) → Present T t k → Present T t' k

  Kept-Owes : (t t' : Tab) (p : Task E) → Kept t t' → (k : Key) → Owes T t k p → Owes T t' k p
  Kept-Owes t t' p h k (inl there) = inl (h k there)
  Kept-Owes t t' p h k (inr next) = inr next

  IsWell-kept : (t t' : Tab) → Kept t t' → (h : Handler E) → IsWell t h → IsWell t' h
  IsWell-kept t t' kept (m, p) w = record {
    keeps = w.keeps;
    guarded = Guarded-know key parents p (Present T t) (Present T t') kept w.guarded;
    owes = All-map _ _ (message_keys m) (Kept-Owes t t' p kept) w.owes;
  }

  IsStored-kept :
      (t t' : Tab) → Kept t t' → (r : StreamerMessage × Bool) → IsStored t r → IsStored t' r
  IsStored-kept t t' kept (m, ok) h good =
      All-map (Present T t) (Present T t') (message_keys m) kept (h good)

  IsWell-Step :
      {t t' : Tab} {c c' : Cache} (m : StreamerMessage) (p p' : Task E)
      → Step T p t c p' t' c'
      → IsWell t (m, p)
      → IsWell t' (m, p')
  IsWell-Step {t} {t'} m p p' s w = record {
    keeps = Step-Keeps T s w.keeps;
    guarded = Step-Guarded parents T s w.keeps w.guarded;
    owes =
        All-map (λ k. Owes T t k p) (λ k. Owes T t' k p') (message_keys m)
          (λ k. Owes-Step T k s w.keeps) w.owes;
  }

  Advance-kept :
      {hs gs : List (Handler E)} {t t' : Tab} {c c' : Cache}
      → Advance E T hs t c gs t' c'
      → All (IsWell t) hs
      → Kept t t'
  Advance-kept (this s) (w, ws) k h = Step-Present T k s w.keeps h
  Advance-kept (another a) (w, ws) k h = Advance-kept a ws k h

  Advance-IsWell :
      {hs gs : List (Handler E)} {t t' : Tab} {c c' : Cache}
      → Advance E T hs t c gs t' c'
      → All (IsWell t) hs
      → All (IsWell t') gs
  Advance-IsWell {t = t} {t' = t'} (this {m = m} {p = p} {p' = p'} {hs = hs} s) (w, ws) = (
    IsWell-Step m p p' s w,
    All-map (IsWell t) (IsWell t') hs (IsWell-kept t t' (λ k. Step-Present T k s w.keeps)) ws,
  )
  Advance-IsWell {t = t} {t' = t'} (another {h = h} a) (w, ws) =
      (IsWell-kept t t' (Advance-kept a ws) h w, Advance-IsWell a ws)

  Advance-References :
      {hs gs : List (Handler E)} {t t' : Tab} {c c' : Cache}
      → Advance E T hs t c gs t' c'
      → All (IsWell t) hs
      → References parents T t
      → References parents T t'
  Advance-References (this s) (w, ws) h = Step-References parents T s w.keeps w.guarded h
  Advance-References (another a) (w, ws) h = Advance-References a ws h

  pay : (t : Tab) (k : Key) → Owes {C = Cache} T t k done → Present T t k
  unfolding Establishes
  pay t k (inl there) = there
  pay t k (inr never) = absurd never

  Ready-IsStored :
      {hs gs : List (Handler E)} {m : StreamerMessage} {b : Bool} (t : Tab)
      → Ready E hs m b gs
      → All (IsWell t) hs
      → IsStored t (m, b)
  Ready-IsStored t (succeeded {m = m}) (w, ws) good =
      All-map (λ k. Owes {C = Cache} T t k done) (Present T t) (message_keys m) (pay t) w.owes
  Ready-IsStored t gave_error ws good = absurd cc
  Ready-IsStored t (later r) (w, ws) good = Ready-IsStored t r ws good

  Ready-IsWell :
      {hs gs : List (Handler E)} {m : StreamerMessage} {b : Bool} (t : Tab)
      → Ready E hs m b gs
      → All (IsWell t) hs
      → All (IsWell t) gs
  Ready-IsWell t succeeded (w, ws) = ws
  Ready-IsWell t gave_error (w, ws) = ws
  Ready-IsWell t (later r) (w, ws) = (w, Ready-IsWell t r ws)

  fresh-IsWell :
      (strict_mode : Bool) (t : Tab) (m : StreamerMessage)
      → IsWell t (m, handle_message E strict_mode m)
  fresh-IsWell strict_mode t m = record {
    keeps = handle_message-Keeps E strict_mode m;
    guarded = handle_message-Guarded E (Present T t) strict_mode m;
    owes = All-map _ _ (message_keys m) (λ k. inr) (handle_message-Establishes E strict_mode m);
  }

  Inv-step :
      {strict_mode : Bool} {concurrency : ℕ} {t0 : Tab} {s u : Listener E T}
      → StreamStep E T strict_mode concurrency s u
      → Inv t0 s
      → Inv t0 u
  Inv-step {strict_mode = strict_mode} (start {m = m} {t = t} room) i = record {
    well = (fresh-IsWell strict_mode t m, i.well);
    stored = i.stored;
    refer = i.refer;
  }
  Inv-step (advance {past = past} {t = t} {t' = t'} a) i = record {
    well = Advance-IsWell a i.well;
    stored =
        All-map (IsStored t) (IsStored t') past (IsStored-kept t t' (Advance-kept a i.well))
          i.stored;
    refer = λ h. Advance-References a i.well (i.refer h);
  }
  Inv-step (take_result {t = t} r) i = record {
    well = Ready-IsWell t r i.well;
    stored = (Ready-IsStored t r i.well, i.stored);
    refer = i.refer;
  }
  Inv-step (unwind panic) i = record { well = tt; stored = i.stored; refer = i.refer }

  module _ (strict_mode : Bool) (concurrency : ℕ) (stop_after : Option ℕ)
      (stream : List StreamerMessage) (t : Tab) (c : Cache) where
    pub Reach-Inv :
        {s : Listener E T}
        → Reach E T strict_mode concurrency (listen_blocks E T stop_after stream t c) s
        → Inv t s
    Reach-Inv at_start = record { well = tt; stored = tt; refer = λ h. h }
    Reach-Inv (step r s) = Inv-step s (Reach-Inv r)
