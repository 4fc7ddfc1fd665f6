-- ===== src/Stream/Safe.antt =====
-- What `listen_blocks` promises of the tables.
use near_indexer_for_explore.Base.{
  ℕ, zero, suc, ◌≡◌, refl, Bool, true, Option, some, List, [], ◌∷◌, All, get_elem?, String-eq,
  pair-eq, some_inj,
}
use mathlib.Core.Path.{subst}
use near_indexer_for_explore.Tables.{Key, Row, texts-eq, key, parents}
use near_indexer_for_explore.Database.{Table}
use near_indexer_for_explore.Process.Present.{Present}
use near_indexer_for_explore.Process.References.{References}
use near_indexer_for_explore.Message.{Environment, StreamerMessage}
use near_indexer_for_explore.Message.Complete.{message_keys}
use near_indexer_for_explore.Stream.{Listener, listen_blocks, Reach}
use near_indexer_for_explore.Stream.Invariant.{IsStored, Reach-Inv}

All-get :
    {A : Type 0} (P : A → Type 0) (xs : List A) (i : ℕ) (x : A)
    → All P xs
    → get_elem? xs i ≡ some x
    → P x
All-get P [] i x h e = absurd cc
All-get P (y ∷ ys) zero x (h, hs) e = subst P (some_inj e) h
All-get P (y ∷ ys) (suc i) x (h, hs) e = All-get P ys i x hs e

module _ (E : Environment) (T : Table key) (strict_mode : Bool) (concurrency : ℕ)
    (stop_after : Option ℕ) (stream : List StreamerMessage) where
  open T use {Tab, row}
  open (E.receipts_cache) use {Cache}

  abbrev Reachable : Tab → Cache → Listener E T → Type 0
  Reachable t c s = Reach E T strict_mode concurrency (listen_blocks E T stop_after stream t c) s

  -- However the handlers interleave, attempts fail and answers get lost: once the result of a message
  -- was taken as `Ok(())`, the tables have a row for its block, each of its chunks, each of their
  -- transactions under its own hash, each outcome and each receipt that an outcome has produced, and they
  -- keep it.
  pub listen_blocks-Stored :
      (t : Tab) (c : Cache) (s : Listener E T) (m : StreamerMessage) (i : ℕ)
      → Reachable t c s
      → get_elem? s.handled i ≡ some (m, true)
      → All (Present T s.tables) (message_keys m)
  listen_blocks-Stored t c s m i r taken =
      let inv = Reach-Inv E T strict_mode concurrency stop_after stream t c r in
      All-get (IsStored E T s.tables) s.handled i (m, true) inv.stored taken refl

  -- Where the rows that the rows of the tables refer to are there at the start, they are in every state
  -- that the listener comes to: the block of a chunk, the block and the chunk of a transaction and
  -- of a receipt, the transaction of an action, the receipt of its actions and data, and the block
  -- of a change of an account.
  pub listen_blocks-References :
      (t : Tab) (c : Cache) (s : Listener E T) (k : Key) (r : Row)
      → References parents T t
      → Reachable t c s
      → row s.tables k ≡ some r
      → All (Present T s.tables) (parents r)
  unfolding References
  listen_blocks-References t c s k r h reach there =
      let inv = Reach-Inv E T strict_mode concurrency stop_after stream t c reach in
      inv.refer h k r there
