-- ===== src/Stream.antt =====
-- `listen_blocks` of src/main.rs: the stream of messages, cut off after a number of blocks if one is
-- given, of which at most `concurrency` are handled at a time (`buffer_unordered`), and whose results
-- are taken in the order in which they come. Waiting, logging and the shutdown are left out.
pub mod Invariant
pub mod Safe
mod Tests
use near_indexer_for_explore.Base.{
  ℕ, ◌<◌, Bool, true, false, Option, none, some, List, [], ◌∷◌, take, length, String-eq, pair-eq,
}
use near_indexer_for_explore.Tables.{Key, Row, texts-eq, key}
use near_indexer_for_explore.Database.{Table}
use near_indexer_for_explore.Process.{Process, done, failed, panicked, after, both, Step}
use near_indexer_for_explore.Message.{Environment, StreamerMessage, Task, handle_message}

-- The `take` on the stream.
abbrev pub up_to : Option ℕ → List StreamerMessage → List StreamerMessage
up_to none stream = stream
up_to (some stop_after_n_blocks) stream = take stop_after_n_blocks stream

module _ (E : Environment) where
  -- A message with the process that handles it.
  abbrev pub Handler : Type 0
  Handler = StreamerMessage × Task E

  -- The next result that is ready, and whether it is `Ok(())`.
  pub data Ready : List Handler → StreamerMessage → Bool → List Handler → Type 0 where
    succeeded : {m : StreamerMessage} {hs : List Handler} → Ready ((m, done) ∷ hs) m true hs
    gave_error : {m : StreamerMessage} {hs : List Handler} → Ready ((m, failed) ∷ hs) m false hs
    later :
        {h : Handler} {m : StreamerMessage} {b : Bool} {hs gs : List Handler}
        → Ready hs m b gs
        → Ready (h ∷ hs) m b (h ∷ gs)

  module _ (T : Table key) where
    open T use {Tab}
    open (E.receipts_cache) use {Cache}

    -- The messages that are not yet taken from the stream, those that are handled now, and those that
    -- were handled, with whether the result was `Ok(())`.
    pub record Listener : Type 0 where
      pub stream : List StreamerMessage
      pub handlers : List Handler
      pub handled : List (StreamerMessage × Bool)
      pub tables : Tab
      pub cache : Cache

    -- A step of one of the handlers.
    pub data Advance : List Handler → Tab → Cache → List Handler → Tab → Cache → Type 0 where
      this :
          {m : StreamerMessage} {p p' : Task E} {hs : List Handler} {t t' : Tab} {c c' : Cache}
          → Step T p t c p' t' c'
          → Advance ((m, p) ∷ hs) t c ((m, p') ∷ hs) t' c'
      another :
          {h : Handler} {hs gs : List Handler} {t t' : Tab} {c c' : Cache}
          → Advance hs t c gs t' c'
          → Advance (h ∷ hs) t c (h ∷ gs) t' c'

    -- A panic in a process unwinds it.
    pub data Panics : Task E → Type 0 where
      here : Panics panicked
      in_first : {p q : Task E} → Panics p → Panics (after p q)
      in_left : {p q : Task E} → Panics p → Panics (both p q)
      in_right : {p q : Task E} → Panics q → Panics (both p q)

    pub data AnyPanics : List Handler → Type 0 where
      of_this :
          {m : StreamerMessage} {p : Task E} {hs : List Handler}
          → Panics p
          → AnyPanics ((m, p) ∷ hs)
      of_another : {h : Handler} {hs : List Handler} → AnyPanics hs → AnyPanics (h ∷ hs)

    -- A handler starts where there is room for it, which is what `buffer_unordered` documents; a handler makes a step; or the loop takes a
    -- result, whatever it is, and goes on. The panic of a handler unwinds the loop with all that it
    -- handles and is still to handle.
    pub data StreamStep (strict_mode : Bool) (concurrency : ℕ) : Listener → Listener → Type 0 where
      start :
          {m : StreamerMessage} {ms : List StreamerMessage} {hs : List Handler}
          {past : List (StreamerMessage × Bool)} {t : Tab} {c : Cache}
          → length hs < concurrency
          → StreamStep strict_mode concurrency
              (record { stream = m ∷ ms; handlers = hs; handled = past; tables = t; cache = c })
              (record {
                stream = ms;
                handlers = (m, handle_message E strict_mode m) ∷ hs;
                handled = past;
                tables = t;
                cache = c;
              })
      advance :
          {ms : List StreamerMessage} {hs gs : List Handler} {past : List (StreamerMessage × Bool)}
          {t t' : Tab} {c c' : Cache}
          → Advance hs t c gs t' c'
          → StreamStep strict_mode concurrency
              (record { stream = ms; handlers = hs; handled = past; tables = t; cache = c })
              (record { stream = ms; handlers = gs; handled = past; tables = t'; cache = c' })
      take_result :
          {ms : List StreamerMessage} {hs gs : List Handler} {past : List (StreamerMessage × Bool)}
          {m : StreamerMessage} {b : Bool} {t : Tab} {c : Cache}
          → Ready hs m b gs
          → StreamStep strict_mode concurrency
              (record { stream = ms; handlers = hs; handled = past; tables = t; cache = c })
              (record {
                stream = ms;
                handlers = gs;
                handled = (m, b) ∷ past;
                tables = t;
                cache = c;
              })
      unwind :
          {ms : List StreamerMessage} {hs : List Handler} {past : List (StreamerMessage × Bool)}
          {t : Tab} {c : Cache}
          → AnyPanics hs
          → StreamStep strict_mode concurrency
              (record { stream = ms; handlers = hs; handled = past; tables = t; cache = c })
              (record { stream = []; handlers = []; handled = past; tables = t; cache = c })

    -- The listener when it starts, and every state that it may come to.
    abbrev pub listen_blocks : Option ℕ → List StreamerMessage → Tab → Cache → Listener
    listen_blocks stop_after_number_of_blocks stream t c = record {
      stream = up_to stop_after_number_of_blocks stream;
      handlers = [];
      handled = [];
      tables = t;
      cache = c;
    }

    pub data Reach (strict_mode : Bool) (concurrency : ℕ) (s : Listener) : Listener → Type 0 where
      at_start : Reach strict_mode concurrency s s
      step :
          {u v : Listener}
          → Reach strict_mode concurrency s u
          → StreamStep strict_mode concurrency u v
          → Reach strict_mode concurrency s v
