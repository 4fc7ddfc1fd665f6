-- ===== src/Supply/Daily/Covered.antt =====
-- The days that the loop of aggregated/circulating_supply/mod.rs has gone through, and the rows that
-- it has stored for them.
use near_indexer_for_explore.Base.{
  ℕ, suc, ◌+◌, ◌*◌, ◌<◌, ◌≡◌, refl, sym, ap, ◌∙◌, String, Bool, true, false, Option, none, some,
  List, [], ◌∷◌, arith, eqb, eqb_iff, ◌==◌, String-eq, eq_iff, is_some, All, All-map, Bool-cases,
  inl, inr, none≢some, some_inj,
}
use mathlib.Core.Path.{subst}
use near_indexer_for_explore.Base.Words.{to_u64, to_u128, to_u64-same, bind-some}
use near_indexer_for_explore.Blocks.Latest.{
  Among, FirstDescending, get_latest_block_before_timestamp, get_latest_block_before_timestamp-row,
}
use near_indexer_for_explore.Supply.{
  Block, CirculatingSupply, ViewClient, sum_lockups, sum_balances, foundation_locked_account_ids,
  compute_circulating_supply_for_block,
}
use near_indexer_for_explore.Supply.Daily.{
  day, first_day, start_of_day, FailedInsert, insert_refused, insert_lost, Round,
  wait_for_loading_needed_blocks, has_hash, insert_supply, add_circulating_supply, find_supply,
  parse_supply, get_precomputed_circulating_supply_for_timestamp, collect,
  check_and_collect_daily_circulating_supply, Progress, next_day, run_round,
  run_circulating_supply_computation,
}

-- There is a row for a block with the timestamp.
abbrev pub HasTimestamp : ℕ → List CirculatingSupply → Type 0
HasTimestamp timestamp supplies = is_some (find_supply timestamp supplies) ≡ true

HasTimestamp-more :
    (timestamp : ℕ) (s : CirculatingSupply) (supplies : List CirculatingSupply)
    → HasTimestamp timestamp supplies
    → HasTimestamp timestamp (s ∷ supplies)
HasTimestamp-more timestamp s supplies h =
    elim (Bool-cases (eqb s.computed_at_block_timestamp timestamp)) [
      | inl hit ↦ rw hit refl
      | inr miss ↦ rw miss h
    ]

All-Among : {A : Type 0} (P : A → Type 0) (x : A) (xs : List A) → All P xs → Among x xs → P x
All-Among P x [] h a = elim a [ ]
All-Among P x (y ∷ xs) (hy, h) Among.here = hy
All-Among P x (y ∷ xs) (hy, h) (Among.there a) = All-Among P x xs h a

Among-all : {A : Type 0} (xs : List A) → All (λ x. Among x xs) xs
Among-all [] = tt
Among-all (x ∷ xs) = (Among.here, All-map _ _ xs (λ y a. Among.there a) (Among-all xs))

-- The supply is computed at the block.
abbrev ComputedAt : Block → CirculatingSupply → Type 0
ComputedAt block s =
    (s.computed_at_block_timestamp ≡ block.block_timestamp)
    × (s.computed_at_block_hash ≡ block.block_hash)

compute-ComputedAt :
    (view : ViewClient) (ids : List String) (block : Block) (s : CirculatingSupply)
    → compute_circulating_supply_for_block view ids block ≡ some s
    → ComputedAt block s
unfolding compute_circulating_supply_for_block
compute-ComputedAt view ids block s e =
    let (time, is_time, e1) = bind-some (to_u64 block.block_timestamp) _ s e in
    let (height, is_height, e2) = bind-some (to_u64 block.block_height) _ s e1 in
    let (supply, is_supply, e3) = bind-some (to_u128 block.total_supply) _ s e2 in
    let (lockups, are_lockups, e4) = bind-some (sum_lockups view time ids (0, 0)) _ s e3 in
    let (locked, is_locked, e5) =
      bind-some (sum_balances view foundation_locked_account_ids 0) _ s e4 in
    let same = some_inj e5 in
    (
      sym (ap (λ x. x.computed_at_block_timestamp) same)
          ∙ sym (to_u64-same block.block_timestamp time is_time),
      sym (ap (λ x. x.computed_at_block_hash) same),
    )

-- The hash of a block, its primary key, determines its timestamp.
module _ (time_of : String → ℕ) where
  abbrev pub IsTimed : Block → Type 0
  IsTimed b = b.block_timestamp ≡ time_of b.block_hash

  abbrev pub AreTimed : List CirculatingSupply → Type 0
  AreTimed = All (λ s. s.computed_at_block_timestamp ≡ time_of s.computed_at_block_hash)

  hash-HasTimestamp :
      (b : Block) (supplies : List CirculatingSupply)
      → IsTimed b
      → AreTimed supplies
      → has_hash b.block_hash supplies ≡ true
      → HasTimestamp b.block_timestamp supplies
  hash-HasTimestamp b [] timed h e = absurd cc
  hash-HasTimestamp b (s ∷ supplies) timed (time, h) e =
      elim (Bool-cases (s.computed_at_block_hash == b.block_hash)) [
        | inl hit ↦
            let same = (eq_iff s.computed_at_block_hash b.block_hash).0 hit in
            let at : s.computed_at_block_timestamp ≡ b.block_timestamp =
              time ∙ ap time_of same ∙ sym timed in
            rw ((eqb_iff s.computed_at_block_timestamp b.block_timestamp).1 at) refl
        | inr miss ↦
            HasTimestamp-more b.block_timestamp s supplies
              (hash-HasTimestamp b supplies timed h (rw miss at e))
      ]

  -- What the insert of a supply leaves.
  abbrev Inserted : Block → List CirculatingSupply → List CirculatingSupply → Type 0
  Inserted b old new =
      AreTimed new
      × HasTimestamp b.block_timestamp new
      × ((u : ℕ) → HasTimestamp u old → HasTimestamp u new)

  insert_supply-Inserted :
      (b : Block) (s : CirculatingSupply) (supplies : List CirculatingSupply)
      → IsTimed b
      → ComputedAt b s
      → AreTimed supplies
      → Inserted b supplies (insert_supply s supplies)
  insert_supply-Inserted b s supplies timed (time, hash) h =
      elim (Bool-cases (has_hash s.computed_at_block_hash supplies)) [
        | inl there ↦
            rw there (h, hash-HasTimestamp b supplies timed h (rw hash at there), (λ u old. old))
        | inr new ↦ rw new (
          (time ∙ timed ∙ ap time_of (sym hash), h),
          rw ((eqb_iff s.computed_at_block_timestamp b.block_timestamp).1 time) refl,
          (λ u old. HasTimestamp-more u s supplies old),
        )
      ]

  add-Inserted :
      (fails : List FailedInsert) (b : Block) (s : CirculatingSupply)
      (supplies : List CirculatingSupply)
      → IsTimed b
      → ComputedAt b s
      → AreTimed supplies
      → Inserted b supplies (add_circulating_supply fails s supplies)
  add-Inserted [] b s supplies timed c h = insert_supply-Inserted b s supplies timed c h
  add-Inserted (insert_refused ∷ fails) b s supplies timed c h =
      add-Inserted fails b s supplies timed c h
  add-Inserted (insert_lost ∷ fails) b s supplies timed c h =
      let (at, here, kept) = insert_supply-Inserted b s supplies timed c h in
      let (at', here', kept') = add-Inserted fails b s (insert_supply s supplies) timed c at in
      (at', here', (λ u old. kept' u (kept u old)))

  parse_found : (o : Option ℕ) (v : ℕ) → parse_supply o ≡ some (some v) → is_some o ≡ true
  parse_found none v e = absurd (none≢some (some_inj e))
  parse_found (some w) v e = refl

  precomputed_found :
      (ok : Bool) (timestamp v : ℕ) (supplies : List CirculatingSupply)
      → get_precomputed_circulating_supply_for_timestamp ok timestamp supplies ≡ some (some v)
      → HasTimestamp timestamp supplies
  precomputed_found true timestamp v supplies e = parse_found (find_supply timestamp supplies) v e
  precomputed_found false timestamp v supplies e = absurd (none≢some e)

  module _ (Q : FirstDescending) where
    collect-Inserted :
        (r : Round) (b : Block) (supplies new : List CirculatingSupply) (o : Option ℕ)
        → IsTimed b
        → AreTimed supplies
        → get_precomputed_circulating_supply_for_timestamp r.precomputed_found b.block_timestamp
            supplies
          ≡ some o
        → collect Q r b supplies o ≡ some new
        → Inserted b supplies new
    collect-Inserted r b supplies new (some v) timed h found e =
        let there = precomputed_found r.precomputed_found b.block_timestamp v supplies found in
        subst (Inserted b supplies) (some_inj e) (h, there, (λ u old. old))
    collect-Inserted r b supplies new none timed h found e =
        let (ids, listed, e1) = bind-some r.lockup_account_ids _ new e in
        let (s, computed, e2) =
          bind-some (compute_circulating_supply_for_block r.view ids b) _ new e1 in
        subst (Inserted b supplies) (some_inj e2) (
          add-Inserted r.failed_inserts b s supplies timed
            (compute-ComputedAt r.view ids b s computed) h)

    -- The block that the database gives in a round as the latest one at the start of the day.
    abbrev pub IsLatest : Round → ℕ → Block → Type 0
    IsLatest r d b =
        get_latest_block_before_timestamp Q r.block_found r.blocks (start_of_day d) ≡ some b

    check-Inserted :
        (r : Round) (d : ℕ) (supplies new : List CirculatingSupply)
        → All IsTimed r.blocks
        → AreTimed supplies
        → check_and_collect_daily_circulating_supply Q r d supplies ≡ some new
        → (b : Block) × (IsLatest r d b × Inserted b supplies new)
    check-Inserted r d supplies new timed h e =
        let (b, latest, e1) =
          bind-some (get_latest_block_before_timestamp Q r.block_found r.blocks (start_of_day d)) _
            new e in
        let (time, is_time, e2) = bind-some (to_u64 b.block_timestamp) _ new e1 in
        let same = to_u64-same b.block_timestamp time is_time in
        let (o, answered, e3) =
          bind-some
            (get_precomputed_circulating_supply_for_timestamp r.precomputed_found time supplies) _
            new e2 in
        let found =
          get_latest_block_before_timestamp-row Q r.block_found r.blocks (start_of_day d) b
            latest in
        (
          b,
          (
            latest,
            collect-Inserted r b supplies new o (All-Among IsTimed b r.blocks timed found) h
                (subst
                  (λ x.
                    get_precomputed_circulating_supply_for_timestamp r.precomputed_found x supplies
                    ≡ some o)
                  (sym same) answered)
                e3,
          ),
        )

    module _ (Asked : Round → Type 0) where
      -- A round in which the database was asked for the block of the day, with a row for the block.
      abbrev pub IsCovered : ℕ → List CirculatingSupply → Type 0
      IsCovered d supplies =
          (r : Round) × (b : Block) × Asked r
          × IsLatest r d b
          × HasTimestamp b.block_timestamp supplies

      -- The days before the current one, each with its row.
      record Inv (p : Progress Q) : Type 0 where
        days : ℕ
        current : p.0 ≡ first_day + days * day
        timed : AreTimed p.1
        covered : (k : ℕ) → k < days → IsCovered (first_day + k * day) p.1

      next_day-Inv :
          (r : Round) (p : Progress Q) (o : Option (List CirculatingSupply))
          → Asked r
          → All IsTimed r.blocks
          → check_and_collect_daily_circulating_supply Q r p.0 p.1 ≡ o
          → Inv p
          → Inv (next_day Q p o)
      next_day-Inv r (d, supplies) none asked timed e i = i
      next_day-Inv r (d, supplies) (some new) asked timed e i =
          let (b, shown) = check-Inserted r d supplies new timed i.timed e in
          let (latest, insert) = shown in
          let (at, here, kept) = insert in
          let now = i.current in
          record {
            days = suc i.days;
            current = omega (arith, now);
            timed = at;
            covered = λ k small. elim (Bool-cases (eqb k i.days)) [
              | inl last ↦
                  let same : k ≡ i.days = (eqb_iff k i.days).0 last in
                  let same_day : d ≡ first_day + k * day = rw same now in
                  subst (λ x. IsCovered x new) same_day (r, b, asked, latest, here)
              | inr earlier ↦
                  let (r', b', asked', latest', there) =
                    i.covered k (ground (arith, eqb_iff k i.days)) in
                  (r', b', asked', latest', kept b'.block_timestamp there)
            ];
          }

      run_round-Inv :
          (r : Round) (p : Progress Q)
          → Asked r
          → All IsTimed r.blocks
          → Inv p
          → Inv (run_round Q r p)
      run_round-Inv r (d, supplies) asked timed i =
          elim (Bool-cases (wait_for_loading_needed_blocks r.final_timestamps d)) [
            | inl loaded ↦ rw loaded (next_day-Inv r (d, supplies) _ asked timed refl i)
            | inr waiting ↦ rw waiting i
          ]

      run-Inv :
          (rounds : List Round) (p : Progress Q)
          → All Asked rounds
          → All (λ r. All IsTimed r.blocks) rounds
          → Inv p
          → Inv (run_circulating_supply_computation Q rounds p)
      unfolding run_circulating_supply_computation
      run-Inv [] p asked timed i = i
      run-Inv (r ∷ rounds) p (a, asked) (t, timed) i =
          run-Inv rounds (run_round Q r p) asked timed (run_round-Inv r p a t i)

      start-Inv :
          (supplies : List CirculatingSupply) → AreTimed supplies → Inv (first_day, supplies)
      start-Inv supplies timed = record {
        days = 0;
        current = omega arith;
        timed = timed;
        covered = λ k h. absurd (omega arith);
      }

    -- The hash of a block determines its timestamp, in the rows of `blocks` of each round and in the
    -- supplies that are there at the start. Whatever else the rounds of the loop are answered, and
    -- however inserts fail and are repeated: the day to compute is a whole number of days after the
    -- first one, and for each day before it there is a supply whose timestamp is that of the block that
    -- the database gave, in one of the rounds, as the latest one up to the start of that day. So no day
    -- is skipped.
    pub run_circulating_supply_computation-covers :
        (rounds : List Round) (supplies : List CirculatingSupply) (k : ℕ)
        → All (λ r. All IsTimed r.blocks) rounds
        → AreTimed supplies
        → first_day + k * day
          < (run_circulating_supply_computation Q rounds (first_day, supplies)).0
        → let p = run_circulating_supply_computation Q rounds (first_day, supplies) in
          ((days : ℕ) × (p.0 ≡ first_day + days * day))
          × IsCovered (λ r. Among r rounds) (first_day + k * day) p.1
    run_circulating_supply_computation-covers rounds supplies k timed start before =
        let i =
          run-Inv (λ r. Among r rounds) rounds (first_day, supplies) (Among-all rounds) timed
            (start-Inv (λ r. Among r rounds) supplies start) in
        let now = i.current in ((i.days, now), i.covered k (omega (arith, now, before)))
