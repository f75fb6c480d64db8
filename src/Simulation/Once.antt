-- ===== src/Simulation/Once.antt =====
-- A simulation over the in-memory stores (internal/simulation/runner.go on internal/storage/memory).
use mathlib.Core.Path.{subst}
use solana_token_lab.Base.{
  ◌≡◌, refl, sym, ap, ◌∙◌, ◌⊎◌, inl, inr, true, false, Bool-cases, some, String, same_text,
  same_text_iff, arith,
}
use solana_token_lab.Result.{Result, ok, err, ◌>>=◌, >>=-eq-ok, ok_injective, Error}
use solana_token_lab.Float64.{Float64}
use solana_token_lab.Domain.{Source, TokenCandidate, ScenarioConfig, StrategyConfig, TradeRecord}
use solana_token_lab.Lookup.{price_at}
use solana_token_lab.Strategy.Input.{StrategyInput, validate}
use solana_token_lab.Strategy.Execution.{build_trade_record}
use solana_token_lab.Strategy.TimeExit.{execute_time_exit}
use solana_token_lab.Strategy.TrailingStop.{execute_trailing_stop, exit_or_max_duration}
use solana_token_lab.Strategy.LiquidityGuard.{
  execute_liquidity_guard, find_entry_liquidity, guard_loop,
}
use solana_token_lab.Strategy.Factory.{Strategy, execute}
use solana_token_lab.Storage.Keyed.{contains, lookup, insert}
use solana_token_lab.Storage.Keyed.Inserts.{Inserted, insert-Inserting}
use solana_token_lab.Storage.Candidates.{CandidateStore, get_by_id}
use solana_token_lab.Storage.Prices
use solana_token_lab.Storage.Prices.{PriceTimeseriesStore}
use solana_token_lab.Storage.Liquidity.{LiquidityTimeseriesStore}
use solana_token_lab.Storage.Trades
use solana_token_lab.Storage.Trades.{TradeRecordStore, trade_key, is_valid}
use solana_token_lab.Simulation.{
  Stores, new_runner, source_matches, persist, select, load_input, execute_and_store, run,
}
use solana_token_lab.Simulation.Runs.{select-Selected, load_input-Loaded, execute_and_store_ok}

-- The source that an entry event asks for.
abbrev pub Matching : String → Source → Type 0
Matching entry_event_type source =
    ((entry_event_type ≡ "NEW_TOKEN") × (source ≡ "NEW_TOKEN"))
    ⊎ ((entry_event_type ≡ "ACTIVE_TOKEN") × (source ≡ "ACTIVE_TOKEN"))

source_matches-Matching :
    (source : Source) (entry_event_type : String)
    → source_matches source entry_event_type ≡ true
    → Matching entry_event_type source
unfolding source_matches
source_matches-Matching source event h = elim (Bool-cases (same_text event "NEW_TOKEN")) [
  | inl e ↦
      inl
        ((same_text_iff event "NEW_TOKEN").0 e, (same_text_iff source "NEW_TOKEN").0 (ground arith))
  | inr e ↦ elim (Bool-cases (same_text event "ACTIVE_TOKEN")) [
    | inl k ↦ inr (
      (same_text_iff event "ACTIVE_TOKEN").0 k,
      (same_text_iff source "ACTIVE_TOKEN").0 (ground arith),
    )
    | inr k ↦ absurd (ground arith)
  ]
]

module _ {F : Type 0} ⦃d : Float64 F⦄ (sha256_hex : String → String) where
  -- What every strategy takes into its trade from the input.
  abbrev Entered : StrategyInput F → TradeRecord F → Type 0
  Entered input trade =
      (trade.candidate_id ≡ input.candidate_id)
      × (trade.scenario_id ≡ input.scenario.scenario_id)
      × (trade.entry_signal_time ≡ input.entry_signal_time)
      × (trade.entry_signal_price ≡ input.entry_signal_price)

  execute-Entered :
      (strategy : Strategy F) (input : StrategyInput F) (trade : TradeRecord F)
      → execute sha256_hex strategy (some input) ≡ ok trade
      → Entered input trade
  unfolding execute execute_time_exit execute_trailing_stop execute_liquidity_guard
      build_trade_record
  execute-Entered (Strategy.time_exit s) input trade h =
      let (_, _, h1) = >>=-eq-ok (validate (some input)) _ h in
      let (_, _, h2) = >>=-eq-ok (price_at _ input.price_timeseries) _ h1 in
      subst (Entered input) (ok_injective _ trade h2) (refl, refl, refl, refl)
  execute-Entered (Strategy.trailing_stop s) input trade h =
      let (_, _, h1) = >>=-eq-ok (validate (some input)) _ h in
      let (_, _, h2) = >>=-eq-ok (exit_or_max_duration _ _ input.price_timeseries) _ h1 in
      subst (Entered input) (ok_injective _ trade h2) (refl, refl, refl, refl)
  execute-Entered (Strategy.liquidity_guard s) input trade h =
      let (_, _, h1) = >>=-eq-ok (validate (some input)) _ h in
      let (l, _, h2) = >>=-eq-ok (find_entry_liquidity input) _ h1 in
      let (_, _, h3) = >>=-eq-ok (guard_loop s input _ l _) _ h2 in
      let (_, _, h4) = >>=-eq-ok (exit_or_max_duration _ _ input.price_timeseries) _ h3 in
      subst (Entered input) (ok_injective _ trade h4) (refl, refl, refl, refl)

  module _ (candidates : CandidateStore) (prices : PriceTimeseriesStore F)
      (liquidity : LiquidityTimeseriesStore F) where
    abbrev runner : Stores F (TradeRecordStore F)
    runner = new_runner candidates prices liquidity

    -- The trade was new, and is in the store.
    abbrev Stored : TradeRecord F → TradeRecordStore F → TradeRecordStore F → Type 0
    Stored trade s s' = (contains trade.trade_id s ≡ false) × Inserted trade_key is_valid trade s s'

    -- The result of an insert, as the runner reads it.
    abbrev result : Result (Unit {0}) × (TradeRecordStore F) → Result (TradeRecordStore F)
    result o = o.0 >>= λ inserted. ok o.1

    persist-insert :
        (trade : TradeRecord F) (s : TradeRecordStore F)
        {o : Result (Unit {0}) × (TradeRecordStore F)}
        → insert trade_key is_valid (some trade) s ≡ o
        → persist runner.insert_trade trade s ≡ result o
    unfolding new_runner Trades.insert
    persist-insert trade s h = ap result h

    insert-Stored :
        (trade : TradeRecord F) (s s' : TradeRecordStore F)
        → persist runner.insert_trade trade s ≡ ok s'
        → (is_valid trade ≡ true) × Stored trade s s'
    insert-Stored trade s s' h = elim (insert-Inserting trade_key is_valid trade s) [
      | inl (_, r) ↦ let done = sym (persist-insert trade s r) ∙ h in absurd cc
      | inr (inl (_, _, r)) ↦ let done = sym (persist-insert trade s r) ∙ h in absurd cc
      | inr (inr (valid, fresh, (m, r, added))) ↦
          let same = ok_injective m s' (sym (persist-insert trade s r) ∙ h) in
          (valid, (fresh, subst (Inserted trade_key is_valid trade s) same added))
    ]

    insert_again :
        (trade : TradeRecord F) (s s' : TradeRecordStore F)
        → is_valid trade ≡ true
        → Inserted trade_key is_valid trade s s'
        → persist runner.insert_trade trade s' ≡ err Error.duplicate_key
    insert_again trade s s' valid added = elim (insert-Inserting trade_key is_valid trade s') [
      | inl (invalid, _) ↦ absurd cc
      | inr (inl (_, _, r)) ↦ persist-insert trade s' r
      | inr (inr (_, fresh, _)) ↦
          let found = added.lookups trade.trade_id in
          let own = (same_text_iff trade.trade_id trade.trade_id).1 refl in absurd (ground arith)
    ]

    -- What a simulation that returns a trade has done, and that it cannot be done again.
    pub record Simulated (candidate_id : String) (cfg : StrategyConfig F)
        (scenario : ScenarioConfig F) (trade : TradeRecord F) (s s' : TradeRecordStore F)
        : Type 0 where
      pub candidate : TokenCandidate
      pub found : lookup candidate_id candidates ≡ some candidate
      pub matching : Matching cfg.entry_event_type candidate.source
      pub names : (trade.candidate_id ≡ candidate_id) × (trade.scenario_id ≡ scenario.scenario_id)
      pub time : trade.entry_signal_time ≡ candidate.discovered_at
      pub price :
          price_at candidate.discovered_at (Prices.get_by_candidate_id candidate_id prices)
          ≡ ok trade.entry_signal_price
      pub fresh : contains trade.trade_id s ≡ false
      pub stored : Inserted trade_key is_valid trade s s'
      pub again : run sha256_hex runner candidate_id cfg scenario s' ≡ err Error.duplicate_key

    run_again :
        (id : String) (cfg : StrategyConfig F) (scenario : ScenarioConfig F)
        (out : TokenCandidate × Strategy F) (input : StrategyInput F) (trade : TradeRecord F)
        (s : TradeRecordStore F)
        → select runner id cfg ≡ ok out
        → load_input runner id scenario out.0 ≡ ok input
        → execute sha256_hex out.1 (some input) ≡ ok trade
        → persist runner.insert_trade trade s ≡ err Error.duplicate_key
        → run sha256_hex runner id cfg scenario s ≡ err Error.duplicate_key
    unfolding run execute_and_store
    run_again id cfg scenario out input trade s e l x p = rw (e, l, x, p) refl

    find_lookup :
        (id : String) (c : TokenCandidate)
        → runner.candidate_by_id id ≡ ok c
        → lookup id candidates ≡ some c
    unfolding new_runner get_by_id
    find_lookup id c h = ground arith

    series :
        (id : String) (input : StrategyInput F)
        → runner.prices_by_candidate_id id ≡ ok input.price_timeseries
        → Prices.get_by_candidate_id id prices ≡ input.price_timeseries
    unfolding new_runner
    series id input h = ok_injective _ input.price_timeseries h

    -- A simulation over the in-memory stores that returns a trade found the candidate in its store, with the
    -- source that the entry event of the strategy asks for; the trade is of that candidate and of the
    -- scenario, entered at the time of discovery at the price that the stored series has then; no
    -- trade had its identifier before, and the trade is added to the store and nothing else changes there;
    -- and the same simulation again is refused as a duplicate.
    pub run_once :
        (candidate_id : String) (cfg : StrategyConfig F) (scenario : ScenarioConfig F)
        (trade : TradeRecord F) (s s' : TradeRecordStore F)
        → run sha256_hex runner candidate_id cfg scenario s ≡ ok (trade, s')
        → Simulated candidate_id cfg scenario trade s s'
    unfolding run
    run_once id cfg scenario trade s s' h =
        let (out, e, h1) = >>=-eq-ok (select runner id cfg) _ h in
        let (input, l, h2) = >>=-eq-ok (load_input runner id scenario out.0) _ h1 in
        let (x, p) = execute_and_store_ok sha256_hex runner out.1 input s (trade, s') h2 in
        let selected = select-Selected runner id cfg out e in
        let loaded = load_input-Loaded runner id scenario out.0 input l in
        let (of_candidate, of_scenario, at_time, at_price) = execute-Entered out.1 input trade x in
        let (valid, (fresh, stored)) = insert-Stored trade s s' p in
        record {
          candidate = out.0;
          found = find_lookup id out.0 selected.stored;
          matching = source_matches-Matching out.0.source cfg.entry_event_type selected.source;
          names = (
            of_candidate ∙ loaded.named,
            of_scenario ∙ ap (λ (c : ScenarioConfig F). c.scenario_id) loaded.scenario_eq,
          );
          time = at_time ∙ loaded.time;
          price =
              ap (price_at out.0.discovered_at) (series id input loaded.prices)
              ∙ loaded.price
              ∙ ap ok (sym at_price);
          fresh = fresh;
          stored = stored;
          again =
              run_again id cfg scenario out input trade s' e l x
                (insert_again trade s s' valid stored);
        }
