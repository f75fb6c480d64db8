-- ===== src/Pipeline/Sufficiency.antt =====
-- internal/pipeline/sufficiency.go: checks on the candidates and their events, over the in-memory stores,
-- whose reads do not fail.
pub mod Events
use Prim.Native.String.{compare as compare_text}
use solana_token_lab.Base.{
  Bool, true, false, List, [], ◌∷◌, Option, none, some, String, ℕ, ◌+◌, leb, ltb, ◌==◌, same_text,
  if◌then◌else◌, length,
}
use solana_token_lab.Base.Int.{pos}
use solana_token_lab.Base.Sort.{sort_slice, less_of}
use solana_token_lab.Base.Text.{concat, decimal}
use solana_token_lab.Domain.{TokenCandidate}
use solana_token_lab.Storage.Candidates.{CandidateStore}
use solana_token_lab.Storage.Trades.{TradeRecordStore}
use solana_token_lab.Storage.Swaps
use solana_token_lab.Storage.Swaps.{SwapStore}
use solana_token_lab.Storage.LiquidityEvents
use solana_token_lab.Storage.LiquidityEvents.{LiquidityEventStore}
use solana_token_lab.Storage.Prices.{PriceTimeseriesStore}
use solana_token_lab.Storage.Liquidity.{LiquidityTimeseriesStore}
use solana_token_lab.Replay.Runner.{Runner}

pub record SufficiencyCheck : Type 0 where
  pub name : String
  pub threshold : String
  pub actual : String
  pub pass : Bool

-- A nil pointer is `none`.
pub record SufficiencyChecker (F : Type 0) : Type 0 where
  pub candidate_store : CandidateStore
  pub trade_store : TradeRecordStore F
  pub swap_store : Option (SwapStore F)
  pub liquidity_store : Option (LiquidityEventStore F)
  pub price_timeseries_store : Option (PriceTimeseriesStore F)
  pub liq_timeseries_store : Option (LiquidityTimeseriesStore F)
  pub replay_runner : Option (Runner F)

unfoldable pub check_unique_new_token_candidates : List TokenCandidate → SufficiencyCheck
unfolding decimal
check_unique_new_token_candidates candidates = record {
  name = "Unique NEW_TOKEN candidates";
  threshold = ">= 300";
  actual = decimal (pos (length candidates));
  pass = leb 300 (length candidates);
}

-- `seen[id]++`
unfoldable pub count_seen : String → List (String × ℕ) → List (String × ℕ)
count_seen id [] = (id, 1) ∷ []
count_seen id ((j, n) ∷ seen) =
    if same_text j id then (j, n + 1) ∷ seen else (j, n) ∷ count_seen id seen

unfoldable pub seen_of : List (String × ℕ) → List TokenCandidate → List (String × ℕ)
unfolding count_seen
seen_of seen [] = seen
seen_of seen (c ∷ cs) = seen_of (count_seen c.candidate_id seen) cs

-- The messages on the identifiers that were seen more than once.
unfoldable pub duplicate_errors : List (String × ℕ) → List String
unfolding concat decimal
duplicate_errors [] = []
duplicate_errors ((id, count) ∷ seen) =
    let errors = duplicate_errors seen in
    if ltb 1 count
    then concat ("duplicate candidate_id: " ∷ id ∷ " (count=" ∷ decimal (pos count) ∷ ")" ∷ [])
      ∷ errors
    else errors

unfoldable pub check_duplicate_candidates : List TokenCandidate → SufficiencyCheck × List String
unfolding seen_of sort_slice duplicate_errors decimal
check_duplicate_candidates candidates =
    let errors =
      duplicate_errors (
        sort_slice (less_of (λ (a b : String × ℕ). compare_text a.0 b.0))
          (seen_of [] candidates)) in
    let check : SufficiencyCheck = record {
      name = "Duplicate candidate_id count";
      threshold = "= 0";
      actual = decimal (pos (length errors));
      pass = length errors == 0;
    } in
    (check, errors)

unfoldable pub sort_candidates : List TokenCandidate → List TokenCandidate
unfolding sort_slice
sort_candidates = sort_slice (less_of λ a b. compare_text a.candidate_id b.candidate_id)

-- What one read adds to a count, and to the messages.
abbrev pub missing : {A : Type 0} → List A → ℕ
missing [] = 1
missing (_ ∷ _) = 0

abbrev pub report : {A : Type 0} → List A → String → List String → List String
report [] message errors = message ∷ errors
report (_ ∷ _) message errors = errors

abbrev pub not_configured : String → String → SufficiencyCheck × List String
not_configured actual message =
    let check : SufficiencyCheck = record {
      name = "Missing events count";
      threshold = "= 0";
      actual = actual;
      pass = false;
    } in
    (check, message ∷ [])

module _ {F : Type 0} where
  abbrev pub new_sufficiency_checker :
      CandidateStore
      → TradeRecordStore F
      → Option (SwapStore F)
      → Option (LiquidityEventStore F)
      → Option (Runner F)
      → SufficiencyChecker F
  new_sufficiency_checker candidates trades swaps liquidity runner = record {
    candidate_store = candidates;
    trade_store = trades;
    swap_store = swaps;
    liquidity_store = liquidity;
    price_timeseries_store = none;
    liq_timeseries_store = none;
    replay_runner = runner;
  }

  abbrev pub with_timeseries_stores :
      Option (PriceTimeseriesStore F)
      → Option (LiquidityTimeseriesStore F)
      → SufficiencyChecker F
      → SufficiencyChecker F
  with_timeseries_stores prices liquidity c = record c {
    price_timeseries_store = prices;
    liq_timeseries_store = liquidity;
  }

  -- The missing swaps, the missing liquidity events, and the messages on them.
  unfoldable pub missing_events :
      SwapStore F → LiquidityEventStore F → List TokenCandidate → ℕ × ℕ × List String
  unfolding concat Swaps.get_by_candidate_id LiquidityEvents.get_by_candidate_id
  missing_events swaps liquidity [] = (0, 0, [])
  missing_events swaps liquidity (c ∷ cs) =
      let id = c.candidate_id in
      let s = Swaps.get_by_candidate_id id swaps in
      let l = LiquidityEvents.get_by_candidate_id id liquidity in
      let (no_swaps, no_liquidity, errors) = missing_events swaps liquidity cs in
      (
        missing s + no_swaps,
        missing l + no_liquidity,
        report s (concat ("no swaps found for candidate " ∷ id ∷ []))
            (report l (concat ("no liquidity events found for candidate " ∷ id ∷ [])) errors),
      )

  unfoldable pub check_missing_events :
      SufficiencyChecker F → List TokenCandidate → SufficiencyCheck × List String
  unfolding missing_events sort_candidates concat decimal
  check_missing_events c candidates = elim c.swap_store [
    | none ↦
        not_configured "NOT CONFIGURED (swap store required)"
          "swap store not configured - cannot verify event coverage"
    | some swaps ↦ elim c.liquidity_store [
      | none ↦
          not_configured "NOT CONFIGURED (liquidity store required)"
            "liquidity store not configured - cannot verify event coverage"
      | some liquidity ↦
          let (no_swaps, no_liquidity, errors) =
            missing_events swaps liquidity (sort_candidates candidates) in
          let check : SufficiencyCheck = record {
            name = "Missing events count";
            threshold = "= 0";
            actual = concat (
                decimal (pos (no_swaps + no_liquidity))
                ∷ " missing ("
                ∷ decimal (pos no_swaps)
                ∷ " swaps, "
                ∷ decimal (pos no_liquidity)
                ∷ " liquidity)"
                ∷ []);
            pass = (no_swaps + no_liquidity) == 0;
          } in
          (check, errors)
    ]
  ]
