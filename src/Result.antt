-- ===== src/Result.antt =====
-- Go's `(value, error)` results. `Error` has a constructor for each error value of the modelled
-- packages: an error travels unchanged from one package to the next.
use solana_token_lab.Base.{◌≡◌, refl, ◌⊎◌, inl, inr, Bool, if◌then◌else◌}

pub data Error : Type 0 where
  -- internal/ingestion
  invalid_ordering : Error
  -- internal/lookup
  no_price_data no_liquidity_data : Error
  -- internal/strategy
  input_is_nil empty_candidate_id invalid_signal_time invalid_signal_price : Error
  empty_price_timeseries empty_scenario_id unknown_strategy_type : Error
  missing_hold_duration missing_trail_pct missing_initial_stop_pct : Error
  missing_max_hold_duration missing_liquidity_drop_pct no_entry_liquidity : Error
  -- internal/storage
  not_found duplicate_key invalid_input : Error
  -- internal/decision
  decision_input_is_nil empty_strategy_id empty_decision_scenario_id : Error
  not_realistic_scenario negative_outcome_pct invalid_outcome_pct : Error
  no_realistic_scenario missing_pessimistic_scenario strategy_not_found : Error
  -- internal/metrics, internal/simulation; the last one is a run-time panic
  no_trades source_mismatch index_out_of_range : Error

pub data Result {ι} (Value : Type ι) : Type ι where
  err : Error → Result Value
  ok : Value → Result Value

infixl 5 ◌>>=◌
-- `v, err := m; if err != nil { return err }`, then the rest.
abbrev pub ◌>>=◌ {ι κ} :
    {Value : Type ι} {Next : Type κ} → Result Value → (Value → Result Next) → Result Next
err failure >>= rest = err failure
ok value >>= rest = rest value

-- What is known when a result came out of two steps.
pub >>=-eq-ok {ι κ} :
    {Value : Type ι} {Next : Type κ} (first : Result Value) (rest : Value → Result Next)
    {out : Next}
    → (first >>= rest) ≡ ok out
    → (value : Value) × (first ≡ ok value) × (rest value ≡ ok out)
>>=-eq-ok (err failure) rest h = cc
>>=-eq-ok (ok value) rest h = (value, refl, h)

infixl 5 ◌>>◌
abbrev pub ◌>>◌ {ι} : {Next : Type ι} → Result (Unit {0}) → Result Next → Result Next
check >> rest = check >>= λ passed. rest

-- `if !test { return failure }`
abbrev pub require : Bool → Error → Result (Unit {0})
require test failure = if test then ok tt else err failure

pub ok_injective {ι} : {Value : Type ι} (a b : Value) → ok a ≡ ok b → a ≡ b
ok_injective a b h = cc

pub Result-cases {ι} :
    {Value : Type ι} (r : Result Value)
    → ((failure : Error) × (r ≡ err failure)) ⊎ ((value : Value) × (r ≡ ok value))
Result-cases (err failure) = inl (failure, refl)
Result-cases (ok value) = inr (value, refl)
