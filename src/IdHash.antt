-- ===== src/IdHash.antt =====
-- internal/idhash: deterministic identifiers. `sha256_hex` is the hex form of SHA-256, of the Go
-- library: a parameter.
use solana_token_lab.Base.{[], ◌∷◌, Option, none, some, String}
use solana_token_lab.Base.Int.{ℤ}
use solana_token_lab.Base.Text.{concat, decimal}
use solana_token_lab.Domain.{Source}

-- `poolStr`: a missing pool counts as an empty one.
abbrev pub pool_str : Option String → String
pool_str none = ""
pool_str (some p) = p

module _ (sha256_hex : String → String) where
  unfoldable pub compute_candidate_id : String → Option String → Source → String → ℤ → ℤ → String
  unfolding concat decimal
  compute_candidate_id mint pool source tx_signature event_index slot = sha256_hex (
      concat (
        mint
        ∷ "|"
        ∷ pool_str pool
        ∷ "|"
        ∷ source
        ∷ "|"
        ∷ tx_signature
        ∷ "|"
        ∷ decimal event_index
        ∷ "|"
        ∷ decimal slot
        ∷ []))

  unfoldable pub compute_trade_id : String → String → String → ℤ → String
  unfolding concat decimal
  compute_trade_id candidate_id strategy_id scenario_id entry_signal_time = sha256_hex (
      concat (
        candidate_id
        ∷ "|"
        ∷ strategy_id
        ∷ "|"
        ∷ scenario_id
        ∷ "|"
        ∷ decimal entry_signal_time
        ∷ []))
