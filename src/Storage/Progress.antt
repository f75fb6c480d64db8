-- ===== src/Storage/Progress.antt =====
-- internal/storage/discovery_progress_store.go and its in-memory implementation: the last position that
-- discovery has processed, and the mints that it has seen.
use solana_token_lab.Base.{
  ℕ, Bool, List, [], ◌∷◌, Option, none, some, String, same_text, if◌then◌else◌,
}
use solana_token_lab.Result.{Result, ok, err, Error}
use solana_token_lab.Storage.Keyed.{member}

pub record DiscoveryProgress : Type 0 where
  pub slot : ℕ
  pub signature : String

pub record DiscoveryProgressStore : Type 0 where
  pub progress : Option DiscoveryProgress
  pub seen_mints : List String

abbrev pub new_discovery_progress_store : DiscoveryProgressStore
new_discovery_progress_store = record { progress = none; seen_mints = [] }

unfoldable pub get_last_processed : DiscoveryProgressStore → Result DiscoveryProgress
get_last_processed s = elim s.progress [ none ↦ err Error.not_found | some p ↦ ok p ]

unfoldable pub set_last_processed :
    Option DiscoveryProgress → DiscoveryProgressStore → Result (Unit {0}) × DiscoveryProgressStore
set_last_processed none s = (err Error.invalid_input, s)
set_last_processed (some p) s = (ok tt, record s { progress = some p })

unfoldable pub is_mint_seen : String → DiscoveryProgressStore → Result Bool
unfolding member
is_mint_seen mint s =
    if same_text mint "" then err Error.invalid_input else ok (member mint s.seen_mints)

-- `seen[mint] = true`
unfoldable pub set_seen : String → List String → List String
unfolding member
set_seen mint seen = if member mint seen then seen else mint ∷ seen

unfoldable pub mark_mint_seen :
    String → DiscoveryProgressStore → Result (Unit {0}) × DiscoveryProgressStore
unfolding set_seen
mark_mint_seen mint s =
    if same_text mint ""
    then (err Error.invalid_input, s)
    else (ok tt, record s { seen_mints = set_seen mint s.seen_mints })

unfoldable pub load_seen_mints : DiscoveryProgressStore → List String
load_seen_mints s = s.seen_mints
