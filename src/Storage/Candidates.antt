-- ===== src/Storage/Candidates.antt =====
-- internal/storage/memory/candidate_store.go: the token candidates, by their identifiers.
pub mod Mints
use solana_token_lab.Base.{Bool, not, ◌&&◌, List, [], Option, String, same_text}
use solana_token_lab.Base.Int.{ℤ, leb_ℤ, compare_ℤ}
use solana_token_lab.Base.Sort.{less_of}
use solana_token_lab.Result.{Result}
use solana_token_lab.Domain.{TokenCandidate, Source}
use solana_token_lab.Storage.Keyed
use solana_token_lab.Storage.Keyed.{Entries, find, query}

abbrev pub CandidateStore : Type 0
CandidateStore = Entries TokenCandidate

abbrev pub new_candidate_store : CandidateStore
new_candidate_store = []

abbrev pub candidate_key : TokenCandidate → String
candidate_key c = c.candidate_id

abbrev pub is_valid : TokenCandidate → Bool
is_valid v = not (same_text v.candidate_id "")

unfoldable pub insert : Option TokenCandidate → CandidateStore → Result (Unit {0}) × CandidateStore
unfolding Keyed.insert
insert = Keyed.insert candidate_key is_valid

unfoldable pub get_by_id : String → CandidateStore → Result TokenCandidate
unfolding find
get_by_id candidate_id = find candidate_id

-- The order of the results, by `discovered_at`.
abbrev pub by_discovery : TokenCandidate → TokenCandidate → Bool
by_discovery = less_of λ a b. compare_ℤ a.discovered_at b.discovered_at

unfoldable pub get_by_mint : String → CandidateStore → List TokenCandidate
unfolding query
get_by_mint mint = query by_discovery (λ c. same_text c.mint mint)

unfoldable pub get_by_time_range : ℤ → ℤ → CandidateStore → List TokenCandidate
unfolding query
get_by_time_range start end_time =
    query by_discovery (λ c. leb_ℤ start c.discovered_at && leb_ℤ c.discovered_at end_time)

unfoldable pub get_by_source : Source → CandidateStore → List TokenCandidate
unfolding query
get_by_source source = query by_discovery (λ c. same_text c.source source)
