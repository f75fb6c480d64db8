-- ===== src/Storage/Metadata.antt =====
-- internal/storage/memory/token_metadata_store.go: token metadata, by candidate and by mint.
use solana_token_lab.Base.{[], Option, none, some, String, same_text, if◌then◌else◌}
use solana_token_lab.Result.{Result, ok, err, Error}
use solana_token_lab.Domain.{TokenMetadata}
use solana_token_lab.Storage.Keyed.{Entries, lookup, contains, put, find}

pub record TokenMetadataStore (F : Type 0) : Type 0 where
  pub by_candidate : Entries (TokenMetadata F)
  pub by_mint : Entries (TokenMetadata F)

module _ {F : Type 0} where
  abbrev pub new_token_metadata_store : TokenMetadataStore F
  new_token_metadata_store = record { by_candidate = []; by_mint = [] }

  unfoldable pub insert :
      Option (TokenMetadata F) → TokenMetadataStore F → Result (Unit {0}) × TokenMetadataStore F
  unfolding lookup put
  insert none s = (err Error.invalid_input, s)
  insert (some v) s =
      if same_text v.candidate_id ""
      then (err Error.invalid_input, s)
      else if contains v.candidate_id s.by_candidate
      then (err Error.duplicate_key, s)
      else if contains v.mint s.by_mint
      then (err Error.duplicate_key, s)
      else (
        ok tt,
        record {
          by_candidate = put v.candidate_id v s.by_candidate;
          by_mint = put v.mint v s.by_mint;
        },
      )

  unfoldable pub get_by_id : String → TokenMetadataStore F → Result (TokenMetadata F)
  unfolding find
  get_by_id candidate_id s = find candidate_id s.by_candidate

  unfoldable pub get_by_mint : String → TokenMetadataStore F → Result (TokenMetadata F)
  unfolding find
  get_by_mint mint s = find mint s.by_mint
