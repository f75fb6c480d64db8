-- ===== src/Discovery/Active/Triggered.antt =====
-- The stored events that the candidates of internal/discovery/active_detector.go come from.
use mathlib.Core.List.{Memᴰ}
use mathlib.Core.List.Permᴰ
use mathlib.Core.Path.{subst}
use solana_token_lab.Base.{
  ◌≡◌, refl, ◌⊎◌, inl, inr, Bool, true, Bool-cases, Option-cases, List, [], ◌∷◌, Option, none, some,
  String, same_text_iff, arith,
}
use solana_token_lab.Base.Int.{ℤ, sub64, ◌<ℤ◌, ◌≤ℤ◌}
use solana_token_lab.Base.Lists.{All, All-at, All-listed, All-perm}
use solana_token_lab.Base.Sort.{sort_slice-perm}
use solana_token_lab.Float64.{Float64}
use solana_token_lab.Domain.{SwapEvent, LiquidityEvent, TokenCandidate}
use solana_token_lab.Position.{Position}
use solana_token_lab.Ingestion.Ordering.{swap_event_position, liquidity_position}
use solana_token_lab.Storage.Keyed.{query}
use solana_token_lab.Storage.Keyed.Queries.{select-All}
use solana_token_lab.Storage.SwapEvents
use solana_token_lab.Storage.SwapEvents.{SwapEventStore, collect_events, sort_events}
use solana_token_lab.Storage.LiquidityEvents
use solana_token_lab.Storage.LiquidityEvents.{LiquidityEventStore}
use solana_token_lab.Discovery.Spikes.{
  ActiveTokenConfig, check_swap_spikes, check_liquidity_changes, find_trigger_swap,
  find_trigger_liquidity_event,
}
use solana_token_lab.Discovery.Spikes.Trigger.{find_trigger_latest, Searched}
use solana_token_lab.Discovery.Active.{
  ActiveTokenDetector, create_candidate_from_swap, create_candidate_from_liquidity,
  check_liquidity_spike, swap_spikes_at, liquidity_spike_at, trigger_candidate, spike_candidate,
}

-- A stored event that a query for a mint and a range of times returns.
abbrev InRange : String → ℤ → ℤ → String → ℤ → Type 0
InRange mint start end_time m t = (m ≡ mint) × (start ≤ℤ t) × (t <ℤ end_time)

-- A trigger is one of the events that were searched, and of the last hour.
triggered_by :
    {E : Type 0} (timestamp : E → ℤ) (key : E → Position) (start_1h eval_timestamp : ℤ)
    (P : E → Type 0) {es : List E} {found : Option E} (t : E)
    → Searched timestamp key start_1h eval_timestamp es found
    → found ≡ some t
    → All P es
    → P t × (start_1h ≤ℤ timestamp t)
triggered_by timestamp key start_1h eval_timestamp P t (inl (none_found, out)) h p = cc
triggered_by timestamp key start_1h eval_timestamp P t (inr (u, found, trigger)) h p =
    let same : u ≡ t = cc in
    subst (λ v. P v × (start_1h ≤ℤ timestamp v)) same (All-at P trigger.listed p, trigger.recent.0)

module _ {F : Type 0} where
  collect_events-All :
      (p : SwapEvent F → Bool) (Q S : SwapEvent F → Type 0)
      → ((e : SwapEvent F) → Q e → p e ≡ true → S e)
      → (es : List (SwapEvent F)) → All Q es
      → All S (collect_events p es)
  unfolding collect_events
  collect_events-All p Q S g [] h = tt
  collect_events-All p Q S g (e ∷ es) (h, hs) = elim (Bool-cases (p e)) [
    | inl i ↦ rw i (g e h i, collect_events-All p Q S g es hs)
    | inr o ↦ rw o (collect_events-All p Q S g es hs)
  ]

  swaps_returned :
      (mint : String) (start end_time : ℤ) (s : SwapEventStore F)
      → All
          (λ e. Memᴰ e s.events × InRange mint start end_time e.mint e.timestamp)
          (SwapEvents.get_by_mint_time_range mint start end_time s)
  unfolding SwapEvents.get_by_mint_time_range sort_events
  swaps_returned mint start end_time s = All-perm _ (Permᴰ.symm (sort_slice-perm _ _)) (
      collect_events-All _ (λ e. Memᴰ e s.events) _
        (λ e m i. (m, ((same_text_iff e.mint mint).0 (ground arith), ground arith, ground arith)))
        s.events (All-listed s.events))

  liquidity_returned :
      (mint : String) (start end_time : ℤ) (s : LiquidityEventStore F)
      → All
          (λ e. ((k : String) × Memᴰ (k, e) s) × InRange mint start end_time e.mint e.timestamp)
          (LiquidityEvents.get_by_mint_time_range mint start end_time s)
  unfolding LiquidityEvents.get_by_mint_time_range query
  liquidity_returned mint start end_time s = All-perm _ (Permᴰ.symm (sort_slice-perm _ _)) (
      select-All _ (λ (e : String × LiquidityEvent F). Memᴰ e s) _
        (λ e m i.
          ((e.0, m), ((same_text_iff e.1.mint mint).0 (ground arith), ground arith, ground arith)))
        s (All-listed s))

  module _ ⦃f : Float64 F⦄ where
    swap_trigger :
        (config : ActiveTokenConfig F) (swaps : List (SwapEvent F)) (start_1h eval_timestamp : ℤ)
        (t : SwapEvent F)
        → (check_swap_spikes config swaps start_1h eval_timestamp).2 ≡ some t
        → find_trigger_swap start_1h eval_timestamp swaps ≡ some t
    unfolding check_swap_spikes
    swap_trigger config [] s e t h = absurd (ground arith)
    swap_trigger config (x ∷ xs) s e t h = ground arith

    liquidity_trigger :
        (config : ActiveTokenConfig F) (events : List (LiquidityEvent F))
        (start_1h eval_timestamp : ℤ) (t : LiquidityEvent F)
        → (check_liquidity_changes config events start_1h eval_timestamp).1 ≡ some t
        → find_trigger_liquidity_event start_1h eval_timestamp events ≡ some t
    unfolding check_liquidity_changes
    liquidity_trigger config [] s e t h = absurd (ground arith)
    liquidity_trigger config (x ∷ xs) s e t h = ground arith

    module _ (sha256_hex : String → String) (mint : String) (now : ℤ)
        (d : ActiveTokenDetector F) where
      -- The swap that a candidate was made from: a stored one, of the mint, of the last hour.
      pub record FromSwap (c : TokenCandidate) : Type 0 where
        pub swap : SwapEvent F
        pub made : c ≡ create_candidate_from_swap sha256_hex swap
        pub stored : Memᴰ swap d.swap_event_store.events
        pub mint_same : swap.mint ≡ mint
        pub from_start : sub64 now d.config.window_1h ≤ℤ swap.timestamp
        pub before_now : swap.timestamp <ℤ now

      -- The liquidity event that a candidate was made from, likewise.
      pub record FromLiquidity (c : TokenCandidate) : Type 0 where
        pub store : LiquidityEventStore F
        pub event : LiquidityEvent F
        pub made : c ≡ create_candidate_from_liquidity sha256_hex event
        pub configured : d.liquidity_event_store ≡ some store
        pub stored : (k : String) × Memᴰ (k, event) store
        pub mint_same : event.mint ≡ mint
        pub from_start : sub64 now d.config.window_1h ≤ℤ event.timestamp
        pub before_now : event.timestamp <ℤ now

      swap_candidate :
          (t : SwapEvent F)
          → (check_swap_spikes d.config
              (SwapEvents.get_by_mint_time_range mint
                (sub64 now d.config.window_24h)
                now
                d.swap_event_store)
              (sub64 now d.config.window_1h)
              now).2
            ≡ some t
          → FromSwap (create_candidate_from_swap sha256_hex t)
      swap_candidate t h =
          let start_1h = sub64 now d.config.window_1h in
          let start_24h = sub64 now d.config.window_24h in
          let swaps = SwapEvents.get_by_mint_time_range mint start_24h now d.swap_event_store in
          let (stored, start) =
            triggered_by (λ e. e.timestamp) swap_event_position start_1h now
              (λ e.
                Memᴰ e d.swap_event_store.events × InRange mint start_24h now e.mint e.timestamp)
              t (find_trigger_latest start_1h now swaps []).0
              (swap_trigger d.config swaps start_1h now t h)
              (swaps_returned mint start_24h now d.swap_event_store) in
          record {
            swap = t;
            made = refl;
            stored = stored.0;
            mint_same = stored.1.0;
            from_start = start;
            before_now = stored.1.2;
          }

      liquidity_candidate :
          (s : LiquidityEventStore F) (t : LiquidityEvent F)
          → d.liquidity_event_store ≡ some s
          → (check_liquidity_changes d.config
              (LiquidityEvents.get_by_mint_time_range mint (sub64 now d.config.window_24h) now s)
              (sub64 now d.config.window_1h)
              now).1
            ≡ some t
          → FromLiquidity (create_candidate_from_liquidity sha256_hex t)
      liquidity_candidate s t configured h =
          let start_1h = sub64 now d.config.window_1h in
          let start_24h = sub64 now d.config.window_24h in
          let events = LiquidityEvents.get_by_mint_time_range mint start_24h now s in
          let (stored, start) =
            triggered_by (λ e. e.timestamp) liquidity_position start_1h now
              (λ e. ((k : String) × Memᴰ (k, e) s) × InRange mint start_24h now e.mint e.timestamp)
              t (find_trigger_latest start_1h now [] events).1
              (liquidity_trigger d.config events start_1h now t h)
              (liquidity_returned mint start_24h now s) in
          record {
            store = s;
            event = t;
            made = refl;
            configured = configured;
            stored = stored.0;
            mint_same = stored.1.0;
            from_start = start;
            before_now = stored.1.2;
          }

      -- The event that a candidate was made from.
      abbrev pub FromEvent : TokenCandidate → Type 0
      FromEvent c = FromSwap c ⊎ FromLiquidity c

      from_trigger :
          (swap : Option (SwapEvent F)) (trigger : Option (LiquidityEvent F)) (c : TokenCandidate)
          → ((t : SwapEvent F) → swap ≡ some t → FromSwap (create_candidate_from_swap sha256_hex t))
          → ((t : LiquidityEvent F)
              → trigger ≡ some t
              → FromLiquidity (create_candidate_from_liquidity sha256_hex t))
          → trigger_candidate sha256_hex swap trigger ≡ some c
          → FromEvent c
      unfolding trigger_candidate
      from_trigger (some t) trigger c h k e =
          let same : create_candidate_from_swap sha256_hex t ≡ c = cc in
          inl (subst FromSwap same (h t refl))
      from_trigger none (some t) c h k e =
          let same : create_candidate_from_liquidity sha256_hex t ≡ c = cc in
          inr (subst FromLiquidity same (k t refl))
      from_trigger none none c h k e = cc

      liquidity_trigger_source :
          (t : LiquidityEvent F)
          → (liquidity_spike_at sha256_hex mint now d).1 ≡ some t
          → FromLiquidity (create_candidate_from_liquidity sha256_hex t)
      unfolding liquidity_spike_at check_liquidity_spike
      liquidity_trigger_source t h = elim (Option-cases d.liquidity_event_store) [
        | inl none_here ↦ absurd (ground arith)
        | inr (s, here) ↦ liquidity_candidate s t here (ground arith)
      ]

      pub spike_candidate-FromEvent :
          (c : TokenCandidate) → spike_candidate sha256_hex mint now d ≡ some c → FromEvent c
      unfolding spike_candidate swap_spikes_at
      spike_candidate-FromEvent c h =
          from_trigger (swap_spikes_at sha256_hex mint now d).2
            (liquidity_spike_at sha256_hex mint now d).1 c swap_candidate liquidity_trigger_source
            (ground arith)
