-- ===== src/Discovery/Spikes/Trigger.antt =====
-- The search for the trigger of a spike, internal/discovery/active_detector.go.
use Prim.Native.String.{then as or_by}
use mathlib.Core.List.{Memᴰ}
use solana_token_lab.Base.{
  ◌≡◌, Ordering, refl, sym, ◌∙◌, ◌⊎◌, inl, inr, Bool, true, false, ◌&&◌, ◌||◌, Bool-cases, List, [],
  ◌∷◌, Option, none, some, arith,
}
use solana_token_lab.Base.Int.{ℤ, ltb_ℤ, eq_ℤ, ◌<ℤ◌, ◌≤ℤ◌, compare_ℤ, eq_of_parts}
use solana_token_lab.Base.ThreeWay.{
  IsThreeWay, then_by, then_by-IsThreeWay, on-IsThreeWay, compare_ℤ-IsThreeWay,
}
use solana_token_lab.Base.Lists.{All, All-imp}
use solana_token_lab.Base.Sort.{less_of, IsStrictWeak, less_of-IsStrictWeak}
use solana_token_lab.Domain.{SwapEvent, LiquidityEvent}
use solana_token_lab.Position.{Position, compare_position, compare_position-IsThreeWay}
use solana_token_lab.Ingestion.Ordering.{swap_event_position, liquidity_position}
use solana_token_lab.Discovery.Spikes.{
  replaces, in_window, find_trigger, find_trigger_swap, find_trigger_liquidity_event,
}

compare_back-IsThreeWay : IsThreeWay (λ a b. compare_ℤ b a)
compare_back-IsThreeWay = record {
  flip = λ a b. compare_ℤ-IsThreeWay.flip b a;
  lt_trans = λ a b c p q. compare_ℤ-IsThreeWay.lt_trans c b a q p;
  eq_left = λ a b c p. ground arith;
}

-- The nested tests are one comparison: by time, the later first, and then by `o`.
cascade :
    (x y : ℤ) (o : Ordering)
    → (ltb_ℤ y x || (eq_ℤ x y && less_of (λ a b. a) o Ordering.eq))
      ≡ less_of (λ (a b : Ordering). a) (or_by (compare_ℤ y x) o) Ordering.eq
cascade x y o = ground arith

module _ {E : Type 0} (timestamp : E → ℤ) (key : E → Position) where
  trigger_order : E → E → Ordering
  trigger_order =
      then_by (λ a b. compare_ℤ (timestamp b) (timestamp a))
        (λ a b. compare_position (key a) (key b))

  trigger_order-IsStrictWeak : IsStrictWeak (less_of trigger_order)
  unfolding trigger_order
  trigger_order-IsStrictWeak = less_of-IsStrictWeak (
      then_by-IsThreeWay (on-IsThreeWay timestamp compare_back-IsThreeWay)
        (on-IsThreeWay key compare_position-IsThreeWay))

  replaces_order : (a b : E) → replaces timestamp key a b ≡ less_of trigger_order a b
  unfolding trigger_order
  replaces_order a b = cascade (timestamp a) (timestamp b) (compare_position (key a) (key b))

  abbrev Kept : E → E → Type 0
  Kept e t = replaces timestamp key e t ≡ false

  Kept-refl : (a : E) → Kept a a
  Kept-refl a = elim (Bool-cases (replaces timestamp key a a)) [
    | inr e ↦ e
    | inl e ↦
        let less : less_of trigger_order a a ≡ true = sym (replaces_order a a) ∙ e in
        replaces_order a a ∙ trigger_order-IsStrictWeak.asym a a less
  ]

  Kept-trans : (a b c : E) → Kept a b → Kept b c → Kept a c
  Kept-trans a b c h k =
      replaces_order a c
      ∙ trigger_order-IsStrictWeak.not_trans a b c (sym (replaces_order a b) ∙ h)
          (sym (replaces_order b c) ∙ k)

  Kept-asym : (a b : E) → replaces timestamp key a b ≡ true → Kept b a
  Kept-asym a b h =
      replaces_order b a ∙ trigger_order-IsStrictWeak.asym a b (sym (replaces_order a b) ∙ h)

  module _ (start_1h eval_timestamp : ℤ) where
    abbrev In : E → Bool
    In = in_window timestamp key start_1h eval_timestamp

    -- How the search from a trigger on ends.
    record Winner (u : E) (es : List E) (t : E) : Type 0 where
      origin : (t ≡ u) ⊎ (Memᴰ t es × (In t ≡ true))
      above : Kept u t
      latest : All (λ e. In e ≡ true → Kept e t) es

    from_some :
        (u : E) (es : List E)
        → (t : E) × (find_trigger timestamp key start_1h eval_timestamp (some u) es ≡ some t)
          × Winner u es t
    unfolding find_trigger
    from_some u [] = (u, refl, record { origin = inl refl; above = Kept-refl u; latest = tt })
    from_some u (e ∷ es) = elim (Bool-cases (In e)) [
      | inr o ↦
          let (t, run, w) = from_some u es in
          (
            t,
            rw o run,
            record {
              origin = elim w.origin [ inl k ↦ inl k | inr (m, i) ↦ inr (Memᴰ.tail m, i) ];
              above = w.above;
              latest = (λ i. cc, w.latest);
            },
          )
      | inl i ↦ elim (Bool-cases (replaces timestamp key e u)) [
        | inr r ↦
            let (t, run, w) = from_some u es in
            (
              t,
              rw (i, r) run,
              record {
                origin = elim w.origin [ inl k ↦ inl k | inr (m, j) ↦ inr (Memᴰ.tail m, j) ];
                above = w.above;
                latest = (λ j. Kept-trans e u t r w.above, w.latest);
              },
            )
        | inl r ↦
            let (t, run, w) = from_some e es in
            (
              t,
              rw (i, r) run,
              record {
                origin = elim w.origin [
                  | inl k ↦ inr (Memᴰ.head k, rw k i)
                  | inr (m, j) ↦ inr (Memᴰ.tail m, j)
                ];
                above = Kept-trans u e t (Kept-asym e u r) w.above;
                latest = (λ j. w.above, w.latest);
              },
            )
      ]
    ]

    from_none :
        (es : List E)
        → ((find_trigger timestamp key start_1h eval_timestamp none es ≡ none)
            × All (λ e. In e ≡ false) es)
          ⊎ ((t : E) × (find_trigger timestamp key start_1h eval_timestamp none es ≡ some t)
              × Memᴰ t es
              × (In t ≡ true)
              × All (λ e. In e ≡ true → Kept e t) es)
    unfolding find_trigger
    from_none [] = inl (refl, tt)
    from_none (e ∷ es) = elim (Bool-cases (In e)) [
      | inl i ↦
          let (t, run, w) = from_some e es in
          elim w.origin [
            | inl k ↦ inr (t, rw i run, Memᴰ.head k, rw k i, (λ j. w.above, w.latest))
            | inr (m, j) ↦ inr (t, rw i run, Memᴰ.tail m, j, (λ j. w.above, w.latest))
          ]
      | inr o ↦ elim (from_none es) [
        | inl (run, out) ↦ inl (rw o run, (o, out))
        | inr (t, run, m, i, latest) ↦ inr (t, rw o run, Memᴰ.tail m, i, (λ j. cc, latest))
      ]
    ]

    -- A time of the last hour.
    abbrev Recent : ℤ → Type 0
    Recent t = (start_1h ≤ℤ t) × (t <ℤ eval_timestamp)

    -- The latest of the events of the last hour, and the first on the chain of those of its time.
    pub record IsTrigger (es : List E) (t : E) : Type 0 where
      pub listed : Memᴰ t es
      pub recent : Recent (timestamp t)
      pub latest :
          All
            (λ e.
              Recent (timestamp e)
              → (timestamp e <ℤ timestamp t)
                ⊎ ((timestamp e ≡ timestamp t)
                    × (less_of compare_position (key e) (key t) ≡ false)))
            es

    -- How a search ends: without a trigger if no event is of the last hour, and else with it.
    abbrev pub Searched : List E → Option E → Type 0
    Searched es found =
        ((found ≡ none) × All (λ e. ¬ Recent (timestamp e)) es)
        ⊎ ((t : E) × (found ≡ some t) × IsTrigger es t)

    Kept-position :
        (e t : E)
        → Kept e t
        → (timestamp e <ℤ timestamp t)
          ⊎ ((timestamp e ≡ timestamp t) × (less_of compare_position (key e) (key t) ≡ false))
    Kept-position e t h = elim (Bool-cases (ltb_ℤ (timestamp e) (timestamp t))) [
      | inl l ↦ inl (ground arith)
      | inr l ↦ inr (eq_of_parts (timestamp e) (timestamp t) (ground arith), ground arith)
    ]

    find_trigger-Searched :
        (es : List E) → Searched es (find_trigger timestamp key start_1h eval_timestamp none es)
    find_trigger-Searched es = elim (from_none es) [
      | inl (run, out) ↦
          inl (run, All-imp (λ e. In e ≡ false) _ (λ e o (l, h). ground arith) es out)
      | inr (t, run, m, i, latest) ↦ inr (
        t,
        run,
        record {
          listed = m;
          recent = (ground arith, ground arith);
          latest =
              All-imp (λ e. In e ≡ true → Kept e t) _
                (λ e k (l, h). Kept-position e t (k (ground arith))) es latest;
        },
      )
    ]

module _ {F : Type 0} where
  -- The search for the trigger, among swaps and among liquidity events: it finds none exactly if no event
  -- is of the last hour; else it finds one of the events of the last hour, which no other of them
  -- is later than, and which, among those of its time, none precedes on the chain, by (slot,
  -- tx_signature, event_index).
  pub find_trigger_latest :
      (start_1h eval_timestamp : ℤ) (swaps : List (SwapEvent F)) (events : List (LiquidityEvent F))
      → Searched
          (λ e. e.timestamp)
          swap_event_position
          start_1h
          eval_timestamp
          swaps
          (find_trigger_swap start_1h eval_timestamp swaps)
        × Searched
            (λ e. e.timestamp)
            liquidity_position
            start_1h
            eval_timestamp
            events
            (find_trigger_liquidity_event start_1h eval_timestamp events)
  unfolding find_trigger_swap find_trigger_liquidity_event
  find_trigger_latest start_1h eval_timestamp swaps events = (
    find_trigger-Searched (λ e. e.timestamp) swap_event_position start_1h eval_timestamp swaps,
    find_trigger-Searched (λ e. e.timestamp) liquidity_position start_1h eval_timestamp events,
  )
