-- ===== src/Strategy/TrailingStop/Peak.antt =====
-- The highest price of a trailing stop, and the points at which none of its three tests holds.
use mathlib.Core.List.{Memᴰ}
use mathlib.Core.Path.{subst}
use solana_token_lab.Base.{
  ◌≡◌, refl, ◌∙◌, true, false, Bool-cases, inl, inr, ◌⊎◌, List, [], ◌∷◌, ◌++◌, none, if◌then◌else◌,
  arith,
}
use solana_token_lab.Base.Int.{ℤ, leb_ℤ, sub64}
use solana_token_lab.Base.Lists.{All}
use solana_token_lab.Float64.{Float64, IsOrdered, ◌<F◌, ◌≤F◌, ◌-F◌, ◌*F◌, whole}
use solana_token_lab.Domain.{PriceTimeseriesPoint}
use solana_token_lab.Strategy.TrailingStop.{TrailingStopStrategy, raise_peak, check_exit}
use solana_token_lab.Strategy.TrailingStop.Laws.{peak_of, Quiet}

module _ {F : Type 0} ⦃d : Float64 F⦄ where
  module _ (ordered : IsOrdered F) where
    not_below : (r peak q : F) → (r ≤F peak) ≡ true → (r <F q) ≡ false → (peak <F q) ≡ false
    not_below r peak q h g = elim (Bool-cases (peak <F q)) [
      | inr e ↦ e
      | inl e ↦
          let above = ordered.le_of_lt peak q e in
          let through = ordered.le_trans r peak q h above in
          let (rr, qq) = ordered.refl_of_le r q through in
          let (pp, _) = ordered.refl_of_le peak q above in
          let under = ordered.lt-eq-not-le r q rr qq in
          let back : (q ≤F r) ≡ true = ground arith in
          let down = ordered.le_trans q r peak back h in
          let over = ordered.lt-eq-not-le peak q pp qq in ground arith
    ]

    raised :
        (s q : F)
        → (s ≤F s) ≡ true
        → ((s ≤F raise_peak s q) ≡ true)
          × ((raise_peak s q ≤F raise_peak s q) ≡ true)
          × ((raise_peak s q <F q) ≡ false)
    raised s q h = elim (Bool-cases (s <F q)) [
      | inr e ↦ rw e (h, h, e)
      | inl e ↦
          let above = ordered.le_of_lt s q e in
          let (_, qq) = ordered.refl_of_le s q above in
          let equal = ordered.lt-eq-not-le q q qq qq in rw e (above, qq, ground arith)
    ]

  module _ (entry_time : ℤ) where
    -- The highest of a price and of the prices of the points after entry: none of them is above it, and it
    -- is one of them.
    pub record IsHighest (start : F) (points : List (PriceTimeseriesPoint F)) (peak : F)
        : Type 0 where
      pub above : (start ≤F peak) ≡ true
      pub bound :
          All
            (λ (p : PriceTimeseriesPoint F).
              leb_ℤ p.timestamp_ms entry_time ≡ false → (peak <F p.price) ≡ false)
            points
      pub attained :
          (peak ≡ start)
          ⊎ ((p : PriceTimeseriesPoint F) × Memᴰ p points
              × (leb_ℤ p.timestamp_ms entry_time ≡ false)
              × (peak ≡ p.price))

    later :
        (start : F) (q : PriceTimeseriesPoint F) (qs : List (PriceTimeseriesPoint F)) (peak : F)
        → ((p : PriceTimeseriesPoint F) × Memᴰ p qs
            × (leb_ℤ p.timestamp_ms entry_time ≡ false)
            × (peak ≡ p.price))
        → (p : PriceTimeseriesPoint F) × Memᴰ p (q ∷ qs)
          × (leb_ℤ p.timestamp_ms entry_time ≡ false)
          × (peak ≡ p.price)
    later start q qs peak (p, listed, late, same) = (p, Memᴰ.tail listed, late, same)

    pub peak_of-IsHighest :
        IsOrdered F
        → (s : TrailingStopStrategy F) (stop start : F) (points : List (PriceTimeseriesPoint F))
        → (start ≤F start) ≡ true
        → IsHighest start points (peak_of s entry_time stop start points)
    peak_of-IsHighest o s stop start [] h = record { above = h; bound = tt; attained = inl refl }
    peak_of-IsHighest o s stop start (q ∷ qs) h =
        elim (Bool-cases (leb_ℤ q.timestamp_ms entry_time)) [
          | inl e ↦
              let rest = peak_of-IsHighest o s stop start qs h in
              let lifted : (peak_of s entry_time stop start qs ≡ start)
                  ⊎ ((p : PriceTimeseriesPoint F) × Memᴰ p (q ∷ qs)
                      × (leb_ℤ p.timestamp_ms entry_time ≡ false)
                      × (peak_of s entry_time stop start qs ≡ p.price)) =
                elim rest.attained [
                  | inl same ↦ inl same
                  | inr found ↦ inr (later start q qs _ found)
                ] in
              rw e (record {
                above = rest.above;
                bound = (λ late. absurd (ground arith), rest.bound);
                attained = lifted;
              })
          | inr e ↦
              let r = raise_peak start q.price in
              let (up, here, over) = raised o start q.price h in
              let rest = peak_of-IsHighest o s stop r qs here in
              let peak = peak_of s entry_time stop r qs in
              let lifted : (peak ≡ start)
                  ⊎ ((p : PriceTimeseriesPoint F) × Memᴰ p (q ∷ qs)
                      × (leb_ℤ p.timestamp_ms entry_time ≡ false)
                      × (peak ≡ p.price)) =
                elim rest.attained [
                  | inr found ↦ inr (later start q qs peak found)
                  | inl same ↦ elim (Bool-cases (start <F q.price)) [
                    | inl t ↦ inr (q, Memᴰ.head refl, e, same ∙ rw t refl)
                    | inr t ↦ inl (same ∙ rw t refl)
                  ]
                ] in
              rw e (record {
                above = o.le_trans start r peak up rest.above;
                bound = (λ late. not_below o r peak q.price rest.above over, rest.bound);
                attained = lifted;
              })
        ]

    -- The last point counts, if it comes after entry.
    pub peak_of-snoc :
        (s : TrailingStopStrategy F) (stop start : F) (points : List (PriceTimeseriesPoint F))
        (q : PriceTimeseriesPoint F)
        → leb_ℤ q.timestamp_ms entry_time ≡ false
        → peak_of s entry_time stop start (points ++ (q ∷ []))
          ≡ raise_peak (peak_of s entry_time stop start points) q.price
    peak_of-snoc s stop start [] q h = rw h refl
    peak_of-snoc s stop start (p ∷ ps) q h =
        peak_of-snoc s stop
          (if leb_ℤ p.timestamp_ms entry_time then start else raise_peak start p.price) ps q h

    module _ (s : TrailingStopStrategy F) (stop start : F) where
      -- None of the tests holds at any point after entry, against the highest price up to it.
      abbrev pub Untriggered : List (PriceTimeseriesPoint F) → Type 0
      Untriggered points =
          (before after : List (PriceTimeseriesPoint F)) (q : PriceTimeseriesPoint F)
          → points ≡ before ++ (q ∷ after)
          → leb_ℤ q.timestamp_ms entry_time ≡ false
          → (peak : F) × IsHighest start (before ++ (q ∷ [])) peak
            × ((q.price ≤F stop) ≡ false)
            × ((q.price ≤F peak *F (whole 1 -F s.trail_pct)) ≡ false)
            × (leb_ℤ s.max_hold_duration_ms (sub64 q.timestamp_ms entry_time) ≡ false)

      check_exit-none :
          (peak : F) (q : PriceTimeseriesPoint F)
          → check_exit s entry_time stop peak q ≡ none
          → ((q.price ≤F stop) ≡ false)
            × ((q.price ≤F peak *F (whole 1 -F s.trail_pct)) ≡ false)
            × (leb_ℤ s.max_hold_duration_ms (sub64 q.timestamp_ms entry_time) ≡ false)
      unfolding check_exit
      check_exit-none peak q h = ground arith

      Quiet-at :
          (peak : F) (before after : List (PriceTimeseriesPoint F)) (q : PriceTimeseriesPoint F)
          → Quiet s entry_time stop peak (before ++ (q ∷ after))
          → leb_ℤ q.timestamp_ms entry_time ≡ false
          → check_exit s entry_time stop (peak_of s entry_time stop peak (before ++ (q ∷ []))) q
            ≡ none
      Quiet-at peak [] after q (inl early, _) h = absurd (ground arith)
      Quiet-at peak [] after q (inr e, _) h = rw h e
      Quiet-at peak (p ∷ ps) after q (_, k) h =
          Quiet-at (if leb_ℤ p.timestamp_ms entry_time then peak else raise_peak peak p.price) ps
            after q k h

      pub Quiet-Untriggered :
          IsOrdered F
          → (start ≤F start) ≡ true
          → (points : List (PriceTimeseriesPoint F)) → Quiet s entry_time stop start points
          → Untriggered points
      Quiet-Untriggered o h points k before after q split late =
          let upto = before ++ (q ∷ []) in
          let quiet =
            Quiet-at start before after q (subst (Quiet s entry_time stop start) split k) late in
          let (above_stop, above_trail, held) = check_exit-none _ q quiet in
          (
            peak_of s entry_time stop start upto,
            peak_of-IsHighest o s stop start upto h,
            above_stop,
            above_trail,
            held,
          )
