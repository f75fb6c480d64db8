-- ===== src/Strategy/TrailingStop/Laws.antt =====
-- What the trailing stop's loop finds: the first price point after entry that triggers, with the
-- peak of the prices up to it; nothing behind that point counts.
use solana_token_lab.Base.{
  ◌≡◌, refl, ap, ◌∙◌, true, false, List, [], ◌∷◌, ◌++◌, Option, none, some, arith, Bool-cases, inl,
  inr, ◌⊎◌, Option-cases, if◌then◌else◌,
}
use solana_token_lab.Base.Int.{ℤ, leb_ℤ}
use solana_token_lab.Float64.{Float64}
use solana_token_lab.Domain.{PriceTimeseriesPoint}
use solana_token_lab.Strategy.Execution.{ExitSignal}
use solana_token_lab.Strategy.TrailingStop.{
  TrailingStopStrategy, raise_peak, check_exit, trailing_loop,
}

module _ {F : Type 0} ⦃d : Float64 F⦄ (s : TrailingStopStrategy F) (entry_time : ℤ)
    (initial_stop : F) where
  -- The peak after the points that come after entry, from a peak before them.
  abbrev pub peak_of : F → List (PriceTimeseriesPoint F) → F
  peak_of peak [] = peak
  peak_of peak (q ∷ qs) =
      peak_of (if leb_ℤ q.timestamp_ms entry_time then peak else raise_peak peak q.price) qs

  -- No point after entry triggers an exit, each tested against the peak up to and including it.
  abbrev pub Quiet : F → List (PriceTimeseriesPoint F) → Type 0
  Quiet peak [] = Unit
  Quiet peak (q ∷ qs) =
      ((leb_ℤ q.timestamp_ms entry_time ≡ true)
        ⊎ (check_exit s entry_time initial_stop (raise_peak peak q.price) q ≡ none))
      × Quiet (if leb_ℤ q.timestamp_ms entry_time then peak else raise_peak peak q.price) qs

  pub record FirstExit (peak : F) (points : List (PriceTimeseriesPoint F)) (final_peak : F)
      (exit : ExitSignal F) : Type 0 where
    pub before : List (PriceTimeseriesPoint F)
    pub point : PriceTimeseriesPoint F
    pub after : List (PriceTimeseriesPoint F)
    pub split : points ≡ before ++ (point ∷ after)
    pub quiet_before : Quiet peak before
    pub after_entry : leb_ℤ point.timestamp_ms entry_time ≡ false
    pub peak_then : final_peak ≡ raise_peak (peak_of peak before) point.price
    pub triggers : check_exit s entry_time initial_stop final_peak point ≡ some exit

  abbrev loop : F → List (PriceTimeseriesPoint F) → F × Option (ExitSignal F)
  loop = trailing_loop s entry_time initial_stop

  FirstExit-cons :
      (peak peak' : F) (q : PriceTimeseriesPoint F) (qs : List (PriceTimeseriesPoint F)) {final : F}
      {exit : ExitSignal F}
      → (leb_ℤ q.timestamp_ms entry_time ≡ true)
        ⊎ (check_exit s entry_time initial_stop (raise_peak peak q.price) q ≡ none)
      → (if leb_ℤ q.timestamp_ms entry_time then peak else raise_peak peak q.price) ≡ peak'
      → FirstExit peak' qs final exit
      → FirstExit peak (q ∷ qs) final exit
  FirstExit-cons peak peak' q qs quiet e r = record {
    before = q ∷ r.before;
    point = r.point;
    after = r.after;
    split = ap (◌∷◌ q) r.split;
    quiet_before = (quiet, rw e r.quiet_before);
    after_entry = r.after_entry;
    peak_then = rw e r.peak_then;
    triggers = r.triggers;
  }

  abbrev check : F → PriceTimeseriesPoint F → Option (ExitSignal F)
  check = check_exit s entry_time initial_stop

  module _ (peak : F) (q : PriceTimeseriesPoint F) (qs : List (PriceTimeseriesPoint F)) where
    loop_early : leb_ℤ q.timestamp_ms entry_time ≡ true → loop peak (q ∷ qs) ≡ loop peak qs
    unfolding trailing_loop
    loop_early h = rw h

    loop_found :
        {exit : ExitSignal F}
        → leb_ℤ q.timestamp_ms entry_time ≡ false
        → check (raise_peak peak q.price) q ≡ some exit
        → loop peak (q ∷ qs) ≡ (raise_peak peak q.price, some exit)
    unfolding trailing_loop
    loop_found h e = rw (h, e)

    loop_quiet :
        leb_ℤ q.timestamp_ms entry_time ≡ false
        → check (raise_peak peak q.price) q ≡ none
        → loop peak (q ∷ qs) ≡ loop (raise_peak peak q.price) qs
    unfolding trailing_loop
    loop_quiet h e = rw (h, e)

  -- The three ways of one round.
  data Round (peak : F) (q : PriceTimeseriesPoint F) : Type 0 where
    early : leb_ℤ q.timestamp_ms entry_time ≡ true → Round peak q
    found :
        (exit : ExitSignal F)
        → leb_ℤ q.timestamp_ms entry_time ≡ false
        → check (raise_peak peak q.price) q ≡ some exit
        → Round peak q
    quiet :
        leb_ℤ q.timestamp_ms entry_time ≡ false
        → check (raise_peak peak q.price) q ≡ none
        → Round peak q

  round : (peak : F) (q : PriceTimeseriesPoint F) → Round peak q
  round peak q = elim (Bool-cases (leb_ℤ q.timestamp_ms entry_time)) [
    | inl h ↦ early h
    | inr h ↦ elim (Option-cases (check (raise_peak peak q.price) q)) [
      | inl e ↦ quiet h e
      | inr (x, e) ↦ found x h e
    ]
  ]

  -- The loop breaks off at the first price point after entry that triggers: no point after entry
  -- before it does, the exit is the one that the tests give there, and the peak is that of the
  -- entry price and the prices after entry up to that point.
  pub trailing_loop_first :
      (peak : F) (points : List (PriceTimeseriesPoint F)) {exit : ExitSignal F}
      → (loop peak points).1 ≡ some exit
      → FirstExit peak points (loop peak points).0 exit
  trailing_loop_first peak [] h = absurd (unfold trailing_loop in ground arith)
  trailing_loop_first peak (q ∷ qs) {exit} h =
      go (round peak q) (trailing_loop_first peak qs)
        (trailing_loop_first (raise_peak peak q.price) qs)
    where
      go :
          Round peak q
          → ((loop peak qs).1 ≡ some exit → FirstExit peak qs (loop peak qs).0 exit)
          → ((loop (raise_peak peak q.price) qs).1 ≡ some exit
              → FirstExit (raise_peak peak q.price) qs (loop (raise_peak peak q.price) qs).0 exit)
          → FirstExit peak (q ∷ qs) (loop peak (q ∷ qs)).0 exit
      go (early e) ih _ =
          let step = loop_early peak q qs e in
          rw step (FirstExit-cons peak peak q qs (inl e) (rw e) (ih (rw step at h)))
      go (quiet e n) _ ih =
          let step = loop_quiet peak q qs e n in
          rw step
            (FirstExit-cons peak (raise_peak peak q.price) q qs (inr n) (rw e) (ih (rw step at h)))
      go (found x e c) _ _ =
          let step = loop_found peak q qs e c in
          let same : some x ≡ some exit = rw step at h in
          rw step (record {
            before = [];
            point = q;
            after = qs;
            split = refl;
            quiet_before = tt;
            after_entry = e;
            peak_then = refl;
            triggers = c ∙ same;
          })

  -- No look-ahead: once the loop exits, the points behind do not matter.
  pub trailing_loop-append :
      (peak : F) (points later : List (PriceTimeseriesPoint F)) {exit : ExitSignal F}
      → (loop peak points).1 ≡ some exit
      → loop peak (points ++ later) ≡ loop peak points
  trailing_loop-append peak [] later h = absurd (unfold trailing_loop in ground arith)
  trailing_loop-append peak (q ∷ qs) later h = elim (round peak q) [
    | early e ↦
        rw (loop_early peak q (qs ++ later) e, loop_early peak q qs e)
          (trailing_loop-append peak qs later (rw (loop_early peak q qs e) at h))
    | found x e c ↦ rw (loop_found peak q (qs ++ later) e c, loop_found peak q qs e c)
    | quiet e n ↦
        rw (loop_quiet peak q (qs ++ later) e n, loop_quiet peak q qs e n)
          (trailing_loop-append (raise_peak peak q.price) qs later
            (rw (loop_quiet peak q qs e n) at h))
  ]

  -- Without an exit no point after entry triggers.
  pub trailing_loop-none :
      (peak : F) (points : List (PriceTimeseriesPoint F))
      → (loop peak points).1 ≡ none
      → Quiet peak points
  trailing_loop-none peak [] h = tt
  trailing_loop-none peak (q ∷ qs) h = elim (round peak q) [
    | early e ↦ (inl e, rw e (trailing_loop-none peak qs (rw (loop_early peak q qs e) at h)))
    | found x e c ↦
        let same : some x ≡ none = rw (loop_found peak q qs e c) at h in absurd (ground arith)
    | quiet e n ↦ (
      inr n,
      rw e (trailing_loop-none (raise_peak peak q.price) qs (rw (loop_quiet peak q qs e n) at h)),
    )
  ]

  -- Without an exit the peak is that of all the points.
  pub trailing_loop-none_peak :
      (peak : F) (points : List (PriceTimeseriesPoint F))
      → (loop peak points).1 ≡ none
      → (loop peak points).0 ≡ peak_of peak points
  unfolding trailing_loop
  trailing_loop-none_peak peak [] h = refl
  trailing_loop-none_peak peak (q ∷ qs) h = elim (round peak q) [
    | early e ↦
        rw (loop_early peak q qs e, e)
          (trailing_loop-none_peak peak qs (rw (loop_early peak q qs e) at h))
    | found x e c ↦
        let same : some x ≡ none = rw (loop_found peak q qs e c) at h in absurd (ground arith)
    | quiet e n ↦
        rw (loop_quiet peak q qs e n, e)
          (trailing_loop-none_peak (raise_peak peak q.price) qs
            (rw (loop_quiet peak q qs e n) at h))
  ]
