-- ===== src/Measurements/Run.antt =====
-- A run of the profiler of include/measurements.h.
use ssmp.Base.{
  ℕ, ◌+◌, ◌<◌, ◌≡◌, ◌≢◌, arith, refl, sym, ap, subst, ◌∙◌, true, false, List, [], ◌∷◌, none, some,
  get_or, get_or-replicate, ℕ_discrete, Bool-cases, Option-cases, inl, inr,
}
use ssmp.Base.Outcome.{done, >>=_returns}
use ssmp.Measurements.{
  Profile, entry_time_pos, exit_time_pos, exclude_entry, Event, start, stop, exclude, perform, run,
  no_samples,
}
use ssmp.Measurements.Reference.{
  Seen, nothing_seen, lasted, see, see_all, is_running, Shows, position_of, InRange, started,
  stopped, excluded, started-Shows, started_elsewhere, stopped-Shows, stopped_elsewhere,
  excluded-Shows, excluded_elsewhere,
}

module _ (correction : ℕ) where
  see_elsewhere :
      (position : ℕ) (e : Event) (s : Seen)
      → position_of e ≢ position
      → see correction position e s ≡ s
  unfolding see
  see_elsewhere position (start at now) s ne = ground (arith, ne)
  see_elsewhere position (stop at now) s ne = ground (arith, ne)
  see_elsewhere position (exclude at) s ne = ground (arith, ne)

  see_start :
      (at now : ℕ) (s : Seen) → see correction at (start at now) s ≡ record s { running = some now }
  unfolding see
  see_start at now s = ground arith

  see_exclude : (at : ℕ) (s : Seen) → see correction at (exclude at) s ≡ record s { samples = 0 }
  unfolding see
  see_exclude at s = ground arith

  see_stop_none : (at now : ℕ) (s : Seen) → s.running ≡ none → see correction at (stop at now) s ≡ s
  unfolding see
  see_stop_none at now s e = ground (arith, e)

  see_stop_some :
      (at now since : ℕ) (s : Seen)
      → s.running ≡ some since
      → see correction at (stop at now) s ≡ record {
        running = none;
        ticks = s.ticks + lasted correction since now;
        samples = s.samples + 1;
      }
  unfolding see
  see_stop_some at now since s e = ground (arith, e)

  perform_start :
      (at now : ℕ) (p : Profile)
      → at < 16
      → perform correction (start at now) p ≡ done (started at now p)
  unfolding perform entry_time_pos
  perform_start at now p lt = ground arith

  perform_exclude :
      (at : ℕ) (p : Profile) → at < 16 → perform correction (exclude at) p ≡ done (excluded at p)
  unfolding perform exclude_entry
  perform_exclude at p lt = ground arith

  perform_stop :
      (at now : ℕ) (p : Profile)
      → at < 16
      → get_or p.entry_time_valid at false ≡ true
      → perform correction (stop at now) p ≡ done (stopped correction at now p)
  unfolding perform exit_time_pos
  perform_stop at now p lt e = ground (arith, e)

  perform_stop_idle :
      (at now : ℕ) (p : Profile)
      → at < 16
      → get_or p.entry_time_valid at false ≡ false
      → perform correction (stop at now) p ≡ done p
  unfolding perform exit_time_pos
  perform_stop_idle at now p lt e = ground (arith, e)

  module _ (position : ℕ) (inside : position < 16) where
    abbrev Step : Event → Seen → Profile → Type 0
    Step e s p =
        (p' : Profile) × (perform correction e p ≡ done p')
        × Shows position (see correction position e s) p'

    stop_here :
        (now : ℕ) (s : Seen) (p : Profile) → Shows position s p → Step (stop position now) s p
    stop_here now s p h = elim (Option-cases s.running) [
      | inl idle ↦ (
        p,
        perform_stop_idle position now p inside (h.valid ∙ ap is_running idle),
        subst (λ x. Shows position x p) (sym (see_stop_none position now s idle)) h,
      )
      | inr (since, running) ↦ (
        stopped correction position now p,
        perform_stop position now p inside (h.valid ∙ ap is_running running),
        subst (λ x. Shows position x (stopped correction position now p))
            (sym (see_stop_some position now since s running))
            (stopped-Shows position inside s p h correction since now running),
      )
    ]

    stop_elsewhere :
        (at now : ℕ) (s : Seen) (p : Profile)
        → at < 16
        → at ≢ position
        → Shows position s p
        → Step (stop at now) s p
    stop_elsewhere at now s p lt ne h =
        let same = sym (see_elsewhere position (stop at now) s ne) in
        elim (Bool-cases (get_or p.entry_time_valid at false)) [
          | inl valid ↦ (
            stopped correction at now p,
            perform_stop at now p lt valid,
            subst (λ x. Shows position x (stopped correction at now p)) same
                (stopped_elsewhere position inside s p h correction at now ne),
          )
          | inr idle ↦
              (p, perform_stop_idle at now p lt idle, subst (λ x. Shows position x p) same h)
        ]

    perform-Shows :
        (e : Event) (s : Seen) (p : Profile) → position_of e < 16 → Shows position s p → Step e s p
    perform-Shows (start at now) s p lt h = elim (ℕ_discrete at position) [
      | yes here ↦
          subst (λ k. Step (start k now) s p) (sym here)
            (
              started position now p,
              perform_start position now p inside,
              subst (λ x. Shows position x (started position now p))
                  (sym (see_start position now s)) (started-Shows position inside s p h now),
            )
      | no elsewhere ↦ (
        started at now p,
        perform_start at now p lt,
        subst (λ x. Shows position x (started at now p))
            (sym (see_elsewhere position (start at now) s elsewhere))
            (started_elsewhere position inside s p h at now elsewhere),
      )
    ]
    perform-Shows (stop at now) s p lt h = elim (ℕ_discrete at position) [
      | yes here ↦ subst (λ k. Step (stop k now) s p) (sym here) (stop_here now s p h)
      | no elsewhere ↦ stop_elsewhere at now s p lt elsewhere h
    ]
    perform-Shows (exclude at) s p lt h = elim (ℕ_discrete at position) [
      | yes here ↦
          subst (λ k. Step (exclude k) s p) (sym here)
            (
              excluded position p,
              perform_exclude position p inside,
              subst (λ x. Shows position x (excluded position p)) (sym (see_exclude position s))
                  (excluded-Shows position inside s p h),
            )
      | no elsewhere ↦ (
        excluded at p,
        perform_exclude at p lt,
        subst (λ x. Shows position x (excluded at p))
            (sym (see_elsewhere position (exclude at) s elsewhere))
            (excluded_elsewhere position inside s p h at elsewhere),
      )
    ]

    run-Shows_from :
        (es : List Event) (s : Seen) (p : Profile)
        → InRange es
        → Shows position s p
        → (p' : Profile) × (run correction es p ≡ done p')
          × Shows position (see_all correction position es s) p'
    unfolding run see_all InRange
    run-Shows_from [] s p ok h = (p, refl, h)
    run-Shows_from (e ∷ es) s p (lt, ok) h =
        let (p', first, h') = perform-Shows e s p lt h in
        let (p'', later, h'') = run-Shows_from es (see correction position e s) p' ok h' in
        (p'', >>=_returns (perform correction e p) (run correction es) first later, h'')

    no_samples-Shows : Shows position nothing_seen no_samples
    no_samples-Shows = record {
      entries = refl;
      valids = refl;
      sums = refl;
      counts = refl;
      since = λ t e. absurd (cc);
      valid = get_or-replicate 16 false position;
      sum = get_or-replicate 16 0 position;
      count = get_or-replicate 16 0 position;
    }

    -- Starts, stops and exclusions of the 16 positions, in any order, all succeed, and leave at each
    -- position: the validity says whether it has been started and not stopped, and then the entry time is
    -- that of the last start; the sum, in 64 bits, has the ticks of the pairs of a start, the last one
    -- before its stop, and the stop, each less the correction; the samples, in 64 bits, are the number of
    -- these pairs since the last exclusion.
    pub run-Shows :
        (es : List Event)
        → InRange es
        → (p : Profile) × (run correction es no_samples ≡ done p)
          × Shows position (see_all correction position es nothing_seen) p
    run-Shows es ok = run-Shows_from es nothing_seen no_samples ok no_samples-Shows
