-- ===== src/Measurements/Reference.antt =====
-- What the profiler of include/measurements.h has in its arrays, by the pairs of a start and a stop.
use ssmp.Base.{
  ℕ, ◌+◌, ◌-◌, ◌^◌, ◌<◌, ◌≡◌, ◌≢◌, arith, ◌∙◌, Bool, true, false, List, [], ◌∷◌, Option, none, some,
  get_or, set, length, length-set, get_or-set, if◌then◌else◌, ◌==◌,
}
use ssmp.Measurements.{Profile, u64, add_ticks, Event, start, stop, exclude}

-- What one position has seen: the last start without a stop, the ticks between the starts and their
-- stops, and the number of these since the last exclusion.
pub record Seen : Type 0 where
  pub running : Option ℕ
  pub ticks : ℕ
  pub samples : ℕ

abbrev pub nothing_seen : Seen
nothing_seen = record { running = none; ticks = 0; samples = 0 }

-- the ticks of a pair, in 64 bits
abbrev pub lasted : (correction since now : ℕ) → ℕ
lasted correction since now = u64 (now + 2 ^ 64 - since + 2 ^ 64 - correction)

unfoldable pub see : (correction position : ℕ) → Event → Seen → Seen
see correction position (start at now) s =
    if at == position then record s { running = some now } else s
see correction position (stop at now) s =
    if at == position
    then elim s.running [
      | none ↦ s
      | some since ↦ record {
        running = none;
        ticks = s.ticks + lasted correction since now;
        samples = s.samples + 1;
      }
    ]
    else s
see correction position (exclude at) s = if at == position then record s { samples = 0 } else s

unfoldable pub see_all : (correction position : ℕ) → List Event → Seen → Seen
unfolding see
see_all correction position [] s = s
see_all correction position (e ∷ es) s =
    see_all correction position es (see correction position e s)

abbrev pub is_running : Option ℕ → Bool
is_running none = false
is_running (some t) = true

-- The arrays have 16 entries, and at `position` what was seen there.
pub record Shows (position : ℕ) (s : Seen) (p : Profile) : Type 0 where
  pub entries : length p.entry_time ≡ 16
  pub valids : length p.entry_time_valid ≡ 16
  pub sums : length p.total_sum_ticks ≡ 16
  pub counts : length p.total_samples ≡ 16
  pub since : (t : ℕ) → s.running ≡ some t → get_or p.entry_time position 0 ≡ t
  pub valid : get_or p.entry_time_valid position false ≡ is_running s.running
  pub sum : get_or p.total_sum_ticks position 0 ≡ u64 s.ticks
  pub count : get_or p.total_samples position 0 ≡ u64 s.samples

abbrev pub position_of : Event → ℕ
position_of (start at now) = at
position_of (stop at now) = at
position_of (exclude at) = at

-- Every event is about one of the 16 positions.
unfoldable pub InRange : List Event → Type 0
InRange [] = Unit
InRange (e ∷ es) = (position_of e < 16) × InRange es

set_here :
    {A : Type 0} (xs : List A) (i : ℕ) (v d : A)
    → length xs ≡ 16
    → i < 16
    → get_or (set xs i v) i d ≡ v
set_here xs i v d long lt = get_or-set xs i i v d (omega (arith, long)) ∙ ground arith

set_there :
    {A : Type 0} (xs : List A) (i j : ℕ) (v d : A)
    → length xs ≡ 16
    → j < 16
    → i ≢ j
    → get_or (set xs i v) j d ≡ get_or xs j d
set_there xs i j v d long lt ne = get_or-set xs i j v d (omega (arith, long)) ∙ ground (arith, ne)

-- the arrays after a start, a stop that counts, and an exclusion
abbrev pub started : (at now : ℕ) → Profile → Profile
started at now p = record p {
  entry_time = set p.entry_time at now;
  entry_time_valid = set p.entry_time_valid at true;
}

abbrev pub stopped : (correction at now : ℕ) → Profile → Profile
stopped correction at now p = record p {
  entry_time_valid = set p.entry_time_valid at false;
  total_sum_ticks =
      set p.total_sum_ticks at
        (add_ticks now (get_or p.entry_time at 0) correction (get_or p.total_sum_ticks at 0));
  total_samples = set p.total_samples at (u64 (get_or p.total_samples at 0 + 1));
}

abbrev pub excluded : (at : ℕ) → Profile → Profile
excluded at p = record p { total_samples = set p.total_samples at 0 }

module _ (position : ℕ) (inside : position < 16) (s : Seen) (p : Profile)
    (h : Shows position s p) where
  pub started-Shows :
      (now : ℕ) → Shows position (record s { running = some now }) (started position now p)
  started-Shows now = record {
    entries = length-set p.entry_time position now ∙ h.entries;
    valids = length-set p.entry_time_valid position true ∙ h.valids;
    sums = h.sums;
    counts = h.counts;
    since = λ t e. set_here p.entry_time position now 0 h.entries inside ∙ ground (arith, e);
    valid = set_here p.entry_time_valid position true false h.valids inside;
    sum = h.sum;
    count = h.count;
  }

  pub started_elsewhere : (at now : ℕ) → at ≢ position → Shows position s (started at now p)
  started_elsewhere at now ne = record {
    entries = length-set p.entry_time at now ∙ h.entries;
    valids = length-set p.entry_time_valid at true ∙ h.valids;
    sums = h.sums;
    counts = h.counts;
    since = λ t e. set_there p.entry_time at position now 0 h.entries inside ne ∙ h.since t e;
    valid = set_there p.entry_time_valid at position true false h.valids inside ne ∙ h.valid;
    sum = h.sum;
    count = h.count;
  }

  pub stopped-Shows :
      (correction since now : ℕ)
      → s.running ≡ some since
      → Shows position
          (record {
            running = none;
            ticks = s.ticks + lasted correction since now;
            samples = s.samples + 1;
          })
          (stopped correction position now p)
  unfolding add_ticks
  stopped-Shows correction since now e = record {
    entries = h.entries;
    valids = length-set p.entry_time_valid position false ∙ h.valids;
    sums = length-set p.total_sum_ticks position _ ∙ h.sums;
    counts = length-set p.total_samples position _ ∙ h.counts;
    since = λ t none_some. absurd (cc);
    valid = set_here p.entry_time_valid position false false h.valids inside;
    sum =
        set_here p.total_sum_ticks position _ 0 h.sums inside
        ∙ omega (arith, h.sum, h.since since e);
    count = set_here p.total_samples position _ 0 h.counts inside ∙ omega (arith, h.count);
  }

  pub stopped_elsewhere :
      (correction at now : ℕ) → at ≢ position → Shows position s (stopped correction at now p)
  stopped_elsewhere correction at now ne = record {
    entries = h.entries;
    valids = length-set p.entry_time_valid at false ∙ h.valids;
    sums = length-set p.total_sum_ticks at _ ∙ h.sums;
    counts = length-set p.total_samples at _ ∙ h.counts;
    since = h.since;
    valid = set_there p.entry_time_valid at position false false h.valids inside ne ∙ h.valid;
    sum = set_there p.total_sum_ticks at position _ 0 h.sums inside ne ∙ h.sum;
    count = set_there p.total_samples at position _ 0 h.counts inside ne ∙ h.count;
  }

  pub excluded-Shows : Shows position (record s { samples = 0 }) (excluded position p)
  excluded-Shows = record {
    entries = h.entries;
    valids = h.valids;
    sums = h.sums;
    counts = length-set p.total_samples position 0 ∙ h.counts;
    since = h.since;
    valid = h.valid;
    sum = h.sum;
    count = set_here p.total_samples position 0 0 h.counts inside;
  }

  pub excluded_elsewhere : (at : ℕ) → at ≢ position → Shows position s (excluded at p)
  excluded_elsewhere at ne = record {
    entries = h.entries;
    valids = h.valids;
    sums = h.sums;
    counts = length-set p.total_samples at 0 ∙ h.counts;
    since = h.since;
    valid = h.valid;
    sum = h.sum;
    count = set_there p.total_samples at position 0 0 h.counts inside ne ∙ h.count;
  }
