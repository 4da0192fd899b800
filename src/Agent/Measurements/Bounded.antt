-- ===== src/Agent/Measurements/Bounded.antt =====
-- The bounds that keep the measurements of internal/agent/runner.go small and consistent.
use load_observatory.Prelude.{
  ℕ, suc, ◌+◌, ◌≤◌, ℤ, eqb_ℤ, ltb, ◌≡◌, refl, List, [], ◌∷◌, length, length-append, All, arith,
  Bool, true, false, Bool-cases, inl, inr, if◌then◌else◌,
}
use mathlib.Core.List.{take}
use load_observatory.Prelude.Floats.{Floats}
use load_observatory.Agent.Records.{
  Measurements, TimelineMeasurement, TimelineOutcome, timeline_success, timeline_failure,
  timeline_cancelled, zero_timeline, max_timeline_points, max_second_samples,
}
use load_observatory.Agent.Measurements.{
  at_second, max_errors, keep_latency, record_outcome, count_issued, append_error, reset,
  begin_attempt, record_http_failure, record_transport_error, record_cancelled, on_timeline,
  on_scenario, record_timeline, keep_samples,
}
use load_observatory.Agent.Success.{record_success, maybe_stop}
use load_observatory.Agent.Measurements.Events.{
  Event, began, succeeded, refused, broke, was_cut, handle, handle_all,
}

-- A second of the timeline: what completed is what succeeded or failed, and few latencies are kept.
abbrev pub GoodSecond : ℤ × TimelineMeasurement → Type 0
GoodSecond (second, point) =
    (point.completed ≡ point.successes + point.failures)
    × (length point.latencies ≤ max_second_samples)

abbrev pub GoodTimeline : List (ℤ × TimelineMeasurement) → Type 0
GoodTimeline timeline = (length timeline ≤ max_timeline_points) × All GoodSecond timeline

pub record IsBounded (m : Measurements) : Type 0 where
  pub timeline : GoodTimeline m.timeline
  pub errors : length m.errors ≤ max_errors
  pub steady : m.steady_samples ≤ m.successes
  pub good : m.goodput ≤ m.successes

-- A change that keeps the points as they should be.
abbrev Keeps : (TimelineMeasurement → TimelineMeasurement) → Type 0
Keeps change =
    (second : ℤ) (point : TimelineMeasurement)
    → GoodSecond (second, point)
    → GoodSecond (second, change point)

All-at_second :
    (room : Bool) (second : ℤ) (change : TimelineMeasurement → TimelineMeasurement)
    (timeline : List (ℤ × TimelineMeasurement))
    → Keeps change
    → All GoodSecond timeline
    → All GoodSecond (at_second room second change timeline)
unfolding at_second zero_timeline
All-at_second false second change [] k h = tt
All-at_second true second change [] k h = (k second zero_timeline (refl, omega arith), tt)
All-at_second room second change ((held, point) ∷ rest) k h =
    elim (Bool-cases (eqb_ℤ held second)) [
      | inl same ↦ rw (same, at_second) (k held point h.0, h.1)
      | inr differ ↦ rw (differ, at_second) (h.0, All-at_second room second change rest k h.1)
    ]

length-at_second :
    (room : Bool) (second : ℤ) (change : TimelineMeasurement → TimelineMeasurement)
    (timeline : List (ℤ × TimelineMeasurement))
    → length (at_second room second change timeline)
      ≤ (if room then suc (length timeline) else length timeline)
unfolding at_second
length-at_second false second change [] = omega arith
length-at_second true second change [] = omega arith
length-at_second room second change ((held, point) ∷ rest) =
    ground (arith, length-at_second room second change rest)

GoodTimeline-at_second :
    (second : ℤ) (change : TimelineMeasurement → TimelineMeasurement)
    (timeline : List (ℤ × TimelineMeasurement))
    → Keeps change
    → GoodTimeline timeline
    → GoodTimeline (at_second (ltb (length timeline) max_timeline_points) second change timeline)
GoodTimeline-at_second second change timeline k (few, all) = (
  ground (
    arith,
    few,
    length-at_second (ltb (length timeline) max_timeline_points) second change timeline,
  ),
  All-at_second (ltb (length timeline) max_timeline_points) second change timeline k all,
)

length-keep_latency :
    (latency : ℤ) (latencies : List ℤ)
    → length latencies ≤ max_second_samples
    → length (keep_latency latency latencies) ≤ max_second_samples
unfolding keep_latency
length-keep_latency latency latencies h = ground (arith, length-append latencies (latency ∷ []))

Keeps-record_outcome :
    (latency : ℤ) (outcome : TimelineOutcome) → Keeps (record_outcome latency outcome)
unfolding record_outcome
Keeps-record_outcome latency timeline_success second point (sum, few) =
    (omega arith, length-keep_latency latency point.latencies few)
Keeps-record_outcome latency timeline_failure second point (sum, few) =
    (omega arith, length-keep_latency latency point.latencies few)
Keeps-record_outcome latency timeline_cancelled second point h = h

Keeps-count_issued : Keeps count_issued
unfolding count_issued
Keeps-count_issued second point h = h

length-append_error :
    (message : List ℕ) (errors : List (List ℕ))
    → length errors ≤ max_errors
    → length (append_error message errors) ≤ max_errors
unfolding append_error
length-append_error message errors h =
    ground (arith, h, length-append errors (take 180 message ∷ []))

module _ {F : Type 0} ⦃fl : Floats F⦄ where
  IsBounded-handle : (m : Measurements) (event : Event F) → IsBounded m → IsBounded (handle m event)
  unfolding handle begin_attempt record_success record_http_failure record_transport_error
      record_cancelled on_timeline on_scenario record_timeline keep_samples maybe_stop
  IsBounded-handle m (began now scenario scheduled) h = record {
    timeline = GoodTimeline-at_second _ count_issued m.timeline Keeps-count_issued h.timeline;
    errors = h.errors;
    steady = h.steady;
    good = h.good;
  }
  IsBounded-handle m (succeeded now call latency timing status usage config) h = record {
    timeline =
        GoodTimeline-at_second _ (record_outcome latency timeline_success) m.timeline
          (Keeps-record_outcome latency timeline_success) h.timeline;
    errors = h.errors;
    steady = ground (arith, h.steady);
    good = ground (arith, h.good);
  }
  IsBounded-handle m (refused now call latency status message) h = record {
    timeline =
        GoodTimeline-at_second _ (record_outcome latency timeline_failure) m.timeline
          (Keeps-record_outcome latency timeline_failure) h.timeline;
    errors = length-append_error message m.errors h.errors;
    steady = h.steady;
    good = h.good;
  }
  IsBounded-handle m (broke now call message) h = record {
    timeline =
        GoodTimeline-at_second _ (record_outcome _ timeline_failure) m.timeline
          (Keeps-record_outcome _ timeline_failure) h.timeline;
    errors = length-append_error message m.errors h.errors;
    steady = h.steady;
    good = h.good;
  }
  IsBounded-handle m (was_cut now call) h = record {
    timeline =
        GoodTimeline-at_second _ (record_outcome _ timeline_cancelled) m.timeline
          (Keeps-record_outcome _ timeline_cancelled) h.timeline;
    errors = h.errors;
    steady = h.steady;
    good = h.good;
  }

  IsBounded-handle_all :
      (m : Measurements) (events : List (Event F)) → IsBounded m → IsBounded (handle_all m events)
  unfolding handle_all
  IsBounded-handle_all m [] h = h
  IsBounded-handle_all m (event ∷ events) h =
      IsBounded-handle_all (handle m event) events (IsBounded-handle m event h)

  -- After a reset and any events: the timeline has at most 4200 seconds, each with at most 1000 latencies
  -- and with as many attempts completed as succeeded or failed; at most 20 errors are kept; and no more
  -- attempts are steady, or count as goodput, than succeeded.
  pub handle_all-IsBounded :
      (before : Measurements) (now : ℤ) (events : List (Event F))
      → IsBounded (handle_all (reset now before) events)
  unfolding reset
  handle_all-IsBounded before now events = IsBounded-handle_all (reset now before) events record {
    timeline = (omega arith, tt);
    errors = omega arith;
    steady = omega arith;
    good = omega arith;
  }
