-- ===== src/Agent/Measurements/Events.antt =====
-- What happens to the measurements of internal/agent/runner.go, in any order: attempts that begin and
-- end, and the account of them.
use load_observatory.Prelude.{
  ℕ, zero, suc, ◌+◌, ℤ, ◌≡◌, sym, ap, ◌∙◌, inl, inr, Option-cases, List, [], ◌∷◌, Option, none,
  some, arith, String,
}
use mathlib.Core.Option.{some-ne-none}
use load_observatory.Prelude.Floats.{Floats}
use load_observatory.Core.Types.{RunConfig}
use load_observatory.Agent.Records.{Measurements, Attempt, ModelTiming, Usage}
use load_observatory.Agent.Measurements.{
  reset, begin_attempt, record_http_failure, record_transport_error, record_cancelled, on_timeline,
  on_scenario, record_timeline, keep_samples,
}
use load_observatory.Agent.Success.{record_success, maybe_stop}

-- A call of beginAttempt, recordSuccess, recordHTTPFailure, recordTransportError or recordCancelled.
pub data Event (F : Type 0) : Type 0 where
  began : ℤ → String → Option ℤ → Event F
  succeeded : ℤ → Attempt → ℤ → ModelTiming → ℕ → Usage → RunConfig F → Event F
  refused : ℤ → Attempt → ℤ → ℕ → List ℕ → Event F
  broke : ℤ → Attempt → List ℕ → Event F
  was_cut : ℤ → Attempt → Event F

module _ {F : Type 0} ⦃fl : Floats F⦄ where
  unfoldable pub handle : Measurements → Event F → Measurements
  handle m (began now scenario scheduled) = (begin_attempt now scenario scheduled m).0
  handle m (succeeded now call latency timing status usage config) =
      record_success now call latency timing status usage config m
  handle m (refused now call latency status message) =
      record_http_failure now call latency status message m
  handle m (broke now call message) = record_transport_error now call message m
  handle m (was_cut now call) = record_cancelled now call m

  unfoldable pub handle_all : Measurements → List (Event F) → Measurements
  handle_all m [] = m
  handle_all m (event ∷ events) = handle_all (handle m event) events

module _ {F : Type 0} where
  -- The attempts that are under way after an event; none if one ends that did not begin.
  abbrev pub under_way : ℕ → Event F → Option ℕ
  under_way n (began now scenario scheduled) = some (suc n)
  under_way zero _ = none
  under_way (suc n) _ = some n

  abbrev pub under_way_all : ℕ → List (Event F) → Option ℕ
  under_way_all n [] = some n
  under_way_all n (event ∷ events) = elim (under_way n event) [
    | none ↦ none
    | some k ↦ under_way_all k events
  ]

  abbrev carry_on : List (Event F) → Option ℕ → Option ℕ
  carry_on events none = none
  carry_on events (some k) = under_way_all k events

-- Every attempt that was issued has ended in one of the four ways, but for those under way.
abbrev pub Balanced : ℕ → Measurements → Type 0
Balanced n m = m.issued ≡ m.successes + m.http_failures + m.transport_errors + m.cancelled + n

module _ {F : Type 0} ⦃fl : Floats F⦄ where
  Balanced-handle :
      (n k : ℕ) (m : Measurements) (event : Event F)
      → under_way n event ≡ some k
      → Balanced n m
      → Balanced k (handle m event)
  unfolding handle begin_attempt record_success record_http_failure record_transport_error
      record_cancelled on_timeline on_scenario record_timeline keep_samples maybe_stop
  Balanced-handle n k m (began now scenario scheduled) e h = ground (arith, e, h)
  Balanced-handle zero k m (succeeded now call latency timing status usage config) e h =
      ground (arith, e)
  Balanced-handle (suc n) k m (succeeded now call latency timing status usage config) e h =
      ground (arith, e, h)
  Balanced-handle zero k m (refused now call latency status message) e h = ground (arith, e)
  Balanced-handle (suc n) k m (refused now call latency status message) e h = ground (arith, e, h)
  Balanced-handle zero k m (broke now call message) e h = ground (arith, e)
  Balanced-handle (suc n) k m (broke now call message) e h = ground (arith, e, h)
  Balanced-handle zero k m (was_cut now call) e h = ground (arith, e)
  Balanced-handle (suc n) k m (was_cut now call) e h = ground (arith, e, h)

  Balanced-handle_all :
      (n k : ℕ) (m : Measurements) (events : List (Event F))
      → under_way_all n events ≡ some k
      → Balanced n m
      → Balanced k (handle_all m events)
  unfolding handle_all
  Balanced-handle_all n k m [] e h = ground (arith, e, h)
  Balanced-handle_all n k m (event ∷ events) e h = elim (Option-cases (under_way n event)) [
    | inl stray ↦ absurd (some-ne-none k (sym e ∙ ap (carry_on events) stray))
    | inr (j, known) ↦
        Balanced-handle_all j k (handle m event) events (sym (ap (carry_on events) known) ∙ e)
          (Balanced-handle n j m event known h)
  ]

  -- After a reset, whatever attempts begin and end in whatever order, as long as only attempts that began
  -- end: the number issued is the number of successes, refusals, transport errors and cancelled attempts
  -- together with the attempts under way.
  pub handle_all-Balanced :
      (before : Measurements) (now : ℤ) (events : List (Event F)) (n : ℕ)
      → under_way_all 0 events ≡ some n
      → Balanced n (handle_all (reset now before) events)
  unfolding reset
  handle_all-Balanced before now events n e =
      Balanced-handle_all 0 n (reset now before) events e (omega arith)
