-- ===== src/Monitor.antt =====
-- internal/monitor/monitor.go: the resolution of metrics. What Prometheus answers to an expression is a
-- parameter, decoded from JSON; one sample counts as one instant, in milliseconds, and its answers do
-- not change while it is taken.
pub mod Table
pub mod Attempts
pub mod History
pub mod Labels
use Prim.Native.Nat.{ℕ}
use load_observatory.Prelude.{
  ℤ, pos, ltb_ℤ, ◌+ℤ◌, ◌==◌, if◌then◌else◌, Bool, true, false, ◌&&◌, not, List, [], ◌∷◌, Option,
  none, some, String,
}
use load_observatory.Prelude.Floats.{Floats}
use load_observatory.Prelude.Map.{lookup, insert, delete}
use load_observatory.Core.Types.{Metric, MonitoringSample}
use load_observatory.Core.Server.{eqb_text}
use Table.{Candidate, MetricQuery, key_of, queries}

-- A decoded answer: for each series its values, where a value that is no JSON text is `none`.
abbrev pub Payload : Type 0
Payload = List (List (Option String))

-- `absentRetryInterval`, in milliseconds.
abbrev pub absent_retry_interval : ℤ
absent_retry_interval = pos 60000

-- `resolver`, keyed by the number of the metric.
pub record Resolver : Type 0 where
  pub resolved : List (ℕ × Candidate)
  pub absent : List (ℕ × ℤ)

abbrev pub new_resolver : Resolver
new_resolver = record { resolved = []; absent = [] }

-- What resolve finds: the remembered candidate's value, a wait, another candidate's value, or nothing.
pub data Outcome (F : Type 0) : Type 0 where
  recalled found : Candidate → F → Outcome F
  waiting missing : Outcome F

-- A sample under way: the resolver, the metrics found so far and the backend that named itself first.
pub record Collected (F : Type 0) : Type 0 where
  pub state : Resolver
  pub metrics : Metric → Option F
  pub backend : String

module _ {F : Type 0} ⦃fl : Floats F⦄ where
  -- query: the second value of the first series, if it is a number.
  unfoldable pub query : (String → Option F) → Option Payload → Option F
  query parse_float none = none
  query parse_float (some []) = none
  query parse_float (some ([] ∷ more)) = none
  query parse_float (some ((time ∷ []) ∷ more)) = none
  query parse_float (some ((time ∷ none ∷ rest) ∷ more)) = none
  query parse_float (some ((time ∷ some raw ∷ rest) ∷ more)) = elim (parse_float raw) [
    | none ↦ none
    | some value ↦ if not (fl.eq value value) then none else some value
  ]

module _ {F : Type 0} where
  -- The loop over the candidates: the first that answers.
  unfoldable pub probe : (String → Option F) → List Candidate → Outcome F
  probe ask [] = missing
  probe ask (option ∷ rest) = elim (ask option.expression) [
    | some value ↦ found option value
    | none ↦ probe ask rest
  ]

  -- The choice of resolve, from what the resolver holds for the metric.
  unfoldable pub attempt :
      (String → Option F) → ℤ → Option Candidate → Option ℤ → List Candidate → Outcome F
  attempt ask now (some remembered) retry_at candidates = elim (ask remembered.expression) [
    | some value ↦ recalled remembered value
    | none ↦ probe ask candidates
  ]
  attempt ask now none none candidates = probe ask candidates
  attempt ask now none (some retry_at) candidates =
      if ltb_ℤ now retry_at then waiting else probe ask candidates

  -- What an outcome leaves in the resolver.
  unfoldable pub note : ℕ → ℤ → Outcome F → Resolver → Resolver
  note key now (recalled option value) state = state
  note key now waiting state = state
  note key now (found option value) state = record {
    resolved = insert key option state.resolved;
    absent = delete key state.absent;
  }
  note key now missing state = record {
    resolved = delete key state.resolved;
    absent = insert key (now +ℤ absent_retry_interval) state.absent;
  }

  unfoldable pub outcome_for : (String → Option F) → ℤ → Resolver → MetricQuery → Outcome F
  outcome_for ask now state q =
      attempt ask now (lookup (key_of q.key) state.resolved) (lookup (key_of q.key) state.absent)
        q.candidates

  abbrev pub value_of : Outcome F → Option F
  value_of (recalled option value) = some value
  value_of (found option value) = some value
  value_of waiting = none
  value_of missing = none

  abbrev pub backend_of : Outcome F → String
  backend_of (recalled option value) = option.backend
  backend_of (found option value) = option.backend
  backend_of waiting = ""
  backend_of missing = ""

  abbrev pub with_metric : Metric → Option F → (Metric → Option F) → Metric → Option F
  with_metric key none metrics other = metrics other
  with_metric key (some value) metrics other =
      if key_of key == key_of other then some value else metrics other

  unfoldable pub collect_one : (String → Option F) → ℤ → MetricQuery → Collected F → Collected F
  unfolding outcome_for note
  collect_one ask now q so_far =
      let outcome = outcome_for ask now so_far.state q in
      record {
        state = note (key_of q.key) now outcome so_far.state;
        metrics = with_metric q.key (value_of outcome) so_far.metrics;
        backend = if eqb_text so_far.backend "" then backend_of outcome else so_far.backend;
      }

  unfoldable pub collect : (String → Option F) → ℤ → List MetricQuery → Collected F → Collected F
  collect ask now [] so_far = so_far
  collect ask now (q ∷ rest) so_far = collect ask now rest (collect_one ask now q so_far)

  abbrev pub nothing_yet : Resolver → Collected F
  nothing_yet state = record { state = state; metrics = λ key. none; backend = "" }

  -- `len(metrics) == 0`, over the metrics that the table asks for.
  unfoldable pub none_found : List MetricQuery → (Metric → Option F) → Bool
  none_found [] metrics = true
  none_found (q ∷ rest) metrics = elim (metrics q.key) [
    | some value ↦ false
    | none ↦ none_found rest metrics
  ]

  abbrev pub is_none : Option F → Bool
  is_none none = true
  is_none (some value) = false

  -- The sample from what was collected.
  unfoldable pub report : Collected F → MonitoringSample F
  report c =
      let base : MonitoringSample F = record {
        at_second = pos 0;
        status = "collected";
        backend = c.backend;
        message = "";
        metrics = c.metrics;
      } in
      if none_found queries c.metrics
      then record base {
        status = "unavailable";
        backend = "";
        message = "Prometheus에서 알려진 지표를 찾지 못했습니다.";
      }
      else if is_none (c.metrics Metric.requests_waiting)
      then record base {
        status = "partial";
        message =
            "모델 서버 큐 지표를 찾을 수 없어 포화 여부를 판정할 수 없습니다. vLLM·SGLang·TGI의 /metrics가 Prometheus에 수집되는지 확인하세요.";
      }
      else if is_none (c.metrics Metric.dram_active)
      then record base {
        status = "partial";
        message = "DCGM 프로파일링 지표(DCGM_FI_PROF_*)를 수집할 수 없습니다. GPU_UTIL만으로는 GPU 포화를 판단할 수 없습니다.";
      }
      else base

  -- Sample for a client whose URL is set or not.
  unfoldable pub sample : Bool → (String → Option F) → ℤ → Resolver → Resolver × MonitoringSample F
  sample configured ask now state =
      if not configured
      then (
        state,
        record {
          at_second = pos 0;
          status = "unavailable";
          backend = "";
          message = "Prometheus URL not configured";
          metrics = λ key. none;
        },
      )
      else let c = collect ask now queries (nothing_yet state) in (c.state, report c)
