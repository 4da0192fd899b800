-- ===== src/Controller.antt =====
-- internal/controller/server.go: the handlers. A body is what its JSON decodes to, `none` if it does not;
-- an id in a path is its number, 0 if it is no id; a monitoring sample and the time come as arguments, as
-- do the orders in which a map is visited and the order of the shards' ids as texts (see Store/Views).
pub mod Defaults
pub mod Sampled
pub mod Created
pub mod Repeated
pub mod Routes
pub mod Changes
pub mod Reads
pub mod Sampling
pub mod Proxy
use Prim.Native.Nat.{ℕ}
use load_observatory.Prelude.{ℤ, if◌then◌else◌, Bool, not, List, Option, none, some}
use load_observatory.Prelude.Floats.{Floats}
use load_observatory.Core.Server.{ServerConfig, eqb_text}
use load_observatory.Core.Types.{
  Target, RunResult, Run, RunProgress, completed, AutoSearch, Assignment, MonitoringSample,
}
use load_observatory.Core.Provenance.{
  Field, Shown, effective_server_config, provenance_gaps, provenance_conflicts,
}
use load_observatory.Core.Saturation.{
  SaturationVerdict, RunValidity, LatencyAttribution, assess_saturation, assess_run_validity,
  attribute_ttft,
}
use load_observatory.Store.{MemoryStore}
use load_observatory.Store.Claim
use load_observatory.Store.Completion
use load_observatory.Store.Records
use load_observatory.Store.Searches
use load_observatory.Store.Views
use load_observatory.Core.Captures.{CaptureSession}

pub record ProvenanceView (F : Type 0) : Type 0 where
  pub server : ServerConfig F
  pub gaps : List Field
  pub conflicts : List (Field × Shown × Shown)
  pub ttft_comparable : Bool

pub record RunView (F : Type 0) : Type 0 where
  pub run : Run F
  pub saturation : SaturationVerdict F
  pub validity : RunValidity F
  pub attribution : LatencyAttribution F
  pub provenance : ProvenanceView F

-- The settings of the capture proxy as they are shown: whether there is a token, and not its hash.
pub record CaptureSettingsView (F : Type 0) : Type 0 where
  pub enabled : Bool
  pub token_configured : Bool
  pub session_idle_minutes : ℤ
  pub max_events_per_session : ℤ
  pub retention_sessions : ℤ
  pub default_replay_vus : ℤ
  pub replay_think_time_scale : F
  pub replay_buffer_seconds : ℤ
  pub replay_drain_seconds : ℤ

-- What a response carries: nothing or an error's text, or a value.
pub data Content (F : Type 0) : Type 0 where
  nothing : Content F
  of_run : RunView F → Content F
  of_search : AutoSearch F → Content F
  of_assignment : Assignment F → Content F
  of_target : Target → Content F
  of_targets : List Target → Content F
  of_runs : List (RunView F) → Content F
  of_searches : List (AutoSearch F) → Content F
  of_captures : List CaptureSession → Content F
  of_capture_settings : CaptureSettingsView F → Content F
  of_health : ℕ × ℕ × Bool → Content F

pub record Response (F : Type 0) : Type 0 where
  pub status : ℕ
  pub content : Content F

abbrev pub answer : {F : Type 0} → ℕ → Content F → Response F
answer status content = record { status = status; content = content }

abbrev pub refuse : {F : Type 0} → ℕ → Response F
refuse status = answer status nothing

unfoldable pub public_target : Target → Target
public_target target = record target {
  has_api_key = not (eqb_text target.api_key "");
  api_key = "";
}

module _ {F : Type 0} ⦃fl : Floats F⦄ where
  unfoldable pub view : Run F → RunView F
  view run =
      let effective = effective_server_config run.config.server run.detected_server in
      let (gaps, comparable) = provenance_gaps effective in
      let config = record run.config { server = effective } in
      record {
        run = run;
        saturation = assess_saturation run.monitoring config;
        validity = assess_run_validity run.monitoring config;
        attribution = attribute_ttft run.result run.monitoring;
        provenance = record {
          server = effective;
          gaps = gaps;
          conflicts = provenance_conflicts run.config.server run.detected_server;
          ttft_comparable = comparable;
        };
      }

  unfoldable pub claim_run : List ℕ → ℤ → MemoryStore F → MemoryStore F × Response F
  claim_run order now s =
      let (after, assignment) = Claim.claim_run order now s in
      elim assignment [
        | none ↦ (after, refuse 204)
        | some given ↦ (after, answer 200 (of_assignment given))
      ]

  -- What completeShard does once the run is completed: the sample, the search, and the run read again.
  unfoldable pub after_completion :
      List ℕ → ℤ → MonitoringSample F → MemoryStore F → Run F → MemoryStore F × Run F
  after_completion texts now sample s run =
      let sampled = Records.add_monitoring now s run.id sample in
      let advanced = Searches.advance_search sampled run.id in
      elim (Views.get_run texts advanced run.id) [
        | none ↦ (advanced, run)
        | some fresh ↦ (advanced, fresh)
      ]

  -- The response to a shard's result, from what the store did with it.
  unfoldable pub respond_shard :
      List ℕ → ℤ → MonitoringSample F → MemoryStore F × Option (Run F) → MemoryStore F × Response F
  respond_shard texts now sample (recorded, none) = (recorded, refuse 404)
  respond_shard texts now sample (recorded, some run) =
      let (after, shown) =
        if Completion.is_completed run.status
        then after_completion texts now sample recorded run
        else (recorded, run) in
      (after, answer 200 (of_run (view shown)))

  unfoldable pub complete_shard :
      List ℕ
      → List ℕ
      → ℤ
      → MonitoringSample F
      → MemoryStore F
      → ℕ
      → Option (RunResult F)
      → MemoryStore F × Response F
  complete_shard texts order now sample s id none = (s, refuse 400)
  complete_shard texts order now sample s id (some result) =
      respond_shard texts now sample (Completion.complete_shard order s id result)

  unfoldable pub report_progress :
      MemoryStore F → ℕ → Option (RunProgress F) → MemoryStore F × Response F
  report_progress s id none = (s, refuse 400)
  report_progress s id (some progress) =
      let (after, known) = Records.set_shard_progress s id progress in
      (after, if known then refuse 204 else refuse 404)
