-- ===== src/Examples/Accounts.antt =====
-- internal/agent/runner.go and internal/store/store.go: two agents whose results are merged.
use load_observatory.Prelude.{ℕ, ℤ, pos, refl, List, [], ◌∷◌, none, map, String}
use load_observatory.Prelude.Floats.{whole}
use load_observatory.Agent.Measurements.Events.{Event, began, refused, was_cut}
use load_observatory.Agent.Report.Accounted.{AgentRun, Accounted, reported, merge_results-Accounted}
use load_observatory.Store.Merge.{merge_results}
use load_observatory.Examples.Inputs.{vu_config}
use load_observatory.Examples.Attempts.{warmed_up, call}

abbrev events : List (Event ℤ)
events =
    began (pos 5000000000) "chat" none
    ∷ began (pos 5100000000) "chat" none
    ∷ refused (pos 6000000000) call (pos 900) 503 (98 ∷ [])
    ∷ was_cut (pos 6100000000) call
    ∷ []

abbrev agent : AgentRun ℤ
agent = record {
  before = warmed_up;
  started = pos 2000000000;
  events = events;
  drained = pos 1;
  now = pos 9000000000;
}

abbrev text_of : List ℕ → String
text_of bytes = "b"

merge_results-Accounted_example :
    Accounted
      (merge_results (vu_config 10) (map (reported text_of (vu_config 10)) (agent ∷ agent ∷ [])))
merge_results-Accounted_example =
    merge_results-Accounted text_of (vu_config 10) (agent ∷ agent ∷ []) (refl, (refl, tt))
