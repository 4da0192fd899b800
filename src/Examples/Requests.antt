-- ===== src/Examples/Requests.antt =====
-- Requests for a run and for a search, as internal/core validates them.
use load_observatory.Prelude.{ℤ, pos, pos_part, ◌≡◌, refl, [], none, some}
use load_observatory.Prelude.Floats.{whole}
use load_observatory.Core.Types.{AutoSearchConfig}
use load_observatory.Core.Ladder.{sweep_ladder}
use load_observatory.Core.Ladder.Bounds.{AtMostDoubling}
use load_observatory.Core.Validation.{
  validate_run_config, check_rest, check_trace, check_parts, check_stages, check_tasks,
  check_journeys, check_mode, bad_sessions, check, is_outside, check_search,
  validate_auto_search_config, vus_out_of_range,
}
use load_observatory.Core.Validation.Limits.{IsAccepted}
use load_observatory.Core.Validation.Accepted.{
  validate_run_config-IsAccepted, validate_auto_search_config-AtMostDoubling,
}
use load_observatory.Examples.Inputs.{vu_config}

accepted : validate_run_config (vu_config 10) ≡ none
unfolding validate_run_config check_rest check_trace check_parts check_stages check_tasks
    check_journeys check_mode bad_sessions check is_outside
accepted = refl

refused : validate_run_config (vu_config 501) ≡ some vus_out_of_range
unfolding validate_run_config check_mode check is_outside
refused = refl

validate_run_config-IsAccepted_example : IsAccepted (vu_config 10)
validate_run_config-IsAccepted_example = validate_run_config-IsAccepted (vu_config 10) accepted

abbrev search : AutoSearchConfig ℤ
search = record { run = vu_config 10; start_load = pos 10; max_load = pos 400 }

accepted_search : validate_auto_search_config search ≡ none
unfolding validate_auto_search_config check_search check validate_run_config check_rest check_trace
    check_parts check_stages check_tasks check_journeys check_mode bad_sessions is_outside
accepted_search = refl

validate_auto_search_config-AtMostDoubling_example :
    IsAccepted search.run
    × (search.run.trace ≡ [])
    × AtMostDoubling (pos_part search.start_load) (sweep_ladder search.start_load search.max_load)
validate_auto_search_config-AtMostDoubling_example =
    validate_auto_search_config-AtMostDoubling search accepted_search
