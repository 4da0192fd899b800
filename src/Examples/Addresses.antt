-- ===== src/Examples/Addresses.antt =====
-- internal/core/target.go: a host under a suffix that is configured with blanks and dots.
use load_observatory.Prelude.{◌≡◌, refl, Bool, false, ◌↔◌, List, [], ◌∷◌, Option, none, some}
use load_observatory.Core.Target.{
  Text, Url, http, validate_target, eqb, to_lower, trim_left, trim_right, is_space, drop_last_dot,
  ends_with, clean_suffix, host_of, host_allowed, host_not_allowed,
}
use load_observatory.Core.Target.Allowed.{IsAllowed, validate_target_iff}

-- `M.In.` and, as configured, ` .IN`
abbrev url : Url
url = record { scheme = http; hostname = 77 ∷ 46 ∷ 73 ∷ 110 ∷ 46 ∷ []; credentials = false }

abbrev configured : List Text
configured = (32 ∷ 46 ∷ 73 ∷ 78 ∷ []) ∷ []

abbrev no_ip : Text → Option Bool
no_ip host = none

accepts : validate_target (some url) no_ip configured ≡ none
unfolding validate_target eqb host_of host_allowed clean_suffix trim_left trim_right drop_last_dot
    ends_with to_lower is_space
accepts = refl

-- `evilin` is not under `in`.
rejects_lookalike :
    validate_target
      (some (record url { hostname = 101 ∷ 118 ∷ 105 ∷ 108 ∷ 105 ∷ 110 ∷ [] }))
      no_ip
      configured
    ≡ some host_not_allowed
unfolding validate_target eqb host_of host_allowed clean_suffix trim_left trim_right drop_last_dot
    ends_with to_lower is_space
rejects_lookalike = refl

validate_target_iff_example :
    (validate_target (some url) no_ip configured ≡ none) ↔ IsAllowed (some url) no_ip configured
validate_target_iff_example = validate_target_iff (some url) no_ip configured
