-- ===== src/Controller/Routes.antt =====
-- internal/controller/server.go: ServeHTTP and serveHumanAPI, as the choice of a route.
pub mod Guarded
use Prim.Native.Char.{code}
use load_observatory.Prelude.{
  ℕ, ℤ, if◌then◌else◌, Bool, true, false, ◌&&◌, ◌||◌, List, [], ◌∷◌, Option, none, some, String,
}
use load_observatory.Core.Target.{Text, eqb, ends_with}
use load_observatory.Auth.{User, Signing}
use load_observatory.Auth.Gate.{Gate, require}

-- The code points of a text.
abbrev pub codes : String → Text
codes String.[] = []
codes (String.◌∷◌ c rest) = code c ∷ codes rest

unfoldable pub starts_with : Text → Text → Bool
starts_with text [] = true
starts_with [] (c ∷ prefix) = false
starts_with (d ∷ text) (c ∷ prefix) = eqb (d ∷ []) (c ∷ []) && starts_with text prefix

pub data Method : Type 0 where
  get post put delete other : Method

pub data Route : Type 0 where
  login callback logout health capture heartbeat claim shard_result shard_progress human : Route

abbrev pub is_get : Method → Bool
is_get get = true
is_get _ = false

abbrev pub is_post : Method → Bool
is_post post = true
is_post _ = false

abbrev pub is_put : Method → Bool
is_put put = true
is_put _ = false

abbrev pub is_delete : Method → Bool
is_delete delete = true
is_delete _ = false

abbrev pub is_at : Text → String → Bool
is_at path place = eqb path (codes place)

abbrev pub is_under : Text → String → Bool
is_under path prefix = starts_with path (codes prefix)

abbrev pub is_ending : Text → String → Bool
is_ending path suffix = ends_with path (codes suffix)

-- The switch of ServeHTTP.
unfoldable pub route : Method → Text → Route
route method path =
    if is_at path "/auth/login"
    then login
    else if is_at path "/auth/callback"
    then callback
    else if is_at path "/auth/logout"
    then logout
    else if is_get method && is_at path "/api/health"
    then health
    else if is_post method && is_under path "/capture/"
    then capture
    else if is_post method && is_at path "/api/agent/heartbeat"
    then heartbeat
    else if is_post method && is_at path "/api/agent/claim"
    then claim
    else if is_post method && is_under path "/api/agent/runs/" && is_ending path "/result"
    then shard_result
    else if is_post method && is_under path "/api/agent/runs/" && is_ending path "/progress"
    then shard_progress
    else human

pub data HumanRoute : Type 0 where
  session create_target list_targets list_captures get_settings update_settings : HumanRoute
  delete_capture check_target delete_target create_run cancel_run create_search : HumanRoute
  list_searches get_search cancel_search list_runs export_run get_run not_found : HumanRoute

-- The switch of serveHumanAPI.
unfoldable pub human_route : Method → Text → HumanRoute
human_route method path =
    if is_get method && is_at path "/api/session"
    then session
    else if is_post method && is_at path "/api/targets"
    then create_target
    else if is_get method && is_at path "/api/targets"
    then list_targets
    else if is_get method && is_at path "/api/captures"
    then list_captures
    else if is_get method && is_at path "/api/capture-settings"
    then get_settings
    else if is_put method && is_at path "/api/capture-settings"
    then update_settings
    else if is_delete method && is_under path "/api/captures/"
    then delete_capture
    else if is_post method && is_under path "/api/targets/" && is_ending path "/check"
    then check_target
    else if is_delete method && is_under path "/api/targets/"
    then delete_target
    else if is_post method && is_at path "/api/runs"
    then create_run
    else if is_post method && is_under path "/api/runs/" && is_ending path "/cancel"
    then cancel_run
    else if is_post method && is_at path "/api/searches"
    then create_search
    else if is_get method && is_at path "/api/searches"
    then list_searches
    else if is_get method && is_under path "/api/searches/"
    then get_search
    else if is_post method && is_under path "/api/searches/" && is_ending path "/cancel"
    then cancel_search
    else if is_get method && is_at path "/api/runs"
    then list_runs
    else if is_get method
        && is_under path "/api/runs/"
        && (is_ending path "/export.json" || is_ending path "/export.csv")
    then export_run
    else if is_get method && is_under path "/api/runs/"
    then get_run
    else not_found

abbrev pub is_human : Route → Bool
is_human human = true
is_human _ = false

-- ServeHTTP: `public` answers the routes of its switch, `private` those behind the gate, for the user of
-- the request, and `unauthorized` is the gate's refusal.
unfoldable pub serve {ℓ} :
    {A : Type ℓ}
    → Signing
    → Gate
    → ℤ
    → Method
    → Text
    → Option (List ℕ)
    → (Route → A)
    → (HumanRoute → Option User → A)
    → A
    → A
serve signing gate now method path cookie public private unauthorized =
    if is_human (route method path)
    then require signing gate now cookie (private (human_route method path)) unauthorized
    else public (route method path)
