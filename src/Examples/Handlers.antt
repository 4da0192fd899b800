-- ===== src/Examples/Handlers.antt =====
-- internal/controller/server.go: requests to the handlers and through the gate.
use load_observatory.Prelude.{
  ℕ, ℤ, pos, ◌≡◌, ◌⊎◌, refl, false, true, [], ◌∷◌, ◌++◌, Option, none, some,
}
use load_observatory.Prelude.Floats.{whole}
use load_observatory.Prelude.Map.{lookup, insert}
use load_observatory.Core.Types.{
  Target, TargetType, Run, Status, MonitoringSample, AutoSearch, AutoSearchStep,
}
use load_observatory.Auth.{Config, User, Signing, enabled}
use load_observatory.Auth.Gate.{Gate}
use load_observatory.Auth.Session.{claims_of}
use load_observatory.Auth.Admission.{Admitted}
use load_observatory.Store.{MemoryStore, new_memory_store}
use load_observatory.Store.Completion.{all_completed}
use load_observatory.Core.Server.{eqb_text}
use load_observatory.Controller.{complete_shard}
use load_observatory.Controller.Changes.{create_run}
use load_observatory.Controller.Created.{Creates, Refuses, create_run-Settles}
use load_observatory.Controller.Repeated.{IsPast, complete_shard-repeated}
use load_observatory.Controller.Routes.{codes, get, Route, HumanRoute, route, human_route, serve}
use load_observatory.Controller.Routes.Guarded.{IsOpen, serve-Guarded}
use load_observatory.Examples.Inputs.{vu_config, result_at, run_at, new_search}

abbrev target : Target
target = record {
  id = 1;
  name = "model";
  type = TargetType.model;
  url = "http://10.0.0.1/v1";
  model = "m";
  api_key = "";
  has_api_key = false;
}

abbrev reading : MonitoringSample ℤ
reading = record {
  at_second = pos 0;
  status = "unavailable";
  backend = "";
  message = "";
  metrics = λ metric. none;
}

abbrev ready : MemoryStore ℤ
ready = record new_memory_store { next_id = 1; targets = (1, target) ∷ [] }

abbrev kim : User
kim = record { subject = "17"; name = "kim" }

create_run-Settles_example :
    let outcome = create_run (pos 100) reading (some kim) ready (some (vu_config 10)) in
    Refuses ready outcome ⊎ Creates (some kim) ready (vu_config 10) outcome
create_run-Settles_example = create_run-Settles (pos 100) reading (some kim) ready (vu_config 10)

abbrev measured : Run ℤ
measured = record (run_at 5 400) { id = 10; search_id = some 20 }

abbrev going : AutoSearch ℤ
going = record new_search { id = 20; run_ids = 10 ∷ [] }

-- The one shard of the run has reported, and the search goes on.
abbrev reported : MemoryStore ℤ
reported = record new_memory_store {
  next_id = 20;
  runs = (10, measured) ∷ [];
  searches = (20, going) ∷ [];
  search_run = (10, 20) ∷ [];
  shards = (11, record { id = 11; run_id = 10; status = Status.completed; index = pos 0 }) ∷ [];
}

reported-IsPast : IsPast reported 11 20 measured going
unfolding lookup insert all_completed new_memory_store
reported-IsPast = record {
  shard = record { id = 11; run_id = 10; status = Status.completed; index = pos 0 };
  shard_found = refl;
  of_run = refl;
  run_found = refl;
  done = refl;
  reported = refl;
  noted = refl;
  search_found = refl;
  running = refl;
}

complete_shard-repeated_example :
    let (after, response) =
      complete_shard [] [] (pos 100) reading reported 11 (some (result_at 400)) in
    (advanced : AutoSearch ℤ) × (step : AutoSearchStep ℤ) × (lookup 20 after.searches
      ≡ some advanced)
    × (advanced.steps ≡ going.steps ++ (step ∷ []))
    × (step.run_id ≡ measured.id)
complete_shard-repeated_example =
    complete_shard-repeated [] [] (pos 100) reading reported 11 20 measured going (result_at 400)
      reported-IsPast

abbrev config : Config
config = record {
  issuer_url = "https://id";
  client_id = "lo";
  client_secret = "s";
  redirect_url = "/";
  session_key = 7 ∷ 8 ∷ [];
}

abbrev gate : Gate
gate = record { config = config; provider = none }

abbrev signing : Signing
signing = record {
  mac = λ key payload. 2 ∷ [];
  marshal = λ claims. some (123 ∷ 125 ∷ []);
  unmarshal = λ payload. some (claims_of (pos 1000) kim);
}

signs_in : enabled config ≡ true
unfolding enabled eqb_text
signs_in = refl

abbrev public : Route → ℕ
public route = 200

abbrev private : HumanRoute → Option User → ℕ
private route user = 201

serve-Guarded_example :
    (serve signing gate (pos 5) get (codes "/api/runs") none public private 401 ≡ 401)
    ⊎ (((user : User) × (Admitted signing config (pos 5) none user
            × (serve signing gate (pos 5) get (codes "/api/runs") none public private 401
                ≡ private (human_route get (codes "/api/runs")) (some user))))
        ⊎ (IsOpen get (codes "/api/runs")
            × (serve signing gate (pos 5) get (codes "/api/runs") none public private 401
                ≡ public (route get (codes "/api/runs")))))
serve-Guarded_example =
    serve-Guarded signing gate (pos 5) get (codes "/api/runs") none public private 401 signs_in
