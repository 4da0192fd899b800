-- ===== src/Store/Searches.antt =====
-- internal/store/store.go: CreateSearch, queueSearchRunLocked, CancelSearch and AdvanceSearch.
use load_observatory.Prelude.{ℕ, suc, ℤ, pos, List, [], ◌∷◌, ◌++◌, Option, none, some}
use load_observatory.Prelude.Floats.{Floats}
use load_observatory.Prelude.Map.{lookup, insert}
use load_observatory.Core.Types.{
  RunConfig, Run, AutoSearch, AutoSearchConfig, AutoSearchStatus, SearchMessage, LoadMode, vu, rps,
  other,
}
use load_observatory.Core.Ladder.{sweep_ladder}
use load_observatory.Core.Search
use load_observatory.Store.Zero.{run_or_zero}
use load_observatory.Store.{MemoryStore, new_run, queue_shards, cancel_run}

module _ {F : Type 0} where
  set_load_in_mode : LoadMode → RunConfig F → ℤ → RunConfig F
  set_load_in_mode rps config load = record config { rps = load }
  set_load_in_mode vu config load = record config { vus = load }
  set_load_in_mode (other mode) config load = record config { vus = load }

  unfoldable pub with_load : RunConfig F → ℤ → RunConfig F
  unfolding set_load_in_mode
  with_load config load = set_load_in_mode config.mode config load

  unfoldable pub cancel_runs : List ℕ → MemoryStore F → MemoryStore F
  cancel_runs [] s = s
  cancel_runs (id ∷ rest) s = cancel_runs rest (cancel_run s id).0

  unfoldable pub cancel_search : MemoryStore F → ℕ → MemoryStore F × Option (AutoSearch F)
  cancel_search s id = elim (lookup id s.searches) [
    | none ↦ (s, none)
    | some search ↦
        let stopped = record search {
          status = AutoSearchStatus.cancelled;
          message = some SearchMessage.cancelled_by_user;
        } in
        (
          cancel_runs search.run_ids (record s { searches = insert id stopped s.searches }),
          some stopped,
        )
  ]

module _ {F : Type 0} ⦃fl : Floats F⦄ where
  -- The new state, and the search with the run noted in it.
  unfoldable pub queue_search_run : MemoryStore F → AutoSearch F → ℤ → MemoryStore F × AutoSearch F
  queue_search_run s search load =
      let id = suc s.next_id in
      let run = new_run id (some search.id) (with_load search.config.run load) in
      let queued = queue_shards run (record s { next_id = id; runs = insert id run s.runs }) in
      (
        record queued { search_run = insert id search.id queued.search_run },
        record search { run_ids = search.run_ids ++ (id ∷ []) },
      )

  unfoldable pub new_search : ℕ → AutoSearchConfig F → AutoSearch F
  new_search id config = record {
    id = id;
    status = AutoSearchStatus.running;
    config = config;
    run_ids = [];
    next_load = config.start_load;
    stable_load = pos 0;
    failed_load = pos 0;
    recommended_load = pos 0;
    message = none;
    ladder = sweep_ladder config.start_load config.max_load;
    steps = [];
    provision_load = pos 0;
  }

  -- The search is stored after its first run is queued.
  unfoldable pub store_search : MemoryStore F × AutoSearch F → MemoryStore F × AutoSearch F
  store_search (s, search) = (record s { searches = insert search.id search s.searches }, search)

  unfoldable pub create_search : MemoryStore F → AutoSearchConfig F → MemoryStore F × AutoSearch F
  unfolding new_search queue_search_run
  create_search s config =
      let id = suc s.next_id in
      store_search
        (queue_search_run (record s { next_id = id }) (new_search id config) config.start_load)

  -- `if more { queue }; s.searches[searchID] = search`
  unfoldable pub store_advanced : MemoryStore F → ℕ → AutoSearch F × Option ℕ → MemoryStore F
  store_advanced s search_id (search, none) = record s {
    searches = insert search_id search s.searches;
  }
  store_advanced s search_id (search, some next) =
      let (s', noted) = queue_search_run s search (pos next) in
      record s' { searches = insert search_id noted s'.searches }

  unfoldable pub advance_if_running :
      MemoryStore F → ℕ → AutoSearch F → Run F → AutoSearchStatus → MemoryStore F
  advance_if_running s search_id search run AutoSearchStatus.running =
      store_advanced s search_id (Search.advance_search search run)
  advance_if_running s search_id search run _ = s

  -- A search that is missing would be the zero value, which is not running.
  unfoldable pub advance_search : MemoryStore F → ℕ → MemoryStore F
  advance_search s run_id = elim (lookup run_id s.search_run) [
    | none ↦ s
    | some search_id ↦ elim (lookup search_id s.searches) [
      | none ↦ s
      | some search ↦
          advance_if_running s search_id search (run_or_zero (lookup run_id s.runs)) search.status
    ]
  ]
