-- ===== src/Agent/Report/Accounted.antt =====
-- internal/agent/runner.go and internal/store/store.go: the requests of a run, from the agents that sent
-- them to the merged result.
use load_observatory.Prelude.{
  ℕ, ◌+◌, ℤ, pos, ◌+ℤ◌, +ℤ_parts, eq_of_parts, ◌≡◌, refl, ◌∙◌, ap, List, [], ◌∷◌, map, some, String,
  All, arith,
}
use load_observatory.Prelude.Floats.{Floats}
use load_observatory.Core.Types.{RunConfig, RunResult}
use load_observatory.Stats.{sum}
use load_observatory.Agent.Records.{Measurements}
use load_observatory.Agent.Measurements.{reset}
use load_observatory.Agent.Measurements.Events.{
  Event, handle_all, under_way_all, handle_all-Balanced,
}
use load_observatory.Agent.Report.{result}
use load_observatory.Store.Merge.{merge_results}
use load_observatory.Store.Merge.Totals.{
  counter, issued, completed, transport_errors, cancelled, merge_results-counter,
}

-- An agent's run: its measurements before, the time of the reset, what happens, and the time of the result.
pub record AgentRun (F : Type 0) : Type 0 where
  pub before : Measurements
  pub started : ℤ
  pub events : List (Event F)
  pub drained : ℤ
  pub now : ℤ

regroup :
    (a b c x y z : ℤ) → ((a +ℤ b) +ℤ c) +ℤ ((x +ℤ y) +ℤ z) ≡ ((a +ℤ x) +ℤ (b +ℤ y)) +ℤ (c +ℤ z)
regroup a b c x y z = eq_of_parts _ _ (
    omega (
      arith,
      +ℤ_parts a b,
      +ℤ_parts (a +ℤ b) c,
      +ℤ_parts x y,
      +ℤ_parts (x +ℤ y) z,
      +ℤ_parts ((a +ℤ b) +ℤ c) ((x +ℤ y) +ℤ z),
      +ℤ_parts a x,
      +ℤ_parts b y,
      +ℤ_parts c z,
      +ℤ_parts (a +ℤ x) (b +ℤ y),
      +ℤ_parts ((a +ℤ x) +ℤ (b +ℤ y)) (c +ℤ z),
    ))

-- A sum of counts.
counts : (i a b c : ℕ) → i ≡ a + b + c → pos i ≡ (pos a +ℤ pos b) +ℤ pos c
counts i a b c h =
    eq_of_parts _ _ (omega (arith, h, +ℤ_parts (pos a) (pos b), +ℤ_parts (pos a +ℤ pos b) (pos c)))

module _ {F : Type 0} where
  -- Every request that was issued was answered, broke or was cut.
  abbrev pub Accounted : RunResult F → Type 0
  Accounted r = r.issued ≡ (r.completed +ℤ r.transport_errors) +ℤ r.cancelled

  sum-Accounted :
      (values : List (RunResult F))
      → All Accounted values
      → sum (map (counter issued) values)
        ≡ (sum (map (counter completed) values) +ℤ sum (map (counter transport_errors) values))
          +ℤ sum (map (counter cancelled) values)
  unfolding sum
  sum-Accounted [] all = counts 0 0 0 0 refl
  sum-Accounted (value ∷ rest) (this, others) =
      ap (λ (n : ℤ). n +ℤ sum (map (counter issued) rest)) this
      ∙ ap (λ (n : ℤ). ((value.completed +ℤ value.transport_errors) +ℤ value.cancelled) +ℤ n)
          (sum-Accounted rest others)
      ∙ regroup value.completed value.transport_errors value.cancelled
          (sum (map (counter completed) rest)) (sum (map (counter transport_errors) rest))
          (sum (map (counter cancelled) rest))

module _ {F : Type 0} ⦃fl : Floats F⦄ (text_of : List ℕ → String) (config : RunConfig F) where
  -- The result that the agent reports.
  abbrev pub reported : AgentRun F → RunResult F
  reported a =
      result text_of a.drained a.now config (handle_all (reset a.started a.before) a.events)

  -- No attempt ends that did not begin, and none is under way at the end.
  abbrev pub IsOver : AgentRun F → Type 0
  IsOver a = under_way_all 0 a.events ≡ some 0

  reported-Accounted : (a : AgentRun F) → IsOver a → Accounted (reported a)
  unfolding result
  reported-Accounted a over =
      let m = handle_all (reset a.started a.before) a.events in
      let balance = handle_all-Balanced a.before a.started a.events 0 over in
      counts m.issued (m.successes + m.http_failures) m.transport_errors m.cancelled (omega arith)

  All-Accounted :
      (agents : List (AgentRun F)) → All IsOver agents → All Accounted (map reported agents)
  All-Accounted [] all = tt
  All-Accounted (a ∷ rest) (over, others) = (reported-Accounted a over, All-Accounted rest others)

  -- When the agents of a run are done, with no attempt under way: in the merged result of what they
  -- report, the requests issued are those answered, those that broke and those that were cut.
  pub merge_results-Accounted :
      (agents : List (AgentRun F))
      → All IsOver agents
      → Accounted (merge_results config (map reported agents))
  merge_results-Accounted agents over =
      let values = map reported agents in
      merge_results-counter issued config values
      ∙ sum-Accounted values (All-Accounted agents over)
      ∙ cc (
        merge_results-counter completed config values,
        merge_results-counter transport_errors config values,
        merge_results-counter cancelled config values,
      )
