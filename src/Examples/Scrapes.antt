-- ===== src/Examples/Scrapes.antt =====
-- internal/monitor/monitor.go: a server that exports the queue of TGI, sampled a minute after one that
-- exported nothing.
use load_observatory.Prelude.{
  ℤ, pos, ◌+ℤ◌, ◌≡◌, refl, true, if◌then◌else◌, List, [], ◌∷◌, Option, none, some, In, String, inl,
  inr, arith,
}
use load_observatory.Prelude.Map.{lookup, insert, delete}
use load_observatory.Core.Server.{eqb_text}
use load_observatory.Core.Types.{Metric}
use load_observatory.Monitor.{
  new_resolver, sample, collect, collect_one, outcome_for, note, attempt, probe, report, none_found,
}
use load_observatory.Monitor.Table.{Candidate, MetricQuery, queries, key_of}
use load_observatory.Monitor.Attempts.{Answered}
use load_observatory.Monitor.History.{replay, sample-Answered, sample-answers}

abbrev from_tgi : String → Option ℤ
from_tgi expression = if eqb_text expression "sum(tgi_queue_size)" then some (pos 3) else none

abbrev silent : String → Option ℤ
silent expression = none

abbrev before : List (ℤ × (String → Option ℤ))
before = (pos 1000, silent) ∷ []

abbrev tgi_queue : Candidate
tgi_queue = record { backend = "tgi"; expression = "sum(tgi_queue_size)" }

abbrev queue : MetricQuery
queue = record {
  key = Metric.requests_waiting;
  candidates =
      (record { backend = "vllm"; expression = "sum(vllm:num_requests_waiting)" })
      ∷ (record { backend = "sglang"; expression = "sum(sglang:num_queue_reqs)" })
      ∷ (record { backend = "sglang"; expression = "sum(sglang_num_queue_reqs)" })
      ∷ tgi_queue
      ∷ [];
}

queue_asked : In queue queries
unfolding queries
queue_asked = inr (inl refl)

tgi_answers : Answered from_tgi (pos 61000) queue.candidates (pos 3)
unfolding eqb_text
tgi_answers = (tgi_queue, inr (inr (inr (inl refl))), refl)

sample-answers_example :
    (seen : ℤ) × ((sample true from_tgi (pos 61000) (replay new_resolver before)).1.metrics
        Metric.requests_waiting
      ≡ some seen)
sample-answers_example =
    sample-answers before from_tgi (pos 61000) queue (pos 3) queue_asked
      (unfold ◌+ℤ◌ in omega arith) tgi_answers

shown :
    (sample true from_tgi (pos 61000) (replay new_resolver before)).1.metrics
      Metric.requests_waiting
    ≡ some (pos 3)
unfolding sample replay collect collect_one outcome_for note attempt probe report none_found lookup
    insert delete eqb_text queries key_of ◌+ℤ◌
shown = refl

sample-Answered_example : Answered from_tgi (pos 61000) queue.candidates (pos 3)
sample-Answered_example =
    sample-Answered before from_tgi (pos 61000) queue (pos 3) queue_asked shown
