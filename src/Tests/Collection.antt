-- ===== src/Tests/Collection.antt =====
-- A run with one snapshot collector and two counters, one of which starts again between the samples.
use Prim.Native.Nat.{max}
use mathlib.Core.List.{Perm}
use dbprobe.Base.{
  String, ℕ, ◌≤◌, ◌<◌, ◌≡◌, some, none, true, false, List, [], ◌∷◌, ◌++◌, ◌==◌, map, refl, arith,
  if◌then◌else◌,
}
use dbprobe.Base.Lists.{length}
use dbprobe.Collection.{
  Descriptor, Collector, BatchJob, perform, jobs, jobs_from, phase_sample_a, phase_single,
  phase_sample_b,
}
use dbprobe.Collection.Planner.{Environment, run, run_over, plan_of}
use dbprobe.Collection.Planner.Laws.{IsLive, Reports, answers, in_turn, run-in_turn, run-Reports}
use dbprobe.Collection.Pool.{
  Event, cancels, feeds, works, worker_limit, start, step, replay, next, is_finished, steps_left,
  run_to_end, run_batch, work, worker_at, idle_workers, feed, set_at, receive,
}
use dbprobe.Collection.Pool.Answer.{batch_of, cancelled_by, run_batch-eq_batch_of}
use dbprobe.Collection.Pool.Laws.{in_hand}
use dbprobe.Collection.Pool.Results.{performed_once}
use dbprobe.Collection.Pool.Bounds.{in_hand-bounded}
use dbprobe.Collection.Pool.Schedule.{next_lt, run_to_end-is_finished}
use dbprobe.Sdk.Capability.{new}
use dbprobe.Sdk.Clock.{Time}
use dbprobe.Sdk.Number.{milli}
use dbprobe.Tests.Data.{counter, at}

number_set : IsSet ℕ
number_set = hlevel

abbrev of_kind : String → String → Descriptor
of_kind id strategy = record { id = id; requires = []; produces = []; strategy = strategy }

abbrev variables : Collector ℕ
variables = record {
  descriptor = of_kind "variables" "snapshot";
  collect = λ request. (counter "max_connections" 151000 ∷ [], none);
}

abbrev questions : Collector ℕ
questions = record {
  descriptor = of_kind "questions" "counter";
  collect = λ request.
      (counter "questions" (if request.phase == "sample_a" then 4000 else 10000) ∷ [], none);
}

abbrev restarted : Collector ℕ
restarted = record {
  descriptor = of_kind "restarted" "counter";
  collect = λ request.
      (counter "uptime" (if request.phase == "sample_a" then 9000 else 1000) ∷ [], some "partial");
}

abbrev pub collectors : List (Collector ℕ)
collectors = variables ∷ questions ∷ restarted ∷ []

abbrev clock : ℕ → Time
clock index = at 5

abbrev todo : List (BatchJob ℕ)
todo = jobs clock "sample_a" collectors

-- the second worker gets the first job, and the first worker overtakes it
abbrev crossed : List Event
crossed =
    feeds ∷ works 1 ∷ works 1 ∷ feeds ∷ works 0 ∷ works 0 ∷ works 0 ∷ feeds ∷ works 0 ∷ works 1 ∷ []

abbrev interrupted : List Event
interrupted = feeds ∷ works 0 ∷ cancels ∷ works 0 ∷ []

in_hand-bounded_example :
    (length (replay crossed (start (worker_limit 2 todo) false todo)).workers ≤ length todo)
    × (length (replay crossed (start (worker_limit 2 todo) false todo)).workers ≤ max 2 1)
    × (length (in_hand (replay crossed (start (worker_limit 2 todo) false todo)).workers)
        ≤ length (replay crossed (start (worker_limit 2 todo) false todo)).workers)
in_hand-bounded_example = in_hand-bounded 2 crossed false todo

performed_once_example :
    (done : List (BatchJob ℕ)) × (rest : List (BatchJob ℕ)) × ((replay crossed
        (start 2 false todo)).results
      ≡ map perform done)
    × Perm todo (done ++ rest)
performed_once_example = performed_once 2 crossed false todo

interrupted_busy : is_finished (replay interrupted (start 2 false todo)) ≡ false
unfolding start replay step is_finished work worker_at idle_workers feed jobs_from set_at
interrupted_busy = refl

next_lt_example :
    steps_left (
      step
        (next (replay interrupted (start 2 false todo)))
        (replay interrupted (start 2 false todo)))
    < steps_left (replay interrupted (start 2 false todo))
next_lt_example = next_lt (replay interrupted (start 2 false todo)) interrupted_busy

run_to_end-is_finished_example : is_finished (run_to_end interrupted (start 2 false todo)) ≡ true
run_to_end-is_finished_example = run_to_end-is_finished interrupted (start 2 false todo)

run_batch-eq_batch_of_example :
    run_batch 2 "context canceled" interrupted false todo
    ≡ batch_of "context canceled" (cancelled_by interrupted false todo) todo
run_batch-eq_batch_of_example =
    run_batch-eq_batch_of number_set 2 "context canceled" interrupted false clock "sample_a"
      collectors

-- the second job is done before the first
crossed_results : map (λ r. r.index) (replay crossed (start 2 false todo)).results ≡ 1 ∷ 0 ∷ []
unfolding start replay step work worker_at idle_workers feed jobs_from set_at receive
crossed_results = refl

abbrev pub planner : Environment ℕ
planner = record {
  max_concurrency = 2;
  now = λ phase. clock;
  schedule = λ phase. crossed;
  ctx_err = "context canceled";
  cancelled = false;
  wait = λ cancelled window. (none, cancelled);
  seconds = λ window. window;
}

planner-IsLive : IsLive planner 1000
planner-IsLive = record { live = refl; steps = λ phase. refl; waits = refl }

run-in_turn_example :
    run planner (new []) collectors 1000
    ≡ run_over planner (in_turn planner) (new []) collectors 1000
run-in_turn_example = run-in_turn number_set planner (new []) collectors 1000

run-Reports_example :
    Reports planner 1000
      (answers planner phase_single (plan_of (new []) collectors).snapshots)
      (answers planner phase_sample_a (plan_of (new []) collectors).counters)
      (answers planner phase_sample_b (plan_of (new []) collectors).counters)
      (run planner (new []) collectors 1000)
run-Reports_example =
    run-Reports planner 1000 number_set (new []) collectors planner-IsLive (omega arith)
