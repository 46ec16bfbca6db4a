-- ===== src/Examples/Graphs.antt =====
-- A graph of three tasks: a completed one, one that waits for it, and one that waits for a blocked one.
use mathlib.Core.List.{Perm}
use deepscout.Base.{
  ℕ, String, ◌+◌, ◌≡◌, refl, ◌↔◌, false, true, some, none, List, [], ◌∷◌, ok, All, length, select,
  any_of, if◌then◌else◌, contains, discard, lookup, insert, arith,
}
use deepscout.Base.Int.{ℤ, pos}
use deepscout.Base.Sorting.{IsSorted, sort, insert_sorted}
use deepscout.Domain.Enums.{ResearchTaskStatus, ResearchRunStatus, AllocationClass}
use deepscout.Domain.Schemas.{ResearchTaskRead}
use deepscout.Budget.{ResearchBudget, no_consumption, is_exhausted}
use deepscout.Tasks.{
  TaskGraph, validate_dependencies, task_keys, by_key, ready_tasks, task_lt, all_terminal,
  is_completed, check_tasks, check_deps, detect_cycles, visit, visit_all, enter, add_task,
  collect_ready, deps_completed, is_waiting,
}
use deepscout.Tasks.Cycles.{IsAcyclic}
use deepscout.Tasks.Cycles.Validate.{Explains, IsWellFormed, validate_dependencies-Explains}
use deepscout.Tasks.Cycles.Accepts.{validate_dependencies_iff}
use deepscout.Tasks.Ready.{is_ready, ready_tasks-validated}
use deepscout.Tasks.Gate.{BlockCall, block_tasks_with_terminal_dependencies}
use deepscout.Tasks.Gate.Blocking.{IsSettled, OnlyBlocks}
use deepscout.Tasks.Gate.Calls.{waiting_at, calls_at, IsExplained, block_tasks-Settles}
use deepscout.Tasks.Termination.{evaluate_termination, stop, go_on, all_ended, is_unsuccessful}
use deepscout.Tasks.Termination.Laws.{
  evaluate_termination-tasks, evaluate_termination-failed_iff, evaluate_termination-continue_iff,
}
use deepscout.Tasks.Allocation.{
  AllocationDecision, allocate_workers, clamp, wide_threshold, hard_cap, choose,
}
use deepscout.Tasks.Allocation.Laws.{Fits, allocate_workers_bounds}
use deepscout.Examples.Numbers.{whole, hundredths}

abbrev task :
    (id : ℕ) (key : String) → ResearchTaskStatus → (depends_on : List String) → ResearchTaskRead
task id key status depends_on = record {
  id = id;
  task_key = key;
  objective = "find out";
  status = status;
  priority = 1;
  depends_on = depends_on;
  allowed_tools = [];
  question_id = none;
  worker_id = none;
  started_at = none;
  completed_at = none;
  retry_count = 0;
  error_message = none;
}

abbrev first : ResearchTaskRead
first = task 1 "a" ResearchTaskStatus.completed []

abbrev others : TaskGraph
others =
    task 2 "b" ResearchTaskStatus.pending ("a" ∷ [])
    ∷ task 3 "c" ResearchTaskStatus.pending ("d" ∷ "b" ∷ [])
    ∷ task 4 "d" ResearchTaskStatus.blocked []
    ∷ []

abbrev graph : TaskGraph
graph = first ∷ others

valid : validate_dependencies graph ≡ ok tt
unfolding validate_dependencies check_tasks check_deps detect_cycles visit visit_all enter by_key
    add_task contains discard lookup insert
valid = refl

validate_dependencies-Explains_example : Explains graph (validate_dependencies graph)
validate_dependencies-Explains_example = validate_dependencies-Explains graph

validate_dependencies_iff_example :
    (validate_dependencies graph ≡ ok tt)
    ↔ (All (IsWellFormed (task_keys graph)) graph × IsAcyclic (by_key graph))
validate_dependencies_iff_example = validate_dependencies_iff graph

ready_tasks-validated_example :
    (ready : List ResearchTaskRead) × (ready_tasks graph ≡ ok ready)
    × Perm ready (select (is_ready (by_key graph)) graph)
    × IsSorted task_lt ready
ready_tasks-validated_example = ready_tasks-validated graph valid

block_tasks-Settles_example :
    (after : TaskGraph) × (made : List BlockCall) × (block_tasks_with_terminal_dependencies graph
      ≡ some (after, made))
    × IsSettled after
    × OnlyBlocks graph after
    × ((id : ℕ) → waiting_at id after + calls_at id made ≡ waiting_at id graph)
    × All (IsExplained graph after) made
block_tasks-Settles_example = block_tasks-Settles graph

abbrev limits : ResearchBudget ℤ
limits = record {
  max_iterations = pos 5;
  max_wall_time_seconds = pos 600;
  max_total_tokens = pos 1_000;
  max_cost_usd = pos 2;
  max_sources = pos 10;
  max_tool_calls = pos 3;
}

evaluate_termination-tasks_example :
    evaluate_termination whole limits no_consumption [] graph
    ≡ ok (
        if all_terminal graph
        then all_ended graph
        else if is_exhausted whole no_consumption limits
        then stop "budget_exhausted" ResearchRunStatus.budget_exhausted
        else go_on)
evaluate_termination-tasks_example =
    evaluate_termination-tasks whole limits no_consumption [] first others valid

evaluate_termination-failed_iff_example :
    (evaluate_termination whole limits no_consumption [] graph
      ≡ ok (stop "no_research_task_made_progress" ResearchRunStatus.failed))
    ↔ ((all_terminal graph ≡ true)
        × (any_of (λ t. is_unsuccessful t.status) graph ≡ true)
        × (any_of (λ t. is_completed t.status) graph ≡ false))
evaluate_termination-failed_iff_example =
    evaluate_termination-failed_iff whole limits no_consumption [] first others valid

evaluate_termination-continue_iff_example :
    (evaluate_termination whole limits no_consumption [] graph ≡ ok go_on)
    ↔ ((all_terminal graph ≡ false) × (is_exhausted whole no_consumption limits ≡ false))
evaluate_termination-continue_iff_example =
    evaluate_termination-continue_iff whole limits no_consumption [] first others valid

abbrev decision : AllocationDecision
decision = record {
  allocation_class = AllocationClass.sequential_single;
  max_workers = 1;
  ready_count = 1;
  reason = "one_or_zero_ready";
}

allocated : allocate_workers whole hundredths graph 4 3 (pos 2) (pos 50) ≡ ok decision
unfolding allocate_workers validate_dependencies check_tasks check_deps detect_cycles visit
    visit_all enter by_key add_task contains discard lookup insert ready_tasks collect_ready
    deps_completed is_waiting is_completed sort insert_sorted task_lt clamp wide_threshold hard_cap
    choose
allocated = refl

allocate_workers_bounds_example :
    (ready : List ResearchTaskRead) × (ready_tasks graph ≡ ok ready)
    × Fits 4 3 2 (length ready) decision
allocate_workers_bounds_example =
    allocate_workers_bounds whole hundredths graph 4 3 (pos 2) (pos 50) decision allocated
      (omega arith)
