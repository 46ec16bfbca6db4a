-- ===== src/Tasks/Termination.antt =====
-- libs/research/src/deepscout_research/termination.py: when the research loop stops, and how.
pub mod Laws
use deepscout.Base.{
  ℕ, String, Bool, true, false, not, ◌&&◌, ◌||◌, List, [], ◌∷◌, Result, ok, err, ◌>>=◌, any_of,
  select, if◌then◌else◌,
}
use deepscout.Base.Int.{leb_ℤ}
use deepscout.Base.Float.{Float}
use deepscout.Domain.Enums.{
  ResearchRunStatus, ResearchTaskStatus, ResearchQuestionStatus, is_terminal_task,
}
use deepscout.Domain.Schemas.{ResearchTaskRead, ResearchQuestionRead}
use deepscout.Budget.{ResearchBudget, BudgetConsumption, is_exhausted}
use deepscout.Tasks.Graph.{TaskGraph, GraphError, ready_tasks, all_terminal, is_completed}
use deepscout.Tasks.Gate.{not_empty}

pub record TerminationDecision : Type 0 where
  pub should_stop : Bool
  pub reason : String
  pub terminal_status : ResearchRunStatus

abbrev pub stop : String → ResearchRunStatus → TerminationDecision
stop reason status = record { should_stop = true; reason = reason; terminal_status = status }

-- COMPLETED is the default of `terminal_status`.
abbrev pub go_on : TerminationDecision
go_on = record {
  should_stop = false;
  reason = "continue";
  terminal_status = ResearchRunStatus.completed;
}

-- `status in {BLOCKED, FAILED}`
unfoldable pub is_unsuccessful : ResearchTaskStatus → Bool
is_unsuccessful ResearchTaskStatus.blocked = true
is_unsuccessful ResearchTaskStatus.failed = true
is_unsuccessful _ = false

-- `status.value in {"pending", "ready", "running"}`
unfoldable pub is_active_task : ResearchTaskStatus → Bool
is_active_task ResearchTaskStatus.pending = true
is_active_task ResearchTaskStatus.ready = true
is_active_task ResearchTaskStatus.running = true
is_active_task _ = false

-- `status in {PENDING, RESEARCHING}`
unfoldable pub is_active_question : ResearchQuestionStatus → Bool
is_active_question ResearchQuestionStatus.pending = true
is_active_question ResearchQuestionStatus.researching = true
is_active_question _ = false

-- The decision once every task has ended.
unfoldable pub all_ended : TaskGraph → TerminationDecision
unfolding is_unsuccessful is_completed
all_ended tasks =
    if any_of (λ task. is_unsuccessful task.status) tasks
      && not (any_of (λ task. is_completed task.status) tasks)
    then stop "no_research_task_made_progress" ResearchRunStatus.failed
    else stop "no_active_tasks" ResearchRunStatus.completed

module _ {F : Type 0} (float : Float F) where
  -- The tests on the budget, and what comes after them.
  unfoldable pub after_budget :
      ResearchBudget F
      → BudgetConsumption F
      → Result GraphError TerminationDecision
      → Result GraphError TerminationDecision
  after_budget budget consumption rest =
      if is_exhausted float consumption budget
      then ok (stop "budget_exhausted" ResearchRunStatus.budget_exhausted)
      else if leb_ℤ budget.max_iterations consumption.iterations
      then ok (stop "max_iterations" ResearchRunStatus.completed)
      else rest

  -- `evaluate_termination`. No task list is the empty list: the source tests its truth.
  unfoldable pub evaluate_termination :
      ResearchBudget F
      → BudgetConsumption F
      → List ResearchQuestionRead
      → TaskGraph
      → Result GraphError TerminationDecision
  unfolding all_ended after_budget is_active_task is_active_question
  evaluate_termination budget consumption questions [] = after_budget budget consumption (
      if not_empty (select (λ question. is_active_question question.status) questions)
      then ok go_on
      else ok (stop "no_active_questions" ResearchRunStatus.completed))
  evaluate_termination budget consumption questions (task ∷ tasks) =
      if all_terminal (task ∷ tasks)
      then ok (all_ended (task ∷ tasks))
      else after_budget budget consumption (
          ready_tasks (task ∷ tasks) >>= λ ready.
          if not (not_empty ready) && not (any_of (λ t. is_active_task t.status) (task ∷ tasks))
          then ok (stop "no_active_tasks" ResearchRunStatus.completed)
          else ok go_on)
