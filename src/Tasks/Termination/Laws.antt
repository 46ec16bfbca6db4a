-- ===== src/Tasks/Termination/Laws.antt =====
-- What `evaluate_termination` decides.
use deepscout.Base.{
  ◌≡◌, ◌↔◌, refl, Bool, true, false, List, [], ◌∷◌, ok, any_of, select, arith, Bool-cases, inl, inr,
  if◌then◌else◌,
}
use deepscout.Base.Int.{leb_ℤ}
use deepscout.Base.Float.{Float}
use deepscout.Domain.Enums.{ResearchRunStatus}
use deepscout.Domain.Schemas.{ResearchTaskRead, ResearchQuestionRead}
use deepscout.Budget.{ResearchBudget, BudgetConsumption, is_exhausted}
use deepscout.Tasks.Graph.{TaskGraph, all_terminal, validate_dependencies, is_completed}
use deepscout.Tasks.Ready.{ready_tasks-validated}
use deepscout.Tasks.Gate.{not_empty}
use deepscout.Tasks.Termination.{
  stop, go_on, all_ended, evaluate_termination, is_active_task, is_active_question, is_unsuccessful,
}

active_of_not_terminal :
    (tasks : TaskGraph)
    → all_terminal tasks ≡ false
    → any_of (λ task. is_active_task task.status) tasks ≡ true
unfolding all_terminal is_active_task
active_of_not_terminal [] h = cc
active_of_not_terminal (task ∷ tasks) h = ground (arith, active_of_not_terminal tasks)

not_empty-select : {A : Type 0} (p : A → Bool) (xs : List A) → not_empty (select p xs) ≡ any_of p xs
not_empty-select p [] = refl
not_empty-select p (x ∷ xs) = ground (arith, not_empty-select p xs)

iterations_exhaust :
    {F : Type 0} (float : Float F) (budget : ResearchBudget F) (c : BudgetConsumption F)
    → is_exhausted float c budget ≡ false
    → leb_ℤ budget.max_iterations c.iterations ≡ false
unfolding is_exhausted
iterations_exhaust float budget c h = ground arith

module _ {F : Type 0} (float : Float F) (budget : ResearchBudget F) (c : BudgetConsumption F)
    (questions : List ResearchQuestionRead) where
  -- The decision on no tasks, in full.
  pub evaluate_termination-questions :
      evaluate_termination float budget c questions []
      ≡ ok (
          if is_exhausted float c budget
          then stop "budget_exhausted" ResearchRunStatus.budget_exhausted
          else if any_of (λ q. is_active_question q.status) questions
          then go_on
          else stop "no_active_questions" ResearchRunStatus.completed)
  unfolding evaluate_termination
  evaluate_termination-questions = elim (Bool-cases (is_exhausted float c budget)) [
    | inl exhausted ↦ rw exhausted refl
    | inr left ↦
        rw
          (
            left,
            iterations_exhaust float budget c left,
            not_empty-select (λ q. is_active_question q.status) questions,
          )
          (ground arith)
  ]

  -- The decision on a validated graph, in full: all tasks ended, the budget used up, or go on.
  pub evaluate_termination-tasks :
      (task : ResearchTaskRead) (tasks : TaskGraph)
      → validate_dependencies (task ∷ tasks) ≡ ok tt
      → evaluate_termination float budget c questions (task ∷ tasks)
        ≡ ok (
            if all_terminal (task ∷ tasks)
            then all_ended (task ∷ tasks)
            else if is_exhausted float c budget
            then stop "budget_exhausted" ResearchRunStatus.budget_exhausted
            else go_on)
  unfolding evaluate_termination
  evaluate_termination-tasks task tasks valid =
      let (ready, returns, _, _) = ready_tasks-validated (task ∷ tasks) valid in
      elim (Bool-cases (all_terminal (task ∷ tasks))) [
        | inl ended ↦ rw ended refl
        | inr open_tasks ↦ elim (Bool-cases (is_exhausted float c budget)) [
          | inl exhausted ↦ rw (open_tasks, exhausted) refl
          | inr left ↦
              rw (open_tasks, left, iterations_exhaust float budget c left, returns)
                (ground (arith, active_of_not_terminal (task ∷ tasks) open_tasks))
        ]
      ]

  -- The run is to fail exactly when every task has ended, none with a result and some blocked or
  -- failed. (The graph is validated and not empty.)
  pub evaluate_termination-failed_iff :
      (task : ResearchTaskRead) (tasks : TaskGraph)
      → validate_dependencies (task ∷ tasks) ≡ ok tt
      → (evaluate_termination float budget c questions (task ∷ tasks)
          ≡ ok (stop "no_research_task_made_progress" ResearchRunStatus.failed))
        ↔ ((all_terminal (task ∷ tasks) ≡ true)
            × (any_of (λ t. is_unsuccessful t.status) (task ∷ tasks) ≡ true)
            × (any_of (λ t. is_completed t.status) (task ∷ tasks) ≡ false))
  unfolding all_ended
  evaluate_termination-failed_iff task tasks valid =
      rw (evaluate_termination-tasks task tasks valid) (λ h. ground arith, λ h. ground arith)

  -- The loop goes on exactly when some task has not ended and the budget is not used up. (The graph
  -- is validated and not empty.)
  pub evaluate_termination-continue_iff :
      (task : ResearchTaskRead) (tasks : TaskGraph)
      → validate_dependencies (task ∷ tasks) ≡ ok tt
      → (evaluate_termination float budget c questions (task ∷ tasks) ≡ ok go_on)
        ↔ ((all_terminal (task ∷ tasks) ≡ false) × (is_exhausted float c budget ≡ false))
  unfolding all_ended
  evaluate_termination-continue_iff task tasks valid =
      rw (evaluate_termination-tasks task tasks valid) (λ h. ground arith, λ h. ground arith)
