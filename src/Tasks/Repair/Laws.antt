-- ===== src/Tasks/Repair/Laws.antt =====
-- What a repaired plan is.
use deepscout.Base.{
  ℕ, zero, suc, ◌+◌, ◌≤◌, String, ◌≡◌, refl, true, none, some, List, length-map, [], ◌∷◌, map, ok,
  err, length, All, Result-cases, Bool-cases, inl, inr, subst, ap, sym, ◌∙◌, arith, leb, ltb, ◌||◌,
}
use deepscout.Base.Sorting.{sort, length-sort}
use deepscout.Domain.Schemas.{PlannerTask, PlannerQuestion, PlannerOutput}
use deepscout.Tasks.Graph.{GraphError, validate_dependencies}
use deepscout.Tasks.Cycles.Accepts.{validate_dependencies-no_edges}
use deepscout.Tasks.Gate.{not_empty}
use deepscout.Tasks.Repair.{
  Plan, PlanError, priority_out_of_range, as_read, as_read_from, without_deps, break_loop,
  break_cycles, drop_edge, repair_plan, merge_planner_tasks, tasks_from_questions, question_task,
  question_of, question_texts, repaired, drop_unknown_and_self_deps, shape, dedupe_objectives,
  ensure_keys,
}

module _ (uuid4 : ℕ → ℕ) where
  -- The plan passes validation.
  abbrev pub IsValid : Plan → Type 0
  IsValid tasks = validate_dependencies (as_read uuid4 tasks) ≡ ok tt

  as_read_from-no_deps :
      (i : ℕ) (tasks : Plan)
      → All (λ task. task.depends_on ≡ []) (as_read_from uuid4 i (without_deps tasks))
  unfolding as_read_from
  as_read_from-no_deps i [] = tt
  as_read_from-no_deps i (task ∷ tasks) = (refl, as_read_from-no_deps (i + 1) tasks)

  without_deps-IsValid : (tasks : Plan) → IsValid (without_deps tasks)
  unfolding as_read
  without_deps-IsValid tasks =
      validate_dependencies-no_edges (as_read uuid4 (without_deps tasks))
        (as_read_from-no_deps 0 tasks)

  break_loop-accepted :
      (n : ℕ) (tasks : Plan) → IsValid tasks → break_loop uuid4 (suc n) tasks ≡ tasks
  unfolding break_loop
  break_loop-accepted n tasks valid = rw (valid, break_loop) refl

  break_loop-refused :
      (n : ℕ) (tasks : Plan) {e : GraphError}
      → validate_dependencies (as_read uuid4 tasks) ≡ err e
      → break_loop uuid4 (suc n) tasks
        ≡ elim (drop_edge tasks) [ none ↦ without_deps tasks | some next ↦ break_loop uuid4 n next ]
  unfolding break_loop
  break_loop-refused n tasks refused = rw (refused, break_loop) refl

  break_loop-IsValid : (n : ℕ) (tasks : Plan) → IsValid (break_loop uuid4 n tasks)
  unfolding break_loop
  break_loop-IsValid zero tasks = without_deps-IsValid tasks
  break_loop-IsValid (suc n) tasks =
      elim (Result-cases (validate_dependencies (as_read uuid4 tasks))) [
        | inl (_, valid) ↦ subst IsValid (sym (break_loop-accepted n tasks valid)) valid
        | inr (e, refused) ↦
            subst IsValid (sym (break_loop-refused n tasks refused))
              (elim (drop_edge tasks)
                as (λ o.
                  IsValid
                    (elim o [ none ↦ without_deps tasks | some next ↦ break_loop uuid4 n next ])) [
                      | none ↦ without_deps-IsValid tasks
                      | some next ↦ break_loop-IsValid n next
                    ])
      ]

  -- Whatever the plan, the plan after `_break_cycles` passes validation.
  pub break_cycles-IsValid : (tasks : Plan) → IsValid (break_cycles uuid4 tasks)
  unfolding break_cycles
  break_cycles-IsValid tasks = break_loop-IsValid (length tasks + 1) tasks

tasks_from_questions-few :
    (show : ℕ → String) (i : ℕ) (texts : List String)
    → i + length texts ≤ 5
    → (tasks : Plan) × (tasks_from_questions show i texts ≡ ok tasks)
unfolding tasks_from_questions
tasks_from_questions-few show i [] h = ([], refl)
tasks_from_questions-few show i (text ∷ texts) h =
    let (tasks, returns) = tasks_from_questions-few show (i + 1) texts (omega arith) in
    let fits : leb (i + 1) 5 ≡ true = ground arith in
    (question_task show i text ∷ tasks, rw (fits, returns) refl)

tasks_from_questions-many :
    (show : ℕ → String) (i : ℕ) (texts : List String)
    → i ≤ 5
    → 6 ≤ i + length texts
    → (e : PlanError) × (tasks_from_questions show i texts ≡ err e)
unfolding tasks_from_questions
tasks_from_questions-many show i [] le h = absurd (omega arith)
tasks_from_questions-many show i (text ∷ texts) le h = elim (Bool-cases (leb (i + 1) 5)) [
  | inr above ↦ (priority_out_of_range (i + 1), rw above refl)
  | inl fits ↦
      let (e, refused) =
        tasks_from_questions-many show (i + 1) texts (ground arith) (omega arith) in
      (e, rw (fits, refused) refl)
]

module _ (show : ℕ → String) (norm : String → String) (uuid4 : ℕ → ℕ) (output : PlannerOutput) where
  length-texts : length (question_texts output) ≡ length output.questions
  unfolding question_texts
  length-texts =
      length-map (λ (q : PlannerQuestion). q.text)
        (sort (λ (a b : PlannerQuestion). ltb a.priority b.priority) output.questions)
      ∙ length-sort (λ (a b : PlannerQuestion). ltb a.priority b.priority) output.questions

  repair_plan-merged :
      {merged : Plan}
      → merge_planner_tasks show output.tasks (question_texts output) ≡ ok merged
      → repair_plan norm uuid4 output show ≡ ok (repaired norm uuid4 output merged show)
  unfolding repair_plan
  repair_plan-merged returns = rw (returns, repair_plan) refl

  merges :
      (tasks : Plan)
      → (not_empty tasks || leb (length output.questions) 5) ≡ true
      → (merged : Plan) × (merge_planner_tasks show tasks (question_texts output) ≡ ok merged)
  unfolding merge_planner_tasks
  merges [] few =
      tasks_from_questions-few show 0 (question_texts output) (ground (arith, length-texts))
  merges (task ∷ tasks) few = (task ∷ tasks, refl)

  -- A plan with tasks, or with at most five questions, is repaired, and the repaired plan passes
  -- validation: its dependencies are keys of its tasks, none is a task's own, and there is no cycle.
  -- It has one question for each task, with the task's text and priority.
  pub repair_plan-IsValid :
      (not_empty output.tasks || leb (length output.questions) 5) ≡ true
      → (output' : PlannerOutput) × (repair_plan norm uuid4 output show ≡ ok output')
        × IsValid uuid4 output'.tasks
        × (output'.questions
            ≡ map
                (λ (task : PlannerTask). record {
                  text = question_of task;
                  priority = task.priority;
                })
                output'.tasks)
  unfolding repaired
  repair_plan-IsValid h =
      let (merged, returns) = merges output.tasks h in
      (
        repaired norm uuid4 output merged show,
        repair_plan-merged returns,
        break_cycles-IsValid uuid4 (
            drop_unknown_and_self_deps (
              shape output.decomposition (
                drop_unknown_and_self_deps
                  (dedupe_objectives norm (ensure_keys show 1 [] merged))))),
        refl,
      )

  -- Without tasks and with more than five questions the repair fails: the fallback gives its sixth
  -- task a priority that is out of range.
  pub repair_plan-fails :
      output.tasks ≡ []
      → 6 ≤ length output.questions
      → (e : PlanError) × (repair_plan norm uuid4 output show ≡ err e)
  unfolding repair_plan merge_planner_tasks
  repair_plan-fails none_given many =
      let (e, refused) =
        tasks_from_questions-many show 0 (question_texts output) (omega arith)
          (omega (arith, length-texts)) in
      let merge : merge_planner_tasks show output.tasks (question_texts output) ≡ err e =
        ap (λ ts. merge_planner_tasks show ts (question_texts output)) none_given ∙ refused in
      (e, rw (merge, repair_plan) refl)
