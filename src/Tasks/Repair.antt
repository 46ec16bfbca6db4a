-- ===== src/Tasks/Repair.antt =====
-- libs/research/src/deepscout_research/runtime/plan_repair.py, and the planner's fallback of
-- tasks/graph.py. `str(n)`, the normal form of an objective (a regular expression) and the keys
-- that `uuid4` gives are arguments.
pub mod Laws
use Prim.Native.Nat.{Ordering}
use Prim.Native.String.{compare, ◌++◌ as str_append}
use mathlib.Core.List.{foldl}
use deepscout.Base.{
  ℕ, zero, suc, ◌+◌, String, Bool, true, false, not, ◌&&◌, ◌||◌, Option, none, some, List, [], ◌∷◌,
  ◌++◌, map, Result, ok, err, ◌>>=◌, if◌then◌else◌, ltb, leb, ◌==◌, str_eq, contains, insert,
  values_of, length, take, all_of, any_of, select,
}
use deepscout.Base.Sorting.{sort}
use deepscout.Domain.Enums.{PlanDecomposition, ResearchTaskStatus}
use deepscout.Domain.Schemas.{PlannerTask, PlannerQuestion, PlannerOutput, ResearchTaskRead}
use deepscout.Tasks.Graph.{TaskGraph, validate_dependencies}
use deepscout.Tasks.Gate.{not_empty}

-- A priority above 5 does not pass the validation of `PlannerTask`.
pub data PlanError : Type 0 where
  priority_out_of_range : ℕ → PlanError

abbrev pub Plan : Type 0
Plan = List PlannerTask

-- `question_text or objective`
abbrev pub question_of : PlannerTask → String
question_of task = elim task.question_text [
  | none ↦ task.objective
  | some text ↦ if str_eq text "" then task.objective else text
]

module _ (show : ℕ → String) where
  -- A task of `planner_tasks_from_questions`, with the defaults of `PlannerTask`.
  abbrev pub question_task : ℕ → String → PlannerTask
  question_task i text = record {
    task_key = str_append "q" (show (i + 1));
    objective = text;
    question_text = some text;
    depends_on = [];
    priority = i + 1;
    allowed_tools = "web_search" ∷ [];
    completion_criteria = "";
    parallel_safe = true;
    expected_output = "facts";
    skill_hint = none;
    dependency_reason = "";
    required_inputs = "";
    produced_output = "";
  }

  -- `planner_tasks_from_questions`, from the question with number i on.
  unfoldable pub tasks_from_questions : ℕ → List String → Result PlanError Plan
  tasks_from_questions i [] = ok []
  tasks_from_questions i (text ∷ texts) =
      let rest = tasks_from_questions (i + 1) texts in
      if leb (i + 1) 5
      then (rest >>= λ tasks. ok (question_task i text ∷ tasks))
      else err (priority_out_of_range (i + 1))

  unfoldable pub merge_planner_tasks : Plan → List String → Result PlanError Plan
  unfolding tasks_from_questions
  merge_planner_tasks [] questions = tasks_from_questions 0 questions
  merge_planner_tasks (task ∷ tasks) questions = ok (task ∷ tasks)

  -- `_ensure_keys`, from the task with this index on.
  unfoldable pub ensure_keys : (index : ℕ) (used : List String) → Plan → Plan
  ensure_keys index used [] = []
  ensure_keys index used (task ∷ tasks) =
      let key =
        if contains used task.task_key then str_append "t" (show index) else task.task_key in
      record task { task_key = key; question_text = some (question_of task) }
      ∷ ensure_keys (index + 1) (key ∷ used) tasks

-- `_as_read`, with the i-th new key for the i-th task.
unfoldable pub as_read_from : (uuid4 : ℕ → ℕ) → ℕ → Plan → TaskGraph
as_read_from uuid4 i [] = []
as_read_from uuid4 i (task ∷ tasks) =
    record {
      id = uuid4 i;
      task_key = task.task_key;
      objective = task.objective;
      status = ResearchTaskStatus.pending;
      priority = task.priority;
      depends_on = task.depends_on;
      allowed_tools = task.allowed_tools;
      question_id = none;
      worker_id = none;
      started_at = none;
      completed_at = none;
      retry_count = 0;
      error_message = none;
    }
    ∷ as_read_from uuid4 (i + 1) tasks

unfoldable pub as_read : (uuid4 : ℕ → ℕ) → Plan → TaskGraph
unfolding as_read_from
as_read uuid4 = as_read_from uuid4 0

abbrev pub with_deps : List String → PlannerTask → PlannerTask
with_deps deps task = record task { depends_on = deps }

unfoldable pub drop_unknown_and_self_deps : Plan → Plan
drop_unknown_and_self_deps tasks =
    let keys = map (λ (task : PlannerTask). task.task_key) tasks in
    map
      (λ (task : PlannerTask).
        with_deps
          (select (λ dep. contains keys dep && not (str_eq dep task.task_key)) task.depends_on)
          task)
      tasks

-- The loop of `_dedupe_objectives`: the tasks that are kept, and the keys of those that are not.
unfoldable pub dedupe_loop :
    (norm : String → String) (seen : List String) → Plan → Plan × List String
dedupe_loop norm seen [] = ([], [])
dedupe_loop norm seen (task ∷ tasks) =
    let key = norm task.objective in
    let (unique, dropped) =
      dedupe_loop norm (if contains seen key then seen else key ∷ seen) tasks in
    if contains seen key then (unique, task.task_key ∷ dropped) else (task ∷ unique, dropped)

unfoldable pub dedupe_objectives : (norm : String → String) → Plan → Plan
unfolding dedupe_loop
dedupe_objectives norm tasks =
    let (unique, dropped) = dedupe_loop norm [] tasks in
    if not (not_empty dropped)
    then unique
    else map
        (λ (task : PlannerTask).
          with_deps (select (λ dep. not (contains dropped dep)) task.depends_on) task)
        unique

-- `(a.priority, a.task_key) < (b.priority, b.task_key)`
unfoldable pub plan_lt : PlannerTask → PlannerTask → Bool
plan_lt a b =
    ltb a.priority b.priority
    || (a.priority == b.priority
        && elim (compare a.task_key b.task_key) [ Ordering.lt ↦ true | _ ↦ false ])

unfoldable pub chain_from : (previous : Option String) → Plan → Plan
chain_from previous [] = []
chain_from previous (task ∷ tasks) =
    with_deps (elim previous [ none ↦ [] | some key ↦ if str_eq key "" then [] else key ∷ [] ]) task
    ∷ chain_from (some task.task_key) tasks

unfoldable pub chain_by_priority : Plan → Plan
unfolding chain_from sort plan_lt
chain_by_priority tasks = chain_from none (sort plan_lt tasks)

-- `xs[:-1]`
unfoldable pub drop_last {ℓ} : {A : Type ℓ} → List A → List A
drop_last [] = []
drop_last (x ∷ []) = []
drop_last (x ∷ y ∷ ys) = x ∷ drop_last (y ∷ ys)

-- The first task that has dependencies.
unfoldable pub first_with_deps : Plan → Option PlannerTask
first_with_deps [] = none
first_with_deps (task ∷ tasks) =
    if not_empty task.depends_on then some task else first_with_deps tasks

-- The body of the `except` branch: none where nothing is changed.
unfoldable pub drop_edge : Plan → Option Plan
unfolding first_with_deps sort drop_last insert
drop_edge tasks = elim (first_with_deps (sort (λ a b. ltb b.priority a.priority) tasks)) [
  | none ↦ none
  | some task ↦ some (
      values_of (
        insert task.task_key (with_deps (drop_last task.depends_on) task)
          (foldl (λ d (t : PlannerTask). insert t.task_key t d) [] tasks)))
]

abbrev pub without_deps : Plan → Plan
without_deps tasks = map (λ (task : PlannerTask). with_deps [] task) tasks

-- The `for` loop of `_break_cycles` and the return below it.
unfoldable pub break_loop : (uuid4 : ℕ → ℕ) → ℕ → Plan → Plan
unfolding as_read drop_edge
break_loop uuid4 zero current = without_deps current
break_loop uuid4 (suc n) current = elim (validate_dependencies (as_read uuid4 current)) [
  | ok _ ↦ current
  | err _ ↦ elim (drop_edge current) [
    | none ↦ without_deps current
    | some next ↦ break_loop uuid4 n next
  ]
]

unfoldable pub break_cycles : (uuid4 : ℕ → ℕ) → Plan → Plan
unfolding break_loop
break_cycles uuid4 tasks = break_loop uuid4 (length tasks + 1) tasks

abbrev pub has_deps : PlannerTask → Bool
has_deps task = not_empty task.depends_on

-- The branch for each decomposition.
unfoldable pub shape_simple : Plan → Plan
unfolding sort plan_lt
shape_simple tasks =
    map (λ (task : PlannerTask). record task { depends_on = []; parallel_safe = true })
      (take 1 (sort plan_lt tasks))

unfoldable pub shape_parallel : Plan → Plan
shape_parallel tasks =
    map (λ (task : PlannerTask). record task { depends_on = []; parallel_safe = true }) tasks

unfoldable pub shape_chain : Plan → Plan
unfolding chain_by_priority
shape_chain tasks =
    map (λ (task : PlannerTask). record task { parallel_safe = not (has_deps task) })
      (if leb 2 (length tasks) && not (any_of has_deps tasks)
        then chain_by_priority tasks
        else tasks)

-- All but the last task fan out, and the last depends on all of them.
unfoldable pub fan_in : (before : Plan) → Plan → Plan
fan_in before [] = []
fan_in before (last ∷ []) =
    record last {
      depends_on = map (λ (task : PlannerTask). task.task_key) before;
      parallel_safe = false;
    }
    ∷ []
fan_in before (task ∷ next ∷ rest) =
    record task { depends_on = []; parallel_safe = true } ∷ fan_in before (next ∷ rest)

unfoldable pub shape_mixed : Plan → Plan
unfolding fan_in drop_last sort plan_lt
shape_mixed tasks =
    if leb 3 (length tasks) && not (any_of has_deps tasks)
    then fan_in (drop_last (sort plan_lt tasks)) (sort plan_lt tasks)
    else (let roots =
          map (λ (task : PlannerTask). task.task_key)
            (select (λ (task : PlannerTask). not (has_deps task)) tasks) in
        map
          (λ (task : PlannerTask). record task {
            parallel_safe =
                not (has_deps task) || all_of (λ dep. contains roots dep) task.depends_on;
          })
          tasks)

unfoldable pub shape : PlanDecomposition → Plan → Plan
unfolding shape_simple shape_parallel shape_chain shape_mixed
shape PlanDecomposition.unspecified tasks = tasks
shape PlanDecomposition.simple tasks = shape_simple tasks
shape PlanDecomposition.parallel tasks = shape_parallel tasks
shape PlanDecomposition.chain tasks = shape_chain tasks
shape PlanDecomposition.mixed tasks = shape_mixed tasks

-- The texts of the questions by priority.
unfoldable pub question_texts : PlannerOutput → List String
unfolding sort
question_texts output =
    map (λ (q : PlannerQuestion). q.text)
      (sort (λ (a b : PlannerQuestion). ltb a.priority b.priority) output.questions)

module _ (norm : String → String) (uuid4 : ℕ → ℕ) (output : PlannerOutput) where
  -- `repair_plan` below the merge.
  unfoldable pub repaired : Plan → (show : ℕ → String) → PlannerOutput
  unfolding ensure_keys dedupe_objectives drop_unknown_and_self_deps shape break_cycles
  repaired merged show =
      let keyed = ensure_keys show 1 [] merged in
      let known = drop_unknown_and_self_deps (dedupe_objectives norm keyed) in
      let tasks =
        break_cycles uuid4 (drop_unknown_and_self_deps (shape output.decomposition known)) in
      record output {
        tasks = tasks;
        questions =
            map
              (λ (task : PlannerTask). record { text = question_of task; priority = task.priority })
              tasks;
      }

  unfoldable pub repair_plan : (show : ℕ → String) → Result PlanError PlannerOutput
  unfolding merge_planner_tasks question_texts repaired
  repair_plan show = merge_planner_tasks show output.tasks (question_texts output) >>= λ merged.
      ok (repaired merged show)
