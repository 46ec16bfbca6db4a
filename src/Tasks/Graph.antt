-- ===== src/Tasks/Graph.antt =====
-- `TaskGraph` of libs/research/src/deepscout_research/tasks/graph.py. A graph is its tuple of tasks.
use Prim.Native.Nat.{Ordering}
use Prim.Native.String.{compare}
use mathlib.Core.List.{foldl}
use deepscout.Base.{
  ℕ, zero, suc, String, Bool, true, false, not, ◌&&◌, ◌||◌, Option, none, some, List, [], ◌∷◌, map,
  Result, ok, err, ◌>>=◌, ◌>>◌, if◌then◌else◌, ltb, ◌==◌, str_eq, contains, discard, lookup, insert,
  keys_of, length, all_of,
}
use deepscout.Base.Sorting.{sort}
use deepscout.Domain.Enums.{ResearchTaskStatus, is_terminal_task}
use deepscout.Domain.Schemas.{ResearchTaskRead}

abbrev pub TaskGraph : Type 0
TaskGraph = List ResearchTaskRead

-- The TaskGraphError messages, the KeyError of a missing key, and the exhausted fuel of `visit`.
pub data GraphError : Type 0 where
  unknown_dependency : (dep key : String) → GraphError
  self_dependency cycle_detected key_error : String → GraphError
  out_of_fuel : GraphError

abbrev pub TaskDict : Type 0
TaskDict = List (String × ResearchTaskRead)

-- `by_key`: a later task with the same key replaces the value.
unfoldable pub add_task : TaskDict → ResearchTaskRead → TaskDict
add_task d task = insert task.task_key task d

unfoldable pub by_key : TaskGraph → TaskDict
unfolding add_task
by_key = foldl add_task []

abbrev pub task_keys : TaskGraph → List String
task_keys tasks = map (λ task. task.task_key) tasks

-- The inner loop of `validate_dependencies`.
unfoldable pub check_deps : List String → String → List String → Result GraphError (Unit {0})
check_deps keys key [] = ok tt
check_deps keys key (dep ∷ deps) =
    if not (contains keys dep)
    then err (unknown_dependency dep key)
    else if str_eq dep key
    then err (self_dependency key)
    else check_deps keys key deps

unfoldable pub check_tasks : List String → TaskGraph → Result GraphError (Unit {0})
unfolding check_deps
check_tasks keys [] = ok tt
check_tasks keys (task ∷ tasks) =
    check_deps keys task.task_key task.depends_on >> check_tasks keys tasks

-- The two sets of `_detect_cycles`, newest key first.
pub record Marks : Type 0 where
  pub visiting : List String
  pub visited : List String

-- `for dep in …: visit(dep)`
unfoldable pub visit_all :
    (String → Marks → Result GraphError Marks) → List String → Marks → Result GraphError Marks
visit_all visit [] marks = ok marks
visit_all visit (key ∷ keys) marks = visit key marks >>= visit_all visit keys

-- The body of `visit` after its two tests.
unfoldable pub enter :
    (String → Marks → Result GraphError Marks)
    → String
    → Marks
    → Option ResearchTaskRead
    → Result GraphError Marks
unfolding visit_all
enter visit key marks none = err (key_error key)
enter visit key marks (some task) =
    visit_all visit task.depends_on (record marks { visiting = key ∷ marks.visiting }) >>= λ after.
    ok (record { visiting = discard key after.visiting; visited = key ∷ after.visited })

-- `visit`. The fuel bounds the depth of the recursion.
unfoldable pub visit : TaskDict → ℕ → String → Marks → Result GraphError Marks
unfolding enter
visit d zero key marks = err out_of_fuel
visit d (suc fuel) key marks =
    let body = enter (visit d fuel) key marks (lookup key d) in
    if contains marks.visiting key
    then err (cycle_detected key)
    else if contains marks.visited key
    then ok marks
    else body

abbrev pub no_marks : Marks
no_marks = record { visiting = []; visited = [] }

-- A key is entered only while it is not being visited, so the depth is at most the number of keys.
unfoldable pub detect_cycles : TaskGraph → Result GraphError Marks
unfolding visit by_key
detect_cycles tasks =
    let d = by_key tasks in visit_all (visit d (suc (length (keys_of d)))) (keys_of d) no_marks

unfoldable pub validate_dependencies : TaskGraph → Result GraphError (Unit {0})
unfolding check_tasks detect_cycles
validate_dependencies tasks =
    check_tasks (task_keys tasks) tasks >> (detect_cycles tasks >>= λ _. ok tt)

-- `status in {PENDING, READY}`
unfoldable pub is_waiting : ResearchTaskStatus → Bool
is_waiting ResearchTaskStatus.pending = true
is_waiting ResearchTaskStatus.ready = true
is_waiting _ = false

unfoldable pub is_completed : ResearchTaskStatus → Bool
is_completed ResearchTaskStatus.completed = true
is_completed _ = false

-- `all(by_key[dep].status == COMPLETED for dep in deps)`, which stops at the first that is not.
unfoldable pub deps_completed : TaskDict → List String → Result GraphError Bool
unfolding is_completed
deps_completed d [] = ok true
deps_completed d (dep ∷ deps) =
    let rest = deps_completed d deps in
    elim (lookup dep d) [
      | none ↦ err (key_error dep)
      | some task ↦ if is_completed task.status then rest else ok false
    ]

-- `(a.priority, a.task_key) < (b.priority, b.task_key)`
unfoldable pub task_lt : ResearchTaskRead → ResearchTaskRead → Bool
task_lt a b =
    ltb a.priority b.priority
    || (a.priority == b.priority
        && elim (compare a.task_key b.task_key) [ Ordering.lt ↦ true | _ ↦ false ])

-- The loop of `ready_tasks`.
unfoldable pub collect_ready : TaskDict → TaskGraph → Result GraphError (List ResearchTaskRead)
unfolding is_waiting deps_completed
collect_ready d [] = ok []
collect_ready d (task ∷ tasks) =
    let rest = collect_ready d tasks in
    if is_waiting task.status
    then (do
      completed ← deps_completed d task.depends_on
      ready ← rest
      ok (if completed then task ∷ ready else ready))
    else rest

unfoldable pub ready_tasks : TaskGraph → Result GraphError (List ResearchTaskRead)
unfolding collect_ready by_key sort task_lt
ready_tasks tasks = do ready ← collect_ready (by_key tasks) tasks; ok (sort task_lt ready)

unfoldable pub all_terminal : TaskGraph → Bool
unfolding is_terminal_task
all_terminal tasks = all_of (λ task. is_terminal_task task.status) tasks
