-- ===== src/Tasks/Gate.antt =====
-- libs/research/src/deepscout_research/contracts/dependency_gate.py: tasks that may start, and tasks
-- that never can because a dependency ended without a result.
pub mod Blocking
pub mod Calls
use Prim.Native.String.{◌++◌ as str_append}
use deepscout.Base.{
  ℕ, zero, suc, String, Bool, true, false, not, ◌&&◌, ◌||◌, Option, none, some, List, [], ◌∷◌, ◌++◌,
  Result, ok, err, ◌>>=◌, ◌>>◌, if◌then◌else◌, str_eq, contains, lookup, select, all_of, length,
}
use deepscout.Domain.Enums.{ResearchTaskStatus}
use deepscout.Domain.Schemas.{ResearchTaskRead}
use deepscout.Tasks.Graph.{
  TaskGraph, TaskDict, GraphError, by_key, validate_dependencies, ready_tasks, is_waiting,
  is_completed,
}

-- `_ENTITY_TASK_KEYS`
abbrev pub entity_task_keys : List String
entity_task_keys = "entity-office-holder" ∷ []

-- `status in _UNSATISFIED_TERMINAL`
unfoldable pub is_unsatisfied : ResearchTaskStatus → Bool
is_unsatisfied ResearchTaskStatus.blocked = true
is_unsatisfied ResearchTaskStatus.cancelled = true
is_unsatisfied ResearchTaskStatus.failed = true
is_unsatisfied _ = false

-- `dependency_satisfied`. The verified entities are given by the keys whose entry is not empty.
unfoldable pub dependency_satisfied : String → TaskDict → List String → Bool
dependency_satisfied dep_key d verified =
    if contains entity_task_keys dep_key
    then contains verified dep_key
    else elim (lookup dep_key d) [ none ↦ false | some task ↦ is_completed task.status ]

-- `ready_tasks_with_verified_deps`, given the entities that the run's snapshot holds.
unfoldable pub ready_tasks_with_verified_deps :
    List String → TaskGraph → Result GraphError (List ResearchTaskRead)
unfolding dependency_satisfied
ready_tasks_with_verified_deps verified tasks =
    validate_dependencies tasks
    >> (ready_tasks tasks >>= λ ready. ok (
        select
          (λ task. all_of (λ dep. dependency_satisfied dep (by_key tasks) verified) task.depends_on)
          ready))

-- A call of `update_task_status` with BLOCKED.
pub record BlockCall : Type 0 where
  pub task_id : ℕ
  pub error_message : String

-- `','.join(keys)`
unfoldable pub join_keys : List String → String
join_keys [] = ""
join_keys (k ∷ []) = k
join_keys (k ∷ j ∷ ks) = str_append k (str_append "," (join_keys (j ∷ ks)))

unfoldable pub is_dead_end : TaskDict → String → Bool
unfolding is_unsatisfied
is_dead_end d key = elim (lookup key d) [ none ↦ false | some task ↦ is_unsatisfied task.status ]

-- `terminal_deps`
unfoldable pub terminal_deps : TaskDict → ResearchTaskRead → List String
unfolding is_dead_end
terminal_deps d task = select (is_dead_end d) task.depends_on

abbrev pub not_empty {ℓ} : {A : Type ℓ} → List A → Bool
not_empty [] = false
not_empty (x ∷ xs) = true

-- The task is to be blocked, as the tasks stand.
unfoldable pub is_stuck : TaskDict → ResearchTaskRead → Bool
unfolding is_waiting terminal_deps
is_stuck d task = is_waiting task.status && not_empty (terminal_deps d task)

abbrev pub block : ResearchTaskRead → ResearchTaskRead
block task = record task { status = ResearchTaskStatus.blocked }

unfoldable pub block_call : TaskDict → ResearchTaskRead → BlockCall
unfolding join_keys terminal_deps
block_call d task = record {
  task_id = task.id;
  error_message = str_append "blocked_by_dependency:" (join_keys (terminal_deps d task));
}

-- The task after its turn.
unfoldable pub settle : TaskDict → ResearchTaskRead → ResearchTaskRead
unfolding is_stuck
settle d task = if is_stuck d task then block task else task

-- The `for` loop over the tasks, with those before and those to come. The dictionary holds the very
-- objects of the list, so it is the dictionary of the list as it stands.
unfoldable pub sweep : TaskGraph → TaskGraph → TaskGraph × List BlockCall
unfolding settle by_key block_call
sweep done [] = (done, [])
sweep done (task ∷ rest) =
    let d = by_key (done ++ task ∷ rest) in
    let (after, calls) = sweep (done ++ settle d task ∷ []) rest in
    (after, if is_stuck d task then block_call d task ∷ calls else calls)

-- The `while changed` loop: none if the fuel runs out.
unfoldable pub sweeps : ℕ → TaskGraph → List BlockCall → Option (TaskGraph × List BlockCall)
unfolding sweep
sweeps zero tasks calls = none
sweeps (suc fuel) tasks calls =
    let (after, new) = sweep [] tasks in
    let rest = sweeps fuel after (calls ++ new) in
    if not_empty new then rest else some (after, calls)

-- `block_tasks_with_terminal_dependencies`: the tasks afterwards and the calls on the store, as many
-- as the number that it returns.
unfoldable pub block_tasks_with_terminal_dependencies :
    TaskGraph → Option (TaskGraph × List BlockCall)
unfolding sweeps
block_tasks_with_terminal_dependencies tasks = sweeps (suc (length tasks)) tasks []
