-- ===== src/Tasks/Ready.antt =====
-- `TaskGraph.ready_tasks`: on a validated graph it never fails, and returns what may start.
use Prim.Native.Nat.{Ordering, compare as compare_ℕ}
use Prim.Native.Char.{code}
use Prim.Native.String.{compare, then as first_answer}
use Prim.Native.String.compare
use mathlib.Core.List.{Perm}
use deepscout.Base.{
  String, ◌≡◌, refl, sym, ℕ, ap, ap₂, ◌∙◌, Bool, true, false, ◌&&◌, none, some, List, [], ◌∷◌, ok,
  lookup, contains-cons_self, contains-cons_of, keys_of, Included, lookup_of_contains, all_of,
  select, All, All-weaken, arith,
}
use deepscout.Base.Sorting.{sort, IsSorted, sort-perm, sort-IsSorted}
use deepscout.Domain.Schemas.{ResearchTaskRead}
use deepscout.Tasks.Graph.{
  TaskGraph, TaskDict, by_key, validate_dependencies, is_waiting, is_completed, deps_completed,
  task_lt, collect_ready, ready_tasks,
}
use deepscout.Tasks.Cycles.Validate.{contains-by_key}
use deepscout.Tasks.Cycles.Accepts.{validate_dependencies_iff}

-- Comparing texts the other way round turns the answer.
flip : Ordering → Ordering
flip Ordering.lt = Ordering.gt
flip Ordering.eq = Ordering.eq
flip Ordering.gt = Ordering.lt

compare_ℕ-flip : (a b : ℕ) → compare_ℕ b a ≡ flip (compare_ℕ a b)
unfolding flip
compare_ℕ-flip a b = ground arith

flip-then : (o p : Ordering) → first_answer (flip o) (flip p) ≡ flip (first_answer o p)
unfolding flip
flip-then Ordering.lt p = refl
flip-then Ordering.eq p = refl
flip-then Ordering.gt p = refl

compare-flip : (s t : String) → compare t s ≡ flip (compare s t)
unfolding flip
compare-flip String.[] String.[] = rw compare.nil-nil refl
compare-flip String.[] (String.◌∷◌ c t) = rw (compare.cons-nil c t, compare.nil-cons c t) refl
compare-flip (String.◌∷◌ c s) String.[] = rw (compare.cons-nil c s, compare.nil-cons c s) refl
compare-flip (String.◌∷◌ c s) (String.◌∷◌ e t) =
    compare.cons-cons e c t s
    ∙ ap₂ first_answer (compare_ℕ-flip (code c) (code e)) (compare-flip s t)
    ∙ flip-then (compare_ℕ (code c) (code e)) (compare s t)
    ∙ ap flip (sym (compare.cons-cons c e s t))

-- The sort key of `ready_tasks` is a strict order.
pub task_lt-asym : (a b : ResearchTaskRead) → task_lt a b ≡ true → task_lt b a ≡ false
unfolding task_lt flip
task_lt-asym a b h = ground (arith, compare-flip a.task_key b.task_key)

-- What may start: a waiting task whose dependencies have completed.
completed_dep : TaskDict → String → Bool
completed_dep d dep = elim (lookup dep d) [ none ↦ false | some task ↦ is_completed task.status ]

pub is_ready : TaskDict → ResearchTaskRead → Bool
unfolding completed_dep
is_ready d task = is_waiting task.status && all_of (completed_dep d) task.depends_on

deps_completed-eq :
    (d : TaskDict) (deps : List String)
    → Included deps (keys_of d)
    → deps_completed d deps ≡ ok (all_of (completed_dep d) deps)
unfolding deps_completed completed_dep
deps_completed-eq d [] known = refl
deps_completed-eq d (dep ∷ deps) known =
    let (task, found) = lookup_of_contains dep d (known dep (contains-cons_self dep deps)) in
    rw (found, deps_completed)
      (rw (deps_completed-eq d deps (λ k m. known k (contains-cons_of dep k deps m)))
        (ground arith))

collect_ready-eq :
    (d : TaskDict) (tasks : TaskGraph)
    → All (λ task. Included task.depends_on (keys_of d)) tasks
    → collect_ready d tasks ≡ ok (select (is_ready d) tasks)
unfolding collect_ready is_ready
collect_ready-eq d [] known = refl
collect_ready-eq d (task ∷ tasks) known =
    rw (deps_completed-eq d task.depends_on known.0, collect_ready-eq d tasks known.1)
      (ground arith)

-- On a validated graph `ready_tasks` does not fail. It returns each waiting task whose dependencies
-- have all completed, once for each time that it stands in the graph, and no other task, by
-- priority and then by key.
pub ready_tasks-validated :
    (tasks : TaskGraph)
    → validate_dependencies tasks ≡ ok tt
    → (ready : List ResearchTaskRead) × (ready_tasks tasks ≡ ok ready)
      × Perm ready (select (is_ready (by_key tasks)) tasks)
      × IsSorted task_lt ready
unfolding ready_tasks
ready_tasks-validated tasks h =
    let d = by_key tasks in
    let ready = select (is_ready d) tasks in
    (
      sort task_lt ready,
      rw (
          collect_ready-eq d tasks (
            All-weaken tasks (λ t w k m. contains-by_key tasks k ∙ w.known k m)
              ((validate_dependencies_iff tasks).0 h).0)),
      sort-perm task_lt ready,
      sort-IsSorted task_lt task_lt-asym ready,
    )
