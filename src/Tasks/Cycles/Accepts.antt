-- ===== src/Tasks/Cycles/Accepts.antt =====
-- Which graphs `validate_dependencies` accepts.
use deepscout.Base.{
  String, ◌≡◌, refl, sym, ◌↔◌, inl, inr, true, false, List, [], ◌∷◌, Result, ok, err, contains, All,
  Exists, subst, not-contains-nil,
}
use deepscout.Tasks.Graph.{
  TaskGraph, GraphError, unknown_dependency, self_dependency, cycle_detected, key_error,
  out_of_fuel, by_key, task_keys, validate_dependencies,
}
use deepscout.Tasks.Cycles.Relation.{DependsOn, Leads, one, more, IsAcyclic}
use deepscout.Tasks.Cycles.Validate.{
  IsWellFormed, Explains, by_key-values, validate_dependencies-Explains,
}

known_everywhere :
    (keys : List String) (dep key : String) (tasks : TaskGraph)
    → All (IsWellFormed keys) tasks
    → ¬ Exists
        (λ task.
          (task.task_key ≡ key)
          × (contains task.depends_on dep ≡ true)
          × (contains keys dep ≡ false))
        tasks
known_everywhere keys dep key [] ws x = x
known_everywhere keys dep key (task ∷ tasks) ws (inl (_, listed, unknown)) =
    cc (ws.0.known dep listed)
known_everywhere keys dep key (task ∷ tasks) ws (inr x) = known_everywhere keys dep key tasks ws.1 x

not_self_anywhere :
    (keys : List String) (key : String) (tasks : TaskGraph)
    → All (IsWellFormed keys) tasks
    → ¬ Exists (λ task. (task.task_key ≡ key) × (contains task.depends_on key ≡ true)) tasks
not_self_anywhere keys key [] ws x = x
not_self_anywhere keys key (task ∷ tasks) ws (inl (e, listed)) =
    cc (ws.0.not_self, subst (λ k. contains task.depends_on k ≡ true) (sym e) listed)
not_self_anywhere keys key (task ∷ tasks) ws (inr x) = not_self_anywhere keys key tasks ws.1 x

Explains-ok :
    (tasks : TaskGraph) (r : Result GraphError (Unit {0}))
    → All (IsWellFormed (task_keys tasks)) tasks
    → IsAcyclic (by_key tasks)
    → Explains tasks r
    → r ≡ ok tt
Explains-ok tasks (ok _) ws a x = refl
Explains-ok tasks (err (unknown_dependency dep key)) ws a x =
    absurd (known_everywhere (task_keys tasks) dep key tasks ws x)
Explains-ok tasks (err (self_dependency key)) ws a x =
    absurd (not_self_anywhere (task_keys tasks) key tasks ws x)
Explains-ok tasks (err (cycle_detected k)) ws a x = absurd (a k x)
Explains-ok tasks (err (key_error k)) ws a x = absurd x
Explains-ok tasks (err out_of_fuel) ws a x = absurd x

-- Validation passes exactly for the graphs whose dependencies are keys of tasks and not their own,
-- and in which no task depends on itself through others.
pub validate_dependencies_iff :
    (tasks : TaskGraph)
    → (validate_dependencies tasks ≡ ok tt)
      ↔ (All (IsWellFormed (task_keys tasks)) tasks × IsAcyclic (by_key tasks))
validate_dependencies_iff tasks = (
  λ h. subst (Explains tasks) h (validate_dependencies-Explains tasks),
  λ h.
      Explains-ok tasks (validate_dependencies tasks) h.0 h.1
        (validate_dependencies-Explains tasks),
)

no_edges_IsWellFormed :
    (keys : List String) (tasks : TaskGraph)
    → All (λ task. task.depends_on ≡ []) tasks
    → All (IsWellFormed keys) tasks
unfolding contains
no_edges_IsWellFormed keys [] es = tt
no_edges_IsWellFormed keys (task ∷ tasks) es = (
  record {
    known = λ k m. absurd (not-contains-nil k (subst (λ l. contains l k ≡ true) es.0 m));
    not_self = subst (λ l. contains l task.task_key ≡ false) (sym es.0) refl;
  },
  no_edges_IsWellFormed keys tasks es.1,
)

no_edges_IsAcyclic :
    (tasks : TaskGraph) → All (λ task. task.depends_on ≡ []) tasks → IsAcyclic (by_key tasks)
no_edges_IsAcyclic tasks es k c = first c
  where
    step : {j : String} → DependsOn (by_key tasks) k j → ⊥
    step {j} s = not-contains-nil j (
        subst (λ l. contains l j ≡ true)
          (by_key-values (λ task. task.depends_on ≡ []) tasks es k s.task s.found) s.listed)

    first : {j : String} → Leads (by_key tasks) k j → ⊥
    first (one s) = step s
    first (more s p) = step s

-- A graph with no dependencies is accepted.
pub validate_dependencies-no_edges :
    (tasks : TaskGraph)
    → All (λ task. task.depends_on ≡ []) tasks
    → validate_dependencies tasks ≡ ok tt
validate_dependencies-no_edges tasks es =
    (validate_dependencies_iff tasks).1
      (no_edges_IsWellFormed (task_keys tasks) tasks es, no_edges_IsAcyclic tasks es)
