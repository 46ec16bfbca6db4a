-- ===== src/Tasks/Cycles/Validate.antt =====
-- `TaskGraph.validate_dependencies`, on every outcome.
use mathlib.Core.List.{foldl}
use deepscout.Base.{
  ℕ, suc, String, ◌≡◌, refl, ◌∙◌, inl, inr, true, false, ◌||◌, some, List, [], ◌∷◌, Result, ok, err,
  ◌>>=◌, ◌>>◌, str_eq, eq_iff, contains, lookup, keys_of, length, Included, All, Exists,
  contains-cons_cases, contains-cons_of, contains-cons_self, not-contains-nil, lookup-insert,
  contains-keys_of-insert, contains_of_lookup, fresh_count-le-length, Bool-cases, arith, subst,
}
use deepscout.Domain.Schemas.{ResearchTaskRead}
use deepscout.Tasks.Graph.{
  TaskGraph, TaskDict, GraphError, unknown_dependency, self_dependency, cycle_detected, key_error,
  out_of_fuel, Marks, no_marks, add_task, by_key, task_keys, check_deps, check_tasks, visit,
  detect_cycles, validate_dependencies,
}
use deepscout.Tasks.Cycles.Relation.{Leads, one, more, IsAcyclic, IsOrder-not_Leads}
use deepscout.Tasks.Cycles.Search.{IsKnown, Done, Fine, visit_all-Fine, visit-Fine}

-- The dependencies of a task are keys, and not its own.
pub record IsWellFormed (keys : List String) (task : ResearchTaskRead) : Type 0 where
  pub known : Included task.depends_on keys
  pub not_self : contains task.depends_on task.task_key ≡ false

-- What each outcome says of the graph. The outcomes `key_error` and `out_of_fuel` do not occur.
abbrev pub Explains : TaskGraph → Result GraphError (Unit {0}) → Type 0
Explains tasks (ok _) = All (IsWellFormed (task_keys tasks)) tasks × IsAcyclic (by_key tasks)
Explains tasks (err (unknown_dependency dep key)) =
    Exists
      (λ task.
        (task.task_key ≡ key)
        × (contains task.depends_on dep ≡ true)
        × (contains (task_keys tasks) dep ≡ false))
      tasks
Explains tasks (err (self_dependency key)) =
    Exists (λ task. (task.task_key ≡ key) × (contains task.depends_on key ≡ true)) tasks
Explains tasks (err (cycle_detected k)) = Leads (by_key tasks) k k
Explains tasks (err _) = ⊥

-- The dictionary holds tasks of the tuple, under all of their keys.
module _ {κ} (P : ResearchTaskRead → Type κ) where
  add_task-values :
      (d : TaskDict) (task : ResearchTaskRead)
      → P task
      → ((k : String) (t : ResearchTaskRead) → lookup k d ≡ some t → P t)
      → (k : String) (t : ResearchTaskRead) → lookup k (add_task d task) ≡ some t
      → P t
  unfolding add_task
  add_task-values d task p all k t h = elim (Bool-cases (str_eq task.task_key k)) [
    | inl e ↦ subst P {x = task} {y = t} (cc (rw (lookup-insert, e) at h)) p
    | inr e ↦ all k t (rw (lookup-insert, e) at h)
  ]

  foldl-add_task-values :
      (tasks : TaskGraph) (d : TaskDict)
      → All P tasks
      → ((k : String) (t : ResearchTaskRead) → lookup k d ≡ some t → P t)
      → (k : String) (t : ResearchTaskRead) → lookup k (foldl add_task d tasks) ≡ some t
      → P t
  foldl-add_task-values [] d ps all = all
  foldl-add_task-values (task ∷ tasks) d ps all =
      foldl-add_task-values tasks (add_task d task) ps.1 (add_task-values d task ps.0 all)

  -- What holds of every task holds of every value of the dictionary.
  pub by_key-values :
      (tasks : TaskGraph)
      → All P tasks
      → (k : String) (t : ResearchTaskRead) → lookup k (by_key tasks) ≡ some t
      → P t
  unfolding by_key lookup
  by_key-values tasks ps = foldl-add_task-values tasks [] ps (λ k t h. absurd (cc))

keys_of-foldl :
    (tasks : TaskGraph) (d : TaskDict) (k : String)
    → contains (keys_of (foldl add_task d tasks)) k
      ≡ (contains (task_keys tasks) k || contains (keys_of d) k)
unfolding add_task contains
keys_of-foldl [] d k = refl
keys_of-foldl (task ∷ tasks) d k =
    keys_of-foldl tasks (add_task d task) k
    ∙ rw (contains-keys_of-insert task.task_key k task d) (ground arith)

-- The keys of the dictionary are the keys of the tasks.
pub contains-by_key :
    (tasks : TaskGraph) (k : String)
    → contains (keys_of (by_key tasks)) k ≡ contains (task_keys tasks) k
unfolding by_key
contains-by_key tasks k = ground (arith, keys_of-foldl tasks [] k, not-contains-nil k)

-- What `check_deps` says of the dependencies of one task.
abbrev DepsVerdict : List String → String → List String → Result GraphError (Unit {0}) → Type 0
DepsVerdict keys key deps (ok _) = Included deps keys × (contains deps key ≡ false)
DepsVerdict keys key deps (err (unknown_dependency dep k)) =
    (key ≡ k) × (contains deps dep ≡ true) × (contains keys dep ≡ false)
DepsVerdict keys key deps (err (self_dependency k)) = (key ≡ k) × (contains deps k ≡ true)
DepsVerdict keys key deps (err _) = ⊥

DepsVerdict-cons :
    (keys : List String) (key dep : String) (deps : List String) (r : Result GraphError (Unit {0}))
    → contains keys dep ≡ true
    → str_eq dep key ≡ false
    → DepsVerdict keys key deps r
    → DepsVerdict keys key (dep ∷ deps) r
unfolding contains
DepsVerdict-cons keys key dep deps (ok _) known other v = (
  λ k m. elim (contains-cons_cases dep k deps m) [
    | inl e ↦ subst (λ x. contains keys x ≡ true) e known
    | inr m' ↦ v.0 k m'
  ],
  ground arith,
)
DepsVerdict-cons keys key dep deps (err (unknown_dependency a k)) known other v =
    (v.0, contains-cons_of dep a deps v.1, v.2)
DepsVerdict-cons keys key dep deps (err (self_dependency k)) known other v =
    (v.0, contains-cons_of dep k deps v.1)
DepsVerdict-cons keys key dep deps (err (cycle_detected k)) known other v = v
DepsVerdict-cons keys key dep deps (err (key_error k)) known other v = v
DepsVerdict-cons keys key dep deps (err out_of_fuel) known other v = v

check_deps-DepsVerdict :
    (keys : List String) (key : String) (deps : List String)
    → DepsVerdict keys key deps (check_deps keys key deps)
unfolding check_deps
check_deps-DepsVerdict keys key [] = (λ k m. absurd (not-contains-nil k m), unfold contains in refl)
check_deps-DepsVerdict keys key (dep ∷ deps) = elim (Bool-cases (contains keys dep)) [
  | inr unknown ↦ rw unknown (refl, contains-cons_self dep deps, unknown)
  | inl known ↦ elim (Bool-cases (str_eq dep key)) [
    | inl same ↦
        rw (known, same)
          (
            refl,
            subst (λ x. contains (dep ∷ deps) x ≡ true) ((eq_iff dep key).0 same)
                (contains-cons_self dep deps),
          )
    | inr other ↦
        rw (known, other)
          (DepsVerdict-cons keys key dep deps (check_deps keys key deps) known other
            (check_deps-DepsVerdict keys key deps))
  ]
]

-- What `check_tasks` says of all of them.
abbrev TasksVerdict : List String → TaskGraph → Result GraphError (Unit {0}) → Type 0
TasksVerdict keys tasks (ok _) = All (IsWellFormed keys) tasks
TasksVerdict keys tasks (err (unknown_dependency dep key)) =
    Exists
      (λ task.
        (task.task_key ≡ key) × (contains task.depends_on dep ≡ true) × (contains keys dep ≡ false))
      tasks
TasksVerdict keys tasks (err (self_dependency key)) =
    Exists (λ task. (task.task_key ≡ key) × (contains task.depends_on key ≡ true)) tasks
TasksVerdict keys tasks (err _) = ⊥

TasksVerdict-bind :
    (keys : List String) (task : ResearchTaskRead) (tasks : TaskGraph)
    (r s : Result GraphError (Unit {0}))
    → DepsVerdict keys task.task_key task.depends_on r
    → TasksVerdict keys tasks s
    → TasksVerdict keys (task ∷ tasks) (r >> s)
TasksVerdict-bind keys task tasks (ok _) (ok _) v w = (record { known = v.0; not_self = v.1 }, w)
TasksVerdict-bind keys task tasks (ok _) (err (unknown_dependency a k)) v w = inr w
TasksVerdict-bind keys task tasks (ok _) (err (self_dependency k)) v w = inr w
TasksVerdict-bind keys task tasks (ok _) (err (cycle_detected k)) v w = w
TasksVerdict-bind keys task tasks (ok _) (err (key_error k)) v w = w
TasksVerdict-bind keys task tasks (ok _) (err out_of_fuel) v w = w
TasksVerdict-bind keys task tasks (err (unknown_dependency a k)) s v w = inl v
TasksVerdict-bind keys task tasks (err (self_dependency k)) s v w = inl v
TasksVerdict-bind keys task tasks (err (cycle_detected k)) s v w = v
TasksVerdict-bind keys task tasks (err (key_error k)) s v w = v
TasksVerdict-bind keys task tasks (err out_of_fuel) s v w = v

check_tasks-TasksVerdict :
    (keys : List String) (tasks : TaskGraph) → TasksVerdict keys tasks (check_tasks keys tasks)
unfolding check_tasks
check_tasks-TasksVerdict keys [] = tt
check_tasks-TasksVerdict keys (task ∷ tasks) =
    TasksVerdict-bind keys task tasks _ _
      (check_deps-DepsVerdict keys task.task_key task.depends_on)
      (check_tasks-TasksVerdict keys tasks)

-- Well-formed tasks make a dictionary whose dependencies are keys.
IsKnown-by_key :
    (tasks : TaskGraph) → All (IsWellFormed (task_keys tasks)) tasks → IsKnown (by_key tasks)
IsKnown-by_key tasks ws k task found dep m =
    contains-by_key tasks dep
    ∙ (by_key-values (IsWellFormed (task_keys tasks)) tasks ws k task found).known dep m

-- The search from no marks over all keys.
detect_cycles-Fine :
    (tasks : TaskGraph)
    → All (IsWellFormed (task_keys tasks)) tasks
    → Fine (by_key tasks) (keys_of (by_key tasks)) no_marks (detect_cycles tasks)
unfolding detect_cycles
detect_cycles-Fine tasks ws =
    let d = by_key tasks in
    let fuel : ℕ = suc (length (keys_of d)) in
    visit_all-Fine d (visit d fuel) fuel (visit-Fine d (IsKnown-by_key tasks ws) fuel) (keys_of d)
      no_marks
      (λ key m. record {
        member = m;
        order = tt;
        stack = λ k n. absurd (not-contains-nil k n);
        enough = omega (arith, fresh_count-le-length [] (keys_of d));
      })
      tt

-- An order of all keys leaves no cycle.
Done-IsAcyclic : (d : TaskDict) (after : Marks) → Done d (keys_of d) no_marks after → IsAcyclic d
Done-IsAcyclic d after p k c = IsOrder-not_Leads d after.visited k p.order (p.all k (member c)) c
  where
    member : {j : String} → Leads d k j → contains (keys_of d) k ≡ true
    member (one s) = contains_of_lookup k d s.found
    member (more s q) = contains_of_lookup k d s.found

Explains-detect :
    (tasks : TaskGraph) (r : Result GraphError Marks)
    → All (IsWellFormed (task_keys tasks)) tasks
    → Fine (by_key tasks) (keys_of (by_key tasks)) no_marks r
    → Explains tasks (r >>= λ _. ok tt)
Explains-detect tasks (ok after) ws p = (ws, Done-IsAcyclic (by_key tasks) after p)
Explains-detect tasks (err (cycle_detected k)) ws p = p
Explains-detect tasks (err (unknown_dependency a k)) ws p = absurd p
Explains-detect tasks (err (self_dependency k)) ws p = absurd p
Explains-detect tasks (err (key_error k)) ws p = p
Explains-detect tasks (err out_of_fuel) ws p = p

Explains-check :
    (tasks : TaskGraph) (r : Result GraphError (Unit {0}))
    → TasksVerdict (task_keys tasks) tasks r
    → Explains tasks (r >> (detect_cycles tasks >>= λ _. ok tt))
Explains-check tasks (ok _) v =
    Explains-detect tasks (detect_cycles tasks) v (detect_cycles-Fine tasks v)
Explains-check tasks (err (unknown_dependency a k)) v = v
Explains-check tasks (err (self_dependency k)) v = v
Explains-check tasks (err (cycle_detected k)) v = absurd v
Explains-check tasks (err (key_error k)) v = v
Explains-check tasks (err out_of_fuel) v = v

-- Validation ends with an outcome that is right. It passes only if each dependency is the key of a
-- task and not the task's own, and no task depends on itself through others. An error names an
-- unknown dependency, a task that lists itself, or a key that leads back to itself. Neither a
-- KeyError nor an unbounded recursion occurs.
pub validate_dependencies-Explains :
    (tasks : TaskGraph) → Explains tasks (validate_dependencies tasks)
unfolding validate_dependencies
validate_dependencies-Explains tasks =
    Explains-check tasks (check_tasks (task_keys tasks) tasks)
      (check_tasks-TasksVerdict (task_keys tasks) tasks)
