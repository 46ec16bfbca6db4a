-- ===== src/Tasks/Allocation.antt =====
-- libs/research/src/deepscout_research/runtime/allocation.py: how many workers start.
pub mod Laws
use deepscout.Base.{
  ℕ, ◌+◌, ◌≤◌, ◌<◌, String, Bool, true, false, not, ◌&&◌, ◌||◌, List, [], ◌∷◌, Result, ok, err,
  ◌>>=◌, ◌>>◌, min, max, length, select, if◌then◌else◌, leb, ltb, ◌==◌,
}
use deepscout.Base.Int.{ℤ, pos, pos_part, leb_ℤ}
use deepscout.Base.Float.{Float}
use deepscout.Domain.Enums.{AllocationClass}
use deepscout.Domain.Schemas.{ResearchTaskRead}
use deepscout.Tasks.Graph.{TaskGraph, GraphError, validate_dependencies, ready_tasks}
use deepscout.Tasks.Gate.{not_empty}

pub record AllocationDecision : Type 0 where
  pub allocation_class : AllocationClass
  pub max_workers : ℕ
  pub ready_count : ℕ
  pub reason : String

abbrev decide : AllocationClass → ℕ → ℕ → String → AllocationDecision
decide class workers n reason = record {
  allocation_class = class;
  max_workers = workers;
  ready_count = n;
  reason = reason;
}

-- The float literals of the source: 0.0, 1.0, 0.55 and 0.35.
pub record Thresholds (F : Type 0) : Type 0 where
  pub zero : F
  pub one : F
  pub wide_at : F
  pub sequential_below : F

module _ {F : Type 0} (float : Float F) (lit : Thresholds F) where
  -- `min(1.0, max(0.0, parallel_preference))`
  unfoldable pub clamp : F → F
  clamp p =
      let raised = if float.flt lit.zero p then p else lit.zero in
      if float.flt raised lit.one then raised else lit.one

  -- `4 if pref >= 0.55 else 5`
  unfoldable pub wide_threshold : F → ℕ
  wide_threshold pref = if float.flt pref lit.wide_at then 5 else 4

-- `max(1, min(concurrency_limit, agent_max_total_workers, remaining_tool_calls, n or 1))`
unfoldable pub hard_cap : (concurrency_limit max_total_workers remaining n : ℕ) → ℕ
hard_cap concurrency_limit max_total_workers remaining n =
    max 1 (min (min (min concurrency_limit max_total_workers) remaining) (if n == 0 then 1 else n))

-- The choice among the ready tasks: `n` of them, `independent` with no dependency.
unfoldable pub choose :
    (cap n independent threshold : ℕ) (sequential_bias : Bool) → AllocationDecision
choose cap n independent threshold sequential_bias =
    if n == 0
    then decide AllocationClass.single_agent 1 n "one_or_zero_ready"
    else if n == 1
    then decide AllocationClass.sequential_single 1 n "one_or_zero_ready"
    else if leb n 3 && independent == n
    then (let workers : ℕ = if sequential_bias && ltb 1 n then 1 else min cap n in
        decide
          (if workers == 1 && ltb 1 n
            then AllocationClass.sequential_single
            else AllocationClass.small_parallel)
          workers n "few_independent_tasks")
    else if leb threshold independent
    then (let workers : ℕ = if sequential_bias then 1 else cap in
        decide
          (if workers == 1
            then AllocationClass.sequential_single
            else AllocationClass.wide_parallel)
          workers n "wide_independent_fanout")
    else (let workers : ℕ =
          if sequential_bias
          then 1
          else min cap (max 1 (if independent == 0 then 1 else independent)) in
        decide
          (if workers == 1 && ltb 1 n
            then AllocationClass.sequential_single
            else AllocationClass.small_parallel)
          workers n "mixed_dependencies")

module _ {F : Type 0} (float : Float F) (lit : Thresholds F) where
  unfoldable pub allocate_workers :
      TaskGraph
      → (max_total_workers concurrency_limit : ℕ) (remaining_tool_calls : ℤ)
      → (parallel_preference : F) → Result GraphError AllocationDecision
  unfolding clamp wide_threshold hard_cap choose
  allocate_workers tasks max_total_workers concurrency_limit remaining_tool_calls preference =
      validate_dependencies tasks
      >> (ready_tasks tasks >>= λ ready.
          let n = length ready in
          let independent = length (select (λ task. not (not_empty task.depends_on)) ready) in
          let pref = clamp float lit preference in
          ok (
            if leb_ℤ remaining_tool_calls (pos 0)
            then decide AllocationClass.single_agent 0 n "no_tool_budget"
            else choose
                (hard_cap concurrency_limit max_total_workers (pos_part remaining_tool_calls) n) n
                independent (wide_threshold float lit pref) (float.flt pref lit.sequential_below)))
