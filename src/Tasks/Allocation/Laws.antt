-- ===== src/Tasks/Allocation/Laws.antt =====
-- The number of workers stays within every limit.
use deepscout.Base.{
  ℕ, ◌≤◌, ◌<◌, ◌≡◌, not, select, Bool, false, ok, max, length, List, arith, inl, inr, Result-cases,
  ok-injective,
}
use deepscout.Base.Int.{ℤ, pos, pos_part, ◌≤ℤ◌, leb_ℤ}
use deepscout.Base.Float.{Float}
use deepscout.Domain.Schemas.{ResearchTaskRead}
use deepscout.Tasks.Graph.{TaskGraph, validate_dependencies, ready_tasks}
use deepscout.Tasks.Gate.{not_empty}
use deepscout.Tasks.Allocation.{
  AllocationDecision, Thresholds, hard_cap, choose, clamp, wide_threshold, allocate_workers,
}

hard_cap_bounds :
    (c t r n : ℕ)
    → 0 < r
    → (1 ≤ hard_cap c t r n)
      × (hard_cap c t r n ≤ max 1 c)
      × (hard_cap c t r n ≤ max 1 t)
      × (hard_cap c t r n ≤ r)
      × (hard_cap c t r n ≤ max 1 n)
unfolding hard_cap
hard_cap_bounds c t r n h = ground arith

choose_bounds :
    (cap n independent threshold : ℕ) (bias : Bool)
    → 1 ≤ cap
    → (1 ≤ (choose cap n independent threshold bias).max_workers)
      × ((choose cap n independent threshold bias).max_workers ≤ cap)
unfolding choose
choose_bounds cap n independent threshold bias h = ground arith

choose-ready_count :
    (cap n independent threshold : ℕ) (bias : Bool)
    → (choose cap n independent threshold bias).ready_count ≡ n
unfolding choose
choose-ready_count cap n independent threshold bias = ground arith

-- What a number of workers is within, with `n` tasks ready.
abbrev pub Fits : (total limit remaining n : ℕ) → AllocationDecision → Type 0
Fits total limit remaining n decision =
    (decision.ready_count ≡ n)
    × (1 ≤ decision.max_workers)
    × (decision.max_workers ≤ remaining)
    × (decision.max_workers ≤ max 1 n)
    × (decision.max_workers ≤ max 1 limit)
    × (decision.max_workers ≤ max 1 total)

choose-Fits :
    (total limit remaining n independent threshold : ℕ) (bias : Bool)
    → 0 < remaining
    → Fits total limit remaining n
        (choose (hard_cap limit total remaining n) n independent threshold bias)
choose-Fits total limit remaining n independent threshold bias h =
    let cap = hard_cap limit total remaining n in
    let bounds = hard_cap_bounds limit total remaining n h in
    let chosen = choose_bounds cap n independent threshold bias bounds.0 in
    (
      choose-ready_count cap n independent threshold bias,
      chosen.0,
      omega (arith, bounds, chosen),
      omega (arith, bounds, chosen),
      omega (arith, bounds, chosen),
      omega (arith, bounds, chosen),
    )

module _ {F : Type 0} (float : Float F) (lit : Thresholds F) where
  -- With tool calls left, the decision counts the tasks that ready_tasks gives for the graph, and at
  -- least one worker starts, and no more than the tool calls that are left, the number of those
  -- tasks, the run's limit and the configured limit allow, where each of the last three counts as 1
  -- when it is 0.
  pub allocate_workers_bounds :
      (tasks : TaskGraph) (max_total_workers concurrency_limit : ℕ) (remaining : ℤ) (preference : F)
      (decision : AllocationDecision)
      → allocate_workers float lit tasks max_total_workers concurrency_limit remaining preference
        ≡ ok decision
      → pos 1 ≤ℤ remaining
      → (ready : List ResearchTaskRead) × (ready_tasks tasks ≡ ok ready)
        × Fits max_total_workers concurrency_limit (pos_part remaining) (length ready) decision
  unfolding allocate_workers
  allocate_workers_bounds tasks total limit remaining preference decision h left =
      elim (Result-cases (validate_dependencies tasks)) [
        | inr (e, refused) ↦ absurd (cc (rw (refused, allocate_workers) at h))
        | inl (_, valid) ↦ elim (Result-cases (ready_tasks tasks)) [
          | inr (e, failed) ↦ absurd (cc (rw (valid, failed, allocate_workers) at h))
          | inl (ready, returns) ↦
              let n = length ready in
              let independent =
                length
                  (select (λ (task : ResearchTaskRead). not (not_empty task.depends_on)) ready) in
              let pref = clamp float lit preference in
              let cap = hard_cap limit total (pos_part remaining) n in
              let threshold = wide_threshold float lit pref in
              let bias = float.flt pref lit.sequential_below in
              let some_left : leb_ℤ remaining (pos 0) ≡ false = ground arith in
              (
                ready,
                returns,
                rw (← ok-injective (rw (valid, returns, some_left, allocate_workers) at h)) (
                    choose-Fits total limit (pos_part remaining) n independent threshold bias
                      (omega arith)),
              )
        ]
      ]
