-- ===== src/Runs/Usage/History.antt =====
-- Histories of uses, extensions and recordings of token usage: what is reserved before it is used
-- never passes its limit.
use deepscout.Base.{
  ℕ, String, ◌≡◌, Bool, ◌||◌, some, ok, get_row, set_row, All, All-get_row, All-set_row, arith,
  Bool-cases, Result-cases, Option-cases, ok-injective, inl, inr, not, ◌&&◌, subst, none, Option,
}
use deepscout.Base.Int.{ℤ, pos, ◌≤ℤ◌, ltb_ℤ, +ℤ_parts}
use deepscout.Base.Float.{Float}
use deepscout.Domain.Enums.{BudgetMetric, CostReportStatus}
use deepscout.Budget.{post_init}
use deepscout.Budget.Bounds.{WithinLimits}
use deepscout.Budget.Construction.{IsAllowed, post_init-eq-ok, post_init_iff}
use deepscout.Runs.Rows.{ResearchRunRow, TokenUsageRecord}
use deepscout.Runs.Usage.{
  RunTables, row_id, limits_of, budget_from_run, consumption_from_run, charge_row,
  record_budget_usage, extended_row, extend_run_budget,
}
use deepscout.Runs.Usage.Laws.{charge_row-WithinLimits}
use deepscout.Runs.Usage.Tokens.{
  is_evaluator, is_unknown_cost, resolved, count_tokens, count_cost, record_token_usage,
  record_token_usage-eq-ok,
}

module _ {F : Type 0} (float : Float F) (cost_cap : F) where
  -- What is reserved before it is used is within the limits of its row: iterations, wall time,
  -- sources and tool calls. Tokens and cost are recorded after their use.
  abbrev pub IsSound : ResearchRunRow F → Type 0
  IsSound row =
      (row.consumed_iterations ≤ℤ row.max_iterations)
      × (row.consumed_wall_time_seconds ≤ℤ row.max_wall_time_seconds)
      × (row.consumed_sources ≤ℤ row.max_sources)
      × (row.consumed_tool_calls ≤ℤ row.max_tool_calls)

  WithinLimits-IsSound :
      (row : ResearchRunRow F)
      → WithinLimits float (limits_of row) (consumption_from_run row)
      → IsSound row
  unfolding consumption_from_run
  WithinLimits-IsSound row w = (w.iterations_fit, w.wall_time_fits, w.sources_fit, w.tool_calls_fit)

  charge_row-IsSound :
      (row row' : ResearchRunRow F) (metric : BudgetMetric) (delta : F) (now : ℕ)
      → charge_row float cost_cap row metric delta now ≡ ok row'
      → IsSound row'
  unfolding budget_from_run
  charge_row-IsSound row row' metric delta now h =
      let (budget, _, p, w, _) = charge_row-WithinLimits float cost_cap row metric delta now h in
      WithinLimits-IsSound row' (rw (post_init-eq-ok float cost_cap (limits_of row') budget p) at w)

  -- An accepted use leaves every run within its limits.
  record_budget_usage-IsSound :
      (db db' : RunTables F) (run_id : ℕ) (metric : BudgetMetric) (delta : F) (note : String)
      (now : ℕ)
      → record_budget_usage float cost_cap db run_id metric delta note now ≡ ok db'
      → All IsSound db.runs
      → All IsSound db'.runs
  unfolding record_budget_usage
  record_budget_usage-IsSound db db' run_id metric delta note now h all =
      elim (Option-cases (get_row row_id run_id db.runs)) [
        | inl absent ↦ absurd (cc (rw (absent, record_budget_usage) at h))
        | inr (row, found) ↦ elim (Result-cases (charge_row float cost_cap row metric delta now)) [
          | inr (e, refused) ↦ absurd (cc (rw (found, refused, record_budget_usage) at h))
          | inl (row', charged) ↦
              rw (← ok-injective (rw (found, charged, record_budget_usage) at h)) (
                All-set_row row_id IsSound row' db.runs
                  (charge_row-IsSound row row' metric delta now charged) all)
        ]
      ]

  extended_row-IsSound :
      (row : ResearchRunRow F) (i t s : ℤ) (now : ℕ)
      → pos 0 ≤ℤ i
      → pos 0 ≤ℤ t
      → pos 0 ≤ℤ s
      → IsSound row
      → IsSound (extended_row row i t s now)
  unfolding extended_row
  extended_row-IsSound row i t s now hi ht hs w =
      let (iterations, wall_time, sources, tool_calls) = w in
      (
        omega (arith, +ℤ_parts row.max_iterations i, iterations),
        wall_time,
        omega (arith, +ℤ_parts row.max_sources s, sources),
        omega (arith, +ℤ_parts row.max_tool_calls t, tool_calls),
      )

  -- A recording of token usage leaves what is reserved as it was.
  tokens-IsSound :
      (run : ResearchRunRow F) (usage : TokenUsageRecord) (now : ℕ)
      → IsSound run
      → IsSound (count_tokens run usage now)
  unfolding count_tokens
  tokens-IsSound run usage now s = elim (Option-cases usage.total_tokens) [
    | inl absent ↦ rw (absent, count_tokens) s
    | inr (total, given) ↦ elim (Bool-cases (is_evaluator usage.agent_role)) [
      | inl e ↦ rw (given, e, count_tokens) s
      | inr e ↦ rw (given, e, count_tokens) s
    ]
  ]

  cost-IsSound :
      (run : ResearchRunRow F) (usage : TokenUsageRecord) (version : Option String)
      (cost : Option F) (status : CostReportStatus) (now : ℕ)
      → IsSound run
      → IsSound (count_cost float run usage version cost status now)
  unfolding count_cost
  cost-IsSound run usage version none status now s = s
  cost-IsSound run usage version (some cost) status now s =
      elim (Bool-cases (not (is_evaluator usage.agent_role) && not (is_unknown_cost status))) [
        | inr e ↦ rw (e, count_cost) s
        | inl e ↦ rw (e, count_cost) s
      ]

  record_token_usage-IsSound :
      (db db' : RunTables F) (usage : TokenUsageRecord) (version : Option String) (cost : Option F)
      (status : Option CostReportStatus) (now : ℕ)
      → record_token_usage float db usage version cost status now ≡ ok db'
      → All IsSound db.runs
      → All IsSound db'.runs
  record_token_usage-IsSound db db' usage version cost status now h all =
      let (run, found, e) = record_token_usage-eq-ok float db usage version cost status now h in
      subst (All IsSound) e (
        All-set_row row_id IsSound _ db.runs
          (cost-IsSound (count_tokens run usage now) usage version cost (resolved status) now (
            tokens-IsSound run usage now
              (All-get_row row_id IsSound usage.research_run_id db.runs all found)))
          all)

  -- An accepted extension found its row, was not negative, and wrote limits that are valid.
  pub extend_run_budget-eq-ok :
      (db : RunTables F) {db' : RunTables F} (run_id : ℕ) (i t s : ℤ) (now : ℕ)
      → extend_run_budget float cost_cap db run_id i t s now ≡ ok db'
      → (row : ResearchRunRow F) × (get_row row_id run_id db.runs ≡ some row)
        × (pos 0 ≤ℤ i)
        × (pos 0 ≤ℤ t)
        × (pos 0 ≤ℤ s)
        × IsAllowed float cost_cap (limits_of (extended_row row i t s now))
        × (record db { runs = set_row row_id (extended_row row i t s now) db.runs } ≡ db')
  unfolding extend_run_budget budget_from_run
  extend_run_budget-eq-ok db run_id i t s now h =
      elim (Option-cases (get_row row_id run_id db.runs)) [
        | inl absent ↦ absurd (cc (rw (absent, extend_run_budget) at h))
        | inr (row, found) ↦
            let row' = extended_row row i t s now in
            let negative : Bool = ltb_ℤ i (pos 0) || (ltb_ℤ t (pos 0) || ltb_ℤ s (pos 0)) in
            elim (Bool-cases negative) [
              | inl n ↦ absurd (cc (rw (found, n, extend_run_budget) at h))
              | inr n ↦ elim (Result-cases (post_init float cost_cap (limits_of row'))) [
                | inr (e, p) ↦ absurd (cc (rw (found, n, p, extend_run_budget) at h))
                | inl (b, p) ↦ (
                  row,
                  found,
                  ground arith,
                  ground arith,
                  ground arith,
                  (post_init_iff float cost_cap (limits_of row')).0
                      (rw (post_init-eq-ok float cost_cap (limits_of row') b p) at p),
                  ok-injective (rw (found, n, p, extend_run_budget) at h),
                )
              ]
            ]
      ]

  pub extend_run_budget-IsSound :
      (db db' : RunTables F) (run_id : ℕ) (i t s : ℤ) (now : ℕ)
      → extend_run_budget float cost_cap db run_id i t s now ≡ ok db'
      → All IsSound db.runs
      → All IsSound db'.runs
  extend_run_budget-IsSound db db' run_id i t s now h all =
      let (row, found, hi, ht, hs, _, e) = extend_run_budget-eq-ok db run_id i t s now h in
      rw (← e) (
        All-set_row row_id IsSound _ db.runs
          (extended_row-IsSound row i t s now hi ht hs
            (All-get_row row_id IsSound run_id db.runs all found))
          all)

  -- One committed operation on the budget of a run.
  pub data Step (db db' : RunTables F) : Type 0 where
    used :
        (run_id : ℕ) (metric : BudgetMetric) (delta : F) (note : String) (now : ℕ)
        → record_budget_usage float cost_cap db run_id metric delta note now ≡ ok db'
        → Step db db'
    extended :
        (run_id : ℕ) (i t s : ℤ) (now : ℕ)
        → extend_run_budget float cost_cap db run_id i t s now ≡ ok db'
        → Step db db'
    reported :
        (usage : TokenUsageRecord) (version : Option String) (cost : Option F)
        (status : Option CostReportStatus) (now : ℕ)
        → record_token_usage float db usage version cost status now ≡ ok db'
        → Step db db'

  pub Step-IsSound :
      (db db' : RunTables F) → Step db db' → All IsSound db.runs → All IsSound db'.runs
  Step-IsSound db db' (used run_id metric delta note now h) all =
      record_budget_usage-IsSound db db' run_id metric delta note now h all
  Step-IsSound db db' (extended run_id i t s now h) all =
      extend_run_budget-IsSound db db' run_id i t s now h all
  Step-IsSound db db' (reported usage version cost status now h) all =
      record_token_usage-IsSound db db' usage version cost status now h all
