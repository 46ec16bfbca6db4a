-- ===== src/Runs/Usage.antt =====
-- The budget operations of `ResearchStore`, and libs/research/src/deepscout_research/budget_gate.py.
pub mod Laws
pub mod History
pub mod Tokens
pub mod Overrun
use deepscout.Base.{
  ℕ, ◌+◌, ◌≤◌, String, ◌≡◌, ◌||◌, Bool, true, false, Option, none, some, List, [], ◌∷◌, ◌++◌,
  Result, ok, err, if◌then◌else◌, get_row, set_row, leb, str_eq,
}
use deepscout.Base.Int.{ℤ, pos, ◌+ℤ◌, ltb_ℤ, leb_ℤ, micros}
use deepscout.Base.Float.{Float}
use deepscout.Domain.Enums.{BudgetMetric}
use deepscout.Domain.Invariants.{DomainInvariantError}
use deepscout.Budget.{
  ResearchBudget, BudgetConsumption, ValueError, post_init, would_exceed, same_metric, bump,
  add_tokens, add_cost,
}
use deepscout.Runs.Rows.{ResearchRunRow, BudgetLedgerEntryRow, TokenUsageRecordRow}

pub data StoreError : Type 0 where
  no_result run_not_found extras_negative : StoreError
  invalid_budget : ValueError → StoreError
  invariant_violated : DomainInvariantError → StoreError
  budget_exhausted wall_time_exhausted tool_calls_exhausted : StoreError

-- The tables that a use of the budget reads and writes.
pub record RunTables (F : Type 0) : Type 0 where
  pub runs : List (ResearchRunRow F)
  pub ledger_entries : List (BudgetLedgerEntryRow F)
  pub token_usage_records : List (TokenUsageRecordRow F)

abbrev pub row_id : {F : Type 0} → ResearchRunRow F → ℕ
row_id row = row.id

-- The arguments that `_budget_from_run` passes.
abbrev pub limits_of : {F : Type 0} → ResearchRunRow F → ResearchBudget F
limits_of row = record {
  max_iterations = row.max_iterations;
  max_wall_time_seconds = row.max_wall_time_seconds;
  max_total_tokens = row.max_total_tokens;
  max_cost_usd = row.max_cost_usd;
  max_sources = row.max_sources;
  max_tool_calls = row.max_tool_calls;
}

-- `_budget_from_run`: constructing the budget validates it.
unfoldable pub budget_from_run :
    {F : Type 0} → Float F → F → ResearchRunRow F → Result ValueError (ResearchBudget F)
budget_from_run float cost_cap row = post_init float cost_cap (limits_of row)

module _ {F : Type 0} where
  -- `_consumption_from_run`
  unfoldable pub consumption_from_run : ResearchRunRow F → BudgetConsumption F
  consumption_from_run row = record {
    iterations = row.consumed_iterations;
    wall_time_seconds = row.consumed_wall_time_seconds;
    total_tokens = row.consumed_total_tokens;
    cost_usd = row.consumed_cost_usd;
    sources = row.consumed_sources;
    tool_calls = row.consumed_tool_calls;
  }

  -- `_write_consumption_to_run`
  unfoldable pub write_consumption_to_run :
      ResearchRunRow F → BudgetConsumption F → (now : ℕ) → ResearchRunRow F
  write_consumption_to_run row c now = record row {
    consumed_iterations = c.iterations;
    consumed_wall_time_seconds = c.wall_time_seconds;
    consumed_total_tokens = c.total_tokens;
    consumed_cost_usd = c.cost_usd;
    consumed_sources = c.sources;
    consumed_tool_calls = c.tool_calls;
    updated_at = now;
  }

module _ {F : Type 0} (float : Float F) where
  -- `_apply_budget_delta`
  unfoldable pub apply_budget_delta : BudgetConsumption F → BudgetMetric → F → BudgetConsumption F
  unfolding same_metric
  apply_budget_delta c metric delta = record {
    iterations = bump float c.iterations BudgetMetric.iterations metric delta;
    wall_time_seconds = bump float c.wall_time_seconds BudgetMetric.wall_time metric delta;
    total_tokens =
        if same_metric metric BudgetMetric.tokens
        then add_tokens float c.total_tokens delta
        else c.total_tokens;
    cost_usd =
        if same_metric metric BudgetMetric.cost
        then add_cost float c.cost_usd delta
        else c.cost_usd;
    sources = bump float c.sources BudgetMetric.sources metric delta;
    tool_calls = bump float c.tool_calls BudgetMetric.tool_calls metric delta;
  }

module _ {F : Type 0} (float : Float F) (cost_cap : F) where
  -- What `record_budget_usage` does with the locked row: the new row.
  unfoldable pub charge_row :
      ResearchRunRow F → BudgetMetric → F → (now : ℕ) → Result StoreError (ResearchRunRow F)
  charge_row row metric delta now = elim (budget_from_run float cost_cap row) [
    | err e ↦ err (invalid_budget e)
    | ok budget ↦
        if would_exceed float (consumption_from_run row) budget metric delta
        then err budget_exhausted
        else ok (
            write_consumption_to_run row
              (apply_budget_delta float (consumption_from_run row) metric delta) now)
  ]

  unfoldable pub record_budget_usage :
      RunTables F
      → (run_id : ℕ) → BudgetMetric
      → F
      → (note : String) (now : ℕ) → Result StoreError (RunTables F)
  record_budget_usage db run_id metric delta note now = elim (get_row row_id run_id db.runs) [
    | none ↦ err no_result
    | some row ↦ elim (charge_row row metric delta now) [
      | err e ↦ err e
      | ok row' ↦ ok (record db {
        runs = set_row row_id row' db.runs;
        ledger_entries =
            db.ledger_entries
            ++ record { research_run_id = run_id; metric = metric; delta = delta; note = note }
              ∷ [];
      })
    ]
  ]

  -- `BudgetGate.ensure_wall_time_available`. Times count microseconds.
  unfoldable pub ensure_wall_time_available :
      RunTables F → (run_id now : ℕ) → Result StoreError (Unit {0})
  ensure_wall_time_available db run_id now = elim (get_row row_id run_id db.runs) [
    | none ↦ err run_not_found
    | some row ↦
        let started_at : ℕ = elim row.started_at [ none ↦ row.created_at | some t ↦ t ] in
        if leb_ℤ (pos started_at +ℤ micros row.max_wall_time_seconds) (pos now)
        then err wall_time_exhausted
        else ok tt
  ]

  -- `BudgetGate.reserve_tool_call`, `reserve_iteration` and `reserve_source`: one unit of a metric,
  -- with a note of its own where none is given. `one` is the float 1.
  reserve :
      BudgetMetric
      → (default_note : String) (one : F) → RunTables F
      → (run_id : ℕ) (note : String) (now : ℕ) → Result StoreError (RunTables F)
  reserve metric default_note one db run_id note now =
      elim (ensure_wall_time_available db run_id now) [
        | err e ↦ err e
        | ok _ ↦
            record_budget_usage db run_id metric one (if str_eq note "" then default_note else note)
              now
      ]

  unfoldable pub reserve_tool_call :
      F → RunTables F → (run_id : ℕ) (note : String) (now : ℕ) → Result StoreError (RunTables F)
  unfolding reserve
  reserve_tool_call = reserve BudgetMetric.tool_calls "tool_call"

  unfoldable pub reserve_iteration :
      F → RunTables F → (run_id : ℕ) (note : String) (now : ℕ) → Result StoreError (RunTables F)
  unfolding reserve
  reserve_iteration = reserve BudgetMetric.iterations "research_iteration"

  unfoldable pub reserve_source :
      F → RunTables F → (run_id : ℕ) (note : String) (now : ℕ) → Result StoreError (RunTables F)
  unfolding reserve
  reserve_source = reserve BudgetMetric.sources "source_discovered"

module _ {F : Type 0} where
  unfoldable pub ensure_tool_budget_available : ResearchRunRow F → Result StoreError (Unit {0})
  ensure_tool_budget_available row =
      if leb_ℤ row.max_tool_calls row.consumed_tool_calls then err tool_calls_exhausted else ok tt

  -- The row that `extend_run_budget` writes.
  unfoldable pub extended_row :
      ResearchRunRow F
      → (extra_iterations extra_tool_calls extra_sources : ℤ) (now : ℕ) → ResearchRunRow F
  extended_row row extra_iterations extra_tool_calls extra_sources now = record row {
    max_iterations = row.max_iterations +ℤ extra_iterations;
    max_tool_calls = row.max_tool_calls +ℤ extra_tool_calls;
    max_sources = row.max_sources +ℤ extra_sources;
    updated_at = now;
  }

module _ {F : Type 0} (float : Float F) (cost_cap : F) where
  -- `extend_run_budget`. Its result is built by `_run_to_read`, which validates the new limits: an
  -- exception there rolls the transaction back.
  unfoldable pub extend_run_budget :
      RunTables F
      → (run_id : ℕ) (extra_iterations extra_tool_calls extra_sources : ℤ) (now : ℕ)
      → Result StoreError (RunTables F)
  unfolding extended_row
  extend_run_budget db run_id extra_iterations extra_tool_calls extra_sources now =
      elim (get_row row_id run_id db.runs) [
        | none ↦ err run_not_found
        | some row ↦
            let row' = extended_row row extra_iterations extra_tool_calls extra_sources now in
            if ltb_ℤ extra_iterations (pos 0)
              || (ltb_ℤ extra_tool_calls (pos 0) || ltb_ℤ extra_sources (pos 0))
            then err extras_negative
            else elim (budget_from_run float cost_cap row') [
              | err e ↦ err (invalid_budget e)
              | ok _ ↦ ok (record db { runs = set_row row_id row' db.runs })
            ]
      ]
