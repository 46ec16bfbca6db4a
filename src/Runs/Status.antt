-- ===== src/Runs/Status.antt =====
-- `update_run_status`, `set_termination_reason` and the run's part of `cancel_run`.
pub mod Laws
use deepscout.Base.{
  ℕ, String, Bool, true, false, Option, none, some, List, [], ◌∷◌, ◌++◌, Result, ok, err,
  if◌then◌else◌, get_row, set_row,
}
use deepscout.Base.Float.{Float}
use deepscout.Domain.Enums.{ResearchRunStatus, is_terminal_run}
use deepscout.Domain.Invariants.{assert_run_status_transition}
use deepscout.Runs.Rows.{ResearchRunRow}
use deepscout.Runs.Usage.{
  RunTables, StoreError, row_id, budget_from_run, run_not_found, invalid_budget, invariant_violated,
}

unfoldable pub is_running_run : ResearchRunStatus → Bool
is_running_run ResearchRunStatus.running = true
is_running_run _ = false

module _ {F : Type 0} where
  -- The row that `update_run_status` writes. Its set of statuses that end a run is the terminal ones.
  unfoldable pub row_with_status :
      ResearchRunRow F → ResearchRunStatus → (now : ℕ) → ResearchRunRow F
  unfolding is_running_run is_terminal_run
  row_with_status row status now = record row {
    status = status;
    updated_at = now;
    started_at =
        if is_running_run status
        then elim row.started_at [ none ↦ some now | some t ↦ some t ]
        else row.started_at;
    completed_at = if is_terminal_run status then some now else row.completed_at;
  }

module _ {F : Type 0} (float : Float F) (cost_cap : F) where
  -- `update_run_status`. Its result is built by `_run_to_read`, which validates the limits.
  unfoldable pub update_run_status :
      RunTables F → (run_id : ℕ) → ResearchRunStatus → (now : ℕ) → Result StoreError (RunTables F)
  unfolding row_with_status
  update_run_status db run_id status now = elim (get_row row_id run_id db.runs) [
    | none ↦ err run_not_found
    | some row ↦ elim (assert_run_status_transition row.status status) [
      | err e ↦ err (invariant_violated e)
      | ok _ ↦ elim (budget_from_run float cost_cap (row_with_status row status now)) [
        | err e ↦ err (invalid_budget e)
        | ok _ ↦ ok (record db { runs = set_row row_id (row_with_status row status now) db.runs })
      ]
    ]
  ]

module _ {F : Type 0} where
  unfoldable pub set_termination_reason :
      RunTables F → (run_id : ℕ) → Option String → (now : ℕ) → Result StoreError (RunTables F)
  set_termination_reason db run_id reason now = elim (get_row row_id run_id db.runs) [
    | none ↦ err run_not_found
    | some row ↦ ok (record db {
      runs = set_row row_id (record row { termination_reason = reason; updated_at = now }) db.runs;
    })
  ]

  -- The row of a run that is cancelled.
  unfoldable pub cancelled_run : ResearchRunRow F → (now : ℕ) → ResearchRunRow F
  cancelled_run row now = record row {
    status = ResearchRunStatus.cancelled;
    termination_reason = some "cancelled";
    updated_at = now;
  }
