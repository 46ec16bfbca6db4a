-- ===== src/Runs/Status/Laws.antt =====
-- What a change of a run's status or termination reason does, and that it charges nothing.
use deepscout.Base.{
  ℕ, String, ◌≡◌, Option, some, ok, Ensures, Option-cases, Result-cases, inl, inr, subst,
  ok-injective, All, All-get_row, All-set_row, get_row, set_row,
}
use deepscout.Base.Float.{Float}
use deepscout.Domain.Enums.{ResearchRunStatus}
use deepscout.Domain.Invariants.{assert_run_status_transition}
use deepscout.Runs.Rows.{ResearchRunRow}
use deepscout.Runs.Usage.{RunTables, row_id, budget_from_run, consumption_from_run}
use deepscout.Runs.Usage.History.{IsSound}
use deepscout.Runs.Status.{
  row_with_status, update_run_status, set_termination_reason, cancelled_run,
}

module _ {F : Type 0} (float : Float F) (cost_cap : F) where
  pub update_run_status-eq-ok :
      (db : RunTables F) {db' : RunTables F} (run_id : ℕ) (status : ResearchRunStatus) (now : ℕ)
      → update_run_status float cost_cap db run_id status now ≡ ok db'
      → (row : ResearchRunRow F) × (get_row row_id run_id db.runs ≡ some row)
        × (record db { runs = set_row row_id (row_with_status row status now) db.runs } ≡ db')
  unfolding update_run_status
  update_run_status-eq-ok db run_id status now h =
      elim (Option-cases (get_row row_id run_id db.runs)) [
        | inl absent ↦ absurd (cc (rw (absent, update_run_status) at h))
        | inr (row, found) ↦ elim (Result-cases (assert_run_status_transition row.status status)) [
          | inr (e, refused) ↦ absurd (cc (rw (found, refused, update_run_status) at h))
          | inl (_, fine) ↦
              elim (Result-cases
                (budget_from_run float cost_cap (row_with_status row status now))) [
                  | inr (e, bad) ↦ absurd (cc (rw (found, fine, bad, update_run_status) at h))
                  | inl (_, good) ↦
                      (row, found, ok-injective (rw (found, fine, good, update_run_status) at h))
                ]
        ]
      ]

  abbrev pub AllSound : RunTables F → Type 0
  AllSound db = All (IsSound float cost_cap) db.runs

  -- A write that changes neither limits nor consumption.
  pub AllSound-write :
      (db : RunTables F) (run_id : ℕ) (row row' : ResearchRunRow F)
      → get_row row_id run_id db.runs ≡ some row
      → (IsSound float cost_cap row → IsSound float cost_cap row')
      → AllSound db
      → AllSound (record db { runs = set_row row_id row' db.runs })
  AllSound-write db run_id row row' found keep all =
      All-set_row row_id (IsSound float cost_cap) row' db.runs
        (keep (All-get_row row_id (IsSound float cost_cap) run_id db.runs all found)) all

  status-IsSound :
      (row : ResearchRunRow F) (status : ResearchRunStatus) (now : ℕ)
      → IsSound float cost_cap row
      → IsSound float cost_cap (row_with_status row status now)
  unfolding row_with_status consumption_from_run
  status-IsSound row status now s = s

  pub update_run_status-AllSound :
      (db : RunTables F) (run_id : ℕ) (status : ResearchRunStatus) (now : ℕ)
      → AllSound db
      → Ensures AllSound (update_run_status float cost_cap db run_id status now)
  update_run_status-AllSound db run_id status now all =
      elim (Result-cases (update_run_status float cost_cap db run_id status now)) [
        | inr (e, h) ↦ rw h tt
        | inl (db', h) ↦
            let (row, found, e) = update_run_status-eq-ok db run_id status now h in
            rw h (
              subst AllSound e (
                AllSound-write db run_id row (row_with_status row status now) found
                  (status-IsSound row status now) all))
      ]

  reason-IsSound :
      (row : ResearchRunRow F) (reason : Option String) (now : ℕ)
      → IsSound float cost_cap row
      → IsSound float cost_cap (record row { termination_reason = reason; updated_at = now })
  unfolding consumption_from_run
  reason-IsSound row reason now s = s

  pub set_termination_reason-AllSound :
      (db : RunTables F) (run_id : ℕ) (reason : Option String) (now : ℕ)
      → AllSound db
      → Ensures AllSound (set_termination_reason db run_id reason now)
  unfolding set_termination_reason
  set_termination_reason-AllSound db run_id reason now all =
      elim (Option-cases (get_row row_id run_id db.runs)) [
        | inl absent ↦ rw (absent, set_termination_reason) tt
        | inr (row, found) ↦
            rw (found, set_termination_reason)
              (AllSound-write db run_id row
                (record row { termination_reason = reason; updated_at = now }) found
                (reason-IsSound row reason now) all)
      ]

  pub cancelled-IsSound :
      (row : ResearchRunRow F) (now : ℕ)
      → IsSound float cost_cap row
      → IsSound float cost_cap (cancelled_run row now)
  unfolding cancelled_run consumption_from_run
  cancelled-IsSound row now s = s
