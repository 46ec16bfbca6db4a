-- ===== src/Runs/TaskRows/Laws.antt =====
-- A claim is one worker's, and a worker that lost its task cannot report on it.
use deepscout.Base.{
  ℕ, ◌+◌, ◌*◌, ◌≤◌, String, ◌≡◌, refl, sym, ap, ◌∙◌, Bool, true, false, not, ◌&&◌, Option, none,
  some, map, ok, ◌==◌, get_row, set_row, get_row-written, length, select, get_row-id, get_row-map,
  Option-cases, Bool-cases, inl, inr, arith, subst,
}
use deepscout.Domain.Enums.{ResearchTaskStatus}
use deepscout.Tasks.{is_completed}
use deepscout.Runs.TaskRows.{
  ResearchTaskRow, TaskTable, task_id, is_ignored, is_other_worker, is_unclaimed, is_report,
  update_task_status, updated_task, claimed_task, claim_ready_task, reported, reclaimed_task,
  reclaim_row, reclaim_stale_running_tasks, is_reclaimed, is_running_task, is_ready_status,
  start_of,
}

update-ignored :
    (rows : TaskTable) (id : ℕ) (status : ResearchTaskStatus) (worker_id : Option ℕ)
    (error : Option String) (now : ℕ) {row : ResearchTaskRow}
    → get_row task_id id rows ≡ some row
    → is_ignored row status worker_id ≡ true
    → update_task_status rows id status worker_id error now ≡ ok (rows, row)
unfolding update_task_status
update-ignored rows id status worker_id error now found ignored =
    rw (found, ignored, update_task_status) refl

claimed-owner :
    (row : ResearchTaskRow) (worker other now : ℕ) (status : ResearchTaskStatus)
    → (worker == other) ≡ false
    → is_ignored (claimed_task row worker now) status (some other) ≡ true
unfolding is_ignored claimed_task is_other_worker
claimed-owner row worker other now status ne = ground arith

pub claim-eq-true :
    (rows : TaskTable) (locked : ℕ → Bool) (id worker now : ℕ)
    → (claim_ready_task rows locked id worker now).1 ≡ true
    → (row : ResearchTaskRow) × (get_row task_id id rows ≡ some row)
      × (is_ready_status row.status ≡ true)
      × (claim_ready_task rows locked id worker now
          ≡ (set_row task_id (claimed_task row worker now) rows, true))
unfolding claim_ready_task
claim-eq-true rows locked id worker now won = elim (Option-cases (get_row task_id id rows)) [
  | inl n ↦ absurd (cc (rw (n, claim_ready_task) at won))
  | inr (row, n) ↦ elim (Bool-cases (is_ready_status row.status && not (locked id))) [
    | inr closed ↦ absurd (cc (rw (n, closed, claim_ready_task) at won))
    | inl free ↦ (row, n, ground arith, rw (n, free, claim_ready_task) refl)
  ]
]

pub claim-unchanged :
    (rows : TaskTable) (locked : ℕ → Bool) (id worker now : ℕ)
    → (claim_ready_task rows locked id worker now).1 ≡ false
    → (claim_ready_task rows locked id worker now).0 ≡ rows
unfolding claim_ready_task
claim-unchanged rows locked id worker now lost = elim (Option-cases (get_row task_id id rows)) [
  | inl n ↦ rw (n, claim_ready_task) refl
  | inr (row, n) ↦ elim (Bool-cases (is_ready_status row.status && not (locked id))) [
    | inr closed ↦ rw (n, closed, claim_ready_task) refl
    | inl free ↦ absurd (cc (rw (n, free, claim_ready_task) at lost))
  ]
]

get_row-claimed :
    (rows : TaskTable) (row : ResearchTaskRow) (id worker now : ℕ)
    → get_row task_id id rows ≡ some row
    → get_row task_id id (set_row task_id (claimed_task row worker now) rows)
      ≡ some (claimed_task row worker now)
unfolding claimed_task
get_row-claimed rows row id worker now found =
    get_row-written task_id id (claimed_task row worker now) rows {old = row} found
      (get_row-id task_id id rows found)

claim-lost :
    (rows : TaskTable) (locked : ℕ → Bool) (id worker now : ℕ) {row : ResearchTaskRow}
    → get_row task_id id rows ≡ some row
    → is_ready_status row.status ≡ false
    → claim_ready_task rows locked id worker now ≡ (rows, false)
unfolding claim_ready_task
claim-lost rows locked id worker now {row} found busy =
    let closed : (is_ready_status row.status && not (locked id)) ≡ false = rw busy refl in
    rw (found, closed, claim_ready_task) refl

claimed-busy :
    (row : ResearchTaskRow) (worker now : ℕ)
    → is_ready_status (claimed_task row worker now).status ≡ false
unfolding claimed_task is_ready_status
claimed-busy row worker now = refl

-- A worker that wins the claim of a task is its only one: a later claim of the task fails and
-- changes nothing, and a report of another worker changes nothing either, whatever its status.
pub claim_ready_task-exclusive :
    (rows rows' : TaskTable) (locked locked' : ℕ → Bool) (id worker other now later : ℕ)
    (status : ResearchTaskStatus) (error : Option String)
    → claim_ready_task rows locked id worker now ≡ (rows', true)
    → (worker == other) ≡ false
    → (claim_ready_task rows' locked' id other later ≡ (rows', false))
      × ((row : ResearchTaskRow) × (get_row task_id id rows' ≡ some row)
          × (update_task_status rows' id status (some other) error later ≡ ok (rows', row)))
claim_ready_task-exclusive rows rows' locked locked' id worker other now later status error won ne =
    let (row, found, _, wrote) = claim-eq-true rows locked id worker now (ap (λ c. c.1) won) in
    let there =
      subst (λ t. get_row task_id id t ≡ some (claimed_task row worker now))
        (ap (λ c. c.0) (sym wrote ∙ won)) (get_row-claimed rows row id worker now found) in
    (
      claim-lost rows' locked' id other later there (claimed-busy row worker now),
      (
        claimed_task row worker now,
        there,
        update-ignored rows' id status (some other) error later there
            (claimed-owner row worker other now status ne),
      ),
    )

-- The task is running with no report in its checkpoint, and for as long as the limit.
pub record IsStale (run_id stale_after_seconds now : ℕ) (row : ResearchTaskRow) : Type 0 where
  pub of_run : row.research_run_id ≡ run_id
  pub running : row.status ≡ ResearchTaskStatus.running
  pub unreported : reported row.checkpoint ≡ none
  pub late : start_of row + stale_after_seconds * 1_000_000 ≤ now

reclaim-stale :
    (run_id stale now : ℕ) (row : ResearchTaskRow)
    → IsStale run_id stale now row
    → reclaim_row run_id stale now row ≡ record row {
      status = ResearchTaskStatus.ready;
      worker_id = none;
      error_message = some "reclaimed_after_interruption";
    }
unfolding reclaim_row reclaimed_task is_running_task
reclaim-stale run_id stale now row s = ground arith

pub reclaim-id :
    (run_id stale now : ℕ) (row : ResearchTaskRow) → (reclaim_row run_id stale now row).id ≡ row.id
unfolding reclaim_row reclaimed_task
reclaim-id run_id stale now row = ground arith

free-ignored :
    (row : ResearchTaskRow) (worker : ℕ) (status : ResearchTaskStatus)
    → row.status ≡ ResearchTaskStatus.ready
    → is_report status ≡ true
    → is_ignored row status (some worker) ≡ true
unfolding is_ignored is_unclaimed
free-ignored row worker status e r = ground arith

written-update :
    (rows : TaskTable) (id : ℕ) (status : ResearchTaskStatus) (worker_id : Option ℕ)
    (error : Option String) (now : ℕ) {row : ResearchTaskRow}
    → get_row task_id id rows ≡ some row
    → is_ignored row status worker_id ≡ false
    → update_task_status rows id status worker_id error now
      ≡ ok (
        set_row task_id (updated_task row status worker_id error now) rows,
        updated_task row status worker_id error now,
      )
unfolding update_task_status
written-update rows id status worker_id error now found taken =
    rw (found, taken, update_task_status) refl

-- A stale task is ready again after the reclaim and can be claimed by a session that meets no lock on
-- it. Until it is, a report of completion or failure by the worker that had it (or any other) changes
-- nothing; but a report that it is blocked is taken, and makes the task blocked and that worker's.
pub reclaim_stale_running_tasks-frees :
    (rows : TaskTable) (run_id stale now id worker later : ℕ) (row : ResearchTaskRow)
    (error : Option String)
    → get_row task_id id rows ≡ some row
    → IsStale run_id stale now row
    → (rows' : TaskTable) × (count : ℕ) × (row' : ResearchTaskRow) × (reclaim_stale_running_tasks
          rows true run_id stale now
        ≡ ok (rows', count))
      × (update_task_status rows' id ResearchTaskStatus.completed (some worker) error later
          ≡ ok (rows', row'))
      × (update_task_status rows' id ResearchTaskStatus.failed (some worker) error later
          ≡ ok (rows', row'))
      × ((claim_ready_task rows' (λ i. false) id worker later).1 ≡ true)
      × ((blocked : ResearchTaskRow) × (blocked.status ≡ ResearchTaskStatus.blocked)
          × (blocked.worker_id ≡ some worker)
          × (update_task_status rows' id ResearchTaskStatus.blocked (some worker) error later
              ≡ ok (set_row task_id blocked rows', blocked)))
unfolding reclaim_stale_running_tasks claim_ready_task is_ready_status updated_task is_report
    is_ignored is_unclaimed is_other_worker is_completed
reclaim_stale_running_tasks-frees rows run_id stale now id worker later row error found s =
    let free : ResearchTaskRow = record row {
      status = ResearchTaskStatus.ready;
      worker_id = none;
      error_message = some "reclaimed_after_interruption";
    } in
    let there : get_row task_id id (map (reclaim_row run_id stale now) rows) ≡ some free =
      get_row-map task_id (reclaim_row run_id stale now) id rows {row = row}
        (reclaim-id run_id stale now) found
      ∙ ap (λ q. some q) (reclaim-stale run_id stale now row s) in
    (
      map (reclaim_row run_id stale now) rows,
      length (select (is_reclaimed run_id stale now) rows),
      free,
      refl,
      update-ignored (map (reclaim_row run_id stale now) rows) id ResearchTaskStatus.completed
          (some worker) error later there
          (free-ignored free worker ResearchTaskStatus.completed refl refl),
      update-ignored (map (reclaim_row run_id stale now) rows) id ResearchTaskStatus.failed
          (some worker) error later there
          (free-ignored free worker ResearchTaskStatus.failed refl refl),
      rw (there, claim_ready_task) refl,
      (
        updated_task free ResearchTaskStatus.blocked (some worker) error later,
        refl,
        refl,
        written-update (map (reclaim_row run_id stale now) rows) id ResearchTaskStatus.blocked
            (some worker) error later there refl,
      ),
    )
