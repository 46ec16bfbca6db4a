-- ===== src/Runs/TaskRows.antt =====
-- `ResearchTaskRow` and the operations of `ResearchStore` on tasks: claims by workers, their reports,
-- and the return of tasks whose worker is gone. An `error_message` is the text cut to its first 4000
-- characters, keys are ℕ, and times count microseconds.
pub mod Laws
pub mod History
use deepscout.Base.{
  ℕ, ◌+◌, ◌*◌, String, Bool, true, false, not, ◌&&◌, ◌||◌, Option, none, some, List, [], ◌∷◌, ◌++◌,
  map, Result, ok, err, if◌then◌else◌, ltb, ◌==◌, str_eq, get_row, set_row, contains, length,
  select,
}
use deepscout.Domain.Enums.{ResearchTaskStatus, is_terminal_task}
use deepscout.Domain.Schemas.{PlannerTask}
use deepscout.Tasks.{is_completed}

-- What `checkpoint.get("phase")` and `checkpoint.get("outcome")` give.
pub record Checkpoint : Type 0 where
  pub phase : Option String
  pub outcome : Option String

pub record ResearchTaskRow : Type 0 where
  pub id : ℕ
  pub research_run_id : ℕ
  pub task_key : String
  pub objective : String
  pub status : ResearchTaskStatus
  pub priority : ℕ
  pub depends_on : List String
  pub allowed_tools : List String
  pub worker_id : Option ℕ
  pub retry_count : ℕ
  pub error_message : Option String
  pub checkpoint : Checkpoint
  pub started_at : Option ℕ
  pub completed_at : Option ℕ
  pub created_at : ℕ

abbrev pub TaskTable : Type 0
TaskTable = List ResearchTaskRow

abbrev pub task_id : ResearchTaskRow → ℕ
task_id row = row.id

-- The LookupErrors, and the violation of the unique key of a run's tasks.
pub data TaskError : Type 0 where
  task_not_found run_not_found duplicate_task_key : TaskError

-- `a or b`
abbrev pub or_now : Option ℕ → ℕ → Option ℕ
or_now none now = some now
or_now (some t) now = some t

unfoldable pub is_running_task : ResearchTaskStatus → Bool
is_running_task ResearchTaskStatus.running = true
is_running_task _ = false

unfoldable pub is_ready_status : ResearchTaskStatus → Bool
is_ready_status ResearchTaskStatus.ready = true
is_ready_status _ = false

-- `status in {READY, PENDING, CANCELLED}`
unfoldable pub is_unclaimed : ResearchTaskStatus → Bool
is_unclaimed ResearchTaskStatus.ready = true
is_unclaimed ResearchTaskStatus.pending = true
is_unclaimed ResearchTaskStatus.cancelled = true
is_unclaimed _ = false

-- `status in {COMPLETED, FAILED}`
unfoldable pub is_report : ResearchTaskStatus → Bool
is_report ResearchTaskStatus.completed = true
is_report ResearchTaskStatus.failed = true
is_report _ = false

-- `worker_id is not None and row.worker_id is not None and row.worker_id != worker_id`
unfoldable pub is_other_worker : Option ℕ → Option ℕ → Bool
is_other_worker none owner = false
is_other_worker (some w) none = false
is_other_worker (some w) (some owner) = not (owner == w)

abbrev pub is_some {ℓ} : {A : Type ℓ} → Option A → Bool
is_some none = false
is_some (some a) = true

-- The three early returns of `update_task_status`.
unfoldable pub is_ignored : ResearchTaskRow → ResearchTaskStatus → (worker_id : Option ℕ) → Bool
unfolding is_completed is_other_worker is_unclaimed is_report
is_ignored row status worker_id =
    (is_completed row.status && not (is_completed status))
    || (is_other_worker worker_id row.worker_id
        || (is_some worker_id && (is_unclaimed row.status && is_report status)))

-- The row that it writes otherwise.
unfoldable pub updated_task :
    ResearchTaskRow
    → ResearchTaskStatus
    → (worker_id : Option ℕ) (error_message : Option String) (now : ℕ) → ResearchTaskRow
unfolding is_running_task is_terminal_task
updated_task row status worker_id error_message now = record row {
  status = status;
  worker_id = elim worker_id [ none ↦ row.worker_id | some w ↦ some w ];
  error_message = elim error_message [ none ↦ row.error_message | some e ↦ some e ];
  started_at = if is_running_task status then or_now row.started_at now else row.started_at;
  completed_at = if is_terminal_task status then some now else row.completed_at;
}

-- `update_task_status`: the table and the row that it returns.
unfoldable pub update_task_status :
    TaskTable
    → (id : ℕ) → ResearchTaskStatus
    → (worker_id : Option ℕ) (error_message : Option String) (now : ℕ)
    → Result TaskError (TaskTable × ResearchTaskRow)
unfolding is_ignored updated_task
update_task_status rows id status worker_id error_message now = elim (get_row task_id id rows) [
  | none ↦ err task_not_found
  | some row ↦
      let row' = updated_task row status worker_id error_message now in
      if is_ignored row status worker_id
      then ok (rows, row)
      else ok (set_row task_id row' rows, row')
]

unfoldable pub increment_task_retry : TaskTable → (id : ℕ) → Result TaskError (TaskTable × ℕ)
increment_task_retry rows id = elim (get_row task_id id rows) [
  | none ↦ err task_not_found
  | some row ↦
      ok (
        set_row task_id (record row { retry_count = row.retry_count + 1 }) rows,
        row.retry_count + 1,
      )
]

unfoldable pub claimed_task : ResearchTaskRow → (worker_id now : ℕ) → ResearchTaskRow
claimed_task row worker_id now = record row {
  status = ResearchTaskStatus.running;
  worker_id = some worker_id;
  started_at = or_now row.started_at now;
}

-- `claim_ready_task`. A row that another session has locked is skipped.
unfoldable pub claim_ready_task :
    TaskTable → (locked : ℕ → Bool) (id worker_id now : ℕ) → TaskTable × Bool
unfolding is_ready_status claimed_task
claim_ready_task rows locked id worker_id now = elim (get_row task_id id rows) [
  | none ↦ (rows, false)
  | some row ↦
      if is_ready_status row.status && not (locked id)
      then (set_row task_id (claimed_task row worker_id now) rows, true)
      else (rows, false)
]

-- `checkpoint.get("phase") == "research"` and the two outcomes.
abbrev pub is_text : Option String → String → Bool
is_text none t = false
is_text (some s) t = str_eq s t

unfoldable pub reported : Checkpoint → Option ResearchTaskStatus
reported checkpoint =
    if is_text checkpoint.phase "research"
    then (if is_text checkpoint.outcome "completed"
        then some ResearchTaskStatus.completed
        else if is_text checkpoint.outcome "blocked"
        then some ResearchTaskStatus.blocked
        else none)
    else none

-- `started_at or created_at`
abbrev pub start_of : ResearchTaskRow → ℕ
start_of row = elim row.started_at [ none ↦ row.created_at | some t ↦ t ]

-- What `reclaim_stale_running_tasks` does with a running task of the run, and whether it counts it.
unfoldable pub reclaimed_task :
    (stale_after_seconds now : ℕ) → ResearchTaskRow → ResearchTaskRow × Bool
unfolding reported
reclaimed_task stale_after_seconds now row = elim (reported row.checkpoint) [
  | some status ↦
      (record row { status = status; completed_at = or_now row.completed_at now }, false)
  | none ↦ if ltb now (start_of row + stale_after_seconds * 1_000_000) then (row, false) else (
    record row {
      status = ResearchTaskStatus.ready;
      worker_id = none;
      error_message = some "reclaimed_after_interruption";
    },
    true,
  )
]

abbrev pub is_running_in : (run_id : ℕ) → ResearchTaskRow → Bool
is_running_in run_id row = row.research_run_id == run_id && is_running_task row.status

unfoldable pub reclaim_row :
    (run_id stale_after_seconds now : ℕ) → ResearchTaskRow → ResearchTaskRow
unfolding is_running_task reclaimed_task
reclaim_row run_id stale_after_seconds now row =
    if is_running_in run_id row then (reclaimed_task stale_after_seconds now row).0 else row

unfoldable pub is_reclaimed : (run_id stale_after_seconds now : ℕ) → ResearchTaskRow → Bool
unfolding is_running_task reclaimed_task
is_reclaimed run_id stale_after_seconds now row =
    is_running_in run_id row && (reclaimed_task stale_after_seconds now row).1

-- `reclaim_stale_running_tasks`: the table and the number of tasks that are ready again.
unfoldable pub reclaim_stale_running_tasks :
    TaskTable
    → (run_exists : Bool) (run_id stale_after_seconds now : ℕ) → Result TaskError (TaskTable × ℕ)
unfolding reclaim_row is_reclaimed
reclaim_stale_running_tasks rows run_exists run_id stale_after_seconds now =
    if run_exists
    then ok (
      map (reclaim_row run_id stale_after_seconds now) rows,
      length (select (is_reclaimed run_id stale_after_seconds now) rows),
    )
    else err run_not_found

-- `status not in {COMPLETED, FAILED, CANCELLED}`
unfoldable pub is_open_task : ResearchTaskStatus → Bool
is_open_task ResearchTaskStatus.completed = false
is_open_task ResearchTaskStatus.failed = false
is_open_task ResearchTaskStatus.cancelled = false
is_open_task _ = true

-- The tasks of a run that is cancelled.
unfoldable pub cancel_task : (run_id now : ℕ) → ResearchTaskRow → ResearchTaskRow
unfolding is_open_task
cancel_task run_id now row =
    if row.research_run_id == run_id && is_open_task row.status
    then record row { status = ResearchTaskStatus.cancelled; completed_at = some now }
    else row

unfoldable pub cancel_tasks : TaskTable → (run_id now : ℕ) → TaskTable
unfolding cancel_task
cancel_tasks rows run_id now = map (cancel_task run_id now) rows
