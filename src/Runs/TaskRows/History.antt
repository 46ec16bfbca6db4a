-- ===== src/Runs/TaskRows/History.antt =====
-- The tasks of the store over a history of calls: a completed task stays completed.
use deepscout.Base.{
  Found, Found-write, Found-map, ℕ, ◌+◌, String, ◌≡◌, refl, sym, Bool, true, false, Option, ok,
  get_row, Option-cases, Bool-cases, inl, inr, arith, subst, ok-injective,
}
use deepscout.Domain.Enums.{ResearchTaskStatus}
use deepscout.Tasks.{is_completed}
use deepscout.Runs.TaskRows.{
  ResearchTaskRow, TaskTable, task_id, is_ignored, updated_task, is_ready_status, is_open_task,
  is_running_task, update_task_status, claimed_task, claim_ready_task, reclaim_row,
  reclaim_stale_running_tasks, cancel_task, cancel_tasks, increment_task_retry,
}
use deepscout.Runs.TaskRows.Laws.{reclaim-id, claim-eq-true, claim-unchanged}

-- One call of the store.
pub data TaskCall : TaskTable → TaskTable → Type 0 where
  updated :
      {rows rows' : TaskTable} (id : ℕ) (status : ResearchTaskStatus) (worker_id : Option ℕ)
      (error : Option String) (now : ℕ) (row : ResearchTaskRow)
      → update_task_status rows id status worker_id error now ≡ ok (rows', row)
      → TaskCall rows rows'
  retried :
      {rows rows' : TaskTable} (id count : ℕ)
      → increment_task_retry rows id ≡ ok (rows', count)
      → TaskCall rows rows'
  claimed :
      {rows : TaskTable} (locked : ℕ → Bool) (id worker_id now : ℕ)
      → TaskCall rows (claim_ready_task rows locked id worker_id now).0
  reclaimed :
      {rows rows' : TaskTable} (run_exists : Bool) (run_id stale_after_seconds now count : ℕ)
      → reclaim_stale_running_tasks rows run_exists run_id stale_after_seconds now
        ≡ ok (rows', count)
      → TaskCall rows rows'
  cancelled : {rows : TaskTable} (run_id now : ℕ) → TaskCall rows (cancel_tasks rows run_id now)

pub data TaskHistory (rows : TaskTable) : TaskTable → Type 0 where
  start : TaskHistory rows rows
  later :
      {mid rows' : TaskTable} → TaskHistory rows mid → TaskCall mid rows' → TaskHistory rows rows'

-- The key finds a completed task.
abbrev pub IsCompleted : ℕ → TaskTable → Type 0
IsCompleted key rows = Found task_id (λ row. is_completed row.status) key rows

reclaim-completed :
    (run_id stale now : ℕ) (r : ResearchTaskRow)
    → is_completed r.status ≡ true
    → is_completed (reclaim_row run_id stale now r).status ≡ true
unfolding reclaim_row is_running_task is_completed
reclaim-completed run_id stale now r h = ground arith

cancel-completed :
    (run_id now : ℕ) (r : ResearchTaskRow)
    → is_completed r.status ≡ true
    → is_completed (cancel_task run_id now r).status ≡ true
unfolding cancel_task is_open_task is_completed
cancel-completed run_id now r h = ground arith

cancel-id : (run_id now : ℕ) (r : ResearchTaskRow) → (cancel_task run_id now r).id ≡ r.id
unfolding cancel_task
cancel-id run_id now r = ground arith

update-completed :
    (row : ResearchTaskRow) (status : ResearchTaskStatus) (worker_id : Option ℕ)
    (error : Option String) (now : ℕ)
    → is_ignored row status worker_id ≡ false
    → is_completed row.status ≡ true
    → is_completed (updated_task row status worker_id error now).status ≡ true
unfolding is_ignored updated_task
update-completed row status worker_id error now h done = ground arith

updated-id :
    (row : ResearchTaskRow) (status : ResearchTaskStatus) (worker_id : Option ℕ)
    (error : Option String) (now : ℕ)
    → (updated_task row status worker_id error now).id ≡ row.id
unfolding updated_task
updated-id row status worker_id error now = refl

-- What an update does to the table, in both of its outcomes.
update-IsCompleted :
    (key id : ℕ) (rows rows' : TaskTable) (status : ResearchTaskStatus) (worker_id : Option ℕ)
    (error : Option String) (now : ℕ) (result : ResearchTaskRow)
    → update_task_status rows id status worker_id error now ≡ ok (rows', result)
    → IsCompleted key rows
    → IsCompleted key rows'
unfolding update_task_status
update-IsCompleted key id rows rows' status worker_id error now result h c =
    let Keeps = λ (p : TaskTable × ResearchTaskRow). IsCompleted key p.0 in
    elim (Option-cases (get_row task_id id rows)) [
      | inl n ↦ absurd (cc (rw (n, update_task_status) at h))
      | inr (row, n) ↦ elim (Bool-cases (is_ignored row status worker_id)) [
        | inl e ↦ subst Keeps (ok-injective (rw (n, e, update_task_status) at h)) c
        | inr e ↦ subst Keeps (ok-injective (rw (n, e, update_task_status) at h)) (
            Found-write task_id (λ row. is_completed row.status) key id rows row
              (updated_task row status worker_id error now) n
              (updated-id row status worker_id error now)
              (update-completed row status worker_id error now e) c)
      ]
    ]

retry-IsCompleted :
    (key id : ℕ) (rows rows' : TaskTable) (count : ℕ)
    → increment_task_retry rows id ≡ ok (rows', count)
    → IsCompleted key rows
    → IsCompleted key rows'
unfolding increment_task_retry
retry-IsCompleted key id rows rows' count h c = elim (Option-cases (get_row task_id id rows)) [
  | inl n ↦ absurd (cc (rw (n, increment_task_retry) at h))
  | inr (row, n) ↦
      subst (λ (p : TaskTable × ℕ). IsCompleted key p.0)
        (ok-injective (rw (n, increment_task_retry) at h))
        (Found-write task_id (λ row. is_completed row.status) key id rows row
          (record row { retry_count = row.retry_count + 1 }) n refl (λ d. d) c)
]

ready-not-completed :
    (row : ResearchTaskRow) → is_ready_status row.status ≡ true → is_completed row.status ≡ true → ⊥
unfolding is_ready_status is_completed
ready-not-completed row r c = ground arith

claimed-id :
    (row : ResearchTaskRow) (worker_id now : ℕ) → (claimed_task row worker_id now).id ≡ row.id
unfolding claimed_task
claimed-id row worker_id now = refl

claim-IsCompleted :
    (key : ℕ) (rows : TaskTable) (locked : ℕ → Bool) (id worker_id now : ℕ)
    → IsCompleted key rows
    → IsCompleted key (claim_ready_task rows locked id worker_id now).0
claim-IsCompleted key rows locked id worker_id now c =
    elim (Bool-cases (claim_ready_task rows locked id worker_id now).1) [
      | inr lost ↦
          subst (IsCompleted key) (sym (claim-unchanged rows locked id worker_id now lost)) c
      | inl won ↦
          let (row, n, ready, wrote) = claim-eq-true rows locked id worker_id now won in
          subst (λ (p : TaskTable × Bool). IsCompleted key p.0) (sym wrote)
            (Found-write task_id (λ row. is_completed row.status) key id rows row
              (claimed_task row worker_id now) n (claimed-id row worker_id now)
              (λ done. absurd (ready-not-completed row ready done)) c)
    ]

reclaim-IsCompleted :
    (key : ℕ) (rows rows' : TaskTable) (run_exists : Bool) (run_id stale now count : ℕ)
    → reclaim_stale_running_tasks rows run_exists run_id stale now ≡ ok (rows', count)
    → IsCompleted key rows
    → IsCompleted key rows'
unfolding reclaim_stale_running_tasks
reclaim-IsCompleted key rows rows' false run_id stale now count h c = absurd (cc)
reclaim-IsCompleted key rows rows' true run_id stale now count h c =
    subst (λ (p : TaskTable × ℕ). IsCompleted key p.0) (ok-injective h)
      (Found-map task_id (λ row. is_completed row.status) key (reclaim_row run_id stale now) rows
        (reclaim-id run_id stale now) (reclaim-completed run_id stale now) c)

call-IsCompleted :
    (key : ℕ) {rows rows' : TaskTable}
    → TaskCall rows rows'
    → IsCompleted key rows
    → IsCompleted key rows'
unfolding cancel_tasks
call-IsCompleted key {rows} {rows'} (updated id status worker_id error now row h) c =
    update-IsCompleted key id rows rows' status worker_id error now row h c
call-IsCompleted key {rows} {rows'} (retried id count h) c =
    retry-IsCompleted key id rows rows' count h c
call-IsCompleted key {rows} (claimed locked id worker_id now) c =
    claim-IsCompleted key rows locked id worker_id now c
call-IsCompleted key {rows} {rows'} (reclaimed x run_id stale now count h) c =
    reclaim-IsCompleted key rows rows' x run_id stale now count h c
call-IsCompleted key {rows} (cancelled run_id now) c =
    Found-map task_id (λ row. is_completed row.status) key (cancel_task run_id now) rows
      (cancel-id run_id now) (cancel-completed run_id now) c

-- A completed task stays completed, whatever calls follow in whatever order: reports of any worker
-- with any status, retries, claims, reclaims of stale tasks, and cancellations of runs.
pub TaskHistory-IsCompleted :
    (key : ℕ) {rows rows' : TaskTable}
    → TaskHistory rows rows'
    → IsCompleted key rows
    → IsCompleted key rows'
TaskHistory-IsCompleted key start c = c
TaskHistory-IsCompleted key (later h call) c =
    call-IsCompleted key call (TaskHistory-IsCompleted key h c)
