-- ===== src/Examples/Workers.antt =====
-- A task that one worker claims and another takes over.
use deepscout.Base.{ℕ, ◌≡◌, refl, true, false, some, none, [], ◌∷◌, ok, get_row, set_row, arith}
use deepscout.Domain.Enums.{ResearchTaskStatus}
use deepscout.Tasks.{is_completed}
use deepscout.Runs.TaskRows.{
  ResearchTaskRow, TaskTable, task_id, update_task_status, is_ignored, claim_ready_task,
  claimed_task, is_ready_status, reclaim_stale_running_tasks, reported,
}
use deepscout.Runs.TaskRows.Laws.{claim_ready_task-exclusive, reclaim_stale_running_tasks-frees}
use deepscout.Runs.TaskRows.History.{start, later, updated, IsCompleted, TaskHistory-IsCompleted}

abbrev ready : ResearchTaskRow
ready = record {
  id = 1;
  research_run_id = 10;
  task_key = "a";
  objective = "find out";
  status = ResearchTaskStatus.ready;
  priority = 1;
  depends_on = [];
  allowed_tools = [];
  worker_id = none;
  retry_count = 0;
  error_message = none;
  checkpoint = record { phase = none; outcome = none };
  started_at = none;
  completed_at = none;
  created_at = 0;
}

abbrev running : ResearchTaskRow
running = record ready {
  status = ResearchTaskStatus.running;
  worker_id = some 7;
  started_at = some 5;
}

won : claim_ready_task (ready ∷ []) (λ i. false) 1 7 5 ≡ (running ∷ [], true)
unfolding claim_ready_task claimed_task is_ready_status get_row set_row
won = refl

claim_ready_task-exclusive_example :
    (claim_ready_task (running ∷ []) (λ i. false) 1 8 6 ≡ (running ∷ [], false))
    × ((row : ResearchTaskRow) × (get_row task_id 1 (running ∷ []) ≡ some row)
        × (update_task_status (running ∷ []) 1 ResearchTaskStatus.failed (some 8) none 6
            ≡ ok (running ∷ [], row)))
claim_ready_task-exclusive_example =
    claim_ready_task-exclusive (ready ∷ []) (running ∷ []) (λ i. false) (λ i. false) 1 7 8 5 6
      ResearchTaskStatus.failed none won refl

found : get_row task_id 1 (running ∷ []) ≡ some running
unfolding get_row
found = refl

unreported : reported running.checkpoint ≡ none
unfolding reported
unreported = refl

reclaim_stale_running_tasks-frees_example :
    (rows' : TaskTable) × (count : ℕ) × (row' : ResearchTaskRow) × (reclaim_stale_running_tasks
        (running ∷ [])
        true
        10
        180
        200_000_000
      ≡ ok (rows', count))
    × (update_task_status rows' 1 ResearchTaskStatus.completed (some 7) none 200_000_001
        ≡ ok (rows', row'))
    × (update_task_status rows' 1 ResearchTaskStatus.failed (some 7) none 200_000_001
        ≡ ok (rows', row'))
    × ((claim_ready_task rows' (λ i. false) 1 7 200_000_001).1 ≡ true)
    × ((blocked : ResearchTaskRow) × (blocked.status ≡ ResearchTaskStatus.blocked)
        × (blocked.worker_id ≡ some 7)
        × (update_task_status rows' 1 ResearchTaskStatus.blocked (some 7) none 200_000_001
            ≡ ok (set_row task_id blocked rows', blocked)))
reclaim_stale_running_tasks-frees_example =
    reclaim_stale_running_tasks-frees (running ∷ []) 10 180 200_000_000 1 7 200_000_001 running none
      found (record { of_run = refl; running = refl; unreported = unreported; late = omega arith })

abbrev done : ResearchTaskRow
done = record running { status = ResearchTaskStatus.completed; completed_at = some 9 }

done-IsCompleted : IsCompleted 1 (done ∷ [])
unfolding get_row is_completed
done-IsCompleted = (done, refl, refl)

late_report :
    update_task_status (done ∷ []) 1 ResearchTaskStatus.failed (some 7) (some "timeout") 12
    ≡ ok (done ∷ [], done)
unfolding update_task_status is_ignored get_row is_completed
late_report = refl

TaskHistory-IsCompleted_example : IsCompleted 1 (done ∷ [])
TaskHistory-IsCompleted_example =
    TaskHistory-IsCompleted 1 {rows = done ∷ []} {rows' = done ∷ []}
      (later start
        (updated 1 ResearchTaskStatus.failed (some 7) (some "timeout") 12 done late_report))
      done-IsCompleted
