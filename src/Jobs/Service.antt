-- ===== src/Jobs/Service.antt =====
-- `JobService` of libs/research/src/deepscout_research/jobs/service.py.
use Prim.Native.String.{◌++◌}
use deepscout.Base.{ℕ, String, Bool, Option, none, some, Result, ok, if◌then◌else◌, ◌==◌}
use deepscout.Domain.Enums.{ResearchJobType}
use deepscout.Jobs.Queue.{
  JobTable, JobError, ResearchJobRow, find_active_job, enqueue_job, renew_job_lease,
}

-- `enqueue_execute_run`. `show` writes a run's key as `str(uuid)` does.
unfoldable pub enqueue_execute_run :
    (show : ℕ → String)
    → JobTable
    → (run_exists : Bool) (run_id new_id now : ℕ) → Result JobError (JobTable × ResearchJobRow)
enqueue_execute_run show rows run_exists run_id new_id now =
    elim (find_active_job rows run_id none) [
      | some active ↦ ok (rows, active)
      | none ↦
          enqueue_job rows run_exists run_id ResearchJobType.execute_run ("execute:" ++ show run_id)
            new_id now
    ]

-- `enqueue_resume_run`, with the `uuid.uuid4()` that makes its key a new one.
unfoldable pub enqueue_resume_run :
    (show : ℕ → String)
    → JobTable
    → (run_exists : Bool) (run_id nonce new_id now : ℕ)
    → Result JobError (JobTable × ResearchJobRow)
enqueue_resume_run show rows run_exists run_id nonce new_id now =
    elim (find_active_job rows run_id none) [
      | some active ↦ ok (rows, active)
      | none ↦
          enqueue_job rows run_exists run_id ResearchJobType.resume_run
            ("resume:" ++ show run_id ++ ":" ++ show nonce) new_id now
    ]

-- `heartbeat`: a lease length of None or 0 is the service's own.
unfoldable pub heartbeat :
    JobTable
    → (service_lease : ℕ) (id : ℕ) (owner token : String) → Option ℕ
    → (now : ℕ) → Result JobError JobTable
heartbeat rows service_lease id owner token lease now =
    renew_job_lease rows id owner token
      (elim lease [ none ↦ service_lease | some n ↦ if n == 0 then service_lease else n ]) now
