-- ===== src/Examples/Queues.antt =====
-- A queue of two jobs and two workers.
use deepscout.Base.{
  ℕ, String, ◌+◌, ◌≡◌, refl, false, true, some, none, [], ◌∷◌, ok, err, All, length, select,
  set_row, get_row, Distinct, map, arith, Bool,
}
use deepscout.Domain.Enums.{ResearchJobType}
use deepscout.Jobs.{
  ResearchJobRow, JobTable, job_id, new_job, claimed_row, claim_next_job, claimable, oldest,
  is_active, lease_free, recover_stale_jobs, is_stale, complete_job, renew_job_lease, fail_job,
  invalid_lease, completed, find_active_job, is_wanted, same_type, enqueue_job, find_key,
}
use deepscout.Jobs.Service.{enqueue_execute_run}
use deepscout.Jobs.Takes.{IsClaim, claim_next_job-IsClaim}
use deepscout.Jobs.History.{OtherCalls, claim, recover, nothing, call}
use deepscout.Jobs.Promises.{
  claim_next_job-exclusive, claim_next_job-supersedes, recover_stale_jobs-recovers, IsRecovery,
}
use deepscout.Jobs.Enqueue.{enqueue_execute_run-idempotent}

abbrev no_locks : ℕ → Bool
no_locks id = false

abbrev job : ResearchJobRow
job = new_job 1 10 ResearchJobType.execute_run "execute:10" 0

abbrev newer : ResearchJobRow
newer = new_job 2 11 ResearchJobType.execute_run "execute:11" 5

abbrev jobs : JobTable
jobs = newer ∷ job ∷ []

distinct : Distinct (map job_id jobs)
distinct = ((refl, tt), (tt, tt))

abbrev taken : ResearchJobRow
taken = claimed_row job "alice" "t1" 60 100

abbrev jobs_taken : JobTable
jobs_taken = newer ∷ taken ∷ []

claims : claim_next_job jobs no_locks "alice" "t1" 60 none 100 ≡ (jobs_taken, some taken)
unfolding claim_next_job oldest claimable is_active lease_free set_row
claims = refl

claim_next_job-IsClaim_example :
    IsClaim jobs no_locks "alice" "t1" 60 none 100
      (claim_next_job jobs no_locks "alice" "t1" 60 none 100)
claim_next_job-IsClaim_example =
    claim_next_job-IsClaim jobs no_locks "alice" "t1" 60 none 100 distinct

-- Another worker claims and stale jobs are recovered while the lease of the first runs.
abbrev jobs_later : JobTable
jobs_later =
    (recover_stale_jobs (claim_next_job jobs_taken no_locks "bob" "t2" 60 none 120).0 150).0

others : OtherCalls "t1" (100 + 60) jobs_taken jobs_later
others =
    call {now = 120} (omega arith) (claim no_locks "bob" "t2" 60 none)
      (call {now = 150} (omega arith) recover nothing)

claim_next_job-exclusive_example :
    (get_row job_id 1 jobs_later ≡ some taken)
    × (complete_job jobs_later 1 "alice" "t1" 155
        ≡ ok (set_row job_id (completed 155 taken) jobs_later))
claim_next_job-exclusive_example =
    claim_next_job-exclusive jobs jobs_taken taken no_locks "alice" "t1" 60 none 100 distinct claims
      jobs_later 155 others

claim_next_job-supersedes_example :
    (renew_job_lease jobs_taken 1 "bob" "t0" 60 130 ≡ err invalid_lease)
    × (complete_job jobs_taken 1 "bob" "t0" 130 ≡ err invalid_lease)
    × (fail_job jobs_taken 1 "bob" "t0" "lost" true 130 ≡ err invalid_lease)
claim_next_job-supersedes_example =
    claim_next_job-supersedes jobs jobs_taken taken no_locks "alice" "t1" 60 none 100 distinct
      claims "bob" "t0" "lost" true 60 130 refl

recover_stale_jobs-recovers_example :
    All (λ r. is_stale 200 r ≡ false) (recover_stale_jobs jobs_taken 200).0
    × ((recover_stale_jobs jobs_taken 200).1 ≡ length (select (is_stale 200) jobs_taken))
    × IsRecovery 200 210 jobs_taken (recover_stale_jobs jobs_taken 200).0
recover_stale_jobs-recovers_example = recover_stale_jobs-recovers jobs_taken 200 210

abbrev shown : ℕ → String
shown n = "run"

abbrev fresh : ResearchJobRow
fresh = new_job 3 12 ResearchJobType.execute_run "execute:run" 9

enqueued : enqueue_execute_run shown jobs true 12 3 9 ≡ ok (newer ∷ job ∷ fresh ∷ [], fresh)
unfolding enqueue_execute_run find_active_job oldest is_wanted is_active same_type enqueue_job
    find_key
enqueued = refl

enqueue_execute_run-idempotent_example :
    enqueue_execute_run shown (newer ∷ job ∷ fresh ∷ []) true 12 4 20
    ≡ ok (newer ∷ job ∷ fresh ∷ [], fresh)
enqueue_execute_run-idempotent_example =
    enqueue_execute_run-idempotent shown jobs (newer ∷ job ∷ fresh ∷ []) 12 3 9 4 20 fresh enqueued
