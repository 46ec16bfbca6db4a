-- ===== src/Jobs/Queue.antt =====
-- The table of jobs and the operations of the store on it. The clock, a new key and a new token are
-- arguments. Rows that other sessions have locked are given by a test, as `skip_locked` passes over
-- them. Where two jobs are equally old the database may pick either: here it is the first.
use deepscout.Base.{
  ℕ, ◌+◌, String, Bool, true, false, not, ◌&&◌, Option, none, some, List, [], ◌∷◌, ◌++◌, Result, ok,
  err, if◌then◌else◌, ltb, ◌==◌, str_eq, get_row, set_row,
}
use deepscout.Domain.Enums.{ResearchJobType, ResearchJobStatus}

pub record ResearchJobRow : Type 0 where
  pub id : ℕ
  pub research_run_id : ℕ
  pub job_type : ResearchJobType
  pub status : ResearchJobStatus
  pub idempotency_key : String
  pub lease_owner : Option String
  pub lease_token : Option String
  pub lease_expires_at : Option ℕ
  pub attempts : ℕ
  pub max_attempts : ℕ
  pub last_error : Option String
  pub created_at : ℕ
  pub updated_at : ℕ
  pub started_at : Option ℕ
  pub completed_at : Option ℕ

abbrev pub JobTable : Type 0
JobTable = List ResearchJobRow

abbrev pub job_id : ResearchJobRow → ℕ
job_id row = row.id

-- The LookupErrors: a run that is not there, and a lease that is not the caller's.
pub data JobError : Type 0 where
  run_not_found invalid_lease : JobError

-- `status in [PENDING, CLAIMED, RUNNING]`
unfoldable pub is_active : ResearchJobStatus → Bool
is_active ResearchJobStatus.pending = true
is_active ResearchJobStatus.claimed = true
is_active ResearchJobStatus.running = true
is_active _ = false

unfoldable pub is_running : ResearchJobStatus → Bool
is_running ResearchJobStatus.running = true
is_running _ = false

unfoldable pub same_type : ResearchJobType → ResearchJobType → Bool
same_type ResearchJobType.execute_run ResearchJobType.execute_run = true
same_type ResearchJobType.resume_run ResearchJobType.resume_run = true
same_type _ _ = false

-- `SELECT … WHERE … ORDER BY created_at LIMIT 1`
unfoldable pub oldest : (ResearchJobRow → Bool) → JobTable → Option ResearchJobRow
oldest p [] = none
oldest p (row ∷ rows) =
    let rest = oldest p rows in
    if p row
    then elim rest [
      | none ↦ some row
      | some other ↦ if ltb other.created_at row.created_at then some other else some row
    ]
    else rest

-- `… WHERE research_run_id = run AND status IN (active) [AND job_type = type]`
unfoldable pub is_wanted : (run_id : ℕ) → Option ResearchJobType → ResearchJobRow → Bool
unfolding is_active same_type
is_wanted run_id job_type row =
    row.research_run_id == run_id
    && (is_active row.status && elim job_type [ none ↦ true | some t ↦ same_type row.job_type t ])

-- `find_active_job`
unfoldable pub find_active_job :
    JobTable → (run_id : ℕ) → Option ResearchJobType → Option ResearchJobRow
unfolding oldest is_wanted
find_active_job rows run_id job_type = oldest (is_wanted run_id job_type) rows

-- `… WHERE idempotency_key = key`
unfoldable pub find_key : String → JobTable → Option ResearchJobRow
find_key key [] = none
find_key key (row ∷ rows) = if str_eq row.idempotency_key key then some row else find_key key rows

abbrev pub new_job :
    (new_id run_id : ℕ) → ResearchJobType → (key : String) (now : ℕ) → ResearchJobRow
new_job new_id run_id job_type key now = record {
  id = new_id;
  research_run_id = run_id;
  job_type = job_type;
  status = ResearchJobStatus.pending;
  idempotency_key = key;
  lease_owner = none;
  lease_token = none;
  lease_expires_at = none;
  attempts = 0;
  max_attempts = 3;
  last_error = none;
  created_at = now;
  updated_at = now;
  started_at = none;
  completed_at = none;
}

-- `enqueue_job`. `run_exists` is the answer of `_require_run`.
unfoldable pub enqueue_job :
    JobTable
    → (run_exists : Bool) (run_id : ℕ) → ResearchJobType
    → (key : String) (new_id now : ℕ) → Result JobError (JobTable × ResearchJobRow)
unfolding find_key
enqueue_job rows run_exists run_id job_type key new_id now =
    if run_exists
    then elim (find_key key rows) [
      | some existing ↦ ok (rows, existing)
      | none ↦ let row = new_job new_id run_id job_type key now in ok (rows ++ row ∷ [], row)
    ]
    else err run_not_found

-- `lease_expires_at IS NULL OR lease_expires_at < now`
unfoldable pub lease_free : Option ℕ → ℕ → Bool
lease_free none now = true
lease_free (some expires) now = ltb expires now

unfoldable pub claimable : (locked : ℕ → Bool) → Option ℕ → (now : ℕ) → ResearchJobRow → Bool
unfolding is_active lease_free
claimable locked wanted now row =
    is_active row.status
    && (lease_free row.lease_expires_at now
        && (elim wanted [ none ↦ true | some id ↦ row.id == id ] && not (locked row.id)))

abbrev pub claimed_row : ResearchJobRow → (owner token : String) (lease now : ℕ) → ResearchJobRow
claimed_row row owner token lease now = record row {
  status = ResearchJobStatus.running;
  lease_owner = some owner;
  lease_token = some token;
  lease_expires_at = some (now + lease);
  attempts = row.attempts + 1;
  started_at = elim row.started_at [ none ↦ some now | some t ↦ some t ];
  updated_at = now;
}

-- `claim_next_job`
unfoldable pub claim_next_job :
    JobTable
    → (locked : ℕ → Bool) → (owner token : String) (lease : ℕ) → (wanted : Option ℕ) → (now : ℕ)
    → JobTable × Option ResearchJobRow
unfolding oldest claimable
claim_next_job rows locked owner token lease wanted now =
    elim (oldest (claimable locked wanted now) rows) [
      | none ↦ (rows, none)
      | some row ↦
          let row' = claimed_row row owner token lease now in (set_row job_id row' rows, some row')
    ]

-- `row.lease_owner != owner or row.lease_token != lease_token`, the other way round.
unfoldable pub holds_lease : ResearchJobRow → (owner token : String) → Bool
holds_lease row owner token =
    elim row.lease_owner [ none ↦ false | some o ↦ str_eq o owner ]
    && elim row.lease_token [ none ↦ false | some t ↦ str_eq t token ]

-- The shape of the three operations of a lease's holder.
unfoldable pub with_lease :
    JobTable
    → (id : ℕ) (owner token : String) → (ResearchJobRow → ResearchJobRow)
    → Result JobError JobTable
unfolding holds_lease
with_lease rows id owner token change = elim (get_row job_id id rows) [
  | none ↦ err invalid_lease
  | some row ↦
      if holds_lease row owner token
      then ok (set_row job_id (change row) rows)
      else err invalid_lease
]

unfoldable pub renewed : (lease now : ℕ) → ResearchJobRow → ResearchJobRow
renewed lease now row = record row { lease_expires_at = some (now + lease); updated_at = now }

-- `renew_job_lease`
unfoldable pub renew_job_lease :
    JobTable → (id : ℕ) (owner token : String) (lease now : ℕ) → Result JobError JobTable
unfolding with_lease renewed
renew_job_lease rows id owner token lease now = with_lease rows id owner token (renewed lease now)

unfoldable pub completed : (now : ℕ) → ResearchJobRow → ResearchJobRow
completed now row = record row {
  status = ResearchJobStatus.completed;
  completed_at = some now;
  updated_at = now;
}

-- `complete_job`
unfoldable pub complete_job :
    JobTable → (id : ℕ) (owner token : String) (now : ℕ) → Result JobError JobTable
unfolding with_lease completed
complete_job rows id owner token now = with_lease rows id owner token (completed now)

-- What `fail_job` writes.
unfoldable pub failed : (error : String) (retry : Bool) (now : ℕ) → ResearchJobRow → ResearchJobRow
failed error retry now row =
    if retry && ltb row.attempts row.max_attempts
    then record row {
      status = ResearchJobStatus.pending;
      lease_owner = none;
      lease_token = none;
      lease_expires_at = none;
      last_error = some error;
      updated_at = now;
    }
    else record row {
      status = ResearchJobStatus.failed;
      last_error = some error;
      completed_at = some now;
      updated_at = now;
    }

-- `fail_job`. `error` is the message, cut to its first 4000 characters.
unfoldable pub fail_job :
    JobTable
    → (id : ℕ) (owner token error : String) (retry : Bool) (now : ℕ) → Result JobError JobTable
unfolding with_lease failed
fail_job rows id owner token error retry now =
    with_lease rows id owner token (failed error retry now)

-- `status == RUNNING and lease_expires_at is not None and lease_expires_at < now`
unfoldable pub is_stale : (now : ℕ) → ResearchJobRow → Bool
unfolding is_running
is_stale now row =
    is_running row.status
    && elim row.lease_expires_at [ none ↦ false | some expires ↦ ltb expires now ]

abbrev pub recovered : (now : ℕ) → ResearchJobRow → ResearchJobRow
recovered now row = record row {
  status = ResearchJobStatus.pending;
  lease_owner = none;
  lease_token = none;
  lease_expires_at = none;
  updated_at = now;
}

-- `recover_stale_jobs`: the table, and the number of rows that it returns.
unfoldable pub recover_stale_jobs : JobTable → (now : ℕ) → JobTable × ℕ
unfolding is_stale
recover_stale_jobs [] now = ([], 0)
recover_stale_jobs (row ∷ rows) now =
    let (rest, count) = recover_stale_jobs rows now in
    (
      (if is_stale now row then recovered now row else row) ∷ rest,
      if is_stale now row then count + 1 else count,
    )
