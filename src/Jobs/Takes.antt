-- ===== src/Jobs/Takes.antt =====
-- What `claim_next_job` takes, and what it writes, said without the functions of the queue.
use deepscout.Base.{
  ℕ, ◌+◌, ◌≤◌, ◌<◌, String, ◌≡◌, refl, ◌↔◌, Bool, true, false, Option, none, some, Exists, ◌⊎◌, All,
  All-weaken, Option-cases, inl, inr, arith, set_row, get_row, Distinct, map, ◌==◌, ==_iff,
  and-eq-true, ap, sym,
}
use deepscout.Domain.Enums.{ResearchJobStatus}
use deepscout.Jobs.Queue.{
  ResearchJobRow, JobTable, job_id, is_active, lease_free, claimable, claimed_row, claim_next_job,
}
use deepscout.Jobs.Claims.{Takes, claim_next_job-Takes}

-- The job has not ended, nobody's lease on it runs, it is the one asked for where one is, and no
-- other session has locked it.
pub record IsFree (locked : ℕ → Bool) (wanted : Option ℕ) (now : ℕ) (row : ResearchJobRow)
    : Type 0 where
  pub active :
      (row.status ≡ ResearchJobStatus.pending)
      ⊎ ((row.status ≡ ResearchJobStatus.claimed) ⊎ (row.status ≡ ResearchJobStatus.running))
  pub lease_over :
      (row.lease_expires_at ≡ none) ⊎ ((t : ℕ) × (row.lease_expires_at ≡ some t) × (t < now))
  pub asked_for : (wanted ≡ none) ⊎ (wanted ≡ some row.id)
  pub unlocked : locked row.id ≡ false

-- The row that a claim writes: run by the owner under the token until the end of the lease, with one
-- attempt more, started now unless it had started, and otherwise as it was.
pub record IsTaken (owner token : String) (lease now : ℕ) (row row' : ResearchJobRow) : Type 0 where
  pub running : row'.status ≡ ResearchJobStatus.running
  pub owned : row'.lease_owner ≡ some owner
  pub under_token : row'.lease_token ≡ some token
  pub until : row'.lease_expires_at ≡ some (now + lease)
  pub counted : row'.attempts ≡ row.attempts + 1
  pub started :
      (t : ℕ) × (row'.started_at ≡ some t)
      × ((row.started_at ≡ some t) ⊎ ((row.started_at ≡ none) × (t ≡ now)))
  pub updated : row'.updated_at ≡ now
  pub same_id : row'.id ≡ row.id
  pub same_run : row'.research_run_id ≡ row.research_run_id
  pub same_type : row'.job_type ≡ row.job_type
  pub same_key : row'.idempotency_key ≡ row.idempotency_key
  pub same_limit : row'.max_attempts ≡ row.max_attempts
  pub same_error : row'.last_error ≡ row.last_error
  pub same_creation : row'.created_at ≡ row.created_at
  pub same_completion : row'.completed_at ≡ row.completed_at

active-cases :
    (status : ResearchJobStatus)
    → is_active status ≡ true
    → (status ≡ ResearchJobStatus.pending)
      ⊎ ((status ≡ ResearchJobStatus.claimed) ⊎ (status ≡ ResearchJobStatus.running))
unfolding is_active
active-cases ResearchJobStatus.pending h = inl refl
active-cases ResearchJobStatus.claimed h = inr (inl refl)
active-cases ResearchJobStatus.running h = inr (inr refl)
active-cases _ h = cc

active-of_cases :
    (status : ResearchJobStatus)
    → (status ≡ ResearchJobStatus.pending)
      ⊎ ((status ≡ ResearchJobStatus.claimed) ⊎ (status ≡ ResearchJobStatus.running))
    → is_active status ≡ true
unfolding is_active
active-of_cases status (inl e) = rw e refl
active-of_cases status (inr (inl e)) = rw e refl
active-of_cases status (inr (inr e)) = rw e refl

free-cases :
    (expires : Option ℕ) (now : ℕ)
    → lease_free expires now ≡ true
    → (expires ≡ none) ⊎ ((t : ℕ) × (expires ≡ some t) × (t < now))
unfolding lease_free
free-cases none now h = inl refl
free-cases (some t) now h = inr (t, refl, ground arith)

free-of_cases :
    (expires : Option ℕ) (now : ℕ)
    → (expires ≡ none) ⊎ ((t : ℕ) × (expires ≡ some t) × (t < now))
    → lease_free expires now ≡ true
unfolding lease_free
free-of_cases expires now (inl e) = rw e refl
free-of_cases expires now (inr (t, e, l)) = rw e (ground arith)

abbrev asks : Option ℕ → ℕ → Bool
asks wanted id = elim wanted [ none ↦ true | some w ↦ id == w ]

asks-cases :
    (wanted : Option ℕ) (id : ℕ) → asks wanted id ≡ true → (wanted ≡ none) ⊎ (wanted ≡ some id)
asks-cases none id h = inl refl
asks-cases (some w) id h = inr (ap (λ n. some n) (sym ((==_iff id w).0 h)))

asks-of_cases :
    (wanted : Option ℕ) (id : ℕ) → (wanted ≡ none) ⊎ (wanted ≡ some id) → asks wanted id ≡ true
asks-of_cases wanted id (inl e) = rw e refl
asks-of_cases wanted id (inr e) = rw e ((==_iff id id).1 refl)

module _ (locked : ℕ → Bool) (wanted : Option ℕ) (now : ℕ) where
  claimable_iff :
      (row : ResearchJobRow)
      → (claimable locked wanted now row ≡ true) ↔ IsFree locked wanted now row
  unfolding claimable
  claimable_iff row = (
    (λ h.
        let (active, rest) = and-eq-true h in
        let (free, rest) = and-eq-true rest in
        let (asked, unlocked) = and-eq-true rest in
        record {
          active = active-cases row.status active;
          lease_over = free-cases row.lease_expires_at now free;
          asked_for = asks-cases wanted row.id asked;
          unlocked = ground arith;
        }),
    (λ f.
        rw
          (
            active-of_cases row.status f.active,
            free-of_cases row.lease_expires_at now f.lease_over,
            asks-of_cases wanted row.id f.asked_for,
            f.unlocked,
          )
          refl),
  )

  not-IsFree :
      (row : ResearchJobRow)
      → claimable locked wanted now row ≡ false
      → ¬ IsFree locked wanted now row
  not-IsFree row h f = cc (h, (claimable_iff row).1 f)

taken :
    (owner token : String) (lease now : ℕ) (row : ResearchJobRow)
    → IsTaken owner token lease now row (claimed_row row owner token lease now)
taken owner token lease now row = record {
  running = refl;
  owned = refl;
  under_token = refl;
  until = refl;
  counted = refl;
  started = elim (Option-cases row.started_at) [
    | inl n ↦ (now, rw n refl, inr (n, refl))
    | inr (t, s) ↦ (t, rw s refl, inl s)
  ];
  updated = refl;
  same_id = refl;
  same_run = refl;
  same_type = refl;
  same_key = refl;
  same_limit = refl;
  same_error = refl;
  same_creation = refl;
  same_completion = refl;
}

module _ (rows : JobTable) (locked : ℕ → Bool) (owner token : String) (lease : ℕ)
    (wanted : Option ℕ) (now : ℕ) where
  -- What a claim answers, and what it leaves behind.
  abbrev pub IsClaim : JobTable × Option ResearchJobRow → Type 0
  IsClaim (rows', none) = (rows' ≡ rows) × All (λ r. ¬ IsFree locked wanted now r) rows
  IsClaim (rows', some row') =
      (row : ResearchJobRow) × IsFree locked wanted now row
      × Exists (λ r. r ≡ row) rows
      × All (λ r. (¬ IsFree locked wanted now r) ⊎ (row.created_at ≤ r.created_at)) rows
      × IsTaken owner token lease now row row'
      × (rows' ≡ set_row job_id row' rows)
      × (get_row job_id row.id rows' ≡ some row')

  Takes-IsClaim :
      (answer : JobTable × Option ResearchJobRow)
      → Distinct (map job_id rows)
      → Takes rows
          (claimable locked wanted now)
          (λ row. claimed_row row owner token lease now)
          answer
      → IsClaim answer
  Takes-IsClaim (rows', none) d (same, all) =
      (same, All-weaken rows (λ r h. not-IsFree locked wanted now r h) all)
  Takes-IsClaim (rows', some row') d (row, free, x, o, q, wrote, get) = (
    row,
    (claimable_iff locked wanted now row).0 free,
    x,
    All-weaken rows
        (λ r c. elim c [ inl h ↦ inl (not-IsFree locked wanted now r h) | inr le ↦ inr le ]) o,
    rw q (taken owner token lease now row),
    wrote,
    get d,
  )

  -- On a table whose keys are distinct, a claim either takes nothing, leaves the table as it was, and
  -- then every job has ended, is under a lease that runs, is not the one asked for, or is locked. Or
  -- it takes a job of the table that is none of these, no other such job being older: writes the
  -- owner, the token, the expiry and one attempt more to it and to no other row, keeping the rest of
  -- it, and answers with the row written, which the job's key then finds.
  pub claim_next_job-IsClaim :
      Distinct (map job_id rows) → IsClaim (claim_next_job rows locked owner token lease wanted now)
  claim_next_job-IsClaim d =
      Takes-IsClaim (claim_next_job rows locked owner token lease wanted now) d
        (claim_next_job-Takes rows locked owner token lease wanted now)
