-- ===== src/Jobs/Promises.antt =====
-- What the queue promises a worker: its job is its own while its lease runs, and not after the job is
-- taken again; jobs of workers that are gone come back.
use deepscout.Base.{
  ℕ, ◌+◌, String, ◌≡◌, refl, sym, ap, Bool, true, false, Option, none, some, [], ◌∷◌, length,
  select, All, Bool-cases, ◌⊎◌, inl, inr, arith, set_row, get_row, subst, Distinct, map, ok, err,
  str_eq, eq_refl,
}
use deepscout.Jobs.Queue.{
  ResearchJobRow, JobTable, job_id, claimable, claimed_row, claim_next_job, with_lease, holds_lease,
  lease_free, recover_stale_jobs, is_stale, is_running, is_active, recovered, invalid_lease,
  renewed, completed, failed, renew_job_lease, complete_job, fail_job,
}
use deepscout.Jobs.Claims.{claim_next_job-Takes, Takes}
use deepscout.Jobs.Leases.{not-holds}
use deepscout.Jobs.History.{OtherCalls, calls-keep, claim-ids}

claimed-holds :
    (r : ResearchJobRow) (owner token : String) (lease now : ℕ)
    → holds_lease (claimed_row r owner token lease now) owner token ≡ true
unfolding holds_lease
claimed-holds r owner token lease now = rw (eq_refl owner, eq_refl token) refl

claimed-runs :
    (r : ResearchJobRow) (owner token : String) (lease now : ℕ)
    → lease_free (claimed_row r owner token lease now).lease_expires_at (now + lease) ≡ false
unfolding lease_free
claimed-runs r owner token lease now = ground arith

with_lease-held :
    (rows : JobTable) (row : ResearchJobRow) (id : ℕ) (owner token : String)
    (change : ResearchJobRow → ResearchJobRow)
    → get_row job_id id rows ≡ some row
    → holds_lease row owner token ≡ true
    → with_lease rows id owner token change ≡ ok (set_row job_id (change row) rows)
unfolding with_lease
with_lease-held rows row id owner token change h l = rw (h, l, with_lease) refl

with_lease-refused :
    (rows : JobTable) (row : ResearchJobRow) (id : ℕ) (owner token : String)
    (change : ResearchJobRow → ResearchJobRow)
    → get_row job_id id rows ≡ some row
    → holds_lease row owner token ≡ false
    → with_lease rows id owner token change ≡ err invalid_lease
unfolding with_lease
with_lease-refused rows row id owner token change h l = rw (h, l, with_lease) refl

module _ (rows mid : JobTable) (row : ResearchJobRow) (locked : ℕ → Bool) (owner token : String)
    (lease : ℕ) (wanted : Option ℕ) (now : ℕ) (distinct : Distinct (map job_id rows))
    (claim : claim_next_job rows locked owner token lease wanted now ≡ (mid, some row)) where
  from :
      (r : ResearchJobRow) × (row ≡ claimed_row r owner token lease now)
      × (get_row job_id r.id mid ≡ some row)
  from =
      let (r, _, _, _, q, _, g) =
        subst (Takes rows (claimable locked wanted now) (λ r. claimed_row r owner token lease now))
          claim (claim_next_job-Takes rows locked owner token lease wanted now) in
      (r, q, g distinct)

  found : get_row job_id row.id mid ≡ some row
  found =
      let (r, q, g) = from in
      subst (λ i. get_row job_id i mid ≡ some row) (sym (ap (λ s. s.id) q)) g

  has_token : row.lease_token ≡ some token
  has_token = let (r, q, g) = from in ap (λ s. s.lease_token) q

  holds : holds_lease row owner token ≡ true
  holds =
      let (r, q, g) = from in
      subst (λ s. holds_lease s owner token ≡ true) (sym q) (claimed-holds r owner token lease now)

  mid-Distinct : Distinct (map job_id mid)
  mid-Distinct =
      subst (λ c. Distinct (map job_id c.0)) claim
        (subst Distinct (sym (claim-ids rows locked owner token lease wanted now)) distinct)

  -- A worker that has claimed a job, on a table whose keys are distinct, finds the job just as it
  -- claimed it after any calls of other sessions up to the end of its lease (enqueues, claims,
  -- recoveries of stale jobs, and the calls of holders of other tokens), and its completion of the
  -- job is then accepted.
  pub claim_next_job-exclusive :
      (rows' : JobTable) (later : ℕ)
      → OtherCalls token (now + lease) mid rows'
      → (get_row job_id row.id rows' ≡ some row)
        × (complete_job rows' row.id owner token later
            ≡ ok (set_row job_id (completed later row) rows'))
  unfolding complete_job
  claim_next_job-exclusive rows' later calls =
      let (r, q, _) = from in
      let runs =
        subst (λ s. lease_free s.lease_expires_at (now + lease) ≡ false) (sym q)
          (claimed-runs r owner token lease now) in
      let still =
        calls-keep row.id row token (now + lease) calls mid-Distinct found has_token runs in
      (still, with_lease-held rows' row row.id owner token (completed later) still holds)

  -- Once a job is claimed, on a table whose keys are distinct, its renewal, its completion and its
  -- failure with any other token are refused.
  pub claim_next_job-supersedes :
      (someone old error : String) (retry : Bool) (length later : ℕ)
      → str_eq token old ≡ false
      → (renew_job_lease mid row.id someone old length later ≡ err invalid_lease)
        × (complete_job mid row.id someone old later ≡ err invalid_lease)
        × (fail_job mid row.id someone old error retry later ≡ err invalid_lease)
  unfolding complete_job renew_job_lease fail_job
  claim_next_job-supersedes someone old error retry length later ne =
      let no = not-holds row someone token old has_token ne in
      (
        with_lease-refused mid row row.id someone old (renewed length later) found no,
        with_lease-refused mid row row.id someone old (completed later) found no,
        with_lease-refused mid row row.id someone old (failed error retry later) found no,
      )

recovered-not_stale : (now : ℕ) (row : ResearchJobRow) → is_stale now (recovered now row) ≡ false
unfolding is_stale is_running
recovered-not_stale now row = refl

recovered-claimable :
    (now later : ℕ) (row : ResearchJobRow)
    → claimable (λ i. false) none later (recovered now row) ≡ true
unfolding claimable is_active lease_free
recovered-claimable now later row = refl

-- Each row once stale has come back, with its key and its count of attempts; the others are the same.
abbrev pub IsRecovery : (now later : ℕ) → JobTable → JobTable → Type 0
IsRecovery now later [] [] = Unit
IsRecovery now later [] (_ ∷ _) = ⊥
IsRecovery now later (_ ∷ _) [] = ⊥
IsRecovery now later (r ∷ rows) (r' ∷ rows') =
    (((is_stale now r ≡ true)
        × (claimable (λ i. false) none later r' ≡ true)
        × (r'.id ≡ r.id)
        × (r'.attempts ≡ r.attempts))
      ⊎ ((is_stale now r ≡ false) × (r' ≡ r)))
    × IsRecovery now later rows rows'

-- A recovery leaves no running job whose lease is over and counts those that it found. Each of these
-- keeps its key and attempts and can be claimed from then on by a session that meets no lock; every
-- other job is as it was.
pub recover_stale_jobs-recovers :
    (rows : JobTable) (now later : ℕ)
    → All (λ r. is_stale now r ≡ false) (recover_stale_jobs rows now).0
      × ((recover_stale_jobs rows now).1 ≡ length (select (is_stale now) rows))
      × IsRecovery now later rows (recover_stale_jobs rows now).0
unfolding recover_stale_jobs
recover_stale_jobs-recovers [] now later = (tt, refl, tt)
recover_stale_jobs-recovers (row ∷ rows) now later =
    let (none_left, count, rest) = recover_stale_jobs-recovers rows now later in
    elim (Bool-cases (is_stale now row)) [
      | inl e ↦ rw e (
        (recovered-not_stale now row, none_left),
        omega arith,
        (inl (refl, recovered-claimable now later row, refl, refl), rest),
      )
      | inr e ↦ rw e ((e, none_left), count, (inr (refl, refl), rest))
    ]
