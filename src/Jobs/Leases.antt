-- ===== src/Jobs/Leases.antt =====
-- What a lease gives its holder: while it runs, no operation of another session touches the job.
use deepscout.Base.{
  ℕ, ◌≤◌, String, ◌≡◌, sym, ap, ◌∙◌, Bool, true, false, Option, none, some, [], ◌∷◌, Option-cases,
  Bool-cases, inl, inr, arith, set_row, get_row, subst, Distinct, map, get_row-set_row, get_row-id,
  get_row-append, ok, str_eq, ok-injective, ◌==◌, ==_iff, get_row_of_member,
}
use deepscout.Domain.Enums.{ResearchJobType}
use deepscout.Jobs.Queue.{
  ResearchJobRow, JobTable, job_id, oldest, claimable, claimed_row, claim_next_job, with_lease,
  holds_lease, lease_free, recover_stale_jobs, is_stale, enqueue_job, new_job, find_key,
}
use deepscout.Jobs.Claims.{oldest-some, some-injective, claim_next_job-none, claim_next_job-some}

pub pair-fst :
    {a c : JobTable} {b d : ResearchJobRow}
    → ◌≡◌ {A = JobTable × ResearchJobRow} (a, b) (c, d)
    → a ≡ c
pair-fst h = ap (λ p. p.0) h

not-claimable :
    (locked : ℕ → Bool) (wanted : Option ℕ) (now : ℕ) (row : ResearchJobRow)
    → lease_free row.lease_expires_at now ≡ false
    → claimable locked wanted now row ≡ false
unfolding claimable
not-claimable locked wanted now row h = ground arith

pub lease_free_earlier :
    (expires : Option ℕ) (at until : ℕ)
    → at ≤ until
    → lease_free expires until ≡ false
    → lease_free expires at ≡ false
unfolding lease_free
lease_free_earlier none at until le h = cc
lease_free_earlier (some e) at until le h = ground arith

not-stale :
    (now : ℕ) (row : ResearchJobRow)
    → lease_free row.lease_expires_at now ≡ false
    → is_stale now row ≡ false
unfolding is_stale lease_free
not-stale now row h = ground arith

pub not-holds :
    (row : ResearchJobRow) (owner token other : String)
    → row.lease_token ≡ some token
    → str_eq token other ≡ false
    → holds_lease row owner other ≡ false
unfolding holds_lease
not-holds row owner token other h ne = ground arith

module _ (id : ℕ) (row : ResearchJobRow) where
  -- A write to another row.
  get_row-other :
      (new old : ResearchJobRow) (rows : JobTable)
      → get_row job_id new.id rows ≡ some old
      → (new.id == id) ≡ false
      → get_row job_id id rows ≡ some row
      → get_row job_id id (set_row job_id new rows) ≡ some row
  get_row-other new old rows there ne h =
      get_row-set_row job_id id new rows {old = old} there ∙ rw ne h

  differs-holder :
      (rows : JobTable) (r : ResearchJobRow) (i key : ℕ) (owner token other : String)
      → i ≡ key
      → get_row job_id key rows ≡ some r
      → holds_lease r owner other ≡ true
      → get_row job_id id rows ≡ some row
      → row.lease_token ≡ some token
      → str_eq token other ≡ false
      → (i == id) ≡ false
  differs-holder rows r i key owner token other q n l h t ne = elim (Bool-cases (i == id)) [
    | inr e ↦ e
    | inl e ↦
        let same : r ≡ row =
          some-injective
            (sym n ∙ ap (λ j. get_row job_id j rows) (sym q ∙ (==_iff i id).0 e) ∙ h) in
        absurd (
          cc (
            not-holds row owner token other t ne,
            subst (λ s. holds_lease s owner other ≡ true) same l,
          ))
  ]

  differs-claimed :
      (rows : JobTable) (r : ResearchJobRow) (locked : ℕ → Bool) (wanted : Option ℕ) (now : ℕ)
      → get_row job_id r.id rows ≡ some r
      → claimable locked wanted now r ≡ true
      → get_row job_id id rows ≡ some row
      → lease_free row.lease_expires_at now ≡ false
      → (r.id == id) ≡ false
  differs-claimed rows r locked wanted now n c h held = elim (Bool-cases (r.id == id)) [
    | inr e ↦ e
    | inl e ↦
        let same : r ≡ row =
          some-injective (sym n ∙ ap (λ j. get_row job_id j rows) ((==_iff r.id id).0 e) ∙ h) in
        absurd (
          cc (
            not-claimable locked wanted now row held,
            subst (λ s. claimable locked wanted now s ≡ true) same c,
          ))
  ]

  pub with_lease-other :
      (rows rows' : JobTable) (key : ℕ) (owner token other : String)
      (change : ResearchJobRow → ResearchJobRow)
      → ((r : ResearchJobRow) → (change r).id ≡ r.id)
      → get_row job_id id rows ≡ some row
      → row.lease_token ≡ some token
      → str_eq token other ≡ false
      → with_lease rows key owner other change ≡ ok rows'
      → get_row job_id id rows' ≡ some row
  unfolding with_lease
  with_lease-other rows rows' key owner token other change keep h t ne e =
      elim (Option-cases (get_row job_id key rows)) [
        | inl n ↦ absurd (cc (rw (n, with_lease) at e))
        | inr (r, n) ↦ elim (Bool-cases (holds_lease r owner other)) [
          | inr l ↦ absurd (cc (rw (n, l, with_lease) at e))
          | inl l ↦
              let q = ok-injective (rw (n, l, with_lease) at e) in
              subst (λ t. get_row job_id id t ≡ some row) q
                (get_row-other (change r) r rows
                  (subst (λ i. get_row job_id i rows ≡ some r)
                    (sym (keep r ∙ get_row-id job_id key rows n)) n)
                  (differs-holder rows r (change r).id key owner token other
                    (keep r ∙ get_row-id job_id key rows n) n l h t ne)
                  h)
        ]
      ]

  pub claim-other :
      (rows : JobTable) (locked : ℕ → Bool) (owner token : String) (lease : ℕ) (wanted : Option ℕ)
      (now : ℕ)
      → Distinct (map job_id rows)
      → get_row job_id id rows ≡ some row
      → lease_free row.lease_expires_at now ≡ false
      → get_row job_id id (claim_next_job rows locked owner token lease wanted now).0 ≡ some row
  claim-other rows locked owner token lease wanted now d h held =
      let Keeps = λ (c : JobTable × Option ResearchJobRow). get_row job_id id c.0 ≡ some row in
      elim (Option-cases (oldest (claimable locked wanted now) rows)) [
        | inl n ↦
            subst Keeps (sym (claim_next_job-none rows locked owner token lease wanted now n)) h
        | inr (r, n) ↦
            let (t, x, o) = oldest-some (claimable locked wanted now) rows r n in
            let there = get_row_of_member job_id rows r d x in
            subst Keeps (sym (claim_next_job-some rows locked owner token lease wanted now n)) (
              get_row-other (claimed_row r owner token lease now) r rows there
                (differs-claimed rows r locked wanted now there t h held) h)
      ]

  pub recover-other :
      (rows : JobTable) (now : ℕ)
      → get_row job_id id rows ≡ some row
      → lease_free row.lease_expires_at now ≡ false
      → get_row job_id id (recover_stale_jobs rows now).0 ≡ some row
  unfolding recover_stale_jobs get_row
  recover-other [] now h held = absurd (cc)
  recover-other (r ∷ rows) now h held = elim (Bool-cases (r.id == id)) [
    | inl e ↦
        let same : r ≡ row = some-injective (rw e at h) in
        let fresh : is_stale now r ≡ false =
          subst (λ s. is_stale now s ≡ false) (sym same) (not-stale now row held) in
        rw (fresh, e) (ap (λ s. some s) same)
    | inr e ↦ elim (Bool-cases (is_stale now r)) [
      | inl s ↦ rw (s, e) (recover-other rows now (rw e at h) held)
      | inr s ↦ rw (s, e) (recover-other rows now (rw e at h) held)
    ]
  ]

  pub enqueue-other :
      (rows rows' : JobTable) (run_exists : Bool) (run_id : ℕ) (t : ResearchJobType) (key : String)
      (new_id now : ℕ) (made : ResearchJobRow)
      → get_row job_id id rows ≡ some row
      → enqueue_job rows run_exists run_id t key new_id now ≡ ok (rows', made)
      → get_row job_id id rows' ≡ some row
  unfolding enqueue_job
  enqueue-other rows rows' false run_id t key new_id now made h e = absurd (cc)
  enqueue-other rows rows' true run_id t key new_id now made h e =
      elim (Option-cases (find_key key rows)) [
        | inl n ↦
            subst (λ t. get_row job_id id t ≡ some row)
              (pair-fst (ok-injective (rw (n, enqueue_job) at e)))
              (get_row-append job_id id rows (new_job new_id run_id t key now ∷ []) {row = row} h)
        | inr (old, n) ↦
            subst (λ t. get_row job_id id t ≡ some row)
              (pair-fst (ok-injective (rw (n, enqueue_job) at e))) h
      ]
