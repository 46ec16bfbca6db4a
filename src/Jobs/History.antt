-- ===== src/Jobs/History.antt =====
-- The store's jobs over a history of calls by other sessions, while one session holds a lease.
use deepscout.Base.{
  ℕ, ◌≤◌, String, ◌≡◌, refl, sym, ap, Bool, true, false, Option, some, List, [], ◌∷◌, All,
  Option-cases, Bool-cases, inl, inr, arith, get_row, subst, Distinct, All-append, map, map-set_row,
  ok, str_eq, ok-injective, ◌==◌, ◌++◌,
}
use deepscout.Domain.Enums.{ResearchJobType}
use deepscout.Jobs.Queue.{
  ResearchJobRow, JobTable, job_id, oldest, claimable, claimed_row, claim_next_job, with_lease,
  holds_lease, lease_free, recover_stale_jobs, is_stale, enqueue_job, new_job, find_key, renewed,
  completed, failed, renew_job_lease, complete_job, fail_job,
}
use deepscout.Jobs.Claims.{claim_next_job-none, claim_next_job-some}
use deepscout.Jobs.Leases.{
  with_lease-other, claim-other, recover-other, enqueue-other, lease_free_earlier, pair-fst,
}

-- A call of the store at a time, by a session that does not have the token.
pub data OtherCall (token : String) (now : ℕ) : JobTable → JobTable → Type 0 where
  enqueue :
      {rows rows' : JobTable} (run_exists : Bool) (run_id : ℕ) (t : ResearchJobType) (key : String)
      (new_id : ℕ) (made : ResearchJobRow)
      → All (λ i. (i == new_id) ≡ false) (map job_id rows)
      → enqueue_job rows run_exists run_id t key new_id now ≡ ok (rows', made)
      → OtherCall token now rows rows'
  claim :
      {rows : JobTable} (locked : ℕ → Bool) (owner other : String) (lease : ℕ) (wanted : Option ℕ)
      → OtherCall token now rows (claim_next_job rows locked owner other lease wanted now).0
  renew :
      {rows rows' : JobTable} (id : ℕ) (owner other : String) (lease : ℕ)
      → str_eq token other ≡ false
      → renew_job_lease rows id owner other lease now ≡ ok rows'
      → OtherCall token now rows rows'
  complete :
      {rows rows' : JobTable} (id : ℕ) (owner other : String)
      → str_eq token other ≡ false
      → complete_job rows id owner other now ≡ ok rows'
      → OtherCall token now rows rows'
  fail :
      {rows rows' : JobTable} (id : ℕ) (owner other error : String) (retry : Bool)
      → str_eq token other ≡ false
      → fail_job rows id owner other error retry now ≡ ok rows'
      → OtherCall token now rows rows'
  recover : {rows : JobTable} → OtherCall token now rows (recover_stale_jobs rows now).0

-- Such calls one after another, none of them later than a time.
pub data OtherCalls (token : String) (until : ℕ) : JobTable → JobTable → Type 0 where
  nothing : {rows : JobTable} → OtherCalls token until rows rows
  call :
      {rows mid rows' : JobTable} {now : ℕ}
      → now ≤ until
      → OtherCall token now rows mid
      → OtherCalls token until mid rows'
      → OtherCalls token until rows rows'

All-snoc :
    (j : ℕ) (is : List ℕ) (i : ℕ)
    → (j == i) ≡ false
    → All (λ k. (j == k) ≡ false) is
    → All (λ k. (j == k) ≡ false) (is ++ i ∷ [])
All-snoc j is i f d = All-append (λ k. (j == k) ≡ false) is (i ∷ []) d (f, tt)

Distinct-append :
    (is : List ℕ) (i : ℕ) → All (λ j. (j == i) ≡ false) is → Distinct is → Distinct (is ++ i ∷ [])
Distinct-append [] i f d = (tt, tt)
Distinct-append (j ∷ is) i f d = (All-snoc j is i f.0 d.0, Distinct-append is i f.1 d.1)

map-append :
    (rows : JobTable) (row : ResearchJobRow)
    → map job_id (rows ++ row ∷ []) ≡ map job_id rows ++ row.id ∷ []
map-append [] row = refl
map-append (r ∷ rows) row = ap (λ is. r.id ∷ is) (map-append rows row)

recover-ids :
    (rows : JobTable) (now : ℕ) → map job_id (recover_stale_jobs rows now).0 ≡ map job_id rows
unfolding recover_stale_jobs
recover-ids [] now = refl
recover-ids (row ∷ rows) now = elim (Bool-cases (is_stale now row)) [
  | inl e ↦ rw e (ap (λ is. row.id ∷ is) (recover-ids rows now))
  | inr e ↦ rw e (ap (λ is. row.id ∷ is) (recover-ids rows now))
]

with_lease-ids :
    (rows rows' : JobTable) (id : ℕ) (owner token : String)
    (change : ResearchJobRow → ResearchJobRow)
    → with_lease rows id owner token change ≡ ok rows'
    → map job_id rows' ≡ map job_id rows
unfolding with_lease
with_lease-ids rows rows' id owner token change e = elim (Option-cases (get_row job_id id rows)) [
  | inl n ↦ absurd (cc (rw (n, with_lease) at e))
  | inr (r, n) ↦ elim (Bool-cases (holds_lease r owner token)) [
    | inr l ↦ absurd (cc (rw (n, l, with_lease) at e))
    | inl l ↦
        subst (λ t. map job_id t ≡ map job_id rows) (ok-injective (rw (n, l, with_lease) at e))
          (map-set_row job_id (change r) rows)
  ]
]

pub claim-ids :
    (rows : JobTable) (locked : ℕ → Bool) (owner token : String) (lease : ℕ) (wanted : Option ℕ)
    (now : ℕ)
    → map job_id (claim_next_job rows locked owner token lease wanted now).0 ≡ map job_id rows
claim-ids rows locked owner token lease wanted now =
    let Keeps = λ (c : JobTable × Option ResearchJobRow). map job_id c.0 ≡ map job_id rows in
    elim (Option-cases (oldest (claimable locked wanted now) rows)) [
      | inl n ↦
          subst Keeps (sym (claim_next_job-none rows locked owner token lease wanted now n)) refl
      | inr (r, n) ↦
          subst Keeps (sym (claim_next_job-some rows locked owner token lease wanted now n))
            (map-set_row job_id (claimed_row r owner token lease now) rows)
    ]

enqueue-Distinct :
    (rows rows' : JobTable) (run_exists : Bool) (run_id : ℕ) (t : ResearchJobType) (key : String)
    (new_id now : ℕ) (made : ResearchJobRow)
    → All (λ i. (i == new_id) ≡ false) (map job_id rows)
    → enqueue_job rows run_exists run_id t key new_id now ≡ ok (rows', made)
    → Distinct (map job_id rows)
    → Distinct (map job_id rows')
unfolding enqueue_job
enqueue-Distinct rows rows' false run_id t key new_id now made f e d = absurd (cc)
enqueue-Distinct rows rows' true run_id t key new_id now made f e d =
    elim (Option-cases (find_key key rows)) [
      | inl n ↦
          subst (λ t. Distinct (map job_id t)) (pair-fst (ok-injective (rw (n, enqueue_job) at e)))
            (subst Distinct (sym (map-append rows (new_job new_id run_id t key now)))
              (Distinct-append (map job_id rows) new_id f d))
      | inr (old, n) ↦
          subst (λ t. Distinct (map job_id t)) (pair-fst (ok-injective (rw (n, enqueue_job) at e)))
            d
    ]

failed-id :
    (error : String) (retry : Bool) (now : ℕ) (row : ResearchJobRow)
    → (failed error retry now row).id ≡ row.id
unfolding failed
failed-id error retry now row = ground arith

renewed-id : (lease now : ℕ) (row : ResearchJobRow) → (renewed lease now row).id ≡ row.id
unfolding renewed
renewed-id lease now row = refl

completed-id : (now : ℕ) (row : ResearchJobRow) → (completed now row).id ≡ row.id
unfolding completed
completed-id now row = refl

-- Keys stay distinct.
call-Distinct :
    (token : String) (now : ℕ) {rows rows' : JobTable}
    → OtherCall token now rows rows'
    → Distinct (map job_id rows)
    → Distinct (map job_id rows')
unfolding renew_job_lease complete_job fail_job
call-Distinct token now {rows} {rows'} (enqueue x run_id t key new_id made f e) d =
    enqueue-Distinct rows rows' x run_id t key new_id now made f e d
call-Distinct token now {rows} (claim l owner other lease wanted) d =
    subst Distinct (sym (claim-ids rows l owner other lease wanted now)) d
call-Distinct token now {rows} {rows'} (renew i owner other lease ne e) d =
    subst Distinct (sym (with_lease-ids rows rows' i owner other (renewed lease now) e)) d
call-Distinct token now {rows} {rows'} (complete i owner other ne e) d =
    subst Distinct (sym (with_lease-ids rows rows' i owner other (completed now) e)) d
call-Distinct token now {rows} {rows'} (fail i owner other error retry ne e) d =
    subst Distinct (sym (with_lease-ids rows rows' i owner other (failed error retry now) e)) d
call-Distinct token now {rows} recover d = subst Distinct (sym (recover-ids rows now)) d

module _ (id : ℕ) (row : ResearchJobRow) (token : String) where
  call-keeps :
      (now : ℕ) {rows rows' : JobTable}
      → OtherCall token now rows rows'
      → Distinct (map job_id rows)
      → get_row job_id id rows ≡ some row
      → row.lease_token ≡ some token
      → lease_free row.lease_expires_at now ≡ false
      → get_row job_id id rows' ≡ some row
  unfolding renew_job_lease complete_job fail_job
  call-keeps now {rows} {rows'} (enqueue x run_id t key new_id made f e) d h m held =
      enqueue-other id row rows rows' x run_id t key new_id now made h e
  call-keeps now {rows} (claim l owner other lease wanted) d h m held =
      claim-other id row rows l owner other lease wanted now d h held
  call-keeps now {rows} {rows'} (renew i owner other lease ne e) d h m held =
      with_lease-other id row rows rows' i owner token other (renewed lease now)
        (renewed-id lease now) h m ne e
  call-keeps now {rows} {rows'} (complete i owner other ne e) d h m held =
      with_lease-other id row rows rows' i owner token other (completed now) (completed-id now) h m
        ne e
  call-keeps now {rows} {rows'} (fail i owner other error retry ne e) d h m held =
      with_lease-other id row rows rows' i owner token other (failed error retry now)
        (failed-id error retry now) h m ne e
  call-keeps now {rows} recover d h m held = recover-other id row rows now h held

  pub calls-keep :
      (until : ℕ) {rows rows' : JobTable}
      → OtherCalls token until rows rows'
      → Distinct (map job_id rows)
      → get_row job_id id rows ≡ some row
      → row.lease_token ≡ some token
      → lease_free row.lease_expires_at until ≡ false
      → get_row job_id id rows' ≡ some row
  calls-keep until nothing d h m held = h
  calls-keep until (call {now = now} le c cs) d h m held =
      let early = lease_free_earlier row.lease_expires_at now until le held in
      calls-keep until cs (call-Distinct token now c d) (call-keeps now c d h m early) m held
