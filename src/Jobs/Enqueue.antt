-- ===== src/Jobs/Enqueue.antt =====
-- Asking twice for the same run gives the same job.
use Prim.Native.String.{◌++◌ as ◌++ₛ◌}
use deepscout.Base.{
  ℕ, String, ◌≡◌, refl, sym, ◌∙◌, Bool, true, none, some, [], ◌∷◌, ◌++◌, Option-cases, ltb,
  Bool-cases, inl, inr, arith, subst, ok, ok-injective,
}
use deepscout.Domain.Enums.{ResearchJobType}
use deepscout.Jobs.Queue.{
  ResearchJobRow, JobTable, oldest, find_active_job, find_key, enqueue_job, new_job, is_active,
  is_wanted,
}
use deepscout.Jobs.Service.{enqueue_execute_run}

some_oldest :
    (p : ResearchJobRow → Bool) (r : ResearchJobRow) (rows : JobTable)
    → p r ≡ true
    → ¬ (oldest p (r ∷ rows) ≡ none)
unfolding oldest
some_oldest p r rows e n = elim (Option-cases (oldest p rows)) [
  | inl f ↦ absurd (cc (rw (e, f) at n))
  | inr (other, f) ↦ elim (Bool-cases (ltb other.created_at r.created_at)) [
    | inl l ↦ absurd (cc (rw (e, f, l) at n))
    | inr l ↦ absurd (cc (rw (e, f, l) at n))
  ]
]

oldest-append :
    (p : ResearchJobRow → Bool) (rows : JobTable) (row : ResearchJobRow)
    → oldest p rows ≡ none
    → p row ≡ true
    → oldest p (rows ++ row ∷ []) ≡ some row
unfolding oldest
oldest-append p [] row n t = rw t refl
oldest-append p (r ∷ rows) row n t = elim (Bool-cases (p r)) [
  | inr e ↦ rw e (oldest-append p rows row (rw e at n) t)
  | inl e ↦ absurd (some_oldest p r rows e n)
]

made-active :
    (new_id run_id : ℕ) (t : ResearchJobType) (key : String) (now : ℕ)
    → is_wanted run_id none (new_job new_id run_id t key now) ≡ true
unfolding is_wanted is_active
made-active new_id run_id t key now = ground arith

module _ (show : ℕ → String) (rows : JobTable) (run_id new_id now : ℕ) where
  execute-active :
      {active : ResearchJobRow}
      → find_active_job rows run_id none ≡ some active
      → enqueue_execute_run show rows true run_id new_id now ≡ ok (rows, active)
  unfolding enqueue_execute_run
  execute-active n = rw (n, enqueue_execute_run) refl

  execute-known :
      {old : ResearchJobRow}
      → find_active_job rows run_id none ≡ none
      → find_key ("execute:" ++ₛ show run_id) rows ≡ some old
      → enqueue_execute_run show rows true run_id new_id now ≡ ok (rows, old)
  unfolding enqueue_execute_run enqueue_job
  execute-known n k = rw (n, k, enqueue_execute_run, enqueue_job) refl

  abbrev made : ResearchJobRow
  made = new_job new_id run_id ResearchJobType.execute_run ("execute:" ++ₛ show run_id) now

  execute-new :
      find_active_job rows run_id none ≡ none
      → find_key ("execute:" ++ₛ show run_id) rows ≡ none
      → enqueue_execute_run show rows true run_id new_id now ≡ ok (rows ++ made ∷ [], made)
  unfolding enqueue_execute_run enqueue_job
  execute-new n k = rw (n, k, enqueue_execute_run, enqueue_job) refl

  made-found :
      find_active_job rows run_id none ≡ none
      → find_active_job (rows ++ made ∷ []) run_id none ≡ some made
  unfolding find_active_job
  made-found n =
      oldest-append (is_wanted run_id none) rows made n
        (made-active new_id run_id ResearchJobType.execute_run ("execute:" ++ₛ show run_id) now)

-- Where an enqueue for execution of a run that exists succeeds, the same call on the table that it
-- leaves, with any new key and at any time, changes nothing and answers with the same job.
pub enqueue_execute_run-idempotent :
    (show : ℕ → String) (rows rows' : JobTable) (run_id new_id now new_id' now' : ℕ)
    (row : ResearchJobRow)
    → enqueue_execute_run show rows true run_id new_id now ≡ ok (rows', row)
    → enqueue_execute_run show rows' true run_id new_id' now' ≡ ok (rows', row)
enqueue_execute_run-idempotent show rows rows' run_id new_id now new_id' now' row h =
    let Again = λ (p : JobTable × ResearchJobRow).
      enqueue_execute_run show p.0 true run_id new_id' now' ≡ ok p in
    elim (Option-cases (find_active_job rows run_id none)) [
      | inr (active, n) ↦
          subst Again (ok-injective (sym (execute-active show rows run_id new_id now n) ∙ h))
            (execute-active show rows run_id new_id' now' n)
      | inl n ↦ elim (Option-cases (find_key ("execute:" ++ₛ show run_id) rows)) [
        | inr (old, k) ↦
            subst Again (ok-injective (sym (execute-known show rows run_id new_id now n k) ∙ h))
              (execute-known show rows run_id new_id' now' n k)
        | inl k ↦
            subst Again (ok-injective (sym (execute-new show rows run_id new_id now n k) ∙ h)) (
              execute-active show (rows ++ made show rows run_id new_id now ∷ []) run_id new_id'
                now' (made-found show rows run_id new_id now n))
      ]
    ]
