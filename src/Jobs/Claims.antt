-- ===== src/Jobs/Claims.antt =====
-- `claim_next_job` takes the oldest job that may be taken.
use deepscout.Base.{
  ℕ, ◌≤◌, String, ◌≡◌, refl, sym, ◌∙◌, Bool, true, false, Option, none, some, [], ◌∷◌, Exists, ◌⊎◌,
  All, All-weaken, Option-cases, Bool-cases, inl, inr, arith, ltb, set_row, get_row, subst,
  get_row-set_row, get_row_of_member, Distinct, map,
}
use deepscout.Jobs.Queue.{
  ResearchJobRow, JobTable, job_id, oldest, claimable, claimed_row, claim_next_job,
}

pub some-injective : {a b : ResearchJobRow} → some a ≡ some b → a ≡ b
some-injective h = cc

module _ (p : ResearchJobRow → Bool) where
  -- No job that passes the test is older.
  abbrev pub IsOldest : ResearchJobRow → JobTable → Type 0
  IsOldest row rows = All (λ r. (p r ≡ false) ⊎ (row.created_at ≤ r.created_at)) rows

  pub oldest-none : (rows : JobTable) → oldest p rows ≡ none → All (λ r. p r ≡ false) rows
  unfolding oldest
  oldest-none [] h = tt
  oldest-none (row ∷ rows) h = elim (Bool-cases (p row)) [
    | inr e ↦ (e, oldest-none rows (rw e at h))
    | inl e ↦ elim (Option-cases (oldest p rows)) [
      | inl n ↦ absurd (cc (rw (e, n) at h))
      | inr (other, n) ↦ elim (Bool-cases (ltb other.created_at row.created_at)) [
        | inl l ↦ absurd (cc (rw (e, n, l) at h))
        | inr l ↦ absurd (cc (rw (e, n, l) at h))
      ]
    ]
  ]

  IsOldest-weaken :
      (other row : ResearchJobRow) (rows : JobTable)
      → row.created_at ≤ other.created_at
      → IsOldest other rows
      → IsOldest row rows
  IsOldest-weaken other row rows le o =
      All-weaken rows (λ r c. elim c [ inl f ↦ inl f | inr g ↦ inr (omega arith) ]) o

  pub oldest-some :
      (rows : JobTable) (row : ResearchJobRow)
      → oldest p rows ≡ some row
      → (p row ≡ true) × Exists (λ r. r ≡ row) rows × IsOldest row rows
  unfolding oldest
  oldest-some [] row h = absurd (cc)
  oldest-some (r ∷ rows) row h = elim (Bool-cases (p r)) [
    | inr e ↦ let (t, x, o) = oldest-some rows row (rw e at h) in (t, inr x, (inl e, o))
    | inl e ↦ elim (Option-cases (oldest p rows)) [
      | inl n ↦
          let q : r ≡ row = some-injective (rw (e, n) at h) in
          (
            rw (sym q) e,
            inl q,
            (inr (rw q (omega arith)), All-weaken rows (λ s f. inl f) (oldest-none rows n)),
          )
      | inr (other, n) ↦
          let (t, x, o) = oldest-some rows other n in
          elim (Bool-cases (ltb other.created_at r.created_at)) [
            | inl l ↦
                let q : other ≡ row = some-injective (rw (e, n, l) at h) in
                (
                  subst (λ s. p s ≡ true) q t,
                  inr (subst (λ s. Exists (λ r. r ≡ s) rows) q x),
                  (inr (rw (sym q) (ground arith)), subst (λ s. IsOldest s rows) q o),
                )
            | inr l ↦
                let q : r ≡ row = some-injective (rw (e, n, l) at h) in
                (
                  rw (sym q) e,
                  inl q,
                  (
                    inr (rw q (omega arith)),
                    subst (λ s. IsOldest s rows) q (IsOldest-weaken other r rows (ground arith) o),
                  ),
                )
          ]
    ]
  ]

get_row-claimed :
    (rows : JobTable) (row : ResearchJobRow) (owner token : String) (lease now : ℕ)
    → Distinct (map job_id rows)
    → Exists (λ r. r ≡ row) rows
    → get_row job_id row.id (set_row job_id (claimed_row row owner token lease now) rows)
      ≡ some (claimed_row row owner token lease now)
get_row-claimed rows row owner token lease now d x =
    get_row-set_row job_id row.id (claimed_row row owner token lease now) rows {old = row}
      (get_row_of_member job_id rows row d x)
    ∙ ground arith

module _ (rows : JobTable) (locked : ℕ → Bool) (owner token : String) (lease : ℕ)
    (wanted : Option ℕ) (now : ℕ) where
  pub claim_next_job-none :
      oldest (claimable locked wanted now) rows ≡ none
      → claim_next_job rows locked owner token lease wanted now ≡ (rows, none)
  unfolding claim_next_job
  claim_next_job-none n = rw (n, claim_next_job) refl

  pub claim_next_job-some :
      {row : ResearchJobRow}
      → oldest (claimable locked wanted now) rows ≡ some row
      → claim_next_job rows locked owner token lease wanted now ≡ (
        set_row job_id (claimed_row row owner token lease now) rows,
        some (claimed_row row owner token lease now),
      )
  unfolding claim_next_job
  claim_next_job-some n = rw (n, claim_next_job) refl

-- What a claim answers, and what it leaves behind.
abbrev pub Takes :
    JobTable
    → (ResearchJobRow → Bool)
    → (ResearchJobRow → ResearchJobRow)
    → JobTable × Option ResearchJobRow
    → Type 0
Takes rows p change (rows', none) = (rows' ≡ rows) × All (λ r. p r ≡ false) rows
Takes rows p change (rows', some row') =
    (row : ResearchJobRow) × (p row ≡ true)
    × Exists (λ r. r ≡ row) rows
    × IsOldest p row rows
    × (row' ≡ change row)
    × (rows' ≡ set_row job_id row' rows)
    × (Distinct (map job_id rows) → get_row job_id row.id rows' ≡ some row')

-- The shape of a claim, for any test and any change.
pub claim_next_job-Takes :
    (rows : JobTable) (locked : ℕ → Bool) (owner token : String) (lease : ℕ) (wanted : Option ℕ)
    (now : ℕ)
    → Takes rows
        (claimable locked wanted now)
        (λ row. claimed_row row owner token lease now)
        (claim_next_job rows locked owner token lease wanted now)
claim_next_job-Takes rows locked owner token lease wanted now =
    let p = claimable locked wanted now in
    let change = λ (row : ResearchJobRow). claimed_row row owner token lease now in
    elim (Option-cases (oldest p rows)) [
      | inl n ↦
          subst (Takes rows p change)
            (sym (claim_next_job-none rows locked owner token lease wanted now n))
            (refl, oldest-none p rows n)
      | inr (row, n) ↦
          let (t, x, o) = oldest-some p rows row n in
          subst (Takes rows p change)
            (sym (claim_next_job-some rows locked owner token lease wanted now n))
            (row, t, x, o, refl, refl, λ d. get_row-claimed rows row owner token lease now d x)
    ]
