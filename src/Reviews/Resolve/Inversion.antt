-- ===== src/Reviews/Resolve/Inversion.antt =====
-- What an applied decision went through.
use deepscout.Base.{
  ℕ, String, ◌≡◌, sym, ap, true, false, ◌&&◌, some, ok, Option-cases, ◌⊎◌, Bool-cases, inl, inr,
  ok-injective, ◌==◌, contains, get_row, ==_iff, refl, and-eq-true,
}
use deepscout.Base.Float.{Float}
use deepscout.Domain.Enums.{ReviewRequestStatus, ReviewDecisionKind}
use deepscout.Reviews.Rows.{DecisionPayload, ReviewRequestRow, Database, review_id}
use deepscout.Reviews.Store.{is_pending}
use deepscout.Reviews.Resolve.{
  Decision, ResolveResult, authoritative_sources, is_granted, is_grant, is_expired, decide,
  resolve_review,
}

module _ {F : Type 0} (float : Float F) (cost_cap : F) (hash : DecisionPayload → String) where
  -- What holds of a decision that was applied: it came from a source with authority, on a review of
  -- the run that was pending and had not expired.
  pub record IsAuthorised (db : Database F) (run_id id : ℕ) (d : Decision) (now : ℕ)
      (review : ReviewRequestRow) : Type 0 where
    pub from_authority : contains authoritative_sources d.source ≡ true
    pub found : get_row review_id id db.reviews ≡ some review
    pub of_run : review.research_run_id ≡ run_id
    pub pending : is_pending review.status ≡ true
    pub in_time : is_expired review.expires_at now ≡ false

  -- What holds of a decision that is accepted without effect: it comes from a source with authority
  -- and approves or edits a review of the run that is approved or edited already. The answer gives the
  -- review's status.
  pub record IsRepeat (db db' : Database F) (run_id id : ℕ) (d : Decision) (r : ResolveResult)
      : Type 0 where
    pub review : ReviewRequestRow
    pub by_authority : contains authoritative_sources d.source ≡ true
    pub known : get_row review_id id db.reviews ≡ some review
    pub same_run : review.research_run_id ≡ run_id
    pub granted :
        (review.status ≡ ReviewRequestStatus.approved)
        ⊎ (review.status ≡ ReviewRequestStatus.edited)
    pub repeats : (d.kind ≡ ReviewDecisionKind.approve) ⊎ (d.kind ≡ ReviewDecisionKind.edit)
    pub unchanged : db' ≡ db
    pub not_applied : r.applied ≡ false
    pub answered : r.status ≡ review.status

  granted-cases :
      (status : ReviewRequestStatus)
      → is_granted status ≡ true
      → (status ≡ ReviewRequestStatus.approved) ⊎ (status ≡ ReviewRequestStatus.edited)
  unfolding is_granted
  granted-cases ReviewRequestStatus.approved h = inl refl
  granted-cases ReviewRequestStatus.edited h = inr refl
  granted-cases _ h = cc

  grant-cases :
      (kind : ReviewDecisionKind)
      → is_grant kind ≡ true
      → (kind ≡ ReviewDecisionKind.approve) ⊎ (kind ≡ ReviewDecisionKind.edit)
  unfolding is_grant
  grant-cases ReviewDecisionKind.approve h = inl refl
  grant-cases ReviewDecisionKind.edit h = inr refl
  grant-cases _ h = cc

  -- A resolution that is accepted either approves or edits, from a source with authority, a review of
  -- the run that is approved or edited already, and then changes nothing and answers that it was not
  -- applied, with the status of the review; or it comes from a source with authority, on a review of
  -- the run that is pending and has not expired, and carries out the decision.
  pub resolve_review-cases :
      (db db' : Database F) (run_id id : ℕ) (d : Decision) (now : ℕ) (r : ResolveResult)
      → resolve_review float cost_cap hash db run_id id d now ≡ ok (db', r)
      → IsRepeat db db' run_id id d r
        ⊎ ((review : ReviewRequestRow) × IsAuthorised db run_id id d now review
            × (decide float cost_cap hash db run_id review d now d.kind ≡ ok (db', r)))
  unfolding resolve_review
  resolve_review-cases db db' run_id id d now r h =
      elim (Bool-cases (contains authoritative_sources d.source)) [
        | inr source ↦ absurd (cc (rw (source, resolve_review) at h))
        | inl source ↦ elim (Option-cases (get_row review_id id db.reviews)) [
          | inl absent ↦ absurd (cc (rw (source, absent, resolve_review) at h))
          | inr (review, found) ↦ elim (Bool-cases (review.research_run_id == run_id)) [
            | inr other ↦ absurd (cc (rw (source, found, other, resolve_review) at h))
            | inl of_run ↦ elim (Bool-cases (is_granted review.status && is_grant d.kind)) [
              | inl again ↦
                  let e = ok-injective (rw (source, found, of_run, again, resolve_review) at h) in
                  let (granted, repeats) = and-eq-true again in
                  inl (record {
                    review = review;
                    by_authority = source;
                    known = found;
                    same_run = (==_iff review.research_run_id run_id).0 of_run;
                    granted = granted-cases review.status granted;
                    repeats = grant-cases d.kind repeats;
                    unchanged = sym (ap (λ (p : Database F × ResolveResult). p.0) e);
                    not_applied = sym (ap (λ (p : Database F × ResolveResult). p.1.applied) e);
                    answered = sym (ap (λ (p : Database F × ResolveResult). p.1.status) e);
                  })
              | inr new ↦ elim (Bool-cases (is_pending review.status)) [
                | inr closed ↦
                    absurd (cc (rw (source, found, of_run, new, closed, resolve_review) at h))
                | inl pending ↦ elim (Bool-cases (is_expired review.expires_at now)) [
                  | inl late ↦
                      absurd
                        (cc (rw (source, found, of_run, new, pending, late, resolve_review) at h))
                  | inr in_time ↦ inr (
                    review,
                    record {
                      from_authority = source;
                      found = found;
                      of_run = (==_iff review.research_run_id run_id).0 of_run;
                      pending = pending;
                      in_time = in_time;
                    },
                    rw (source, found, of_run, new, pending, in_time, resolve_review) at h,
                  )
                ]
              ]
            ]
          ]
        ]
      ]
