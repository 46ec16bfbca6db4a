-- ===== src/Reviews/Resolve/Closing.antt =====
-- A decision that is applied closes its review and opens none.
use deepscout.Base.{
  ℕ, String, ◌≡◌, refl, ◌∙◌, Bool, true, false, not, Option, none, some, Result, ok, err, ◌>>=◌,
  Option-cases, Bool-cases, inl, inr, arith, subst, ok-injective, if◌then◌else◌, str_eq, get_row,
  Found, Found-write, Found-map, get_row-id, get_row-written,
}
use deepscout.Base.Float.{Float}
use deepscout.Domain.Enums.{
  ReviewReasonCode, ResearchRunStatus, is_terminal_run, ReviewRequestStatus, ReviewDecisionKind,
}
use deepscout.Runs.Usage.{RunTables, StoreError, row_id}
use deepscout.Reviews.Rows.{
  Payload, proposed, given, budget_extension_payload, human_input_payload, DecisionPayload,
  ReviewRequestRow, Database, review_id,
}
use deepscout.Reviews.Store.{
  same_reason, is_pending, Resolution, resolved_row, update_review_status, append_review_event,
  cancel_run, cancel_review, cancel_pending_reviews,
}
use deepscout.Reviews.Create.{is_valid_payload}
use deepscout.Reviews.Resolve.{
  Decision, ReviewError, ResolveResult, close_review, grant, resolve_approve, resolve_edit,
  resolve_reject, resolve_respond, decide, lift_store, edit_with, respond_with, respond_text,
  edited_payload, apply_budget, set_run, end_run, resolution, applied_result, add_response,
  question_text, ApprovalDecision, is_authoritative_approval, not_authoritative, payload_mismatch,
  invalid_payload, respond_not_valid,
}

-- The review is there under its key and is no longer pending.
abbrev pub is_closed : ReviewRequestRow → Bool
is_closed review = not (is_pending review.status)

closed-keeps :
    (row : ReviewRequestRow) (status : ReviewRequestStatus) (r : Resolution) (now : ℕ)
    → is_pending status ≡ false
    → is_closed (resolved_row row status r now) ≡ true
unfolding resolved_row
closed-keeps row status r now h = ground arith

resolved-id :
    (row : ReviewRequestRow) (status : ReviewRequestStatus) (r : Resolution) (now : ℕ)
    → (resolved_row row status r now).id ≡ row.id
unfolding resolved_row
resolved-id row status r now = ground arith

pub cancel-id :
    (run_id : ℕ) (source identity : String) (now : ℕ) (row : ReviewRequestRow)
    → (cancel_review run_id source identity now row).id ≡ row.id
unfolding cancel_review
cancel-id run_id source identity now row = ground arith

pub cancel-closed :
    (run_id : ℕ) (source identity : String) (now : ℕ) (row : ReviewRequestRow)
    → is_closed row ≡ true
    → is_closed (cancel_review run_id source identity now row) ≡ true
unfolding cancel_review is_pending
cancel-closed run_id source identity now row h = ground arith

-- The review under the key is closed.
abbrev pub IsClosed : {F : Type 0} → ℕ → Database F → Type 0
IsClosed key db = Found review_id is_closed key db.reviews

module _ {F : Type 0} where
  close_review-written :
      (db : Database F) (tables : RunTables F) (review : ReviewRequestRow)
      (status : ReviewRequestStatus) (r : Resolution) (run_id id : ℕ) (event_type : String)
      (d : Decision) (now : ℕ)
      → is_pending status ≡ false
      → get_row review_id id db.reviews ≡ some review
      → IsClosed id (close_review db tables review status r run_id event_type d now)
  unfolding close_review update_review_status append_review_event
  close_review-written db tables review status r run_id id event_type d now p found = (
    resolved_row review status r now,
    get_row-written review_id id (resolved_row review status r now) db.reviews {old = review} found
        (resolved-id review status r now ∙ get_row-id review_id id db.reviews found),
    closed-keeps review status r now p,
  )

  close_review-keeps :
      (key : ℕ) (db : Database F) (tables : RunTables F) (review : ReviewRequestRow)
      (status : ReviewRequestStatus) (r : Resolution) (run_id id : ℕ) (event_type : String)
      (d : Decision) (now : ℕ)
      → is_pending status ≡ false
      → get_row review_id id db.reviews ≡ some review
      → IsClosed key db
      → IsClosed key (close_review db tables review status r run_id event_type d now)
  unfolding close_review update_review_status append_review_event
  close_review-keeps key db tables review status r run_id id event_type d now p found c =
      Found-write review_id is_closed key id db.reviews review (resolved_row review status r now)
        found (resolved-id review status r now) (λ _. closed-keeps review status r now p) c

  pub cancel_run-keeps :
      (key : ℕ) (db db' : Database F) (run_id now : ℕ)
      → cancel_run db run_id now ≡ ok db'
      → IsClosed key db
      → IsClosed key db'
  unfolding cancel_run cancel_pending_reviews
  cancel_run-keeps key db db' run_id now h c =
      elim (Option-cases (get_row row_id run_id db.run_tables.runs)) [
        | inl n ↦ absurd (cc (rw (n, cancel_run) at h))
        | inr (row, n) ↦ elim (Bool-cases (is_terminal_run row.status)) [
          | inl over ↦ subst (IsClosed key) (ok-injective (rw (n, over, cancel_run) at h)) c
          | inr open_run ↦ subst (IsClosed key) (ok-injective (rw (n, open_run, cancel_run) at h)) (
              Found-map review_id is_closed key (cancel_review run_id "system" "cancel_run" now)
                db.reviews (cancel-id run_id "system" "cancel_run" now)
                (cancel-closed run_id "system" "cancel_run" now) c)
        ]
      ]

-- A decision that is applied to a review under a key leaves the closed reviews closed, and closes
-- that one.
abbrev Closes :
    {F : Type 0} → ℕ → Database F → Result ReviewError (Database F × ResolveResult) → Type 0
Closes id db (err e) = Unit
Closes id db (ok (db', r)) = IsClosed id db' × ((key : ℕ) → IsClosed key db → IsClosed key db')

module _ {F : Type 0} (float : Float F) (cost_cap : F) (hash : DecisionPayload → String)
    (db : Database F) (run_id id : ℕ) (review : ReviewRequestRow) (d : Decision) (now : ℕ)
    (found : get_row review_id id db.reviews ≡ some review) where
  Closes-close :
      (m : Result ReviewError (RunTables F)) (status : ReviewRequestStatus) (r : Resolution)
      (event_type : String) (result : ResolveResult)
      → is_pending status ≡ false
      → Closes id db (
          m >>= λ tables.
          ok (close_review db tables review status r run_id event_type d now, result))
  Closes-close (err e) status r event_type result p = tt
  Closes-close (ok tables) status r event_type result p = (
    close_review-written db tables review status r run_id id event_type d now p found,
    λ key c. close_review-keeps key db tables review status r run_id id event_type d now p found c,
  )

  grant-Closes :
      (payload : Payload) (status : ReviewRequestStatus) (event_type : String)
      → is_pending status ≡ false
      → Closes id db (grant float cost_cap db run_id review payload status event_type d now)
  unfolding grant
  grant-Closes payload status event_type p =
      Closes-close
        (apply_budget float cost_cap db.run_tables run_id payload now >>= λ extended.
          set_run float cost_cap extended run_id ResearchRunStatus.pending none now)
        status (resolution d d.kind (some (proposed payload)) none) event_type
        (applied_result review status ResearchRunStatus.pending) p

  Closes-if :
      (b : Bool) (x y : Result ReviewError (Database F × ResolveResult))
      → Closes id db x
      → Closes id db y
      → Closes id db (if b then x else y)
  Closes-if true x y hx hy = hx
  Closes-if false x y hx hy = hy

  edit-Closes :
      (payload : Option DecisionPayload) (proposed_payload : Payload)
      → Closes id db (edit_with float cost_cap db run_id review d now payload proposed_payload)
  unfolding edit_with
  edit-Closes none p = tt
  edit-Closes (some given_payload) (human_input_payload question) = tt
  edit-Closes (some given_payload) (budget_extension_payload p) =
      Closes-if (is_valid_payload (edited_payload p given_payload))
        (grant float cost_cap db run_id review
          (budget_extension_payload (edited_payload p given_payload)) ReviewRequestStatus.edited
          "edited" d now)
        (err invalid_payload)
        (grant-Closes (budget_extension_payload (edited_payload p given_payload))
          ReviewRequestStatus.edited "edited" refl)
        tt

  text-Closes :
      (p : DecisionPayload) (text : Option String)
      → Closes id db (respond_text float cost_cap db run_id review d now p text)
  unfolding respond_text
  text-Closes p none = tt
  text-Closes p (some text) =
      Closes-close
        (lift_store (
            add_response db.run_tables run_id (record {
              review_id = review.id;
              question = question_text review.proposed_action_payload;
              response = text;
            }))
          >>= λ answered. set_run float cost_cap answered run_id ResearchRunStatus.pending none now)
        ReviewRequestStatus.responded
        (resolution d ReviewDecisionKind.respond (some (given p)) none) "responded"
        (applied_result review ReviewRequestStatus.responded ResearchRunStatus.pending) refl

  respond-Closes :
      (payload : Option DecisionPayload)
      → Closes id db (respond_with float cost_cap db run_id review d now payload)
  unfolding respond_with
  respond-Closes none = tt
  respond-Closes (some p) = text-Closes p p.response

  Closes-cancel :
      (mid : Database F) (m : Result StoreError (Database F)) (result : ResolveResult)
      → cancel_run mid run_id now ≡ m
      → IsClosed id mid × ((key : ℕ) → IsClosed key db → IsClosed key mid)
      → Closes id db (lift_store m >>= λ db'. ok (db', result))
  Closes-cancel mid (err e) result h c = tt
  Closes-cancel mid (ok db') result h c = (
    cancel_run-keeps id mid db' run_id now h c.0,
    λ key k. cancel_run-keeps key mid db' run_id now h (c.1 key k),
  )

  reject-Closes : Closes id db (resolve_reject float cost_cap db run_id review d now)
  unfolding resolve_reject
  reject-Closes =
      let outcome =
        if str_eq d.rejection_outcome "CANCEL_RUN" then "CANCEL_RUN" else "STOP_AND_SYNTHESIZE" in
      let r = resolution d ReviewDecisionKind.reject none (some outcome) in
      let mid =
        close_review db db.run_tables review ReviewRequestStatus.rejected r run_id "rejected" d
          now in
      Closes-if (str_eq d.rejection_outcome "CANCEL_RUN") _ _
        (Closes-cancel mid (cancel_run mid run_id now)
          (applied_result review ReviewRequestStatus.rejected ResearchRunStatus.cancelled) refl
          (
            close_review-written db db.run_tables review ReviewRequestStatus.rejected r run_id id
                "rejected" d now refl found,
            λ key c.
                close_review-keeps key db db.run_tables review ReviewRequestStatus.rejected r run_id
                  id "rejected" d now refl found c,
          ))
        (Closes-close (end_run float cost_cap db.run_tables run_id now) ReviewRequestStatus.rejected
          r "rejected"
          (applied_result review ReviewRequestStatus.rejected ResearchRunStatus.budget_exhausted)
          refl)

  abbrev authoritative : Bool
  authoritative = is_authoritative_approval (some ApprovalDecision.approved) d.source d.reason

  decide-Closes :
      (kind : ReviewDecisionKind)
      → Closes id db (decide float cost_cap hash db run_id review d now kind)
  unfolding decide resolve_approve resolve_edit resolve_respond
  decide-Closes ReviewDecisionKind.approve =
      let payload = review.proposed_action_payload in
      let granted =
        grant float cost_cap db run_id review payload ReviewRequestStatus.approved "approved" d
          now in
      let matches : Bool = elim d.payload [
        | none ↦ true
        | some p ↦ str_eq (hash p) review.payload_hash
      ] in
      Closes-if (not authoritative) (err not_authoritative)
        (if not matches then err payload_mismatch else granted) tt
        (Closes-if (not matches) (err payload_mismatch) granted tt
          (grant-Closes payload ReviewRequestStatus.approved "approved" refl))
  decide-Closes ReviewDecisionKind.edit =
      Closes-if (not authoritative) (err not_authoritative)
        (edit_with float cost_cap db run_id review d now d.payload review.proposed_action_payload)
        tt (edit-Closes d.payload review.proposed_action_payload)
  decide-Closes ReviewDecisionKind.reject = reject-Closes
  decide-Closes ReviewDecisionKind.respond =
      Closes-if (not (same_reason review.reason_code ReviewReasonCode.human_input_required))
        (err respond_not_valid) (respond_with float cost_cap db run_id review d now d.payload) tt
        (respond-Closes d.payload)

  -- An applied decision closes its review and opens none.
  pub decide-IsClosed :
      {db' : Database F} {r : ResolveResult} (kind : ReviewDecisionKind)
      → decide float cost_cap hash db run_id review d now kind ≡ ok (db', r)
      → IsClosed id db' × ((key : ℕ) → IsClosed key db → IsClosed key db')
  decide-IsClosed kind h = subst (Closes id db) h (decide-Closes kind)
