-- ===== src/Reviews/Resolve.antt =====
-- `HumanReviewService.resolve_review`. An exception rolls the session back, so an error leaves the
-- database as it was; this holds of the status that is written before "review expired", too.
-- `hash` is the digest of a dictionary in canonical JSON. A response is stripped and cut to 8000
-- characters. The revision of the research contract after a response is not modelled.
pub mod Inversion
pub mod Closing
pub mod Once
pub mod Budgets
pub mod System
use deepscout.Base.{
  ℕ, String, Bool, true, false, not, ◌&&◌, ◌||◌, Option, none, some, List, [], ◌∷◌, ◌++◌, Result,
  ok, err, ◌>>=◌, if◌then◌else◌, ◌==◌, leb, str_eq, contains, get_row, set_row, length, ◌-◌,
}
use deepscout.Base.Int.{ℤ}
use deepscout.Base.Float.{Float}
use deepscout.Domain.Enums.{
  ResearchRunStatus, ReviewReasonCode, ReviewRequestStatus, ReviewDecisionKind,
}
use deepscout.Runs.{ResearchRunRow, HumanResponse}
use deepscout.Runs.Usage.{RunTables, StoreError, row_id, run_not_found, extend_run_budget}
use deepscout.Runs.Status.{update_run_status, set_termination_reason}
use deepscout.Reviews.Rows.{
  BudgetExtensionPayload, Payload, budget_extension_payload, human_input_payload, DecisionPayload,
  StoredDecision, proposed, given, ReviewRequestRow, Database, review_id,
}
use deepscout.Reviews.Store.{
  is_pending, same_reason, Resolution, update_review_status, append_review_event, cancel_run,
}
use deepscout.Reviews.Create.{is_valid_payload}

-- `AUTHORITATIVE_SOURCES`
abbrev pub authoritative_sources : List String
authoritative_sources = "api" ∷ "ui" ∷ "operator" ∷ []

-- `ApprovalDecision` of approval.py.
pub data ApprovalDecision : Type 0 where
  approved rejected expired : ApprovalDecision

-- `is_authoritative_approval`: the untrusted text does not change the answer.
unfoldable pub is_authoritative_approval :
    Option ApprovalDecision → (source : String) (untrusted_payload : Option String) → Bool
unfolding contains
is_authoritative_approval (some ApprovalDecision.approved) source untrusted_payload =
    contains ("api" ∷ "ui" ∷ "operator" ∷ []) source
is_authoritative_approval _ source untrusted_payload = false

pub data ReviewError : Type 0 where
  not_authoritative review_not_found review_expired payload_mismatch edit_without_payload :
      ReviewError
  invalid_payload respond_not_valid respond_without_text : ReviewError
  not_pending : ReviewRequestStatus → ReviewError
  key_error : String → ReviewError
  store_error : StoreError → ReviewError

pub record ResolveResult : Type 0 where
  pub review_id : ℕ
  pub status : ReviewRequestStatus
  pub run_status : ResearchRunStatus
  pub applied : Bool

-- The keyword arguments of `resolve_review` below the two keys.
pub record Decision : Type 0 where
  pub kind : ReviewDecisionKind
  pub source : String
  pub identity : String
  pub payload : Option DecisionPayload
  pub reason : Option String
  pub rejection_outcome : String

-- `status in {APPROVED, EDITED}`
unfoldable pub is_granted : ReviewRequestStatus → Bool
is_granted ReviewRequestStatus.approved = true
is_granted ReviewRequestStatus.edited = true
is_granted _ = false

-- `decision_kind in {APPROVE, EDIT}`
unfoldable pub is_grant : ReviewDecisionKind → Bool
is_grant ReviewDecisionKind.approve = true
is_grant ReviewDecisionKind.edit = true
is_grant _ = false

-- `expires_at is not None and expires_at <= now`
unfoldable pub is_expired : Option ℕ → ℕ → Bool
is_expired none now = false
is_expired (some t) now = leb t now

abbrev pub lift_store {ℓ} : {A : Type ℓ} → Result StoreError A → Result ReviewError A
lift_store (ok a) = ok a
lift_store (err e) = err (store_error e)

abbrev pub resolution :
    Decision → ReviewDecisionKind → Option StoredDecision → Option String → Resolution
resolution d kind payload outcome = record {
  resolved_by = some d.identity;
  resolved_source = some d.source;
  decision_kind = some kind;
  decision_payload = payload;
  decision_reason = d.reason;
  rejection_outcome = outcome;
}

-- `decision_payload.get(key, default)`
abbrev pub get_or {ℓ} : {A : Type ℓ} → Option A → A → A
get_or none a = a
get_or (some a) b = a

-- The extension that an EDIT asks for.
unfoldable pub edited_payload : BudgetExtensionPayload → DecisionPayload → BudgetExtensionPayload
edited_payload p d = record p {
  requested_extra_iterations = get_or d.requested_extra_iterations p.requested_extra_iterations;
  requested_extra_tool_calls = get_or d.requested_extra_tool_calls p.requested_extra_tool_calls;
  requested_extra_sources = get_or d.requested_extra_sources p.requested_extra_sources;
}

-- `xs[-10:]`
unfoldable pub last_ten {ℓ} : {A : Type ℓ} → List A → List A
last_ten [] = []
last_ten (x ∷ xs) = let rest = last_ten xs in if leb (length (x ∷ xs)) 10 then x ∷ xs else rest

-- `(payload or {}).get("question", "")`
abbrev pub question_text : Payload → String
question_text (human_input_payload question) = question
question_text (budget_extension_payload p) = ""

abbrev pub applied_result :
    ReviewRequestRow → ReviewRequestStatus → ResearchRunStatus → ResolveResult
applied_result review status run_status = record {
  review_id = review.id;
  status = status;
  run_status = run_status;
  applied = true;
}

module _ {F : Type 0} where
  -- The `human_input_responses` of the run's snapshot with one more, the last ten.
  unfoldable pub add_response :
      RunTables F → (run_id : ℕ) → HumanResponse → Result StoreError (RunTables F)
  unfolding last_ten
  add_response db run_id response = elim (get_row row_id run_id db.runs) [
    | none ↦ err run_not_found
    | some row ↦ ok (record db {
      runs =
          set_row row_id
            (record row {
              human_input_responses = last_ten (row.human_input_responses ++ response ∷ []);
            })
            db.runs;
    })
  ]

  -- The database after a review got its status and its event, and the run's tables are as given.
  unfoldable pub close_review :
      Database F
      → RunTables F
      → ReviewRequestRow
      → ReviewRequestStatus
      → Resolution
      → (run_id : ℕ) (event_type : String) → Decision
      → (now : ℕ) → Database F
  unfolding update_review_status append_review_event
  close_review db run_tables review status r run_id event_type d now =
      append_review_event
        (update_review_status (record db { run_tables = run_tables }) review status r now) review.id
        run_id event_type d.source (some d.identity)

module _ {F : Type 0} (float : Float F) (cost_cap : F) where
  -- `_apply_budget`: a payload of another kind has no such keys.
  unfoldable pub apply_budget :
      RunTables F → (run_id : ℕ) → Payload → (now : ℕ) → Result ReviewError (RunTables F)
  apply_budget db run_id (human_input_payload question) now =
      err (key_error "requested_extra_iterations")
  apply_budget db run_id (budget_extension_payload p) now = lift_store (
      extend_run_budget float cost_cap db run_id p.requested_extra_iterations
        p.requested_extra_tool_calls p.requested_extra_sources now)

  -- `update_run_status` and then `set_termination_reason`.
  unfoldable pub set_run :
      RunTables F
      → (run_id : ℕ) → ResearchRunStatus
      → Option String
      → (now : ℕ) → Result ReviewError (RunTables F)
  set_run db run_id status reason now =
      lift_store (update_run_status float cost_cap db run_id status now) >>= λ db'.
      lift_store (set_termination_reason db' run_id reason now)

  -- The two calls in the other order, as a rejection makes them.
  unfoldable pub end_run : RunTables F → (run_id now : ℕ) → Result ReviewError (RunTables F)
  end_run db run_id now =
      lift_store (set_termination_reason db run_id (some "budget_exhausted") now) >>= λ db'.
      lift_store
        (update_run_status float cost_cap db' run_id ResearchRunStatus.budget_exhausted now)

  -- The grant of an extension: APPROVE with the proposed payload, EDIT with the edited one. The run's
  -- tables meet the calls in the source's order, the review and its event stand apart from them.
  unfoldable pub grant :
      Database F
      → (run_id : ℕ) → ReviewRequestRow
      → Payload
      → ReviewRequestStatus
      → (event_type : String) → Decision
      → (now : ℕ) → Result ReviewError (Database F × ResolveResult)
  unfolding apply_budget set_run close_review
  grant db run_id review payload status event_type d now =
      (apply_budget db.run_tables run_id payload now >>= λ extended.
      set_run extended run_id ResearchRunStatus.pending none now)
      >>= λ tables. ok (
        close_review db tables review status (resolution d d.kind (some (proposed payload)) none)
            run_id event_type d now,
        applied_result review status ResearchRunStatus.pending,
      )

  unfoldable pub resolve_approve :
      (hash : DecisionPayload → String)
      → Database F
      → (run_id : ℕ) → ReviewRequestRow
      → Decision
      → (now : ℕ) → Result ReviewError (Database F × ResolveResult)
  unfolding is_authoritative_approval grant
  resolve_approve hash db run_id review d now =
      let matches : Bool = elim d.payload [
        | none ↦ true
        | some p ↦ str_eq (hash p) review.payload_hash
      ] in
      if not (is_authoritative_approval (some ApprovalDecision.approved) d.source d.reason)
      then err not_authoritative
      else if not matches
      then err payload_mismatch
      else grant db run_id review review.proposed_action_payload ReviewRequestStatus.approved
          "approved" d now

  -- An EDIT with the dictionary that it was given.
  unfoldable pub edit_with :
      Database F
      → (run_id : ℕ) → ReviewRequestRow
      → Decision
      → (now : ℕ) → Option DecisionPayload
      → Payload
      → Result ReviewError (Database F × ResolveResult)
  unfolding grant edited_payload is_valid_payload
  edit_with db run_id review d now none p = err edit_without_payload
  edit_with db run_id review d now (some given_payload) (human_input_payload question) =
      err (key_error "requested_extra_iterations")
  edit_with db run_id review d now (some given_payload) (budget_extension_payload p) =
      if is_valid_payload (edited_payload p given_payload)
      then grant db run_id review (budget_extension_payload (edited_payload p given_payload))
          ReviewRequestStatus.edited "edited" d now
      else err invalid_payload

  unfoldable pub resolve_edit :
      Database F
      → (run_id : ℕ) → ReviewRequestRow
      → Decision
      → (now : ℕ) → Result ReviewError (Database F × ResolveResult)
  unfolding is_authoritative_approval edit_with
  resolve_edit db run_id review d now =
      if not (is_authoritative_approval (some ApprovalDecision.approved) d.source d.reason)
      then err not_authoritative
      else edit_with db run_id review d now d.payload review.proposed_action_payload

  -- An outcome that is not known is STOP_AND_SYNTHESIZE.
  unfoldable pub resolve_reject :
      Database F
      → (run_id : ℕ) → ReviewRequestRow
      → Decision
      → (now : ℕ) → Result ReviewError (Database F × ResolveResult)
  unfolding close_review end_run
  resolve_reject db run_id review d now =
      let outcome =
        if str_eq d.rejection_outcome "CANCEL_RUN" then "CANCEL_RUN" else "STOP_AND_SYNTHESIZE" in
      let r = resolution d ReviewDecisionKind.reject none (some outcome) in
      let closed = λ (tables : RunTables F).
        close_review db tables review ReviewRequestStatus.rejected r run_id "rejected" d now in
      if str_eq d.rejection_outcome "CANCEL_RUN"
      then (lift_store (cancel_run (closed db.run_tables) run_id now) >>= λ db'.
          ok (db', applied_result review ReviewRequestStatus.rejected ResearchRunStatus.cancelled))
      else (end_run db.run_tables run_id now >>= λ tables. ok (
        closed tables,
        applied_result review ReviewRequestStatus.rejected ResearchRunStatus.budget_exhausted,
      ))

  -- A RESPOND with its text, and with its dictionary.
  unfoldable pub respond_text :
      Database F
      → (run_id : ℕ) → ReviewRequestRow
      → Decision
      → (now : ℕ) → DecisionPayload
      → Option String
      → Result ReviewError (Database F × ResolveResult)
  unfolding close_review add_response set_run
  respond_text db run_id review d now p none = err respond_without_text
  respond_text db run_id review d now p (some text) =
      (lift_store (
          add_response db.run_tables run_id (record {
            review_id = review.id;
            question = question_text review.proposed_action_payload;
            response = text;
          }))
        >>= λ answered. set_run answered run_id ResearchRunStatus.pending none now)
      >>= λ tables. ok (
        close_review db tables review ReviewRequestStatus.responded
            (resolution d ReviewDecisionKind.respond (some (given p)) none) run_id "responded" d
            now,
        applied_result review ReviewRequestStatus.responded ResearchRunStatus.pending,
      )

  unfoldable pub respond_with :
      Database F
      → (run_id : ℕ) → ReviewRequestRow
      → Decision
      → (now : ℕ) → Option DecisionPayload
      → Result ReviewError (Database F × ResolveResult)
  unfolding respond_text
  respond_with db run_id review d now none = err respond_without_text
  respond_with db run_id review d now (some p) = respond_text db run_id review d now p p.response

  unfoldable pub resolve_respond :
      Database F
      → (run_id : ℕ) → ReviewRequestRow
      → Decision
      → (now : ℕ) → Result ReviewError (Database F × ResolveResult)
  unfolding same_reason respond_with
  resolve_respond db run_id review d now =
      if not (same_reason review.reason_code ReviewReasonCode.human_input_required)
      then err respond_not_valid
      else respond_with db run_id review d now d.payload

  -- The branches on the kind of the decision.
  unfoldable pub decide :
      (hash : DecisionPayload → String)
      → Database F
      → (run_id : ℕ) → ReviewRequestRow
      → Decision
      → (now : ℕ) → ReviewDecisionKind
      → Result ReviewError (Database F × ResolveResult)
  unfolding resolve_approve resolve_edit resolve_reject resolve_respond
  decide hash db run_id review d now ReviewDecisionKind.approve =
      resolve_approve hash db run_id review d now
  decide hash db run_id review d now ReviewDecisionKind.edit = resolve_edit db run_id review d now
  decide hash db run_id review d now ReviewDecisionKind.reject =
      resolve_reject db run_id review d now
  decide hash db run_id review d now ReviewDecisionKind.respond =
      resolve_respond db run_id review d now

  -- `resolve_review`, on the row that is locked under its key.
  unfoldable pub resolve_review :
      (hash : DecisionPayload → String)
      → Database F
      → (run_id id : ℕ) → Decision
      → (now : ℕ) → Result ReviewError (Database F × ResolveResult)
  unfolding contains is_granted is_grant is_pending is_expired decide
  resolve_review hash db run_id id d now =
      if not (contains authoritative_sources d.source)
      then err not_authoritative
      else elim (get_row review_id id db.reviews) [
        | none ↦ err review_not_found
        | some review ↦
            if not (review.research_run_id == run_id)
            then err review_not_found
            else if is_granted review.status && is_grant d.kind
            then ok (
              db,
              record {
                review_id = id;
                status = review.status;
                run_status = ResearchRunStatus.pending;
                applied = false;
              },
            )
            else if not (is_pending review.status)
            then err (not_pending review.status)
            else if is_expired review.expires_at now
            then err review_expired
            else decide hash db run_id review d now d.kind
      ]
