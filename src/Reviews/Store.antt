-- ===== src/Reviews/Store.antt =====
-- The operations of `ResearchStore` on reviews, and `cancel_run`.
use deepscout.Base.{
  ℕ, String, Bool, true, false, ◌&&◌, Option, none, some, List, [], ◌∷◌, ◌++◌, map, Result, ok, err,
  if◌then◌else◌, ◌==◌, get_row, set_row, select,
}
use deepscout.Domain.Enums.{
  ReviewReasonCode, ReviewRequestStatus, ReviewDecisionKind, is_terminal_run,
}
use deepscout.Runs.Usage.{StoreError, row_id, run_not_found}
use deepscout.Runs.TaskRows.{cancel_tasks}
use deepscout.Runs.Status.{cancelled_run}
use deepscout.Reviews.Rows.{ReviewRequestRow, Database, StoredDecision, review_id}

unfoldable pub is_pending : ReviewRequestStatus → Bool
is_pending ReviewRequestStatus.pending = true
is_pending _ = false

unfoldable pub same_reason : ReviewReasonCode → ReviewReasonCode → Bool
same_reason ReviewReasonCode.budget_extension ReviewReasonCode.budget_extension = true
same_reason ReviewReasonCode.privileged_tool ReviewReasonCode.privileged_tool = true
same_reason ReviewReasonCode.external_write ReviewReasonCode.external_write = true
same_reason ReviewReasonCode.destructive_operation ReviewReasonCode.destructive_operation = true
same_reason ReviewReasonCode.global_knowledge_promotion
      ReviewReasonCode.global_knowledge_promotion =
    true
same_reason ReviewReasonCode.knowledge_deletion ReviewReasonCode.knowledge_deletion = true
same_reason ReviewReasonCode.security_sensitive_action ReviewReasonCode.security_sensitive_action =
    true
same_reason ReviewReasonCode.manual_user_request ReviewReasonCode.manual_user_request = true
same_reason ReviewReasonCode.human_input_required ReviewReasonCode.human_input_required = true
same_reason _ _ = false

-- `research_run_id = run AND reason_code = reason AND status = PENDING`
unfoldable pub is_pending_for : (run_id : ℕ) → ReviewReasonCode → ReviewRequestRow → Bool
unfolding is_pending same_reason
is_pending_for run_id reason row =
    row.research_run_id == run_id && (same_reason row.reason_code reason && is_pending row.status)

-- `get_pending_review`
unfoldable pub get_pending_review :
    List ReviewRequestRow → (run_id : ℕ) → ReviewReasonCode → Option ReviewRequestRow
unfolding is_pending_for
get_pending_review [] run_id reason = none
get_pending_review (row ∷ rows) run_id reason =
    if is_pending_for run_id reason row then some row else get_pending_review rows run_id reason

-- The keyword arguments of `update_review_status`.
pub record Resolution : Type 0 where
  pub resolved_by : Option String
  pub resolved_source : Option String
  pub decision_kind : Option ReviewDecisionKind
  pub decision_payload : Option StoredDecision
  pub decision_reason : Option String
  pub rejection_outcome : Option String

-- `new if new is not None else old`
abbrev pub or_else {ℓ} : {A : Type ℓ} → Option A → Option A → Option A
or_else none old = old
or_else (some a) old = some a

-- The row that `update_review_status` writes.
unfoldable pub resolved_row :
    ReviewRequestRow → ReviewRequestStatus → Resolution → (now : ℕ) → ReviewRequestRow
unfolding is_pending
resolved_row row status r now =
    if is_pending status then record row { status = status } else record row {
      status = status;
      resolved_at = some now;
      resolved_by = r.resolved_by;
      resolved_source = r.resolved_source;
      decision_kind = r.decision_kind;
      decision_payload = or_else r.decision_payload row.decision_payload;
      decision_reason = or_else r.decision_reason row.decision_reason;
      rejection_outcome = or_else r.rejection_outcome row.rejection_outcome;
    }

-- `cancel_pending_reviews`, for one review.
unfoldable pub cancel_review :
    (run_id : ℕ) (source identity : String) (now : ℕ) → ReviewRequestRow → ReviewRequestRow
unfolding is_pending
cancel_review run_id source identity now row =
    if row.research_run_id == run_id && is_pending row.status
    then record row {
      status = ReviewRequestStatus.cancelled;
      resolved_at = some now;
      resolved_by = some identity;
      resolved_source = some source;
    }
    else row

module _ {F : Type 0} where
  -- The row stays in the table of reviews under its key.
  unfoldable pub update_review_status :
      Database F → ReviewRequestRow → ReviewRequestStatus → Resolution → (now : ℕ) → Database F
  unfolding resolved_row
  update_review_status db row status r now = record db {
    reviews = set_row review_id (resolved_row row status r now) db.reviews;
  }

  unfoldable pub append_review_event :
      Database F
      → (review_id run_id : ℕ) (event_type source : String) (identity : Option String) → Database F
  append_review_event db review_id run_id event_type source identity = record db {
    events =
        db.events
        ++ record {
          review_request_id = review_id;
          research_run_id = run_id;
          event_type = event_type;
          actor_source = source;
          actor_identity = identity;
        }
          ∷ [];
  }

  -- `cancel_pending_reviews`, with an event for each.
  unfoldable pub cancel_pending_reviews :
      Database F → (run_id : ℕ) (source identity : String) (now : ℕ) → Database F
  unfolding cancel_review
  cancel_pending_reviews db run_id source identity now = record db {
    reviews = map (cancel_review run_id source identity now) db.reviews;
    events =
        db.events
        ++ map
            (λ (row : ReviewRequestRow). record {
              review_request_id = row.id;
              research_run_id = run_id;
              event_type = "cancelled";
              actor_source = source;
              actor_identity = some identity;
            })
            (select
              (λ (row : ReviewRequestRow). row.research_run_id == run_id && is_pending row.status)
              db.reviews);
  }

  unfoldable pub cancel_run : Database F → (run_id now : ℕ) → Result StoreError (Database F)
  unfolding cancelled_run cancel_tasks cancel_pending_reviews is_terminal_run
  cancel_run db run_id now = elim (get_row row_id run_id db.run_tables.runs) [
    | none ↦ err run_not_found
    | some row ↦
        let cancelled = record db {
          run_tables = record db.run_tables {
            runs = set_row row_id (cancelled_run row now) db.run_tables.runs;
          };
          tasks = cancel_tasks db.tasks run_id now;
        } in
        if is_terminal_run row.status
        then ok db
        else ok (cancel_pending_reviews cancelled run_id "system" "cancel_run" now)
  ]
