-- ===== src/Reviews/Create.antt =====
-- `evaluate_policy` and the two operations of `HumanReviewService` that open a review. `hash` is the
-- digest of a dictionary in canonical JSON; titles, explanations and risk levels are left out.
use deepscout.Base.{
  ℕ, ◌+◌, ◌*◌, String, Bool, true, false, not, ◌&&◌, Option, none, some, [], ◌∷◌, ◌++◌, Result, ok,
  err, if◌then◌else◌, get_row, ltb,
}
use deepscout.Base.Int.{ℤ, pos, ltb_ℤ, leb_ℤ}
use deepscout.Base.Float.{Float}
use deepscout.Domain.Enums.{ReviewReasonCode, ReviewRequestStatus}
use deepscout.Runs.{ResearchRunRow}
use deepscout.Runs.Usage.{StoreError, row_id, budget_from_run, run_not_found, invalid_budget}
use deepscout.Reviews.Rows.{
  BudgetExtensionPayload, Payload, budget_extension_payload, human_input_payload, ReviewRequestRow,
  Database,
}
use deepscout.Reviews.Store.{get_pending_review, append_review_event}

pub data PolicyVerdict : Type 0 where
  allow_autonomous require_review deny : PolicyVerdict

pub record HitlSettings : Type 0 where
  pub hitl_enabled : Bool
  pub hitl_budget_extension_requires_review : Bool
  pub hitl_default_review_expiry_hours : Option ℕ

-- `evaluate_policy`. The set of its last test is all the other reasons.
unfoldable pub evaluate_policy : ReviewReasonCode → HitlSettings → PolicyVerdict
evaluate_policy ReviewReasonCode.budget_extension settings =
    if not settings.hitl_enabled
    then allow_autonomous
    else if settings.hitl_budget_extension_requires_review
    then require_review
    else allow_autonomous
evaluate_policy ReviewReasonCode.security_sensitive_action settings =
    if not settings.hitl_enabled then deny else require_review
evaluate_policy _ settings = if not settings.hitl_enabled then allow_autonomous else require_review

unfoldable pub requires_review : PolicyVerdict → Bool
requires_review require_review = true
requires_review _ = false

pub data CreateError : Type 0 where
  not_required_by_policy invalid_payload : CreateError
  store_error : StoreError → CreateError

-- `Field(ge=0, le=limit)`
abbrev pub within : ℤ → ℕ → Bool
within n limit = not (ltb_ℤ n (pos 0)) && leb_ℤ n (pos limit)

-- The validation of `BudgetExtensionPayload`.
unfoldable pub is_valid_payload : BudgetExtensionPayload → Bool
is_valid_payload p =
    within p.requested_extra_iterations 20
    && (within p.requested_extra_tool_calls 100 && within p.requested_extra_sources 50)

-- A row of `create_review_request`, with the defaults of `ReviewRequestRow`.
abbrev pub new_review :
    (new_id run_id : ℕ)
    → ReviewReasonCode
    → Payload
    → (payload_hash : String) (expires_at : Option ℕ) → ReviewRequestRow
new_review new_id run_id reason payload payload_hash expires_at = record {
  id = new_id;
  research_run_id = run_id;
  reason_code = reason;
  proposed_action_payload = payload;
  payload_hash = payload_hash;
  status = ReviewRequestStatus.pending;
  expires_at = expires_at;
  resolved_at = none;
  resolved_by = none;
  resolved_source = none;
  decision_kind = none;
  decision_payload = none;
  decision_reason = none;
  rejection_outcome = none;
}

module _ {F : Type 0} where
  -- `create_review_request` and the event that follows it.
  unfoldable pub add_review : Database F → ReviewRequestRow → Database F
  unfolding append_review_event
  add_review db review =
      append_review_event (record db { reviews = db.reviews ++ review ∷ [] }) review.id
        review.research_run_id "created" "system" (some "orchestrator")

  -- The pending review of this reason if there is one, and a new one otherwise.
  unfoldable pub pending_or_new :
      Database F → (run_id : ℕ) → ReviewReasonCode → ReviewRequestRow → Database F × ℕ
  unfolding get_pending_review add_review
  pending_or_new db run_id reason review = elim (get_pending_review db.reviews run_id reason) [
    | some existing ↦ (db, existing.id)
    | none ↦ (add_review db review, review.id)
  ]

-- `now + timedelta(hours=hours)` in microseconds, where an expiry is set.
unfoldable pub expiry : Option ℕ → ℕ → Option ℕ
expiry none now = none
expiry (some hours) now = if ltb 0 hours then some (now + hours * 3_600_000_000) else none

module _ {F : Type 0} (float : Float F) (cost_cap : F) (hash : Payload → String) where
  -- What `create_budget_extension_review` asks for.
  abbrev pub extension_payload :
      ResearchRunRow F
      → (extra_iterations extra_tool_calls extra_sources : ℤ) → BudgetExtensionPayload
  extension_payload row extra_iterations extra_tool_calls extra_sources = record {
    current_max_iterations = row.max_iterations;
    current_max_tool_calls = row.max_tool_calls;
    current_max_sources = row.max_sources;
    requested_extra_iterations = extra_iterations;
    requested_extra_tool_calls = extra_tool_calls;
    requested_extra_sources = extra_sources;
    consumed_iterations = row.consumed_iterations;
    consumed_tool_calls = row.consumed_tool_calls;
    consumed_sources = row.consumed_sources;
  }

  -- `lock_run`: the row, whose limits are validated on the way.
  unfoldable pub lock_run : Database F → (run_id : ℕ) → Result CreateError (ResearchRunRow F)
  lock_run db run_id = elim (get_row row_id run_id db.run_tables.runs) [
    | none ↦ err (store_error run_not_found)
    | some row ↦ elim (budget_from_run float cost_cap row) [
      | err e ↦ err (store_error (invalid_budget e))
      | ok _ ↦ ok row
    ]
  ]

  unfoldable pub create_budget_extension_review :
      Database F
      → HitlSettings
      → (run_id new_id : ℕ) (extra_iterations extra_tool_calls extra_sources : ℤ) (now : ℕ)
      → Result CreateError (Database F × ℕ)
  unfolding evaluate_policy requires_review lock_run pending_or_new is_valid_payload expiry
  create_budget_extension_review db settings run_id new_id extra_iterations extra_tool_calls
        extra_sources now =
      if not (requires_review (evaluate_policy ReviewReasonCode.budget_extension settings))
      then err not_required_by_policy
      else elim (lock_run db run_id) [
        | err e ↦ err e
        | ok row ↦ elim (get_pending_review db.reviews run_id ReviewReasonCode.budget_extension) [
          | some existing ↦ ok (db, existing.id)
          | none ↦
              let payload = extension_payload row extra_iterations extra_tool_calls extra_sources in
              let body = budget_extension_payload payload in
              let expires = expiry settings.hitl_default_review_expiry_hours now in
              if is_valid_payload payload
              then ok (
                  pending_or_new db run_id ReviewReasonCode.budget_extension (
                    new_review new_id run_id ReviewReasonCode.budget_extension body (hash body)
                      expires))
              else err invalid_payload
        ]
      ]

  -- `create_human_input_review`. The question is cut to 2000 characters.
  unfoldable pub create_human_input_review :
      Database F
      → HitlSettings
      → (run_id new_id : ℕ) (question : String) → Result CreateError (Database F × ℕ)
  unfolding evaluate_policy requires_review lock_run pending_or_new
  create_human_input_review db settings run_id new_id question =
      if not (requires_review (evaluate_policy ReviewReasonCode.human_input_required settings))
      then err not_required_by_policy
      else elim (lock_run db run_id) [
        | err e ↦ err e
        | ok row ↦
            let body = human_input_payload question in
            ok (
              pending_or_new db run_id ReviewReasonCode.human_input_required (
                new_review new_id run_id ReviewReasonCode.human_input_required body (hash body)
                  none))
      ]
