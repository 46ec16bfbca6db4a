-- ===== src/Examples/Approvals.antt =====
-- A budget extension that is asked for, approved, and approved again.
use deepscout.Base.{
  String, ◌≡◌, refl, Bool, true, false, some, none, [], ◌∷◌, ◌⊎◌, ok, get_row, set_row, contains,
}
use deepscout.Base.Int.{ℤ, pos, ◌+ℤ◌}
use deepscout.Domain.Enums.{
  ResearchRunStatus, ReviewReasonCode, ReviewRequestStatus, ReviewDecisionKind, is_terminal_run,
}
use deepscout.Domain.Invariants.{assert_run_status_transition}
use deepscout.Budget.{post_init}
use deepscout.Runs.Usage.{extend_run_budget, extended_row, budget_from_run}
use deepscout.Runs.Status.{
  update_run_status, row_with_status, set_termination_reason, is_running_run,
}
use deepscout.Runs.Status.Laws.{AllSound}
use deepscout.Reviews.{
  BudgetExtensionPayload, Payload, budget_extension_payload, DecisionPayload, ReviewRequestRow,
  Database, is_pending, resolved_row, update_review_status, append_review_event, proposed,
}
use deepscout.Reviews.Create.{new_review}
use deepscout.Reviews.Resolve.{
  Decision, ResolveResult, resolve_review, decide, resolve_approve, grant, apply_budget, set_run,
  close_review, is_authoritative_approval, is_granted, is_grant, is_expired,
}
use deepscout.Reviews.Resolve.Inversion.{IsAuthorised, IsRepeat, resolve_review-cases}
use deepscout.Reviews.Resolve.Once.{start, resolve_review-once}
use deepscout.Reviews.Resolve.System.{SystemHistory, resolved, SystemHistory-AllSound}
use deepscout.Examples.Numbers.{whole}
use deepscout.Examples.Budgets.{run, run-IsSound}

abbrev no_hash : DecisionPayload → String
no_hash p = ""

abbrev hash_of : Payload → String
hash_of p = ""

abbrev asked : BudgetExtensionPayload
asked = record {
  current_max_iterations = pos 5;
  current_max_tool_calls = pos 3;
  current_max_sources = pos 10;
  requested_extra_iterations = pos 2;
  requested_extra_tool_calls = pos 10;
  requested_extra_sources = pos 5;
  consumed_iterations = pos 0;
  consumed_tool_calls = pos 0;
  consumed_sources = pos 0;
}

abbrev review : ReviewRequestRow
review = new_review 4 1 ReviewReasonCode.budget_extension (budget_extension_payload asked) "" none

abbrev db : Database ℤ
db = record {
  run_tables = record { runs = run ∷ []; ledger_entries = []; token_usage_records = [] };
  tasks = [];
  reviews = review ∷ [];
  events = [];
}

abbrev approve : Decision
approve = record {
  kind = ReviewDecisionKind.approve;
  source = "api";
  identity = "operator";
  payload = none;
  reason = none;
  rejection_outcome = "STOP_AND_SYNTHESIZE";
}

abbrev db_after : Database ℤ
db_after = record {
  run_tables = record {
    runs =
        record run {
          max_iterations = pos 7;
          max_tool_calls = pos 13;
          max_sources = pos 15;
          status = ResearchRunStatus.pending;
          updated_at = 30;
        }
        ∷ [];
    ledger_entries = [];
    token_usage_records = [];
  };
  tasks = [];
  reviews =
      record review {
        status = ReviewRequestStatus.approved;
        resolved_at = some 30;
        resolved_by = some "operator";
        resolved_source = some "api";
        decision_kind = some ReviewDecisionKind.approve;
        decision_payload = some (proposed (budget_extension_payload asked));
      }
      ∷ [];
  events =
      record {
        review_request_id = 4;
        research_run_id = 1;
        event_type = "approved";
        actor_source = "api";
        actor_identity = some "operator";
      }
      ∷ [];
}

abbrev answer : ResolveResult
answer = record {
  review_id = 4;
  status = ReviewRequestStatus.approved;
  run_status = ResearchRunStatus.pending;
  applied = true;
}

approved : resolve_review whole (pos 1_000) no_hash db 1 4 approve 30 ≡ ok (db_after, answer)
unfolding resolve_review decide resolve_approve grant apply_budget set_run close_review
    is_authoritative_approval is_granted is_grant is_expired contains get_row set_row is_pending
    extend_run_budget extended_row budget_from_run post_init ◌+ℤ◌ update_run_status row_with_status
    is_running_run is_terminal_run assert_run_status_transition set_termination_reason
    update_review_status resolved_row append_review_event
approved = refl

approved_again :
    resolve_review whole (pos 1_000) no_hash db_after 1 4 approve 40
    ≡ ok (db_after, record answer { applied = false })
unfolding resolve_review is_granted is_grant contains get_row
approved_again = refl

resolve_review-once_example : (db_after ≡ db_after) × (◌≡◌ {A = Bool} false false)
resolve_review-once_example =
    resolve_review-once whole (pos 1_000) hash_of no_hash db db_after db_after db_after 1 1 4
      approve approve 30 40 answer (record answer { applied = false }) approved refl start
      approved_again

resolve_review-cases_example :
    IsRepeat whole (pos 1_000) no_hash db db_after 1 4 approve answer
    ⊎ ((row : ReviewRequestRow) × IsAuthorised whole (pos 1_000) no_hash db 1 4 approve 30 row
        × (decide whole (pos 1_000) no_hash db 1 row approve 30 ReviewDecisionKind.approve
            ≡ ok (db_after, answer)))
resolve_review-cases_example =
    resolve_review-cases whole (pos 1_000) no_hash db db_after 1 4 approve 30 answer approved

SystemHistory-AllSound_example : AllSound whole (pos 1_000) db_after.run_tables
SystemHistory-AllSound_example =
    SystemHistory-AllSound whole (pos 1_000) no_hash {db = db} {db' = db_after}
      (SystemHistory.later SystemHistory.start (resolved 1 4 approve 30 answer approved))
      run-IsSound
