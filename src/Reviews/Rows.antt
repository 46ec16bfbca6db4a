-- ===== src/Reviews/Rows.antt =====
-- `ReviewRequestRow`, `ReviewEventRow`, and the tables that a resolution reads and writes. Of a
-- proposed action's dictionary the model keeps the keys that the code reads.
use deepscout.Base.{ℕ, String, Option, List}
use deepscout.Base.Int.{ℤ}
use deepscout.Domain.Enums.{ReviewReasonCode, ReviewRequestStatus, ReviewDecisionKind}
use deepscout.Runs.Usage.{RunTables}
use deepscout.Runs.TaskRows.{TaskTable}

-- `BudgetExtensionPayload` without the cost, which nothing reads.
pub record BudgetExtensionPayload : Type 0 where
  pub current_max_iterations : ℤ
  pub current_max_tool_calls : ℤ
  pub current_max_sources : ℤ
  pub requested_extra_iterations : ℤ
  pub requested_extra_tool_calls : ℤ
  pub requested_extra_sources : ℤ
  pub consumed_iterations : ℤ
  pub consumed_tool_calls : ℤ
  pub consumed_sources : ℤ

-- The two kinds of proposed action that the service creates.
pub data Payload : Type 0 where
  budget_extension_payload : BudgetExtensionPayload → Payload
  human_input_payload : (question : String) → Payload

-- The dictionary of a decision, by the keys that the code looks for.
pub record DecisionPayload : Type 0 where
  pub requested_extra_iterations : Option ℤ
  pub requested_extra_tool_calls : Option ℤ
  pub requested_extra_sources : Option ℤ
  pub response : Option String

-- What `decision_payload` may hold once it is stored.
pub data StoredDecision : Type 0 where
  proposed : Payload → StoredDecision
  given : DecisionPayload → StoredDecision

pub record ReviewRequestRow : Type 0 where
  pub id : ℕ
  pub research_run_id : ℕ
  pub reason_code : ReviewReasonCode
  pub proposed_action_payload : Payload
  pub payload_hash : String
  pub status : ReviewRequestStatus
  pub expires_at : Option ℕ
  pub resolved_at : Option ℕ
  pub resolved_by : Option String
  pub resolved_source : Option String
  pub decision_kind : Option ReviewDecisionKind
  pub decision_payload : Option StoredDecision
  pub decision_reason : Option String
  pub rejection_outcome : Option String

pub record ReviewEventRow : Type 0 where
  pub review_request_id : ℕ
  pub research_run_id : ℕ
  pub event_type : String
  pub actor_source : String
  pub actor_identity : Option String

abbrev pub review_id : ReviewRequestRow → ℕ
review_id row = row.id

pub record Database (F : Type 0) : Type 0 where
  pub run_tables : RunTables F
  pub tasks : TaskTable
  pub reviews : List ReviewRequestRow
  pub events : List ReviewEventRow
