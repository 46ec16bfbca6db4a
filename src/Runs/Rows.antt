-- ===== src/Runs/Rows.antt =====
-- `ResearchRunRow`: the columns that the modelled operations read or write. Times are ℕ (ticks of
-- one clock), keys are ℕ.
use deepscout.Base.{ℕ, String, Option, List}
use deepscout.Base.Int.{ℤ}
use deepscout.Domain.Enums.{
  ResearchRunStatus, BudgetMetric, AgentRole, ResearchPhase, UsageReportStatus, CostReportStatus,
}

-- An entry of `human_input_responses` in a run's configuration snapshot.
pub record HumanResponse : Type 0 where
  pub review_id : ℕ
  pub question : String
  pub response : String

pub record ResearchRunRow (F : Type 0) : Type 0 where
  pub id : ℕ
  pub status : ResearchRunStatus
  pub max_iterations : ℤ
  pub max_wall_time_seconds : ℤ
  pub max_total_tokens : ℤ
  pub max_cost_usd : F
  pub max_sources : ℤ
  pub max_tool_calls : ℤ
  pub consumed_iterations : ℤ
  pub consumed_wall_time_seconds : ℤ
  pub consumed_total_tokens : Option ℤ
  pub consumed_cost_usd : Option F
  pub consumed_sources : ℤ
  pub consumed_tool_calls : ℤ
  pub termination_reason : Option String
  pub concurrency_limit : ℕ
  pub created_at : ℕ
  pub updated_at : ℕ
  pub started_at : Option ℕ
  pub completed_at : Option ℕ
  pub replans_used : ℕ
  pub human_input_responses : List HumanResponse
  pub usage_report_status : UsageReportStatus
  pub cost_report_status : CostReportStatus
  pub pricing_version : Option String

pub record BudgetLedgerEntryRow (F : Type 0) : Type 0 where
  pub research_run_id : ℕ
  pub metric : BudgetMetric
  pub delta : F
  pub note : String

-- `TokenUsageRecord` of libs/core/src/deepscout_core/domain/usage.py: what a provider reports for one
-- call of a model.
pub record TokenUsageRecord : Type 0 where
  pub research_run_id : ℕ
  pub phase : ResearchPhase
  pub agent_role : AgentRole
  pub provider : String
  pub model : String
  pub input_tokens : Option ℤ
  pub output_tokens : Option ℤ
  pub cached_input_tokens : Option ℤ
  pub reasoning_tokens : Option ℤ
  pub total_tokens : Option ℤ
  pub task_id : Option ℕ
  pub worker_id : Option ℕ
  pub iteration : Option ℕ
  pub retry : ℕ
  pub report_status : UsageReportStatus

-- The stored record, with the price.
pub record TokenUsageRecordRow (F : Type 0) : Type 0 where
  pub usage : TokenUsageRecord
  pub cost_usd : Option F
  pub cost_report_status : CostReportStatus
  pub pricing_version : Option String
