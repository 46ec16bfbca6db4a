-- ===== src/Domain/Enums.antt =====
-- libs/core/src/deepscout_core/domain/enums.py, as far as the modelled components use it.
-- Two enums may share a member's name: it is written behind its type.
use deepscout.Base.{Bool, true, false}

pub data ResearchRunStatus : Type 0 where
  pending running paused completed failed cancelled budget_exhausted : ResearchRunStatus

-- `status in TERMINAL_RESEARCH_RUN_STATUSES`
unfoldable pub is_terminal_run : ResearchRunStatus → Bool
is_terminal_run ResearchRunStatus.completed = true
is_terminal_run ResearchRunStatus.failed = true
is_terminal_run ResearchRunStatus.cancelled = true
is_terminal_run ResearchRunStatus.budget_exhausted = true
is_terminal_run _ = false

pub data ResearchQuestionStatus : Type 0 where
  pending researching answered insufficient_evidence skipped : ResearchQuestionStatus

-- `status in TERMINAL_RESEARCH_QUESTION_STATUSES`
unfoldable pub is_terminal_question : ResearchQuestionStatus → Bool
is_terminal_question ResearchQuestionStatus.answered = true
is_terminal_question ResearchQuestionStatus.insufficient_evidence = true
is_terminal_question ResearchQuestionStatus.skipped = true
is_terminal_question _ = false

pub data ContradictionEvidenceStatus : Type 0 where
  sufficient insufficient_evidence : ContradictionEvidenceStatus

pub data ResearchTaskStatus : Type 0 where
  pending ready running completed failed cancelled blocked : ResearchTaskStatus

-- `status in TERMINAL_RESEARCH_TASK_STATUSES`
unfoldable pub is_terminal_task : ResearchTaskStatus → Bool
is_terminal_task ResearchTaskStatus.completed = true
is_terminal_task ResearchTaskStatus.failed = true
is_terminal_task ResearchTaskStatus.cancelled = true
is_terminal_task ResearchTaskStatus.blocked = true
is_terminal_task _ = false

pub data ResearchJobType : Type 0 where
  execute_run resume_run : ResearchJobType

pub data ResearchJobStatus : Type 0 where
  pending claimed running completed failed cancelled : ResearchJobStatus

pub data AllocationClass : Type 0 where
  sequential_single single_agent small_parallel wide_parallel : AllocationClass

pub data SufficiencyAction : Type 0 where
  continue target_specific_gap verify replan finalize request_human : SufficiencyAction

pub data ClaimVerificationStatus : Type 0 where
  pending supported verified partially_verified refuted insufficient_evidence :
      ClaimVerificationStatus

-- `status in VERIFIED_CLAIM_STATUSES`
unfoldable pub is_verified_claim : ClaimVerificationStatus → Bool
is_verified_claim ClaimVerificationStatus.verified = true
is_verified_claim ClaimVerificationStatus.partially_verified = true
is_verified_claim _ = false

pub data ResearchPhase : Type 0 where
  plan research collect fetch index extract verify contradiction : ResearchPhase
  compile_knowledge critic synthesis report : ResearchPhase

pub data AgentRole : Type 0 where
  planner planner_validator supervisor research_worker fetch indexer extractor : AgentRole
  verifier contradiction critic synthesis report evaluator : AgentRole

pub data UsageReportStatus : Type 0 where
  unknown partial complete : UsageReportStatus

pub data CostReportStatus : Type 0 where
  unknown estimated known : CostReportStatus

pub data BudgetMetric : Type 0 where
  iterations wall_time tokens cost sources tool_calls : BudgetMetric

pub data PlanDecomposition : Type 0 where
  unspecified simple parallel chain mixed : PlanDecomposition

pub data ReviewReasonCode : Type 0 where
  budget_extension privileged_tool external_write destructive_operation : ReviewReasonCode
  global_knowledge_promotion knowledge_deletion security_sensitive_action : ReviewReasonCode
  manual_user_request human_input_required : ReviewReasonCode

pub data ReviewRequestStatus : Type 0 where
  pending approved edited rejected responded expired cancelled superseded : ReviewRequestStatus

pub data ReviewDecisionKind : Type 0 where
  approve edit reject respond : ReviewDecisionKind
