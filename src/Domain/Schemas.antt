-- ===== src/Domain/Schemas.antt =====
-- libs/core/src/deepscout_core/domain/schemas.py: the records that planner, scheduler and
-- termination pass around. Keys of rows and times are ℕ.
use deepscout.Base.{ℕ, String, Bool, Option, List}
use deepscout.Domain.Enums.{ResearchTaskStatus, ResearchQuestionStatus, PlanDecomposition}

pub record PlannerTask : Type 0 where
  pub task_key : String
  pub objective : String
  pub question_text : Option String
  pub depends_on : List String
  pub priority : ℕ
  pub allowed_tools : List String
  pub completion_criteria : String
  pub parallel_safe : Bool
  pub expected_output : String
  pub skill_hint : Option String
  pub dependency_reason : String
  pub required_inputs : String
  pub produced_output : String

pub record PlannerQuestion : Type 0 where
  pub text : String
  pub priority : ℕ

-- Without `language_strategy`, which nothing modelled reads.
pub record PlannerOutput : Type 0 where
  pub approach : String
  pub success_criteria : String
  pub decomposition : PlanDecomposition
  pub questions : List PlannerQuestion
  pub tasks : List PlannerTask

pub record ResearchTaskRead : Type 0 where
  pub id : ℕ
  pub task_key : String
  pub objective : String
  pub status : ResearchTaskStatus
  pub priority : ℕ
  pub depends_on : List String
  pub allowed_tools : List String
  pub question_id : Option ℕ
  pub worker_id : Option ℕ
  pub started_at : Option ℕ
  pub completed_at : Option ℕ
  pub retry_count : ℕ
  pub error_message : Option String

pub record ResearchQuestionRead : Type 0 where
  pub id : ℕ
  pub text : String
  pub status : ResearchQuestionStatus
  pub sort_order : ℕ
