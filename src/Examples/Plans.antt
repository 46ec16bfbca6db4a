-- ===== src/Examples/Plans.antt =====
-- A plan whose tasks wait for each other, and a plan of six questions.
use deepscout.Base.{ℕ, String, ◌≡◌, refl, List, [], ◌∷◌, map, ok, err, arith}
use deepscout.Domain.Enums.{PlanDecomposition}
use deepscout.Domain.Schemas.{PlannerTask, PlannerQuestion, PlannerOutput}
use deepscout.Tasks.Repair.{repair_plan, question_of, question_task, PlanError}
use deepscout.Tasks.Repair.Laws.{IsValid, repair_plan-IsValid, repair_plan-fails}

abbrev shown : ℕ → String
shown n = "n"

abbrev as_is : String → String
as_is text = text

abbrev fresh : ℕ → ℕ
fresh n = n

abbrev step : (key : String) (depends_on : List String) → PlannerTask
step key depends_on = record (question_task shown 0 key) { task_key = key; depends_on = depends_on }

abbrev circular : PlannerOutput
circular = record {
  approach = "in steps";
  success_criteria = "an answer";
  decomposition = PlanDecomposition.unspecified;
  questions = [];
  tasks = step "a" ("b" ∷ []) ∷ step "b" ("a" ∷ "c" ∷ []) ∷ [];
}

repair_plan-IsValid_example :
    (output' : PlannerOutput) × (repair_plan as_is fresh circular shown ≡ ok output')
    × IsValid fresh output'.tasks
    × (output'.questions
        ≡ map
            (λ (task : PlannerTask). record { text = question_of task; priority = task.priority })
            output'.tasks)
repair_plan-IsValid_example = repair_plan-IsValid shown as_is fresh circular refl

abbrev question : PlannerQuestion
question = record { text = "why"; priority = 3 }

abbrev six_questions : PlannerOutput
six_questions = record circular {
  questions = question ∷ question ∷ question ∷ question ∷ question ∷ question ∷ [];
  tasks = [];
}

repair_plan-fails_example : (e : PlanError) × (repair_plan as_is fresh six_questions shown ≡ err e)
repair_plan-fails_example = repair_plan-fails shown as_is fresh six_questions refl (omega arith)
