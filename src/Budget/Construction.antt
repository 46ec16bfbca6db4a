-- ===== src/Budget/Construction.antt =====
-- `ResearchBudget.__post_init__`: which limits can be constructed.
use deepscout.Base.{◌≡◌, ◌↔◌, false, ok, arith}
use deepscout.Base.Int.{pos, ◌≤ℤ◌}
use deepscout.Base.Float.{Float}
use deepscout.Budget.Limits.{ResearchBudget, post_init}

module _ {F : Type 0} (float : Float F) where
  -- Every limit is at least 0 and at most its hard limit.
  pub record IsAllowed (cost_cap : F) (b : ResearchBudget F) : Type 0 where
    pub iterations : (pos 0 ≤ℤ b.max_iterations) × (b.max_iterations ≤ℤ pos 100)
    pub wall_time : (pos 0 ≤ℤ b.max_wall_time_seconds) × (b.max_wall_time_seconds ≤ℤ pos 86_400)
    pub tokens : (pos 0 ≤ℤ b.max_total_tokens) × (b.max_total_tokens ≤ℤ pos 10_000_000)
    pub cost :
        (float.flt b.max_cost_usd float.fzero ≡ false) × (float.flt cost_cap b.max_cost_usd ≡ false)
    pub sources : (pos 0 ≤ℤ b.max_sources) × (b.max_sources ≤ℤ pos 10_000)
    pub tool_calls : (pos 0 ≤ℤ b.max_tool_calls) × (b.max_tool_calls ≤ℤ pos 20_000)

  IsAllowed-of_post_init :
      (cost_cap : F) (b : ResearchBudget F)
      → post_init float cost_cap b ≡ ok b
      → IsAllowed cost_cap b
  unfolding post_init
  IsAllowed-of_post_init cost_cap b h = ground arith

  post_init_of_IsAllowed :
      (cost_cap : F) (b : ResearchBudget F)
      → IsAllowed cost_cap b
      → post_init float cost_cap b ≡ ok b
  unfolding post_init
  post_init_of_IsAllowed cost_cap b h = ground arith

  -- A budget can be constructed exactly when all of its limits are in range.
  pub post_init_iff :
      (cost_cap : F) (b : ResearchBudget F)
      → (post_init float cost_cap b ≡ ok b) ↔ IsAllowed cost_cap b
  post_init_iff cost_cap b = (IsAllowed-of_post_init cost_cap b, post_init_of_IsAllowed cost_cap b)

  -- Construction changes no field.
  pub post_init-eq-ok :
      (cost_cap : F) (b b' : ResearchBudget F) → post_init float cost_cap b ≡ ok b' → b' ≡ b
  unfolding post_init
  post_init-eq-ok cost_cap b b' h = ground arith
