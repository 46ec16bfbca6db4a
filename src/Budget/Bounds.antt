-- ===== src/Budget/Bounds.antt =====
-- The ledger keeps every use within its limit, only grows, and is the replay of its entries.
use mathlib.Core.List.{foldl, foldl-append}
use deepscout.Base.{
  ℕ, String, ◌≡◌, refl, ap, ◌∙◌, ◌↔◌, Bool, false, ◌||◌, Option, none, some, List, [], ◌∷◌, ◌++◌,
  ok, err, sym, arith, Bool-cases, ok-injective, inl, inr,
}
use deepscout.Base.Int.{◌≤ℤ◌, ltb_ℤ, +ℤ_zero}
use deepscout.Base.Float.{Float}
use deepscout.Domain.Enums.{BudgetMetric}
use deepscout.Budget.Limits.{
  ResearchBudget, BudgetConsumption, no_consumption, would_exceed, exceeds_ℤ, exceeds_cost,
  add_cost, add_cost_or_zero,
}
use deepscout.Budget.Ledger.{
  BudgetLedgerEntry, BudgetLedger, budget_exhausted, updated_consumption, record_use,
}

module _ {F : Type 0} (float : Float F) where
  -- No use is above its limit. A use that is not known is not above anything.
  pub record WithinLimits (budget : ResearchBudget F) (c : BudgetConsumption F) : Type 0 where
    pub iterations_fit : c.iterations ≤ℤ budget.max_iterations
    pub wall_time_fits : c.wall_time_seconds ≤ℤ budget.max_wall_time_seconds
    pub tokens_fit : exceeds_ℤ c.total_tokens budget.max_total_tokens ≡ false
    pub cost_fits : exceeds_cost float c.cost_usd budget.max_cost_usd ≡ false
    pub sources_fit : c.sources ≤ℤ budget.max_sources
    pub tool_calls_fit : c.tool_calls ≤ℤ budget.max_tool_calls

  -- Some known use is above its limit.
  pub over : ResearchBudget F → BudgetConsumption F → Bool
  over budget c =
      ltb_ℤ budget.max_iterations c.iterations
      || (ltb_ℤ budget.max_wall_time_seconds c.wall_time_seconds
          || (exceeds_ℤ c.total_tokens budget.max_total_tokens
              || (exceeds_cost float c.cost_usd budget.max_cost_usd
                  || (ltb_ℤ budget.max_sources c.sources
                      || ltb_ℤ budget.max_tool_calls c.tool_calls))))

  pub WithinLimits-of_not_over :
      (budget : ResearchBudget F) (c : BudgetConsumption F)
      → over budget c ≡ false
      → WithinLimits budget c
  unfolding over
  WithinLimits-of_not_over budget c h = ground arith

  pub not_over_of_WithinLimits :
      (budget : ResearchBudget F) (c : BudgetConsumption F)
      → WithinLimits budget c
      → over budget c ≡ false
  unfolding over
  not_over_of_WithinLimits budget c w = ground arith

  exceeds_cost-add :
      (used : Option F) (delta limit : F)
      → exceeds_cost float (add_cost_or_zero float used delta) limit
        ≡ exceeds_cost float (add_cost float used delta) limit
  exceeds_cost-add none delta limit = float.lt-fadd-fzero limit delta
  exceeds_cost-add (some c) delta limit = refl

  -- What the check looks at is what the ledger would hold afterwards.
  pub would_exceed-eq-over :
      (budget : ResearchBudget F) (c : BudgetConsumption F) (metric : BudgetMetric) (delta : F)
      → would_exceed float c budget metric delta
        ≡ over budget (updated_consumption float c metric delta)
  unfolding would_exceed updated_consumption over
  would_exceed-eq-over budget c BudgetMetric.cost delta =
      simp (+ℤ_zero, exceeds_cost-add c.cost_usd delta budget.max_cost_usd)
  would_exceed-eq-over budget c _ delta = simp +ℤ_zero

  -- The ledger after an accepted use.
  abbrev recorded : BudgetLedger F → BudgetMetric → F → String → ℕ → BudgetLedger F
  recorded ledger metric delta note now = record ledger {
    consumption = updated_consumption float ledger.consumption metric delta;
    entries =
        ledger.entries
        ++ record { metric = metric; delta = delta; recorded_at = now; note = note } ∷ [];
  }

  record_use-eq-ok :
      (ledger : BudgetLedger F) {ledger' : BudgetLedger F} (metric : BudgetMetric) (delta : F)
      (note : String) (now : ℕ)
      → record_use float ledger metric delta note now ≡ ok ledger'
      → (float.flt delta float.fzero ≡ false)
        × (would_exceed float ledger.consumption ledger.budget metric delta ≡ false)
        × (recorded ledger metric delta note now ≡ ledger')
  unfolding record_use
  record_use-eq-ok ledger metric delta note now h =
      elim (Bool-cases (float.flt delta float.fzero)) [
        | inl negative ↦ absurd (cc (rw negative at h))
        | inr nonneg ↦
            elim (Bool-cases (would_exceed float ledger.consumption ledger.budget metric delta)) [
              | inl exceeds ↦ absurd (cc (rw (nonneg, exceeds) at h))
              | inr fits ↦ (nonneg, fits, ok-injective (rw (nonneg, fits) at h))
            ]
      ]

  -- A use that the ledger accepts is within every limit, whatever the ledger held before. The
  -- limits stay, and the entry is appended.
  pub record_use-WithinLimits :
      (ledger ledger' : BudgetLedger F) (metric : BudgetMetric) (delta : F) (note : String)
      (now : ℕ)
      → record_use float ledger metric delta note now ≡ ok ledger'
      → WithinLimits ledger.budget ledger'.consumption
        × (ledger'.budget ≡ ledger.budget)
        × (ledger'.entries
            ≡ ledger.entries
              ++ record { metric = metric; delta = delta; recorded_at = now; note = note } ∷ [])
  record_use-WithinLimits ledger ledger' metric delta note now h =
      let (_, fits, e) = record_use-eq-ok ledger metric delta note now h in
      rw (← e) (
        WithinLimits-of_not_over ledger.budget _
            (sym (would_exceed-eq-over ledger.budget ledger.consumption metric delta) ∙ fits),
        refl,
        refl,
      )

  -- The ledger raises BudgetExhaustedError exactly for a use that is not negative and would pass a
  -- limit.
  pub record_use-budget_exhausted_iff :
      (ledger : BudgetLedger F) (metric : BudgetMetric) (delta : F) (note : String) (now : ℕ)
      → (record_use float ledger metric delta note now ≡ err budget_exhausted) ↔ (
          (float.flt delta float.fzero ≡ false)
          × ¬ WithinLimits ledger.budget
              (updated_consumption float ledger.consumption metric delta))
  unfolding record_use
  record_use-budget_exhausted_iff ledger metric delta note now =
      let c = updated_consumption float ledger.consumption metric delta in
      let e = would_exceed-eq-over ledger.budget ledger.consumption metric delta in
      (
        λ h. (ground arith, λ w. ground (arith, e, not_over_of_WithinLimits ledger.budget c w)),
        λ h. elim (Bool-cases (over ledger.budget c)) [
          | inl above ↦ rw (h.0, e, above) refl
          | inr within ↦ absurd (h.1 (WithinLimits-of_not_over ledger.budget c within))
        ],
      )

  -- The log of accepted uses, replayed from nothing, gives the consumption.
  unfoldable pub replay : List (BudgetLedgerEntry F) → BudgetConsumption F
  replay = foldl (λ c entry. updated_consumption float c entry.metric entry.delta) no_consumption

  -- The consumption of a ledger stays the replay of its entries.
  pub record_use-replay :
      (ledger ledger' : BudgetLedger F) (metric : BudgetMetric) (delta : F) (note : String)
      (now : ℕ)
      → ledger.consumption ≡ replay ledger.entries
      → record_use float ledger metric delta note now ≡ ok ledger'
      → ledger'.consumption ≡ replay ledger'.entries
  unfolding replay
  record_use-replay ledger ledger' metric delta note now before h =
      let (_, _, e) = record_use-eq-ok ledger metric delta note now h in
      rw (← e) (rw foldl-append (ap (λ c. updated_consumption float c metric delta) before))
