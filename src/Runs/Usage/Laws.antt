-- ===== src/Runs/Usage/Laws.antt =====
-- The budget operations of `ResearchStore` implement the ledger, one run at a time.
use deepscout.Base.{
  ℕ, String, ◌≡◌, refl, false, Option, none, some, Result, ok, err, ◌∙◌, sym, Bool-cases,
  Result-cases, ok-injective, inl, inr,
}
use deepscout.Base.Int.{+ℤ_zero}
use deepscout.Base.Float.{Float}
use deepscout.Domain.Enums.{BudgetMetric}
use deepscout.Budget.{
  ResearchBudget, BudgetConsumption, would_exceed, updated_consumption, BudgetLedger, LedgerError,
  record_use,
}
use deepscout.Budget.Bounds.{WithinLimits, WithinLimits-of_not_over, would_exceed-eq-over}
use deepscout.Runs.Rows.{ResearchRunRow}
use deepscout.Runs.Usage.{
  StoreError, budget_from_run, consumption_from_run, write_consumption_to_run, apply_budget_delta,
  charge_row,
}

consumption_from-write :
    {F : Type 0} (row : ResearchRunRow F) (c : BudgetConsumption F) (now : ℕ)
    → consumption_from_run (write_consumption_to_run row c now) ≡ c
unfolding consumption_from_run write_consumption_to_run
consumption_from-write row c now = refl

module _ {F : Type 0} (float : Float F) where
  -- The store's own copy of the ledger's arithmetic computes the same consumption.
  apply_budget_delta-eq :
      (c : BudgetConsumption F) (metric : BudgetMetric) (delta : F)
      → apply_budget_delta float c metric delta ≡ updated_consumption float c metric delta
  unfolding apply_budget_delta updated_consumption
  apply_budget_delta-eq c BudgetMetric.iterations delta = simp +ℤ_zero
  apply_budget_delta-eq c _ delta = simp +ℤ_zero

module _ {F : Type 0} (float : Float F) (cost_cap : F) where
  -- The consumption after an accepted use, by the ledger and by the store.
  abbrev pub ledger_verdict : Result LedgerError (BudgetLedger F) → Option (BudgetConsumption F)
  ledger_verdict (ok ledger) = some ledger.consumption
  ledger_verdict (err e) = none

  abbrev pub store_verdict : Result StoreError (ResearchRunRow F) → Option (BudgetConsumption F)
  store_verdict (ok row) = some (consumption_from_run row)
  store_verdict (err e) = none

  -- Refinement: for a use that is not negative, on a row whose limits are valid, the store accepts
  -- exactly what the ledger accepts, and then both hold the same consumption.
  pub charge_row-refines :
      (row : ResearchRunRow F) (ledger : BudgetLedger F) (metric : BudgetMetric) (delta : F)
      (note : String) (now : ℕ)
      → budget_from_run float cost_cap row ≡ ok ledger.budget
      → consumption_from_run row ≡ ledger.consumption
      → float.flt delta float.fzero ≡ false
      → store_verdict (charge_row float cost_cap row metric delta now)
        ≡ ledger_verdict (record_use float ledger metric delta note now)
  unfolding charge_row record_use
  charge_row-refines row ledger metric delta note now b c nonneg =
      elim (Bool-cases (would_exceed float ledger.consumption ledger.budget metric delta)) [
        | inl exceeds ↦ rw (b, c, nonneg, exceeds, charge_row) refl
        | inr fits ↦
            rw (b, c, nonneg, fits, charge_row)
              (rw (
                consumption_from-write,
                apply_budget_delta-eq float ledger.consumption metric delta,
              ))
      ]

  module _ (row : ResearchRunRow F) {row' : ResearchRunRow F} (metric : BudgetMetric) (delta : F)
      (now : ℕ) where
    -- What an accepted use does to its row.
    pub charge_row-eq-ok :
        charge_row float cost_cap row metric delta now ≡ ok row'
        → (budget : ResearchBudget F) × (budget_from_run float cost_cap row ≡ ok budget)
          × (would_exceed float (consumption_from_run row) budget metric delta ≡ false)
          × (write_consumption_to_run row
                (apply_budget_delta float (consumption_from_run row) metric delta)
                now
              ≡ row')
    unfolding charge_row
    charge_row-eq-ok h = elim (Result-cases (budget_from_run float cost_cap row)) [
      | inr (e, p) ↦ absurd (cc (rw (p, charge_row) at h))
      | inl (budget, p) ↦
          elim (Bool-cases (would_exceed float (consumption_from_run row) budget metric delta)) [
            | inl exceeds ↦ absurd (cc (rw (p, exceeds, charge_row) at h))
            | inr fits ↦ (budget, p, fits, ok-injective (rw (p, fits, charge_row) at h))
          ]
    ]

    -- An accepted use leaves the row within its limits, and the limits and the key as they were.
    pub charge_row-WithinLimits :
        charge_row float cost_cap row metric delta now ≡ ok row'
        → (budget : ResearchBudget F) × (budget_from_run float cost_cap row ≡ ok budget)
          × (budget_from_run float cost_cap row' ≡ ok budget)
          × WithinLimits float budget (consumption_from_run row')
          × (row'.id ≡ row.id)
    unfolding write_consumption_to_run budget_from_run consumption_from_run
    charge_row-WithinLimits h =
        let (budget, p, fits, e) = charge_row-eq-ok h in
        rw (← e) (
          budget,
          p,
          p,
          rw (apply_budget_delta-eq float (consumption_from_run row) metric delta) (
              WithinLimits-of_not_over float budget _ (
                sym (would_exceed-eq-over float budget (consumption_from_run row) metric delta)
                ∙ fits)),
          refl,
        )
