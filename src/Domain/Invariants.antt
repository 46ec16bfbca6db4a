-- ===== src/Domain/Invariants.antt =====
-- libs/core/src/deepscout_core/domain/invariants.py, and the status writes of
-- libs/persistence/src/deepscout_persistence/store.py that are guarded by it.
-- A check returns `ok tt` where the source returns, and the rule that it raises for otherwise.
use deepscout.Base.{
  ℕ, String, Bool, true, false, not, ◌&&◌, ◌||◌, Option, none, some, List, [], ◌∷◌, Result, ok, err,
  ◌>>◌, raise_if, ◌==◌, str_eq,
}
use deepscout.Domain.Enums.{
  ResearchRunStatus, ResearchQuestionStatus, ContradictionEvidenceStatus, ClaimVerificationStatus,
  is_terminal_run, is_terminal_question, is_verified_claim,
}

-- The message of each DomainInvariantError.
pub data DomainInvariantError : Type 0 where
  verified_without_evidence evidence_without_snapshot decision_on_unverified : DomainInvariantError
  terminal_run_restarted terminal_question_reverted report_without_evidence : DomainInvariantError
  same_claim_twice claims_of_other_run sufficient_without_evidence : DomainInvariantError
  other_run snapshot_changed : DomainInvariantError

abbrev pub Check : Type 0
Check = Result DomainInvariantError (Unit {0})

unfoldable pub assert_claim_verification_allowed : ClaimVerificationStatus → ℕ → Check
unfolding is_verified_claim
assert_claim_verification_allowed verification_status evidence_count =
    raise_if (is_verified_claim verification_status && evidence_count == 0)
      verified_without_evidence

unfoldable pub assert_evidence_has_snapshot : Option ℕ → Check
assert_evidence_has_snapshot none = err evidence_without_snapshot
assert_evidence_has_snapshot (some snapshot_id) = ok tt

unfoldable pub assert_decision_claims_are_verified : List ClaimVerificationStatus → Check
unfolding is_verified_claim
assert_decision_claims_are_verified [] = ok tt
assert_decision_claims_are_verified (status ∷ rest) =
    raise_if (not (is_verified_claim status)) decision_on_unverified
    >> assert_decision_claims_are_verified rest

is_running : ResearchRunStatus → Bool
is_running ResearchRunStatus.running = true
is_running _ = false

unfoldable pub assert_run_status_transition : ResearchRunStatus → ResearchRunStatus → Check
unfolding is_terminal_run is_running
assert_run_status_transition current new =
    raise_if (is_terminal_run current && is_running new) terminal_run_restarted

-- `new in {PENDING, RESEARCHING}`
is_active_question : ResearchQuestionStatus → Bool
is_active_question ResearchQuestionStatus.pending = true
is_active_question ResearchQuestionStatus.researching = true
is_active_question _ = false

unfoldable pub assert_question_status_transition :
    ResearchQuestionStatus → ResearchQuestionStatus → Check
unfolding is_terminal_question is_active_question
assert_question_status_transition current new =
    raise_if (is_terminal_question current && is_active_question new) terminal_question_reverted

unfoldable pub assert_report_has_evidence : List ℕ → Check
assert_report_has_evidence [] = err report_without_evidence
assert_report_has_evidence (evidence_id ∷ rest) = ok tt

is_sufficient : ContradictionEvidenceStatus → Bool
is_sufficient ContradictionEvidenceStatus.sufficient = true
is_sufficient ContradictionEvidenceStatus.insufficient_evidence = false

pub record ContradictionCheck : Type 0 where
  pub claim_a_id : ℕ
  pub claim_b_id : ℕ
  pub claim_a_run_id : ℕ
  pub claim_b_run_id : ℕ
  pub run_id : ℕ
  pub evidence_status : ContradictionEvidenceStatus
  pub claim_a_evidence_count : ℕ
  pub claim_b_evidence_count : ℕ

unfoldable pub assert_contradiction_invariants : ContradictionCheck → Check
unfolding is_sufficient
assert_contradiction_invariants c =
    raise_if (c.claim_a_id == c.claim_b_id) same_claim_twice
    >> (raise_if (not (c.claim_a_run_id == c.run_id) || not (c.claim_b_run_id == c.run_id))
          claims_of_other_run
        >> raise_if
            (is_sufficient c.evidence_status
              && (c.claim_a_evidence_count == 0 || c.claim_b_evidence_count == 0))
            sufficient_without_evidence)

unfoldable pub assert_same_run : ℕ → ℕ → Check
assert_same_run expected_run_id actual_run_id =
    raise_if (not (expected_run_id == actual_run_id)) other_run

unfoldable pub assert_snapshot_immutable : String → String → Check
assert_snapshot_immutable existing_hash new_hash =
    raise_if (not (str_eq existing_hash new_hash)) snapshot_changed
