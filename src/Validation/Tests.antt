-- ===== src/Validation/Tests.antt =====
-- A comparison of two validations.
use chain_port.Prelude.{◌≡◌, ◌↔◌, ◌⊎◌, Option, none, some}
use chain_port.Lifecycle.Validation.{ValidationRunStatus}
use chain_port.Deployment.Models.{ValidationRunRecord, ValidationOutcome}
use chain_port.Validation.Compare.{
  RegressionStatus, compare_validations, outcome_of, compare_validations_iff,
}

abbrev run_with : Option ValidationOutcome → Option ValidationRunRecord
run_with outcome = some (record {
  repository_revision_id = "r";
  revision_content_hash = "h";
  status = ValidationRunStatus.completed;
  outcome = outcome;
})

abbrev original : Option ValidationRunRecord
original = run_with (some ValidationOutcome.passed)

abbrev generated : Option ValidationRunRecord
generated = run_with (some ValidationOutcome.failed)

compare_validations_iff_example :
    (((compare_validations original generated).regression_status ≡ RegressionStatus.no_regression)
      ↔ ((outcome_of original ≡ some (some ValidationOutcome.passed))
          × (outcome_of generated ≡ some (some ValidationOutcome.passed))))
    × (((compare_validations original generated).regression_status
          ≡ RegressionStatus.regression_detected)
        ↔ ((outcome_of original ≡ some (some ValidationOutcome.passed))
            × ((outcome_of generated ≡ some none)
                ⊎ (outcome_of generated ≡ some (some ValidationOutcome.failed)))))
    × (((compare_validations original generated).regression_status ≡ RegressionStatus.not_compared)
        ↔ ((outcome_of original ≡ none) ⊎ (outcome_of generated ≡ none)))
compare_validations_iff_example = compare_validations_iff original generated
