-- ===== src/Validation/Compare.antt =====
-- packages/validation/src/compare.ts
use chain_port.Prelude.{
  String, ◌≡◌, ◌⊎◌, ◌↔◌, Bool, true, false, not, ◌&&◌, ◌||◌, Option, none, some, if◌then◌else◌,
  arith,
}
use chain_port.Deployment.Models.{ValidationRunRecord, ValidationOutcome}

pub data RegressionStatus : Type 0 where
  not_compared no_regression regression_detected baseline_already_failing inconclusive :
      RegressionStatus

pub record Comparison : Type 0 where
  pub regression_status : RegressionStatus
  pub summary : String

abbrev has_passed : Option ValidationOutcome → Bool
has_passed (some ValidationOutcome.passed) = true
has_passed _ = false

abbrev is_infra_failure : Option ValidationOutcome → Bool
is_infra_failure (some ValidationOutcome.infra_failure) = true
is_infra_failure _ = false

abbrev is_unsupported : Option ValidationOutcome → Bool
is_unsupported (some ValidationOutcome.unsupported) = true
is_unsupported _ = false

abbrev is_partly_done : Option ValidationOutcome → Bool
is_partly_done (some ValidationOutcome.partial) = true
is_partly_done _ = false

-- The comparison of two outcomes, where both validations are there.
abbrev compare_outcomes : Option ValidationOutcome → Option ValidationOutcome → Comparison
compare_outcomes original generated =
    if is_infra_failure original || is_infra_failure generated
    then record {
      regression_status = inconclusive;
      summary = "A platform failure prevents comparison";
    }
    else if is_unsupported original || is_unsupported generated
    then record {
      regression_status = inconclusive;
      summary = "A revision is unsupported in this validation profile";
    }
    else if is_partly_done original || is_partly_done generated
    then record {
      regression_status = inconclusive;
      summary = "A revision completed only partially";
    }
    else if not (has_passed original) && not (has_passed generated)
    then record {
      regression_status = baseline_already_failing;
      summary = "Original revision already failed validation";
    }
    else if has_passed original && has_passed generated
    then record { regression_status = no_regression; summary = "Safe changes preserved validation" }
    else if has_passed original && not (has_passed generated)
    then record {
      regression_status = regression_detected;
      summary = "Generated revision failed after a passing original";
    }
    else record {
      regression_status = inconclusive;
      summary = "Generated passed while original failed";
    }

unfoldable pub compare_validations :
    Option ValidationRunRecord → Option ValidationRunRecord → Comparison
compare_validations none generated = record {
  regression_status = not_compared;
  summary = "Both original and generated validations are required";
}
compare_validations (some original) none = record {
  regression_status = not_compared;
  summary = "Both original and generated validations are required";
}
compare_validations (some original) (some generated) =
    compare_outcomes original.outcome generated.outcome

-- The outcome of a validation; a missing validation, one without an outcome, and one with it.
abbrev pub outcome_of : Option ValidationRunRecord → Option (Option ValidationOutcome)
outcome_of none = none
outcome_of (some run) = some run.outcome

-- compareValidations reports no regression exactly if both validations are there and PASSED, a
-- regression exactly if the original PASSED and the generated one is there and FAILED or has no
-- outcome, and no comparison exactly if one is missing.
pub compare_validations_iff :
    (original generated : Option ValidationRunRecord)
    → (((compare_validations original generated).regression_status ≡ no_regression) ↔ (
        (outcome_of original ≡ some (some ValidationOutcome.passed))
        × (outcome_of generated ≡ some (some ValidationOutcome.passed))))
      × (((compare_validations original generated).regression_status ≡ regression_detected) ↔ (
          (outcome_of original ≡ some (some ValidationOutcome.passed))
          × ((outcome_of generated ≡ some none)
              ⊎ (outcome_of generated ≡ some (some ValidationOutcome.failed)))))
      × (((compare_validations original generated).regression_status ≡ not_compared)
          ↔ ((outcome_of original ≡ none) ⊎ (outcome_of generated ≡ none)))
unfolding compare_validations
compare_validations_iff none generated = ground arith
compare_validations_iff (some original) none = ground arith
compare_validations_iff (some original) (some generated) = ground arith
