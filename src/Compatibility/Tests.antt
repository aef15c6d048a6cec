-- ===== src/Compatibility/Tests.antt =====
-- Runs of the compatibility scores and of the report on small findings.
use chain_port.Prelude.{
  template, ◌≡◌, refl, String, Bool, true, false, none, some, List, [], ◌∷◌, ◌===◌, map, ◌+◌, ◌≤◌,
  ◌↔◌, ◌⊎◌, All, any, length, count, elem, if◌then◌else◌,
}
use chain_port.Shared.Enums.{
  CompatibilityStatus, CompatibilityCategory, CompatibilityReadiness, CoverageConfidence,
  RemediationType, is_blocker, is_warning, is_unknown,
}
use chain_port.Shared.Json.{end}
use chain_port.Compatibility.Types.{CompatibilityEvaluation, CompatibilityReport, CategoryScore}
use chain_port.Compatibility.Readiness.{determine_readiness}
use chain_port.Compatibility.Scoring.{score_findings}
use chain_port.Compatibility.Scoring.Laws.{score_findings-le}
use chain_port.Compatibility.Scoring.Passing.{AllPass, score_findings-AllPass}
use chain_port.Compatibility.Engine.{
  CompatibilityRule, evaluate_compatibility, dedupe_findings, finding_key,
}
use chain_port.Compatibility.Engine.Report.{
  sum_over, dedupe_findings-once, score_findings-counts, evaluate_compatibility-readiness,
  evaluate_compatibility-ready,
}

abbrev evaluation : CompatibilityStatus → CompatibilityCategory → String → CompatibilityEvaluation
evaluation status category title = record {
  status = status;
  category = category;
  rule_id = "rule";
  rule_version = "1";
  requirement_id = none;
  title = title;
  summary = "";
  technical_reason = "";
  source_value = none;
  target_value = none;
  confidence = CoverageConfidence.high;
  remediation_type = RemediationType.none;
  registry_evidence = end;
}

abbrev mixed : List CompatibilityEvaluation
mixed =
    evaluation CompatibilityStatus.pass CompatibilityCategory.contracts "a"
    ∷ evaluation CompatibilityStatus.warning CompatibilityCategory.rpc "b"
    ∷ evaluation CompatibilityStatus.unknown CompatibilityCategory.tokens "c"
    ∷ evaluation CompatibilityStatus.pass CompatibilityCategory.frontend "d"
    ∷ evaluation CompatibilityStatus.pass CompatibilityCategory.frontend "d"
    ∷ []

-- 30.00 + 40.00 * 0.7 + 30.00
mixed_scores :
    ((score_findings mixed).score ≡ 88)
    × ((score_findings mixed).coverage ≡ 80)
    × (map (λ c. c.weight) (score_findings mixed).categories
        ≡ 3000 ∷ 4000 ∷ 0 ∷ 0 ∷ 0 ∷ 0 ∷ 3000 ∷ 0 ∷ [])
unfolding score_findings
mixed_scores = (refl, refl, refl)

abbrev passing : List CompatibilityEvaluation
passing =
    evaluation CompatibilityStatus.pass CompatibilityCategory.contracts "a"
    ∷ evaluation CompatibilityStatus.pass CompatibilityCategory.rpc "b"
    ∷ evaluation CompatibilityStatus.pass CompatibilityCategory.oracles "c"
    ∷ []

score_findings-le_example :
    ((score_findings mixed).score ≤ 100)
    × ((score_findings mixed).coverage ≤ 100)
    × All (λ (c : CategoryScore). c.weight ≤ 10000) (score_findings mixed).categories
score_findings-le_example = score_findings-le mixed

score_findings-AllPass_example :
    ((score_findings passing).score ≡ 100) × ((score_findings passing).coverage ≡ 100)
score_findings-AllPass_example = score_findings-AllPass passing (refl, (refl, (refl, tt)))

score_findings-counts_example :
    (let scored = score_findings mixed in
      (sum_over (λ c. c.pass_count) scored.categories ≡ scored.counts.pass)
      × (sum_over (λ c. c.warning_count) scored.categories ≡ scored.counts.warning)
      × (sum_over (λ c. c.blocker_count) scored.categories ≡ scored.counts.blocker)
      × (sum_over (λ c. c.unknown_count) scored.categories ≡ scored.counts.unknown)
      × (scored.counts.pass + scored.counts.warning + scored.counts.blocker + scored.counts.unknown
          ≡ length mixed))
score_findings-counts_example = score_findings-counts mixed

dedupe_findings-once_example :
    ((k : String)
      → count k (map finding_key (dedupe_findings mixed))
        ≡ (if elem k (map finding_key mixed) then 1 else 0))
    × All (λ (f : CompatibilityEvaluation). f.rule_id ≡ "rule") (dedupe_findings mixed)
dedupe_findings-once_example =
    dedupe_findings-once (λ (f : CompatibilityEvaluation). f.rule_id ≡ "rule") mixed
      (refl, (refl, (refl, (refl, (refl, tt)))))

-- A requirement is a name; the rule passes all but the token.
abbrev rule : CompatibilityRule String (Unit {0})
rule = record {
  id = "rule";
  version = "1";
  supports = λ name. name === "chain";
  evaluate = λ name _. some (evaluation CompatibilityStatus.pass CompatibilityCategory.rpc name);
}

abbrev fallback : CompatibilityRule String (Unit {0})
fallback = record {
  id = "fallback";
  version = "1";
  supports = λ name. true;
  evaluate =
      λ name _. some (evaluation CompatibilityStatus.unknown CompatibilityCategory.tokens name);
}

abbrev skip : String → Bool
skip name = name === "skipped"

abbrev solidity : Unit {0} → CompatibilityEvaluation
solidity _ = evaluation CompatibilityStatus.pass CompatibilityCategory.contracts "Solidity"

abbrev run : List String → CompatibilityReport
run requirements =
    evaluate_compatibility (rule ∷ []) fallback skip solidity "1" "r" "h" "base" "monad" true tt
      requirements

run_ready : ((run ("chain" ∷ "skipped" ∷ [])).readiness ≡ CompatibilityReadiness.ready)
unfolding evaluate_compatibility dedupe_findings score_findings determine_readiness template
run_ready = refl

evaluate_compatibility-readiness_example :
    (((run ("token" ∷ [])).readiness ≡ CompatibilityReadiness.blocked)
      ↔ (any (λ f. is_blocker f.status) (run ("token" ∷ [])).findings ≡ true))
    × (((run ("token" ∷ [])).readiness ≡ CompatibilityReadiness.ready)
        ↔ AllPass (run ("token" ∷ [])).findings)
    × (((run ("token" ∷ [])).readiness ≡ CompatibilityReadiness.review_required) ↔ (
        (any (λ f. is_blocker f.status) (run ("token" ∷ [])).findings ≡ false)
        × (any (λ f. is_warning f.status) (run ("token" ∷ [])).findings ≡ true)
        × ((any (λ f. is_unknown f.status) (run ("token" ∷ [])).findings ≡ false)
            ⊎ (50 ≤ (run ("token" ∷ [])).coverage))))
evaluate_compatibility-readiness_example =
    evaluate_compatibility-readiness (rule ∷ []) fallback skip solidity "1" "r" "h" "base" "monad"
      true tt ("token" ∷ [])

evaluate_compatibility-ready_example :
    ((run ("chain" ∷ "skipped" ∷ [])).score ≡ 100)
    × ((run ("chain" ∷ "skipped" ∷ [])).coverage ≡ 100)
    × ((run ("chain" ∷ "skipped" ∷ [])).coverage_confidence ≡ CoverageConfidence.high)
evaluate_compatibility-ready_example =
    evaluate_compatibility-ready (rule ∷ []) fallback skip solidity "1" "r" "h" "base" "monad" true
      tt ("chain" ∷ "skipped" ∷ []) run_ready
