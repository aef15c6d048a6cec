-- ===== src/Compatibility/Engine.antt =====
-- packages/compatibility/src/engine.ts, for any table of rules, any test of the requirements to skip
-- and any shape of requirement and context.
pub mod Report
use chain_port.Prelude.{
  ℕ, String, Bool, true, false, not, ◌&&◌, Option, none, some, or_else, List, [], ◌∷◌, ◌++◌, elem,
  find, any, map, if◌then◌else◌, template,
}
use chain_port.Shared.Enums.{
  CompatibilityStatus, CompatibilityCategory, is_pass, is_contracts, status_name, category_name,
}
use chain_port.Compatibility.Types.{CompatibilityEvaluation, CompatibilityReport}
use chain_port.Compatibility.Readiness.{determine_readiness}
use chain_port.Compatibility.Scoring.{score_findings}

abbrev pub finding_key : CompatibilityEvaluation → String
finding_key item = template (
    item.rule_id
    ∷ "|"
    ∷ status_name item.status
    ∷ "|"
    ∷ category_name item.category
    ∷ "|"
    ∷ item.title
    ∷ "|"
    ∷ or_else item.source_value ""
    ∷ [])

-- The findings after the keys in `seen`.
pub dedupe_from : List String → List CompatibilityEvaluation → List CompatibilityEvaluation
dedupe_from seen [] = []
dedupe_from seen (item ∷ items) =
    let old = dedupe_from seen items in
    let new = item ∷ dedupe_from (finding_key item ∷ seen) items in
    if elem (finding_key item) seen then old else new

unfoldable pub dedupe_findings : List CompatibilityEvaluation → List CompatibilityEvaluation
unfolding dedupe_from
dedupe_findings findings = dedupe_from [] findings

pub record CompatibilityRule {ℓ κ} (Requirement : Type ℓ) (Context : Type κ) : Type (ℓ ⊔ κ) where
  pub id : String
  pub version : String
  pub supports : Requirement → Bool
  pub evaluate : Requirement → Context → Option CompatibilityEvaluation

-- `if (evaluation !== null) findings.push(evaluation)`
abbrev pub pushed :
    Option CompatibilityEvaluation → List CompatibilityEvaluation → List CompatibilityEvaluation
pushed none rest = rest
pushed (some evaluation) rest = evaluation ∷ rest

module _ {ℓ κ} {Requirement : Type ℓ} {Context : Type κ}
    (rules : List (CompatibilityRule Requirement Context))
    (unmapped : CompatibilityRule Requirement Context) (should_skip : Requirement → Bool)
    (evm_solidity_pass : Context → CompatibilityEvaluation) where
  abbrev pub rule_for : Requirement → CompatibilityRule Requirement Context
  rule_for requirement = or_else (find (λ r. r.supports requirement) rules) unmapped

  abbrev pub findings_of : Context → List Requirement → List CompatibilityEvaluation
  findings_of context [] = []
  findings_of context (requirement ∷ requirements) =
      let rest = findings_of context requirements in
      if should_skip requirement
      then rest
      else pushed ((rule_for requirement).evaluate requirement context) rest

  -- The finding that Solidity runs on the target, unless one passes in its category.
  abbrev pub with_solidity :
      Bool → Context → List CompatibilityEvaluation → List CompatibilityEvaluation
  with_solidity has_solidity_contracts context findings =
      if has_solidity_contracts
        && not (any (λ f. is_contracts f.category && is_pass f.status) findings)
      then findings ++ (evm_solidity_pass context ∷ [])
      else findings

  -- The names that the report carries, then the input.
  unfoldable pub evaluate_compatibility :
      String
      → String
      → String
      → String
      → String
      → Bool
      → Context
      → List Requirement
      → CompatibilityReport
  unfolding dedupe_findings score_findings determine_readiness
  evaluate_compatibility ruleset_version registry_version snapshot_hash source_chain_key
        target_chain_key has_solidity_contracts context requirements =
      let unique =
        dedupe_findings
          (with_solidity has_solidity_contracts context (findings_of context requirements)) in
      let scored = score_findings unique in
      record {
        ruleset_version = ruleset_version;
        registry_version = registry_version;
        registry_snapshot_hash = snapshot_hash;
        source_chain_key = source_chain_key;
        target_chain_key = target_chain_key;
        score = scored.score;
        coverage = scored.coverage;
        coverage_confidence = scored.coverage_confidence;
        readiness =
            determine_readiness scored.counts.blocker scored.counts.warning scored.counts.unknown
              scored.coverage;
        findings = unique;
        categories = scored.categories;
        counts = scored.counts;
      }
