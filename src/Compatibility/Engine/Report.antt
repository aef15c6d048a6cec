-- ===== src/Compatibility/Engine/Report.antt =====
-- What a compatibility report says of its findings.
use chain_port.Prelude.{
  ℕ, ◌+◌, ◌≤◌, ◌≡◌, ◌↔◌, ◌⊎◌, refl, String, Bool, true, false, List, [], ◌∷◌, map, length, any, All,
  elem, count, if◌then◌else◌, ltb, ◌==◌, arith, eq_iff, Bool-cases, inl, inr,
}
use chain_port.Shared.Enums.{
  CompatibilityReadiness, CompatibilityStatus, CoverageConfidence, CompatibilityCategory, is_pass,
  is_warning, is_blocker, is_unknown, compatibility_categories, category_index,
}
use chain_port.Compatibility.Types.{CompatibilityEvaluation, CompatibilityReport, CategoryScore}
use chain_port.Compatibility.Readiness.{determine_readiness}
use chain_port.Compatibility.Scoring.{
  count_status, by_category, sum_weights, coverage_of, score_findings,
}
use chain_port.Compatibility.Scoring.Laws.{count_status_partition}
use chain_port.Compatibility.Scoring.Passing.{AllPass, count-AllPass, score_findings-AllPass}
use chain_port.Compatibility.Engine.{
  CompatibilityRule, finding_key, dedupe_from, dedupe_findings, evaluate_compatibility,
}

count_status_zero :
    (test : CompatibilityStatus → Bool) (fs : List CompatibilityEvaluation)
    → ltb 0 (count_status test fs) ≡ any (λ f. test f.status) fs
count_status_zero test [] = refl
count_status_zero test (f ∷ fs) = ground (arith, count_status_zero test fs)

count-dedupe_from :
    (k : String) (seen : List String) (fs : List CompatibilityEvaluation)
    → count k (map finding_key (dedupe_from seen fs))
      ≡ (if elem k seen then 0 else if elem k (map finding_key fs) then 1 else 0)
unfolding dedupe_from
count-dedupe_from k seen [] = ground arith
count-dedupe_from k seen (f ∷ fs) = ground (
  arith,
  count-dedupe_from k seen fs,
  count-dedupe_from k (finding_key f ∷ seen) fs,
  eq_iff (finding_key f) k,
)

dedupe_from-All {κ} :
    (P : CompatibilityEvaluation → Type κ) (seen : List String) (fs : List CompatibilityEvaluation)
    → All P fs
    → All P (dedupe_from seen fs)
unfolding dedupe_from
dedupe_from-All P seen [] h = tt
dedupe_from-All P seen (f ∷ fs) h = elim (Bool-cases (elem (finding_key f) seen)) [
  | inl e ↦ rw e (dedupe_from-All P seen fs h.1)
  | inr e ↦ rw e (h.0, dedupe_from-All P (finding_key f ∷ seen) fs h.1)
]

-- Each key of a finding is left exactly once, and what holds of all findings holds of those left.
pub dedupe_findings-once {κ} :
    (P : CompatibilityEvaluation → Type κ) (fs : List CompatibilityEvaluation)
    → All P fs
    → ((k : String)
        → count k (map finding_key (dedupe_findings fs))
          ≡ (if elem k (map finding_key fs) then 1 else 0))
      × All P (dedupe_findings fs)
unfolding dedupe_findings
dedupe_findings-once P fs h = (λ k. count-dedupe_from k [] fs, dedupe_from-All P [] fs h)

-- `sum` of a number over the categories of a report.
pub sum_over : (CategoryScore → ℕ) → List CategoryScore → ℕ
sum_over field [] = 0
sum_over field (c ∷ cs) = field c + sum_over field cs

one_category :
    (category : CompatibilityCategory) (n : ℕ)
    → sum_weights
        (λ c. if category_index category == category_index c then n else 0)
        compatibility_categories
      ≡ n
one_category category n = ground arith

count_status-categories :
    (test : CompatibilityStatus → Bool) (fs : List CompatibilityEvaluation)
    → sum_weights (λ c. count_status test (by_category fs c)) compatibility_categories
      ≡ count_status test fs
count_status-categories test [] = refl
count_status-categories test (f ∷ fs) = omega (
  arith,
  count_status-categories test fs,
  one_category f.category (if test f.status then 1 else 0),
  count_head CompatibilityCategory.contracts,
  count_head CompatibilityCategory.rpc,
  count_head CompatibilityCategory.tokens,
  count_head CompatibilityCategory.oracles,
  count_head CompatibilityCategory.protocols,
  count_head CompatibilityCategory.cross_chain,
  count_head CompatibilityCategory.frontend,
  count_head CompatibilityCategory.configuration,
  count_one,
)
  where
    count_head :
        (c : CompatibilityCategory)
        → count_status test (by_category (f ∷ fs) c)
          ≡ (if category_index f.category == category_index c
              then (if test f.status then 1 else 0)
              else 0)
            + count_status test (by_category fs c)
    count_head c = ground arith

    count_one : count_status test (f ∷ fs) ≡ (if test f.status then 1 else 0) + count_status test fs
    count_one = ground arith

-- The counts of the categories add up to the counts of all findings, and these to their number.
pub score_findings-counts :
    (fs : List CompatibilityEvaluation)
    → (let scored = score_findings fs in
        (sum_over (λ c. c.pass_count) scored.categories ≡ scored.counts.pass)
        × (sum_over (λ c. c.warning_count) scored.categories ≡ scored.counts.warning)
        × (sum_over (λ c. c.blocker_count) scored.categories ≡ scored.counts.blocker)
        × (sum_over (λ c. c.unknown_count) scored.categories ≡ scored.counts.unknown)
        × (scored.counts.pass + scored.counts.warning + scored.counts.blocker
              + scored.counts.unknown
            ≡ length fs))
unfolding score_findings sum_over
score_findings-counts fs = (
  count_status-categories is_pass fs,
  count_status-categories is_warning fs,
  count_status-categories is_blocker fs,
  count_status-categories is_unknown fs,
  count_status_partition fs,
)

readiness_iff :
    (fs : List CompatibilityEvaluation)
    → (let readiness =
          determine_readiness
            (count_status is_blocker fs)
            (count_status is_warning fs)
            (count_status is_unknown fs)
            (coverage_of fs) in
        ((readiness ≡ CompatibilityReadiness.blocked) ↔ (any (λ f. is_blocker f.status) fs ≡ true))
        × ((readiness ≡ CompatibilityReadiness.ready) ↔ AllPass fs)
        × ((readiness ≡ CompatibilityReadiness.review_required) ↔ (
            (any (λ f. is_blocker f.status) fs ≡ false)
            × (any (λ f. is_warning f.status) fs ≡ true)
            × ((any (λ f. is_unknown f.status) fs ≡ false) ⊎ (50 ≤ coverage_of fs)))))
unfolding determine_readiness
readiness_iff fs = (
  ground (arith, count_status_zero is_blocker fs),
  ground (arith, count-AllPass fs, count_status_partition fs),
  ground (
    arith,
    count_status_zero is_blocker fs,
    count_status_zero is_warning fs,
    count_status_zero is_unknown fs,
  ),
)

module _ {ℓ κ} {Requirement : Type ℓ} {Context : Type κ}
    (rules : List (CompatibilityRule Requirement Context))
    (unmapped : CompatibilityRule Requirement Context) (should_skip : Requirement → Bool)
    (evm_solidity_pass : Context → CompatibilityEvaluation)
    (ruleset_version registry_version snapshot_hash source_chain_key target_chain_key : String)
    (has_solidity_contracts : Bool) (context : Context) (requirements : List Requirement) where
  abbrev pub report : CompatibilityReport
  report =
      evaluate_compatibility rules unmapped should_skip evm_solidity_pass ruleset_version
        registry_version snapshot_hash source_chain_key target_chain_key has_solidity_contracts
        context requirements

  -- The readiness is BLOCKED exactly if some finding is a blocker, READY exactly if all pass, and
  -- REVIEW_REQUIRED exactly if there is no blocker, some warning, and if some finding is unknown, a
  -- coverage of 50 at least.
  pub evaluate_compatibility-readiness :
      ((report.readiness ≡ CompatibilityReadiness.blocked)
        ↔ (any (λ f. is_blocker f.status) report.findings ≡ true))
      × ((report.readiness ≡ CompatibilityReadiness.ready) ↔ AllPass report.findings)
      × ((report.readiness ≡ CompatibilityReadiness.review_required) ↔ (
          (any (λ f. is_blocker f.status) report.findings ≡ false)
          × (any (λ f. is_warning f.status) report.findings ≡ true)
          × ((any (λ f. is_unknown f.status) report.findings ≡ false) ⊎ (50 ≤ report.coverage))))
  unfolding evaluate_compatibility score_findings
  evaluate_compatibility-readiness = readiness_iff report.findings

  -- A report that is READY has the score 100, the coverage 100 and high confidence in it.
  pub evaluate_compatibility-ready :
      report.readiness ≡ CompatibilityReadiness.ready
      → (report.score ≡ 100)
        × (report.coverage ≡ 100)
        × (report.coverage_confidence ≡ CoverageConfidence.high)
  unfolding evaluate_compatibility score_findings
  evaluate_compatibility-ready h =
      let full = score_findings-AllPass report.findings (evaluate_compatibility-readiness.1.0 h) in
      (full.0, full.1, rw full.1 refl)
