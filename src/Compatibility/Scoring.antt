-- ===== src/Compatibility/Scoring.antt =====
-- packages/compatibility/src/scoring.ts. The quotients are exact and rounded as the source rounds
-- them; the errors of binary floating point are left out.
pub mod Laws
pub mod Passing
use chain_port.Prelude.{
  ℕ, ◌+◌, ◌-◌, ◌*◌, Bool, true, false, not, ◌&&◌, ◌||◌, Option, none, some, List, [], ◌∷◌, map,
  length, filter, any, if◌then◌else◌, ltb, ◌==◌, round_div,
}
use chain_port.Shared.Enums.{
  CompatibilityCategory, CompatibilityStatus, category_index, compatibility_categories, is_pass,
  is_warning, is_blocker, is_unknown,
}
use chain_port.Compatibility.Types.{
  CompatibilityEvaluation, CategoryScore, StatusCounts, FindingScores,
}
use chain_port.Compatibility.Readiness.{coverage_confidence}

-- A `Set` or a list of categories, and its `has`.
abbrev pub has : List CompatibilityCategory → CompatibilityCategory → Bool
has set category = any (λ c. category_index c == category_index category) set

abbrev pub solo_weight : CompatibilityCategory → ℕ
solo_weight CompatibilityCategory.contracts = 15
solo_weight CompatibilityCategory.rpc = 20
solo_weight CompatibilityCategory.tokens = 15
solo_weight CompatibilityCategory.oracles = 15
solo_weight CompatibilityCategory.protocols = 10
solo_weight CompatibilityCategory.cross_chain = 10
solo_weight CompatibilityCategory.frontend = 15
solo_weight CompatibilityCategory.configuration = 15

-- `SEVERITY_FACTOR`, in tenths, and 0 for the finding that the sum leaves out.
abbrev pub severity_tenths : CompatibilityStatus → ℕ
severity_tenths CompatibilityStatus.pass = 10
severity_tenths CompatibilityStatus.warning = 7
severity_tenths CompatibilityStatus.blocker = 0
severity_tenths CompatibilityStatus.unknown = 0

-- The branch of a category that shares its weight: 15 alone, `shared` beside the other.
abbrev shared_weight : List CompatibilityCategory → CompatibilityCategory → ℕ → ℕ
shared_weight applicable category shared =
    if not (has applicable category)
    then 0
    else if has applicable CompatibilityCategory.frontend
        && has applicable CompatibilityCategory.configuration
    then shared
    else 15

abbrev pub base_weight : CompatibilityCategory → List CompatibilityCategory → ℕ
base_weight CompatibilityCategory.frontend applicable =
    shared_weight applicable CompatibilityCategory.frontend 8
base_weight CompatibilityCategory.configuration applicable =
    shared_weight applicable CompatibilityCategory.configuration 7
base_weight category applicable = if has applicable category then solo_weight category else 0

-- `findings.filter((item) => item.status === status).length`
abbrev pub count_status : (CompatibilityStatus → Bool) → List CompatibilityEvaluation → ℕ
count_status test findings = length (filter (λ f. test f.status) findings)

abbrev pub count_by_status : List CompatibilityEvaluation → StatusCounts
count_by_status findings = record {
  pass = count_status is_pass findings;
  warning = count_status is_warning findings;
  blocker = count_status is_blocker findings;
  unknown = count_status is_unknown findings;
}

-- `byCategory.get(category)`: the findings of a category, in their order.
abbrev pub by_category :
    List CompatibilityEvaluation → CompatibilityCategory → List CompatibilityEvaluation
by_category findings category =
    filter (λ f. category_index f.category == category_index category) findings

unfoldable pub applicable_categories : List CompatibilityEvaluation → List CompatibilityCategory
applicable_categories findings =
    filter (λ c. ltb 0 (length (by_category findings c))) compatibility_categories

unfoldable pub scored_categories : List CompatibilityEvaluation → List CompatibilityCategory
scored_categories findings =
    filter (λ c. any (λ f. not (is_unknown f.status)) (by_category findings c))
      compatibility_categories

-- `rawWeights.get(category) ?? 0`
abbrev pub raw_weight : List CompatibilityEvaluation → CompatibilityCategory → ℕ
raw_weight findings category =
    if has (scored_categories findings) category
    then base_weight category (applicable_categories findings)
    else 0

abbrev pub sum_weights : (CompatibilityCategory → ℕ) → List CompatibilityCategory → ℕ
sum_weights weight [] = 0
sum_weights weight (c ∷ cs) = weight c + sum_weights weight cs

unfoldable pub weight_sum : List CompatibilityEvaluation → ℕ
unfolding applicable_categories scored_categories
weight_sum findings =
    sum_weights (λ c. base_weight c (applicable_categories findings)) (scored_categories findings)

-- The tenths of the known findings' factors, added up.
abbrev pub sum_severity : List CompatibilityEvaluation → ℕ
sum_severity [] = 0
sum_severity (f ∷ fs) = severity_tenths f.status + sum_severity fs

-- The thousandths of the average factor of the known findings.
abbrev pub average_score : List CompatibilityEvaluation → Option ℕ
average_score items =
    let known = filter (λ f. not (is_unknown f.status)) items in
    if length known == 0 then none else some (round_div (100 * sum_severity known) (length known))

abbrev pub category_score : List CompatibilityEvaluation → CompatibilityCategory → CategoryScore
category_score findings category =
    let items = by_category findings category in
    let counts = count_by_status items in
    let participates = has (scored_categories findings) category && ltb 0 (weight_sum findings) in
    record {
      category = category;
      applicable = has (applicable_categories findings) category;
      weight =
          if participates
          then round_div (10000 * raw_weight findings category) (weight_sum findings)
          else 0;
      score = average_score items;
      pass_count = counts.pass;
      warning_count = counts.warning;
      blocker_count = counts.blocker;
      unknown_count = counts.unknown;
    }

-- What a category adds to `weighted`, in hundred-thousandths.
abbrev pub contribution : List CompatibilityCategory → ℕ → CompatibilityCategory → Option ℕ → ℕ
contribution scored weight category none = 0
contribution scored weight category (some score) =
    if not (has scored category) then 0 else weight * score

abbrev pub weighted : List CompatibilityCategory → List CategoryScore → ℕ
weighted scored [] = 0
weighted scored (c ∷ cs) = contribution scored c.weight c.category c.score + weighted scored cs

abbrev pub coverage_of : List CompatibilityEvaluation → ℕ
coverage_of findings =
    if length findings == 0
    then 100
    else round_div (100 * (length findings - count_status is_unknown findings)) (length findings)

abbrev pub overall_score : List CompatibilityEvaluation → List CategoryScore → ℕ
overall_score findings categories =
    let scored = scored_categories findings in
    if ltb 0 (length scored) && ltb 0 (weight_sum findings)
    then round_div (weighted scored categories) 100000
    else if ltb 0 (length findings)
    then 0
    else 100

unfoldable pub score_findings : List CompatibilityEvaluation → FindingScores
unfolding applicable_categories scored_categories weight_sum
score_findings findings =
    let categories = map (category_score findings) compatibility_categories in
    record {
      score = overall_score findings categories;
      coverage = coverage_of findings;
      coverage_confidence = coverage_confidence (coverage_of findings);
      categories = categories;
      counts = count_by_status findings;
    }
