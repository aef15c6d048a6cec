-- ===== src/Compatibility/Scoring/Passing.antt =====
-- The scores of findings that all pass.
use native.Mathlib.Nat.{le_of_mul-le-mul_left}
use chain_port.Prelude.{
  ℕ, ◌+◌, ◌*◌, ◌≤◌, ◌<◌, ◌≡◌, ◌↔◌, refl, Bool, true, false, not, none, some, List, [], ◌∷◌, map,
  length, length-filter, filter, any, All, if◌then◌else◌, ltb, ◌==◌, arith, round_div, Bool-cases,
  inl, inr,
}
use chain_port.Shared.Enums.{
  CompatibilityCategory, CompatibilityStatus, category_index, compatibility_categories, is_pass,
  is_unknown,
}
use chain_port.Compatibility.Types.{CompatibilityEvaluation, CategoryScore}
use chain_port.Compatibility.Scoring.{
  has, base_weight, count_status, by_category, applicable_categories, scored_categories, raw_weight,
  sum_weights, weight_sum, sum_severity, average_score, category_score, contribution, weighted,
  coverage_of, overall_score, score_findings,
}
use chain_port.Compatibility.Scoring.Laws.{
  has-scored, has-applicable, sum-raw_weight, raw_weight-le, weight-gt, weighted-le-total,
  count_status_partition,
}

abbrev pub AllPass : List CompatibilityEvaluation → Type 0
AllPass findings =
    All (λ (f : CompatibilityEvaluation). f.status ≡ CompatibilityStatus.pass) findings

AllPass-filter :
    (p : CompatibilityEvaluation → Bool) (fs : List CompatibilityEvaluation)
    → AllPass fs
    → AllPass (filter p fs)
AllPass-filter p [] h = tt
AllPass-filter p (f ∷ fs) h = ground (arith, AllPass-filter p fs h.1)

known-AllPass :
    (fs : List CompatibilityEvaluation)
    → AllPass fs
    → (length (filter (λ f. not (is_unknown f.status)) fs) ≡ length fs)
      × (sum_severity (filter (λ f. not (is_unknown f.status)) fs) ≡ 10 * length fs)
      × (any (λ f. not (is_unknown f.status)) fs ≡ ltb 0 (length fs))
known-AllPass [] h = ground arith
known-AllPass (f ∷ fs) h = ground (arith, known-AllPass fs h.1, h.0)

round_div-thousand : (k : ℕ) → 0 < k → round_div (100 * (10 * k)) k ≡ 1000
round_div-thousand k p = grind arith

average_score-AllPass :
    (fs : List CompatibilityEvaluation)
    → AllPass fs
    → average_score fs ≡ (if length fs == 0 then none else some 1000)
average_score-AllPass fs h = ground (arith, known-AllPass fs h, round_div-thousand (length fs))

contribution-known :
    (scored : List CompatibilityCategory) (weight : ℕ) (c : CompatibilityCategory) (s : ℕ)
    → has scored c ≡ true
    → contribution scored weight c (some s) ≡ weight * s
contribution-known scored weight c s e = rw e refl

module _ (findings : List CompatibilityEvaluation) (h : AllPass findings)
    (pos : 0 < weight_sum findings) where
  contribution-gt :
      (c : CompatibilityCategory)
      → 20000000 * raw_weight findings c
        ≤ 2
            * weight_sum findings
            * contribution
                (scored_categories findings)
                (category_score findings c).weight
                c
                (category_score findings c).score
          + 1000 * weight_sum findings
  contribution-gt c = elim (Bool-cases (has (scored_categories findings) c)) [
    | inl e ↦
        let full : average_score (by_category findings c) ≡ some 1000 = ground (
          arith,
          e,
          has-scored findings c,
          known-AllPass (by_category findings c) items_pass,
          average_score-AllPass (by_category findings c) items_pass,
        ) in
        rw
          (
            full,
            contribution-known (scored_categories findings) (category_score findings c).weight c
                1000 e,
          )
          (omega (arith, weight-gt findings pos c))
    | inr e ↦ ground (arith, e)
  ]
    where
      items_pass : AllPass (by_category findings c)
      items_pass = AllPass-filter (λ f. category_index f.category == category_index c) findings h

  weighted-gt :
      (cs : List CompatibilityCategory)
      → 20000000 * sum_weights (raw_weight findings) cs
        ≤ 2
            * weight_sum findings
            * weighted (scored_categories findings) (map (category_score findings) cs)
          + 1000 * weight_sum findings * length cs
  weighted-gt [] = omega arith
  weighted-gt (c ∷ cs) = omega (arith, contribution-gt c, weighted-gt cs)

  weighted-gt-total :
      9996000
      ≤ weighted
          (scored_categories findings)
          (map (category_score findings) compatibility_categories)
  weighted-gt-total =
      le_of_mul-le-mul_left {k = 2 * weight_sum findings}
        (omega (arith, weighted-gt compatibility_categories, sum-raw_weight findings)) (omega arith)

pub count-AllPass :
    (fs : List CompatibilityEvaluation) → (count_status is_pass fs ≡ length fs) ↔ AllPass fs
count-AllPass [] = (λ _. tt, λ _. refl)
count-AllPass (f ∷ fs) = ground (arith, count-AllPass fs, length-filter (λ x. is_pass x.status) fs)

round_div-hundred : (k : ℕ) → 0 < k → round_div (100 * k) k ≡ 100
round_div-hundred k p = grind arith

base_weight-pos :
    (applicable : List CompatibilityCategory) (c : CompatibilityCategory)
    → has applicable c ≡ true
    → 0 < base_weight c applicable
base_weight-pos applicable c h = ground arith

length-has :
    (set : List CompatibilityCategory) (c : CompatibilityCategory)
    → has set c ≡ true
    → 0 < length set
length-has [] c h = absurd (ground arith)
length-has (x ∷ set) c h = omega arith

category_index_refl : (c : CompatibilityCategory) → (category_index c == category_index c) ≡ true
category_index_refl c = ground arith

-- The category of a finding that is not unknown is scored, with a weight.
module _ (f : CompatibilityEvaluation) (fs : List CompatibilityEvaluation)
    (known : is_unknown f.status ≡ false) where
  head-scored : has (scored_categories (f ∷ fs)) f.category ≡ true
  head-scored = ground (arith, has-scored (f ∷ fs) f.category, category_index_refl f.category)

  head-applicable : has (applicable_categories (f ∷ fs)) f.category ≡ true
  head-applicable =
      ground (arith, has-applicable (f ∷ fs) f.category, category_index_refl f.category)

  scored-pos : 0 < length (scored_categories (f ∷ fs))
  scored-pos = length-has (scored_categories (f ∷ fs)) f.category head-scored

  weight_sum-pos : 0 < weight_sum (f ∷ fs)
  weight_sum-pos = ground (
    arith,
    head-scored,
    base_weight-pos (applicable_categories (f ∷ fs)) f.category head-applicable,
    raw_weight-le (f ∷ fs) f.category,
  )

overall_score-between :
    (findings : List CompatibilityEvaluation) (categories : List CategoryScore)
    → 0 < length (scored_categories findings)
    → 0 < weight_sum findings
    → 9996000 ≤ weighted (scored_categories findings) categories
    → weighted (scored_categories findings) categories ≤ 10004000
    → overall_score findings categories ≡ 100
overall_score-between findings categories some_scored pos low high = ground arith

scored-nil : scored_categories [] ≡ []
unfolding scored_categories
scored-nil = refl

overall_score-AllPass :
    (findings : List CompatibilityEvaluation)
    → AllPass findings
    → overall_score findings (map (category_score findings) compatibility_categories) ≡ 100
overall_score-AllPass [] h = rw scored-nil refl
overall_score-AllPass (f ∷ fs) h =
    let known : is_unknown f.status ≡ false = rw h.0 refl in
    let pos = weight_sum-pos f fs known in
    overall_score-between (f ∷ fs) (map (category_score (f ∷ fs)) compatibility_categories)
      (scored-pos f fs known) pos (weighted-gt-total (f ∷ fs) h pos)
      (weighted-le-total (f ∷ fs) pos)

coverage-AllPass :
    (findings : List CompatibilityEvaluation) → AllPass findings → coverage_of findings ≡ 100
coverage-AllPass findings h = ground (
  arith,
  count-AllPass findings,
  count_status_partition findings,
  round_div-hundred (length findings),
)

-- Findings that all pass have the score 100 and the coverage 100, whatever their categories are.
pub score_findings-AllPass :
    (findings : List CompatibilityEvaluation)
    → AllPass findings
    → ((score_findings findings).score ≡ 100) × ((score_findings findings).coverage ≡ 100)
unfolding score_findings
score_findings-AllPass findings h = (overall_score-AllPass findings h, coverage-AllPass findings h)
