-- ===== src/Compatibility/Scoring/Laws.antt =====
-- The bounds of the scores, and what they are when every finding passes.
use native.Mathlib.Nat.{mul-le-mul, le_of_mul-le-mul_left}
use chain_port.Prelude.{
  ℕ, ◌+◌, ◌-◌, ◌*◌, ◌≤◌, ◌<◌, ◌≡◌, refl, sym, ◌∙◌, subst, Bool, true, not, ◌&&◌, some, List, [],
  ◌∷◌, map, length, filter, any, All, if◌then◌else◌, ltb, ◌==◌, arith, round_div, round_div-le,
  round_div-gt, Bool-cases, Option-cases, inl, inr,
}
use chain_port.Shared.Enums.{
  CompatibilityCategory, category_index, compatibility_categories, is_pass, is_warning, is_blocker,
  is_unknown,
}
use chain_port.Compatibility.Types.{CompatibilityEvaluation, CategoryScore}
use chain_port.Compatibility.Scoring.{
  has, base_weight, count_status, by_category, applicable_categories, scored_categories, raw_weight,
  sum_weights, weight_sum, sum_severity, average_score, category_score, contribution, weighted,
  coverage_of, overall_score, score_findings,
}

category_index_injective :
    (a b : CompatibilityCategory) → (category_index a == category_index b) ≡ true → a ≡ b
category_index_injective a b h = ground arith

has_every : (c : CompatibilityCategory) → has compatibility_categories c ≡ true
has_every c = ground arith

has-filter :
    (p : CompatibilityCategory → Bool) (cs : List CompatibilityCategory) (c : CompatibilityCategory)
    → has (filter p cs) c ≡ (has cs c && p c)
has-filter p [] c = refl
has-filter p (x ∷ cs) c = elim (Bool-cases (category_index x == category_index c)) [
  | inl e ↦ let same = category_index_injective x c e in ground (arith, has-filter p cs c, same)
  | inr e ↦ ground (arith, has-filter p cs c, e)
]

sum_weights-filter :
    (p : CompatibilityCategory → Bool) (w : CompatibilityCategory → ℕ)
    (cs : List CompatibilityCategory)
    → sum_weights w (filter p cs) ≡ sum_weights (λ c. if p c then w c else 0) cs
sum_weights-filter p w [] = refl
sum_weights-filter p w (c ∷ cs) = ground (arith, sum_weights-filter p w cs)

sum_weights-ext :
    (v w : CompatibilityCategory → ℕ) (cs : List CompatibilityCategory)
    → ((c : CompatibilityCategory) → v c ≡ w c)
    → sum_weights v cs ≡ sum_weights w cs
sum_weights-ext v w [] h = refl
sum_weights-ext v w (c ∷ cs) h = ground (arith, sum_weights-ext v w cs h, h c)

pub count_status_partition :
    (fs : List CompatibilityEvaluation)
    → count_status is_pass fs
        + count_status is_warning fs
        + count_status is_blocker fs
        + count_status is_unknown fs
      ≡ length fs
count_status_partition [] = refl
count_status_partition (f ∷ fs) = ground (arith, count_status_partition fs)

sum_severity-le : (fs : List CompatibilityEvaluation) → sum_severity fs ≤ 10 * length fs
sum_severity-le [] = omega arith
sum_severity-le (f ∷ fs) = ground (arith, sum_severity-le fs)

round_div-le-thousand : (s k : ℕ) → s ≤ 10 * k → 0 < k → round_div (100 * s) k ≤ 1000
round_div-le-thousand s k h p = grind arith

average_score-le :
    (items : List CompatibilityEvaluation) (s : ℕ) → average_score items ≡ some s → s ≤ 1000
average_score-le items s h =
    ground (arith, round_div-le-thousand (sum_severity known) (length known), sum_severity-le known)
  where
    known : List CompatibilityEvaluation
    known = filter (λ f. not (is_unknown f.status)) items

module _ (findings : List CompatibilityEvaluation) where
  abbrev pub is_scored : CompatibilityCategory → Bool
  is_scored c = any (λ f. not (is_unknown f.status)) (by_category findings c)

  pub has-scored : (c : CompatibilityCategory) → has (scored_categories findings) c ≡ is_scored c
  unfolding scored_categories
  has-scored c = ground (arith, has-filter is_scored compatibility_categories c, has_every c)

  pub has-applicable :
      (c : CompatibilityCategory)
      → has (applicable_categories findings) c ≡ ltb 0 (length (by_category findings c))
  unfolding applicable_categories
  has-applicable c = ground (
    arith,
    has-filter (λ x. ltb 0 (length (by_category findings x))) compatibility_categories c,
    has_every c,
  )

  pub sum-raw_weight :
      sum_weights (raw_weight findings) compatibility_categories ≡ weight_sum findings
  unfolding weight_sum scored_categories
  sum-raw_weight =
      let weight : CompatibilityCategory → ℕ =
        λ c. base_weight c (applicable_categories findings) in
      sum_weights-ext (raw_weight findings) (λ c. if is_scored c then weight c else 0)
        compatibility_categories (λ c. ground (arith, has-scored c))
      ∙ sym (sum_weights-filter is_scored weight compatibility_categories)

  module _ (pos : 0 < weight_sum findings) where
    weight-le :
        (c : CompatibilityCategory)
        → 2 * weight_sum findings * (category_score findings c).weight
          ≤ 20000 * raw_weight findings c + weight_sum findings
    weight-le c = elim (Bool-cases (has (scored_categories findings) c)) [
      | inl e ↦
          ground (arith, e, round_div-le (10000 * raw_weight findings c) (weight_sum findings) pos)
      | inr e ↦ ground (arith, e)
    ]

    pub weight-gt :
        (c : CompatibilityCategory)
        → 20000 * raw_weight findings c
          ≤ 2 * weight_sum findings * (category_score findings c).weight + weight_sum findings
    weight-gt c = elim (Bool-cases (has (scored_categories findings) c)) [
      | inl e ↦
          ground (arith, e, round_div-gt (10000 * raw_weight findings c) (weight_sum findings) pos)
      | inr e ↦ ground (arith, e)
    ]

    contribution-le :
        (c : CompatibilityCategory)
        → 2
            * weight_sum findings
            * contribution
                (scored_categories findings)
                (category_score findings c).weight
                c
                (category_score findings c).score
          ≤ 1000 * (20000 * raw_weight findings c + weight_sum findings)
    contribution-le c = elim (Option-cases (average_score (by_category findings c))) [
      | inl e ↦ ground (arith, e)
      | inr (s, e) ↦
          ground
            (arith, e, mul-le-mul (weight-le c) (average_score-le (by_category findings c) s e))
    ]

    weighted-le :
        (cs : List CompatibilityCategory)
        → 2
            * weight_sum findings
            * weighted (scored_categories findings) (map (category_score findings) cs)
          ≤ 1000 * (20000 * sum_weights (raw_weight findings) cs + weight_sum findings * length cs)
    weighted-le [] = omega arith
    weighted-le (c ∷ cs) = omega (arith, contribution-le c, weighted-le cs)

    pub weighted-le-total :
        weighted
          (scored_categories findings)
          (map (category_score findings) compatibility_categories)
        ≤ 10004000
    weighted-le-total =
        le_of_mul-le-mul_left {k = 2 * weight_sum findings}
          (omega (arith, weighted-le compatibility_categories, sum-raw_weight)) (omega arith)

map-All :
    (f : CompatibilityCategory → CategoryScore) (cs : List CompatibilityCategory)
    → ((c : CompatibilityCategory) → (f c).weight ≤ 10000)
    → All (λ (c : CategoryScore). c.weight ≤ 10000) (map f cs)
map-All f [] h = tt
map-All f (c ∷ cs) h = (h c, map-All f cs h)

raw_weight-le-sum :
    (w : CompatibilityCategory → ℕ) (c : CompatibilityCategory)
    → w c ≤ sum_weights w compatibility_categories
raw_weight-le-sum w c = ground arith

round_div-le-all : (r w : ℕ) → r ≤ w → 0 < w → round_div (10000 * r) w ≤ 10000
round_div-le-all r w h p = grind arith

coverage_of-le : (findings : List CompatibilityEvaluation) → coverage_of findings ≤ 100
coverage_of-le findings = ground (
  arith,
  round_div-le-hundred (length findings - count_status is_unknown findings) (length findings),
)
  where
    round_div-le-hundred : (s a : ℕ) → s ≤ a → 0 < a → round_div (100 * s) a ≤ 100
    round_div-le-hundred s a h p = grind arith

pub raw_weight-le :
    (findings : List CompatibilityEvaluation) (c : CompatibilityCategory)
    → raw_weight findings c ≤ weight_sum findings
raw_weight-le findings c =
    subst (λ w. raw_weight findings c ≤ w) (sum-raw_weight findings)
      (raw_weight-le-sum (raw_weight findings) c)

weight-le-all :
    (findings : List CompatibilityEvaluation) (c : CompatibilityCategory)
    → (category_score findings c).weight ≤ 10000
weight-le-all findings c = ground (
  arith,
  raw_weight-le findings c,
  round_div-le-all (raw_weight findings c) (weight_sum findings),
)

overall_score-le :
    (findings : List CompatibilityEvaluation) (categories : List CategoryScore)
    → (0 < weight_sum findings → weighted (scored_categories findings) categories ≤ 10004000)
    → overall_score findings categories ≤ 100
overall_score-le findings categories h = ground (arith, h)

-- The score and the coverage are at most 100, and so is the weight of each category.
pub score_findings-le :
    (findings : List CompatibilityEvaluation)
    → ((score_findings findings).score ≤ 100)
      × ((score_findings findings).coverage ≤ 100)
      × All (λ (c : CategoryScore). c.weight ≤ 10000) (score_findings findings).categories
unfolding score_findings
score_findings-le findings = (
  overall_score-le findings (map (category_score findings) compatibility_categories)
      (weighted-le-total findings),
  coverage_of-le findings,
  map-All (category_score findings) compatibility_categories (weight-le-all findings),
)
