-- ===== src/Ecosystem/Funnel.antt =====
-- packages/ecosystem/src/funnel.ts
use chain_port.Prelude.{
  ℕ, ◌+◌, ◌≤◌, ◌≡◌, refl, Bool, true, List, [], ◌∷◌, length, filter, if◌then◌else◌, leb, arith,
}

pub data FunnelStage : Type 0 where
  project_started repository_ingested repository_analyzed compatibility_evaluated
        migration_plan_created safe_fixes_generated revision_finalized validation_passed
        testnet_deployment_prepared testnet_deployed :
      FunnelStage

-- `FUNNEL_STAGES.indexOf(stage)`
abbrev pub rank : FunnelStage → ℕ
rank project_started = 0
rank repository_ingested = 1
rank repository_analyzed = 2
rank compatibility_evaluated = 3
rank migration_plan_created = 4
rank safe_fixes_generated = 5
rank revision_finalized = 6
rank validation_passed = 7
rank testnet_deployment_prepared = 8
rank testnet_deployed = 9

pub record StageFlags : Type 0 where
  pub ingested : Bool
  pub analyzed : Bool
  pub compatibility_evaluated : Bool
  pub migration_planned : Bool
  pub safe_fixes_generated : Bool
  pub revision_finalized : Bool
  pub validation_passed : Bool
  pub deployment_prepared : Bool
  pub testnet_deployed : Bool

unfoldable pub highest_stage : StageFlags → FunnelStage
highest_stage flags =
    if flags.testnet_deployed
    then FunnelStage.testnet_deployed
    else if flags.deployment_prepared
    then FunnelStage.testnet_deployment_prepared
    else if flags.validation_passed
    then FunnelStage.validation_passed
    else if flags.revision_finalized
    then FunnelStage.revision_finalized
    else if flags.safe_fixes_generated
    then FunnelStage.safe_fixes_generated
    else if flags.migration_planned
    then FunnelStage.migration_plan_created
    else if flags.compatibility_evaluated
    then FunnelStage.compatibility_evaluated
    else if flags.analyzed
    then FunnelStage.repository_analyzed
    else if flags.ingested
    then FunnelStage.repository_ingested
    else FunnelStage.project_started

-- The counts by stage: `counts[candidate] += 1` for each candidate up to the stage that is reached.
abbrev pub StageCounts : Type 0
StageCounts = FunnelStage → ℕ

abbrev pub no_counts : StageCounts
no_counts stage = 0

abbrev pub count_up_to : FunnelStage → StageCounts → StageCounts
count_up_to stage counts candidate =
    if leb (rank candidate) (rank stage) then counts candidate + 1 else counts candidate

abbrev pub count_all : List FunnelStage → StageCounts → StageCounts
count_all [] counts = counts
count_all (stage ∷ highest) counts = count_all highest (count_up_to stage counts)

unfoldable pub cumulative_funnel : List FunnelStage → StageCounts
cumulative_funnel highest = count_all highest no_counts

count_all-length :
    (highest : List FunnelStage) (counts : StageCounts) (stage : FunnelStage)
    → count_all highest counts stage
      ≡ counts stage + length (filter (λ s. leb (rank stage) (rank s)) highest)
count_all-length [] counts stage = omega arith
count_all-length (s ∷ highest) counts stage =
    ground (arith, count_all-length highest (count_up_to s counts) stage)

length-filter_mono :
    (a b : ℕ) (highest : List FunnelStage)
    → a ≤ b
    → length (filter (λ s. leb b (rank s)) highest) ≤ length (filter (λ s. leb a (rank s)) highest)
length-filter_mono a b [] h = omega arith
length-filter_mono a b (s ∷ highest) h = ground (arith, length-filter_mono a b highest h)

length-filter_all :
    (highest : List FunnelStage) → length (filter (λ s. leb 0 (rank s)) highest) ≡ length highest
length-filter_all [] = refl
length-filter_all (s ∷ highest) = ground (arith, length-filter_all highest)

-- The count of a stage is the number of projects that reached it, the first stage counts all of
-- them, and a later stage counts no more than an earlier one.
pub cumulative_funnel-counts :
    (highest : List FunnelStage)
    → ((stage : FunnelStage)
        → cumulative_funnel highest stage
          ≡ length (filter (λ s. leb (rank stage) (rank s)) highest))
      × (cumulative_funnel highest FunnelStage.project_started ≡ length highest)
      × ((early late : FunnelStage)
          → rank early ≤ rank late
          → cumulative_funnel highest late ≤ cumulative_funnel highest early)
unfolding cumulative_funnel
cumulative_funnel-counts highest = (
  λ stage. omega (arith, count_all-length highest no_counts stage),
  omega (
    arith,
    count_all-length highest no_counts FunnelStage.project_started,
    length-filter_all highest,
  ),
  λ early late h. omega (
    arith,
    count_all-length highest no_counts early,
    count_all-length highest no_counts late,
    length-filter_mono (rank early) (rank late) highest h,
  ),
)

-- The flag of a stage; every project is started.
abbrev pub has_reached : StageFlags → FunnelStage → Bool
has_reached flags project_started = true
has_reached flags repository_ingested = flags.ingested
has_reached flags repository_analyzed = flags.analyzed
has_reached flags FunnelStage.compatibility_evaluated = flags.compatibility_evaluated
has_reached flags migration_plan_created = flags.migration_planned
has_reached flags FunnelStage.safe_fixes_generated = flags.safe_fixes_generated
has_reached flags FunnelStage.revision_finalized = flags.revision_finalized
has_reached flags FunnelStage.validation_passed = flags.validation_passed
has_reached flags testnet_deployment_prepared = flags.deployment_prepared
has_reached flags FunnelStage.testnet_deployed = flags.testnet_deployed

-- The highest stage is one that the project reached, and no stage that it reached is higher.
pub highest_stage_greatest :
    (flags : StageFlags)
    → (has_reached flags (highest_stage flags) ≡ true)
      × ((stage : FunnelStage)
          → has_reached flags stage ≡ true
          → rank stage ≤ rank (highest_stage flags))
unfolding highest_stage
highest_stage_greatest flags = (ground arith, λ stage h. ground arith)
