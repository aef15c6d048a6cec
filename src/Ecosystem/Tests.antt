-- ===== src/Ecosystem/Tests.antt =====
-- Runs of the funnel.
use chain_port.Prelude.{◌≤◌, ◌≡◌, true, false, List, [], ◌∷◌, length, filter, leb}
use chain_port.Ecosystem.Funnel.{
  FunnelStage, StageFlags, rank, highest_stage, has_reached, cumulative_funnel,
  cumulative_funnel-counts, highest_stage_greatest,
}

abbrev projects : List FunnelStage
projects =
    FunnelStage.repository_analyzed ∷ FunnelStage.project_started ∷ FunnelStage.testnet_deployed
    ∷ []

cumulative_funnel-counts_example :
    ((stage : FunnelStage)
      → cumulative_funnel projects stage
        ≡ length (filter (λ s. leb (rank stage) (rank s)) projects))
    × (cumulative_funnel projects FunnelStage.project_started ≡ length projects)
    × ((early late : FunnelStage)
        → rank early ≤ rank late
        → cumulative_funnel projects late ≤ cumulative_funnel projects early)
cumulative_funnel-counts_example = cumulative_funnel-counts projects

-- A project that was validated although no safe fix was generated.
abbrev flags : StageFlags
flags = record {
  ingested = true;
  analyzed = true;
  compatibility_evaluated = true;
  migration_planned = true;
  safe_fixes_generated = false;
  revision_finalized = false;
  validation_passed = true;
  deployment_prepared = false;
  testnet_deployed = false;
}

highest_stage_greatest_example :
    (has_reached flags (highest_stage flags) ≡ true)
    × ((stage : FunnelStage)
        → has_reached flags stage ≡ true
        → rank stage ≤ rank (highest_stage flags))
highest_stage_greatest_example = highest_stage_greatest flags
