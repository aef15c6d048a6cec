-- ===== src/Compatibility/Readiness.antt =====
-- packages/compatibility/src/readiness.ts, confidence.ts, and the confidence of scoring.ts.
use chain_port.Prelude.{ℕ, ◌&&◌, if◌then◌else◌, ltb, leb}
use chain_port.Shared.Enums.{CompatibilityReadiness, CoverageConfidence}

unfoldable pub determine_readiness : ℕ → ℕ → ℕ → ℕ → CompatibilityReadiness
determine_readiness blocker_count warning_count unknown_count coverage =
    if ltb 0 blocker_count
    then CompatibilityReadiness.blocked
    else if ltb 0 unknown_count && ltb coverage 50
    then CompatibilityReadiness.insufficient_data
    else if ltb 0 warning_count
    then CompatibilityReadiness.review_required
    else if ltb 0 unknown_count
    then CompatibilityReadiness.insufficient_data
    else CompatibilityReadiness.ready

abbrev pub coverage_confidence : ℕ → CoverageConfidence
coverage_confidence coverage =
    if leb 85 coverage
    then CoverageConfidence.high
    else if leb 50 coverage
    then CoverageConfidence.medium
    else CoverageConfidence.low
