-- ===== src/Lifecycle/Analysis.antt =====
-- packages/shared/src/analysis-transitions.ts
use chain_port.Prelude.{ℕ, Bool, List, [], ◌∷◌, any, if◌then◌else◌, ◌==◌, Result, ok, err}
use chain_port.Lifecycle.Paths.{TransitionError, invalid_transition}

pub data AnalysisStatus : Type 0 where
  queued materializing inventorying analyzing completed failed : AnalysisStatus

-- The place of a status among all, by which two are compared.
abbrev pub analysis_index : AnalysisStatus → ℕ
analysis_index queued = 0
analysis_index materializing = 1
analysis_index inventorying = 2
analysis_index analyzing = 3
analysis_index completed = 4
analysis_index failed = 5

abbrev pub allowed_analysis_transitions : AnalysisStatus → List AnalysisStatus
allowed_analysis_transitions queued = materializing ∷ failed ∷ []
allowed_analysis_transitions materializing = inventorying ∷ failed ∷ []
allowed_analysis_transitions inventorying = analyzing ∷ failed ∷ []
allowed_analysis_transitions analyzing = completed ∷ failed ∷ []
allowed_analysis_transitions completed = []
allowed_analysis_transitions failed = queued ∷ []

unfoldable pub is_analysis_transition_allowed : AnalysisStatus → AnalysisStatus → Bool
is_analysis_transition_allowed from to =
    any (λ s. analysis_index s == analysis_index to) (allowed_analysis_transitions from)

unfoldable pub assert_analysis_transition :
    AnalysisStatus → AnalysisStatus → Result (TransitionError AnalysisStatus) (Unit {0})
unfolding is_analysis_transition_allowed
assert_analysis_transition from to =
    if is_analysis_transition_allowed from to then ok tt else err (invalid_transition from to)
