-- ===== src/Migration/Engine/Drafts.antt =====
-- The drafts of a plan and the edges between them, before they are ordered.
use chain_port.Prelude.{
  ◌≡◌, ◌≢◌, refl, String, Bool, true, false, some, List, [], ◌∷◌, ◌++◌, All, All-append, any,
  any-append, find_of_any, find-All, elem, ===_refl, arith, Bool-cases, Option-cases, none, inl,
  inr,
}
use chain_port.Migration.Rules.EnvConfig.{target_test}
use chain_port.Shared.Enums.{MigrationAutomationLevel, MigrationRiskLevel, is_pass}
use chain_port.Migration.Types.{PlannedFinding, PlanContext, MigrationActionDraft, MigrationRule}
use chain_port.Migration.Action.{chain_id_key}
use chain_port.Migration.Dedupe.{combine, merge_drafts}
use chain_port.Migration.Dedupe.Laws.{
  unique-All, unique_evidence-ne-nil, merge_drafts-All, merge_drafts-carries, carries,
}
use chain_port.Migration.Rules.{migration_rules}
use chain_port.Migration.Rules.Contract.{
  WritesProper, status_for, migration_rules-write, migration_rules-throw, migration_rules-any,
}
use chain_port.Migration.Engine.{drafts_of, drafts_for, planning_rule, throws_on}

-- What is promised of an action of the plan, which may stand for several findings.
pub record IsPlanned (context : PlanContext) (a : MigrationActionDraft) : Type 0 where
  pub has_evidence : a.evidence ≢ []
  pub depends_on_chain_id : All (λ k. k ≡ chain_id_key context) a.depends_on_keys
  pub status_matches : a.action_status ≡ status_for a.automation_level
  pub automatic_is_low_risk :
      a.automation_level ≡ MigrationAutomationLevel.safe_automatic
      → a.risk_level ≡ MigrationRiskLevel.low
  pub automatic_has_target :
      a.automation_level ≡ MigrationAutomationLevel.safe_automatic
      → (value : String) × (a.target_value ≡ some value)

module _ (context : PlanContext) where
  combine-IsPlanned :
      (a b : MigrationActionDraft)
      → IsPlanned context a
      → IsPlanned context b
      → IsPlanned context (combine a b)
  combine-IsPlanned a b p q = record {
    has_evidence = unique_evidence-ne-nil a.evidence b.evidence p.has_evidence;
    depends_on_chain_id =
        unique-All (λ k. k ≡ chain_id_key context) (a.depends_on_keys ++ b.depends_on_keys)
          (All-append (λ k. k ≡ chain_id_key context) a.depends_on_keys b.depends_on_keys
            p.depends_on_chain_id q.depends_on_chain_id);
    status_matches = p.status_matches;
    automatic_is_low_risk = p.automatic_is_low_risk;
    automatic_has_target = p.automatic_has_target;
  }

  WritesProper-IsPlanned :
      (f : PlannedFinding) (actions : List MigrationActionDraft)
      → WritesProper f context actions
      → All (IsPlanned context) actions
  WritesProper-IsPlanned f [] w = absurd w
  WritesProper-IsPlanned f (a ∷ []) w = (
    record {
      has_evidence = w.0.has_evidence;
      depends_on_chain_id = w.0.depends_on_chain_id;
      status_matches = w.0.status_matches;
      automatic_is_low_risk = w.0.automatic_is_low_risk;
      automatic_has_target = w.0.automatic_has_target;
    },
    tt,
  )
  WritesProper-IsPlanned f (a ∷ b ∷ rest) w = cc (w.1)

  -- A finding that does not pass has one rule, which writes one action.
  drafts_of_cases :
      (f : PlannedFinding) → is_pass f.status ≡ false → WritesProper f context (drafts_of context f)
  unfolding drafts_of
  drafts_of_cases f open_f =
      let (rule, found) =
        find_of_any (λ (r : MigrationRule). r.supports f) migration_rules
          (migration_rules-any f open_f) in
      rw open_f (
        rw found (
          find-All (λ (r : MigrationRule). WritesProper f context (r.create_actions f context))
            (λ (r : MigrationRule). r.supports f) migration_rules found
            (migration_rules-write f context)))

  throws_on-refused : (f : PlannedFinding) → throws_on context f ≡ true → target_test context ≡ none
  unfolding throws_on
  throws_on-refused f h = elim (Bool-cases (is_pass f.status)) [
    | inl e ↦ absurd (cc (rw e at h))
    | inr e ↦ elim (Option-cases (planning_rule f)) [
      | inl none_found ↦ absurd (cc (rw (e, none_found) at h))
      | inr (rule, found) ↦
          find-All (λ (r : MigrationRule). r.throws context ≡ true → target_test context ≡ none)
            (λ (r : MigrationRule). r.supports f) migration_rules found
            (migration_rules-throw context) (rw (e, found) at h)
    ]
  ]

  -- If the rule of any finding throws, the target's key is no pattern.
  pub throws_any-refused :
      (fs : List PlannedFinding) → any (throws_on context) fs ≡ true → target_test context ≡ none
  throws_any-refused [] h = cc
  throws_any-refused (f ∷ fs) h = elim (Bool-cases (throws_on context f)) [
    | inl e ↦ throws_on-refused f e
    | inr e ↦ throws_any-refused fs (rw e at h)
  ]

  drafts_of_pass : (f : PlannedFinding) → is_pass f.status ≡ true → drafts_of context f ≡ []
  unfolding drafts_of
  drafts_of_pass f h = rw h

  drafts_of-IsPlanned : (f : PlannedFinding) → All (IsPlanned context) (drafts_of context f)
  drafts_of-IsPlanned f = elim (Bool-cases (is_pass f.status)) [
    | inl done ↦ rw (drafts_of_pass f done) tt
    | inr left ↦ WritesProper-IsPlanned f (drafts_of context f) (drafts_of_cases f left)
  ]

  drafts_for-IsPlanned :
      (fs : List PlannedFinding) → All (IsPlanned context) (drafts_for context fs)
  unfolding drafts_for
  drafts_for-IsPlanned [] = tt
  drafts_for-IsPlanned (f ∷ fs) =
      All-append (IsPlanned context) (drafts_of context f) (drafts_for context fs)
        (drafts_of-IsPlanned f) (drafts_for-IsPlanned fs)

  -- Every merged action is proper.
  pub merged-IsPlanned :
      (fs : List PlannedFinding) → All (IsPlanned context) (merge_drafts (drafts_for context fs))
  merged-IsPlanned fs =
      merge_drafts-All (IsPlanned context) combine-IsPlanned (drafts_for context fs)
        (drafts_for-IsPlanned fs)

  -- The finding is named by an action.
  abbrev pub names_finding : String → MigrationActionDraft → Bool
  names_finding id a = elem id a.finding_ids

  WritesProper-names :
      (f : PlannedFinding) (actions : List MigrationActionDraft)
      → WritesProper f context actions
      → any (names_finding f.id) actions ≡ true
  WritesProper-names f [] w = absurd w
  WritesProper-names f (a ∷ rest) w = rw w.0.names_finding (rw (===_refl f.id) refl)

  -- If no merged action names a finding, no draft did.
  merged_unnamed :
      (id key : String) (actions : List MigrationActionDraft)
      → any (names_finding id) actions ≡ false
      → any (carries (λ a. a.finding_ids) (λ a b. refl) id key) actions ≡ false
  merged_unnamed id key [] h = refl
  merged_unnamed id key (a ∷ rest) h = ground (arith, merged_unnamed id key rest)

  draft_named :
      (id : String) (actions : List MigrationActionDraft)
      → any (names_finding id) actions ≡ true
      → (key : String) × (any (carries (λ a. a.finding_ids) (λ a b. refl) id key) actions ≡ true)
  draft_named id [] h = cc
  draft_named id (a ∷ rest) h = elim (Bool-cases (names_finding id a)) [
    | inl here ↦ (a.key, rw (here, ===_refl a.key) refl)
    | inr later ↦
        let (key, found) = draft_named id rest (rw later at h) in (key, rw found (ground arith))
  ]

  merge_drafts-names :
      (id : String) (drafts : List MigrationActionDraft)
      → any (names_finding id) drafts ≡ true
      → any (names_finding id) (merge_drafts drafts) ≡ true
  merge_drafts-names id drafts h =
      let (key, found) = draft_named id drafts h in
      elim (Bool-cases (any (names_finding id) (merge_drafts drafts))) [
        | inl named ↦ named
        | inr unnamed ↦ cc (
          merged_unnamed id key (merge_drafts drafts) unnamed,
          merge_drafts-carries (λ a. a.finding_ids) (λ a b. refl) id key drafts,
          found,
        )
      ]

  -- Each finding that does not pass, as the drafts and the merged actions name it.
  abbrev pub Covers : List MigrationActionDraft → List PlannedFinding → Type 0
  Covers actions =
      All
        (λ (f : PlannedFinding). is_pass f.status ≡ false → any (names_finding f.id) actions ≡ true)

  Covers-more :
      (before actions : List MigrationActionDraft) (fs : List PlannedFinding)
      → Covers actions fs
      → Covers (before ++ actions) fs
  Covers-more before actions [] h = tt
  Covers-more before actions (f ∷ fs) h = (
    λ left. ground (arith, h.0 left, any-append (names_finding f.id) before actions),
    Covers-more before actions fs h.1,
  )

  drafts_for-Covers : (fs : List PlannedFinding) → Covers (drafts_for context fs) fs
  unfolding drafts_for
  drafts_for-Covers [] = tt
  drafts_for-Covers (f ∷ fs) = (
    λ left. ground (
      arith,
      any-append (names_finding f.id) (drafts_of context f) (drafts_for context fs),
      WritesProper-names f (drafts_of context f) (drafts_of_cases f left),
    ),
    Covers-more (drafts_of context f) (drafts_for context fs) fs (drafts_for-Covers fs),
  )

  Covers-merge :
      (drafts : List MigrationActionDraft) (fs : List PlannedFinding)
      → Covers drafts fs
      → Covers (merge_drafts drafts) fs
  Covers-merge drafts [] h = tt
  Covers-merge drafts (f ∷ fs) h =
      (λ left. merge_drafts-names f.id drafts (h.0 left), Covers-merge drafts fs h.1)

  -- No finding that does not pass is lost before the ordering.
  pub merged-Covers : (fs : List PlannedFinding) → Covers (merge_drafts (drafts_for context fs)) fs
  merged-Covers fs = Covers-merge (drafts_for context fs) fs (drafts_for-Covers fs)
