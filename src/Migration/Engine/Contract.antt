-- ===== src/Migration/Engine/Contract.antt =====
-- What `createMigrationPlan` returns.
use Prim.Native.Nat.{Ordering}
use chain_port.Prelude.{
  ℕ, ◌≤◌, ◌<◌, ◌≡◌, ◌≢◌, refl, ap, ◌∙◌, subst, String, some, List, [], ◌∷◌, map, All, All-map, elem,
  count, elem-count, IsNodup, ok, err, none, true, false, Bool, any, Bool-cases, ◌⊎◌, inl, inr,
  ===_refl, arith, ◌==◌, ◌&&◌, ltb,
}
use chain_port.Migration.Types.{
  PlannedFinding, PlanContext, MigrationActionDraft, OrderedMigrationAction, MigrationPlanResult,
}
use chain_port.Migration.Action.{chain_id_key}
use chain_port.Migration.Rules.EnvConfig.{target_test}
use chain_port.Migration.Dependencies.{Dependency, invalid_reg_exp, topological_order}
use chain_port.Migration.Dependencies.Release.{index_of}
use chain_port.Migration.Dependencies.Order.{IsOrder, topological_order-ok}
use chain_port.Migration.Dedupe.{merge_drafts}
use chain_port.Migration.Dedupe.Laws.{merge_drafts-IsNodup}
use chain_port.Migration.Ordering.{
  index_map, number_from, sort_actions, order_actions, finish_order,
}
use chain_port.Migration.Ordering.Sorting.{
  IsRankSorted, sort_actions-IsRankSorted, sort_actions-All, sort_actions-any, sort_actions-count,
}
use chain_port.Migration.Ordering.Places.{PlacedAt, number_from-PlacedAt, number_from-action}
use chain_port.Migration.Status.{count_actions, determine_plan_outcome, auto_fixable_percent}
use chain_port.Migration.Engine.{
  throws_on, drafts_for, resolved_dependencies, keys_of, plan_result, create_migration_plan,
}
use chain_port.Migration.Engine.Drafts.{
  IsPlanned, merged-IsPlanned, names_finding, Covers, merged-Covers, throws_any-refused,
}
use chain_port.Migration.Engine.Edges.{
  chain_rank, DependsUp, resolved_dependencies-IsRanked, resolved_dependencies-DependsUp,
}

-- The actions of a plan, without their numbers.
abbrev pub drafts_in : MigrationPlanResult → List MigrationActionDraft
drafts_in plan = map (λ a. a.action) plan.actions

keys_known :
    (xs : List MigrationActionDraft) (ks : List String)
    → ((k : String) → count k (keys_of xs) ≤ count k ks)
    → All (λ (a : MigrationActionDraft). elem a.key ks ≡ true) xs
keys_known [] ks h = tt
keys_known (a ∷ xs) ks h = (
  ground (arith, h a.key, ===_refl a.key, elem-count a.key ks),
  keys_known xs ks (λ k. ground (arith, h k)),
)

DependsUp-keys :
    (place : String → ℕ) (a : MigrationActionDraft) (few many : List String)
    → ((k : String) → count k few ≤ count k many)
    → DependsUp many place a
    → DependsUp few place a
DependsUp-keys place a few many le =
    All-map (λ on. elem on many ≡ true → on ≢ a.key → place on < place a.key)
      (λ on. elem on few ≡ true → on ≢ a.key → place on < place a.key) a.depends_on_keys
      (λ on up known. up (ground (arith, le on, elem-count on few, elem-count on many)))

module _ (locale_compare : String → String → Ordering) (context : PlanContext)
    (findings : List PlannedFinding) where
  abbrev merged : List MigrationActionDraft
  merged = merge_drafts (drafts_for context findings)

  abbrev edges : List Dependency
  edges = resolved_dependencies (keys_of merged) merged

  depends_on_chain :
      (xs : List MigrationActionDraft)
      → All (IsPlanned context) xs
      → All (λ (a : MigrationActionDraft). All (λ k. k ≡ chain_id_key context) a.depends_on_keys) xs
  depends_on_chain [] h = tt
  depends_on_chain (a ∷ xs) h = (h.0.depends_on_chain_id, depends_on_chain xs h.1)

  -- The order of the keys that the plan is numbered by.
  topo :
      (o : List String) × (topological_order (keys_of merged) edges ≡ some (ok o))
      × IsOrder (keys_of merged) edges o
  topo =
      topological_order-ok (keys_of merged) edges (chain_rank (chain_id_key context))
        (merge_drafts-IsNodup (drafts_for context findings))
        (resolved_dependencies-IsRanked (chain_id_key context) (keys_of merged) merged
          (depends_on_chain merged (merged-IsPlanned context findings)))

  abbrev numbered : List OrderedMigrationAction
  numbered = number_from (index_map 0 topo.0 []) 0 (sort_actions locale_compare merged)

  ordered : order_actions locale_compare merged edges ≡ some (ok numbered)
  unfolding order_actions
  ordered = ap (finish_order locale_compare merged) topo.1

  -- The fields that the plan is made of.
  record IsMade (plan : MigrationPlanResult) : Type 0 where
    actions_made : plan.actions ≡ numbered
    counts_made : plan.counts ≡ count_actions (drafts_in plan)
    outcome_made : plan.outcome ≡ determine_plan_outcome plan.counts
    percent_made : plan.auto_fixable_percent ≡ auto_fixable_percent plan.counts
    ready_made : plan.migration_ready ≡ ((plan.counts.blocked == 0) && (plan.counts.unknown == 0))
    verification_made : plan.verification_required ≡ ltb 0 plan.counts.unknown

  unthrown :
      any (throws_on context) findings ≡ false
      → create_migration_plan locale_compare context findings
        ≡ plan_result edges (order_actions locale_compare merged edges)
  unfolding create_migration_plan
  unthrown h = rw h refl

  module _ (returned : any (throws_on context) findings ≡ false) where
    made :
        (plan : MigrationPlanResult) × (create_migration_plan locale_compare context findings
          ≡ some (ok plan))
        × IsMade plan
    unfolding create_migration_plan
    made =
        let e = unthrown returned ∙ ap (plan_result edges) ordered in
        (
          _,
          e,
          record {
            actions_made = refl;
            counts_made = refl;
            outcome_made = refl;
            percent_made = refl;
            ready_made = refl;
            verification_made = refl;
          },
        )

  thrown :
      any (throws_on context) findings ≡ true
      → create_migration_plan locale_compare context findings ≡ some (err invalid_reg_exp)
  unfolding create_migration_plan
  thrown h = rw h refl

  IsMade_of :
      (plan : MigrationPlanResult)
      → create_migration_plan locale_compare context findings ≡ some (ok plan)
      → IsMade plan
  IsMade_of plan e = elim (Bool-cases (any (throws_on context) findings)) [
    | inl h ↦ absurd (cc (e, thrown h))
    | inr h ↦ let (p, made_p, is_made) = made h in subst IsMade (cc (e, made_p)) is_made
  ]

  -- The plan is made, unless `new RegExp` throws on the target's key.
  pub create_migration_plan_total :
      ((plan : MigrationPlanResult) × (create_migration_plan locale_compare context findings
          ≡ some (ok plan)))
      ⊎ ((create_migration_plan locale_compare context findings ≡ some (err invalid_reg_exp))
          × (target_test context ≡ none))
  create_migration_plan_total = elim (Bool-cases (any (throws_on context) findings)) [
    | inl h ↦ inr (thrown h, throws_any-refused context findings h)
    | inr h ↦ inl ((made h).0, (made h).1)
  ]

  -- The plan is made if `new RegExp` accepts the target's key.
  pub create_migration_plan-returns :
      (test : String → Bool)
      → target_test context ≡ some test
      → (plan : MigrationPlanResult) × (create_migration_plan locale_compare context findings
          ≡ some (ok plan))
  create_migration_plan-returns test accepted = elim create_migration_plan_total [
    | inl returned ↦ returned
    | inr (_, refused) ↦ absurd (cc (accepted, refused))
  ]

  module _ (plan : MigrationPlanResult)
      (returns : create_migration_plan locale_compare context findings ≡ some (ok plan)) where
    drafts_sorted : drafts_in plan ≡ sort_actions locale_compare merged
    drafts_sorted =
        ap (map (λ (a : OrderedMigrationAction). a.action)) (IsMade_of plan returns).actions_made
        ∙ number_from-action (index_map 0 topo.0 []) 0 (sort_actions locale_compare merged)

    Covers-sorted :
        (fs : List PlannedFinding)
        → Covers context merged fs
        → Covers context (sort_actions locale_compare merged) fs
    Covers-sorted [] h = tt
    Covers-sorted (f ∷ fs) h = (
      λ left. sort_actions-any locale_compare (names_finding context f.id) merged ∙ h.0 left,
      Covers-sorted fs h.1,
    )

    -- Every finding that does not pass is named by an action of the plan.
    pub create_migration_plan-Covers : Covers context (drafts_in plan) findings
    create_migration_plan-Covers =
        rw drafts_sorted (Covers-sorted findings (merged-Covers context findings))

    -- Every action is proper.
    pub create_migration_plan-IsPlanned : All (IsPlanned context) (drafts_in plan)
    create_migration_plan-IsPlanned = rw drafts_sorted (
        sort_actions-All locale_compare (IsPlanned context) merged
          (merged-IsPlanned context findings))

    -- The keys are distinct, and the actions stand by rank.
    pub create_migration_plan-sorted :
        IsNodup (keys_of (drafts_in plan)) × IsRankSorted (drafts_in plan)
    create_migration_plan-sorted = rw drafts_sorted (
      λ k.
          rw (sort_actions-count locale_compare k merged)
            (merge_drafts-IsNodup (drafts_for context findings) k),
      sort_actions-IsRankSorted locale_compare merged,
    )

    -- The display orders are the places in the list, and every action has a dependency order above
    -- those of the other actions it depends on.
    pub create_migration_plan-placed :
        (place : String → ℕ) × PlacedAt place 0 plan.actions
        × All (DependsUp (keys_of (drafts_in plan)) place) (drafts_in plan)
    create_migration_plan-placed =
        let (o, _, order) = topo in
        let place : String → ℕ = λ k. index_of k o in
        let same : (k : String)
            → count k (keys_of (sort_actions locale_compare merged)) ≡ count k (keys_of merged) =
          λ k. sort_actions-count locale_compare k merged in
        (
          place,
          rw (IsMade_of plan returns).actions_made (
              number_from-PlacedAt o 0 (sort_actions locale_compare merged)
                (λ k.
                  omega (
                    arith,
                    order.same_keys k,
                    merge_drafts-IsNodup (drafts_for context findings) k,
                  ))
                (keys_known (sort_actions locale_compare merged) o
                  (λ k. omega (arith, order.same_keys k, same k)))),
          rw drafts_sorted (
              All-map (DependsUp (keys_of merged) place)
                (DependsUp (keys_of (sort_actions locale_compare merged)) place)
                (sort_actions locale_compare merged)
                (λ a.
                  DependsUp-keys place a (keys_of (sort_actions locale_compare merged))
                    (keys_of merged) (λ k. omega (arith, same k)))
                (sort_actions-All locale_compare (DependsUp (keys_of merged) place) merged (
                  resolved_dependencies-DependsUp (keys_of merged) place merged
                    (keys_known merged (keys_of merged) (λ k. omega arith)) order.sorted))),
        )

    -- The numbers and the verdict of a plan are computed from its own actions.
    pub create_migration_plan-counts :
        (plan.counts ≡ count_actions (drafts_in plan))
        × (plan.outcome ≡ determine_plan_outcome (count_actions (drafts_in plan)))
        × (plan.auto_fixable_percent ≡ auto_fixable_percent (count_actions (drafts_in plan)))
        × (plan.migration_ready ≡ ((plan.counts.blocked == 0) && (plan.counts.unknown == 0)))
        × (plan.verification_required ≡ ltb 0 plan.counts.unknown)
    create_migration_plan-counts =
        let m = IsMade_of plan returns in
        (
          m.counts_made,
          m.outcome_made ∙ ap determine_plan_outcome m.counts_made,
          m.percent_made ∙ ap auto_fixable_percent m.counts_made,
          m.ready_made,
          m.verification_made,
        )
