-- ===== src/Migration/Engine/Edges.antt =====
-- The edges between the actions of a plan all come from the action that replaces the chain ID, and
-- so have no cycle.
use chain_port.Prelude.{
  ℕ, ◌<◌, ◌≡◌, ◌≢◌, refl, Bool-cases, inl, inr, String, true, not, ◌&&◌, List, [], ◌∷◌, ◌++◌, All,
  elem, if◌then◌else◌, ◌===◌, arith, eq_iff,
}
use chain_port.Migration.Types.{MigrationActionDraft}
use chain_port.Migration.Dependencies.{Dependency}
use chain_port.Migration.Dependencies.Order.{IsRanked}
use chain_port.Migration.Engine.{dependencies_of, resolved_dependencies}

-- The one key that others depend on stands below all others.
abbrev pub chain_rank : String → String → ℕ
chain_rank chain k = if k === chain then 0 else 1

IsRanked-append :
    (keys : List String) (rank : String → ℕ) (xs ys : List Dependency)
    → IsRanked keys rank xs
    → IsRanked keys rank ys
    → IsRanked keys rank (xs ++ ys)
IsRanked-append keys rank [] ys h k = k
IsRanked-append keys rank (x ∷ xs) ys h k = (h.0, IsRanked-append keys rank xs ys h.1 k)

module _ (chain : String) (keys : List String) where
  dependencies_of-IsRanked :
      (key : String) (on : List String)
      → All (λ k. k ≡ chain) on
      → IsRanked keys (chain_rank chain) (dependencies_of keys key on)
  unfolding dependencies_of
  dependencies_of-IsRanked key [] h = tt
  dependencies_of-IsRanked key (x ∷ on) h = ground (
    arith,
    h.0,
    dependencies_of-IsRanked key on h.1,
    eq_iff x key,
    eq_iff key chain,
    eq_iff x chain,
  )

  pub resolved_dependencies-IsRanked :
      (actions : List MigrationActionDraft)
      → All (λ (a : MigrationActionDraft). All (λ k. k ≡ chain) a.depends_on_keys) actions
      → IsRanked keys (chain_rank chain) (resolved_dependencies keys actions)
  unfolding resolved_dependencies
  resolved_dependencies-IsRanked [] h = tt
  resolved_dependencies-IsRanked (a ∷ rest) h =
      IsRanked-append keys (chain_rank chain) (dependencies_of keys a.key a.depends_on_keys)
        (resolved_dependencies keys rest) (dependencies_of-IsRanked a.key a.depends_on_keys h.0)
        (resolved_dependencies-IsRanked rest h.1)

-- What the action depends on, among the keys and beside itself, has a lower place.
abbrev pub DependsUp : List String → (String → ℕ) → MigrationActionDraft → Type 0
DependsUp keys place a =
    All (λ on. elem on keys ≡ true → on ≢ a.key → place on < place a.key) a.depends_on_keys

module _ (keys : List String) (place : String → ℕ) where
  IsRanked-split :
      (xs ys : List Dependency)
      → IsRanked keys place (xs ++ ys)
      → IsRanked keys place xs × IsRanked keys place ys
  IsRanked-split [] ys h = (tt, h)
  IsRanked-split (x ∷ xs) ys h =
      let (left, right) = IsRanked-split xs ys h.1 in ((h.0, left), right)

  DependsUp-of_IsRanked :
      (key : String) (on : List String)
      → elem key keys ≡ true
      → IsRanked keys place (dependencies_of keys key on)
      → All (λ x. elem x keys ≡ true → x ≢ key → place x < place key) on
  unfolding dependencies_of
  DependsUp-of_IsRanked key [] known h = tt
  DependsUp-of_IsRanked key (x ∷ on) known h = elim (Bool-cases (elem x keys && not (x === key))) [
    | inl e ↦
        let both = rw e at h in
        (
          λ x_known other. both.0 (rw (known, x_known) refl),
          DependsUp-of_IsRanked key on known both.1,
        )
    | inr e ↦ (
      λ x_known other. absurd (other ((eq_iff x key).0 (ground arith))),
      DependsUp-of_IsRanked key on known (rw e at h),
    )
  ]

  pub resolved_dependencies-DependsUp :
      (actions : List MigrationActionDraft)
      → All (λ (a : MigrationActionDraft). elem a.key keys ≡ true) actions
      → IsRanked keys place (resolved_dependencies keys actions)
      → All (DependsUp keys place) actions
  unfolding resolved_dependencies
  resolved_dependencies-DependsUp [] known h = tt
  resolved_dependencies-DependsUp (a ∷ rest) known h =
      let (here, later) =
        IsRanked-split (dependencies_of keys a.key a.depends_on_keys)
          (resolved_dependencies keys rest) h in
      (
        DependsUp-of_IsRanked a.key a.depends_on_keys known.0 here,
        resolved_dependencies-DependsUp rest known.1 later,
      )
