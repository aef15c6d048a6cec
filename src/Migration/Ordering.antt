-- ===== src/Migration/Ordering.antt =====
-- packages/migration/src/ordering.ts
pub mod Sorting
pub mod Places
use Prim.Native.Nat.{compare, Ordering}
use chain_port.Prelude.{
  ℕ, suc, ◌+◌, String, Bool, Option, none, some, List, [], ◌∷◌, map, lookup, insert, or_else,
  Result, ok, err,
}
use chain_port.Shared.Enums.{MigrationAutomationLevel, stage_index}
use chain_port.Migration.Types.{MigrationActionDraft, OrderedMigrationAction}
use chain_port.Migration.Dependencies.{Dependency, MigrationError, topological_order}

abbrev pub automation_rank : MigrationAutomationLevel → ℕ
automation_rank MigrationAutomationLevel.blocked = 0
automation_rank MigrationAutomationLevel.unknown = 1
automation_rank MigrationAutomationLevel.manual = 2
automation_rank MigrationAutomationLevel.review_required = 3
automation_rank MigrationAutomationLevel.safe_automatic = 4

-- `first || second`, and `if (first !== 0) return first; ...`, on the sign of a difference.
abbrev pub or_compare : Ordering → Ordering → Ordering
or_compare Ordering.eq second = second
or_compare Ordering.lt second = Ordering.lt
or_compare Ordering.gt second = Ordering.gt

-- `new Map(keys.map((key, index) => [key, index]))`
pub index_map : ℕ → List String → List (String × ℕ) → List (String × ℕ)
index_map i [] m = m
index_map i (key ∷ rest) m = index_map (suc i) rest (insert key i m)

-- The last `map`, from the index `i`.
pub number_from : List (String × ℕ) → ℕ → List MigrationActionDraft → List OrderedMigrationAction
number_from topo_index i [] = []
number_from topo_index i (action ∷ rest) =
    record {
      action = action;
      display_order = i;
      dependency_order = or_else (lookup action.key topo_index) i;
    }
    ∷ number_from topo_index (suc i) rest

-- `left.localeCompare(right)` is the runtime's, by its locale.
module _ (locale_compare : String → String → Ordering) where
  abbrev pub compare_actions : MigrationActionDraft → MigrationActionDraft → Ordering
  compare_actions left right =
      or_compare
        (compare (automation_rank left.automation_level) (automation_rank right.automation_level))
        (or_compare (compare (stage_index left.stage) (stage_index right.stage))
          (or_compare (locale_compare left.title right.title) (locale_compare left.key right.key)))

  -- `sort` is stable: an action goes behind the later ones that are smaller, and no further.
  pub insert_sorted : MigrationActionDraft → List MigrationActionDraft → List MigrationActionDraft
  insert_sorted a [] = a ∷ []
  insert_sorted a (b ∷ rest) =
      let later = b ∷ insert_sorted a rest in
      elim (compare_actions a b) [ Ordering.gt ↦ later | _ ↦ a ∷ b ∷ rest ]

  pub sort_actions : List MigrationActionDraft → List MigrationActionDraft
  unfolding insert_sorted
  sort_actions [] = []
  sort_actions (a ∷ rest) = insert_sorted a (sort_actions rest)

  pub finish_order :
      List MigrationActionDraft
      → Option (Result MigrationError (List String))
      → Option (Result MigrationError (List OrderedMigrationAction))
  unfolding sort_actions index_map number_from
  finish_order actions none = none
  finish_order actions (some (err e)) = some (err e)
  finish_order actions (some (ok topo)) =
      some (ok (number_from (index_map 0 topo []) 0 (sort_actions actions)))

  unfoldable pub order_actions :
      List MigrationActionDraft
      → List Dependency
      → Option (Result MigrationError (List OrderedMigrationAction))
  unfolding finish_order topological_order
  order_actions actions dependencies =
      finish_order actions (topological_order (map (λ a. a.key) actions) dependencies)
