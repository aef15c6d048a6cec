-- ===== src/Migration/Ordering/Places.antt =====
-- The two numbers that `orderActions` gives an action.
use chain_port.Prelude.{
  ℕ, suc, ◌+◌, ◌≤◌, ◌≡◌, refl, String, true, some, List, [], ◌∷◌, map, All, lookup, insert,
  lookup-insert, elem, count, elem-count, if◌then◌else◌, arith,
}
use chain_port.Migration.Types.{MigrationActionDraft, OrderedMigrationAction}
use chain_port.Migration.Dependencies.Release.{index_of}
use chain_port.Migration.Ordering.{index_map, number_from}

-- On distinct keys the map sends a key to its place.
lookup-index_map :
    (k : String) (i : ℕ) (topo : List String) (m : List (String × ℕ))
    → count k topo ≤ 1
    → lookup k (index_map i topo m)
      ≡ (if elem k topo then some (i + index_of k topo) else lookup k m)
unfolding index_map
lookup-index_map k i [] m h = refl
lookup-index_map k i (x ∷ topo) m h = ground (
  arith,
  lookup-index_map k (suc i) topo (insert x i m),
  lookup-insert x k i m,
  elem-count k topo,
)

-- Each action with its place in the list, and its key's place in `topo`.
abbrev pub PlacedAt : (String → ℕ) → ℕ → List OrderedMigrationAction → Type 0
PlacedAt place i [] = Unit
PlacedAt place i (a ∷ rest) =
    (a.display_order ≡ i) × (a.dependency_order ≡ place a.action.key) × PlacedAt place (suc i) rest

pub number_from-action :
    (m : List (String × ℕ)) (i : ℕ) (xs : List MigrationActionDraft)
    → map (λ a. a.action) (number_from m i xs) ≡ xs
unfolding number_from
number_from-action m i [] = refl
number_from-action m i (x ∷ xs) = cc (number_from-action m (suc i) xs)

pub number_from-PlacedAt :
    (topo : List String) (i : ℕ) (xs : List MigrationActionDraft)
    → ((k : String) → count k topo ≤ 1)
    → All (λ a. elem a.key topo ≡ true) xs
    → PlacedAt (λ k. index_of k topo) i (number_from (index_map 0 topo []) i xs)
unfolding number_from
number_from-PlacedAt topo i [] nodup known = tt
number_from-PlacedAt topo i (x ∷ xs) nodup known = (
  refl,
  ground (arith, known.0, lookup-index_map x.key 0 topo [] (nodup x.key)),
  number_from-PlacedAt topo (suc i) xs nodup known.1,
)
