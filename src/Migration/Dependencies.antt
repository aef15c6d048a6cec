-- ===== src/Migration/Dependencies.antt =====
-- packages/migration/src/dependencies.ts: Kahn's ordering of the actions of a plan.
pub mod Loading
pub mod Release
pub mod Order
use chain_port.Prelude.{
  ℕ, zero, suc, ◌+◌, ◌≡◌, String, Bool, not, ◌||◌, Option, none, some, List, [], ◌∷◌, ◌++◌, length,
  filter, elem, lookup, insert, if◌then◌else◌, ◌==◌, or_else, ℤ, pos, add_one, sub_one, is_zero,
  Result, ok, err,
}

pub record Dependency : Type 0 where
  pub action_key : String
  pub depends_on_key : String

-- What `createMigrationPlan` may throw: the error of a cycle, or the SyntaxError of `new RegExp`.
pub data MigrationError : Type 0 where
  cyclic_migration_dependency invalid_reg_exp : MigrationError

abbrev pub Counters : Type 0
Counters = List (String × ℤ)

-- The two maps that the function fills.
pub record Graph : Type 0 where
  pub incoming : Counters
  pub outgoing : List (String × List String)

-- The loop over `keys`.
add_keys : List String → Graph → Graph
add_keys [] g = g
add_keys (key ∷ keys) g =
    add_keys keys
      (record { incoming = insert key (pos 0) g.incoming; outgoing = insert key [] g.outgoing })

-- `outgoing.get(key)?.push(value)`
push_at : String → String → List (String × List String) → List (String × List String)
push_at key value m = elim (lookup key m) [ none ↦ m | some l ↦ insert key (l ++ value ∷ []) m ]

-- The body of the loop over `dependencies`.
add_edge : List String → Dependency → Graph → Graph
unfolding push_at
add_edge keys edge g =
    if not (elem edge.action_key keys) || not (elem edge.depends_on_key keys) then g else (record {
      incoming =
          insert edge.action_key (add_one (or_else (lookup edge.action_key g.incoming) (pos 0)))
            g.incoming;
      outgoing = push_at edge.depends_on_key edge.action_key g.outgoing;
    })

add_edges : List String → List Dependency → Graph → Graph
add_edges keys [] g = g
add_edges keys (edge ∷ edges) g = add_edges keys edges (add_edge keys edge g)

-- The inner loop: the counters and the queue after the edges out of one key are taken away.
pub release : List String → Counters → List String → Counters × List String
release [] incoming queue = (incoming, queue)
release (next ∷ rest) incoming queue =
    let remaining = sub_one (or_else (lookup next incoming) (pos 0)) in
    release rest (insert next remaining incoming)
      (if is_zero remaining then queue ++ next ∷ [] else queue)

-- The `while` loop, one unit of fuel for each key taken from the queue. `none`: the fuel is spent.
pub drain :
    ℕ → List (String × List String) → Counters → List String → List String → Option (List String)
drain fuel outgoing incoming [] ordered = some ordered
drain zero outgoing incoming (current ∷ queue) ordered = none
drain (suc fuel) outgoing incoming (current ∷ queue) ordered =
    let (incoming', queue') = release (or_else (lookup current outgoing) []) incoming queue in
    drain fuel outgoing incoming' queue' (ordered ++ current ∷ [])

-- The last test, on what the loop has ordered.
pub finish : List String → Option (List String) → Option (Result MigrationError (List String))
finish keys none = none
finish keys (some ordered) =
    some (if length ordered == length keys then ok ordered else err cyclic_migration_dependency)

pub build : List String → List Dependency → Graph
unfolding add_keys add_edges add_edge
build keys edges = add_edges keys edges (add_keys keys (record { incoming = []; outgoing = [] }))

pub start_queue : List String → Counters → List String
start_queue keys incoming = filter (λ key. is_zero (or_else (lookup key incoming) (pos 0))) keys

-- The fuel is the number of keys.
unfoldable pub topological_order :
    List String → List Dependency → Option (Result MigrationError (List String))
unfolding build start_queue drain release finish
topological_order keys edges =
    let g = build keys edges in
    finish keys (drain (length keys) g.outgoing g.incoming (start_queue keys g.incoming) [])
