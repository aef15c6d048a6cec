-- ===== src/Migration/Dependencies/Loading.antt =====
-- What the two maps of `topologicalOrder` hold once they are filled.
use chain_port.Prelude.{
  ℕ, suc, ◌+◌, ◌≡◌, refl, String, Bool, not, ◌&&◌, none, some, List, [], ◌∷◌, ◌++◌, elem, lookup,
  insert, lookup-insert, if◌then◌else◌, ◌===◌, pos, arith, eq_iff,
}
use mathlib.Core.List.{append-nil, append_assoc}
use chain_port.Migration.Dependencies.{Dependency, Graph, add_keys, add_edge, add_edges, build}

-- Both ends of the edge are among the keys.
abbrev pub is_resolved : List String → Dependency → Bool
is_resolved keys e = elem e.action_key keys && elem e.depends_on_key keys

-- How many resolved edges lead to `key` from a key that is not in `done`.
abbrev pub indegree : List String → List String → String → List Dependency → ℕ
indegree keys done key [] = 0
indegree keys done key (e ∷ es) =
    (if is_resolved keys e && (e.action_key === key) && not (elem e.depends_on_key done)
      then 1
      else 0)
    + indegree keys done key es

-- The actions behind the resolved edges out of `key`.
abbrev pub targets : List String → String → List Dependency → List String
targets keys key [] = []
targets keys key (e ∷ es) =
    let rest = targets keys key es in
    if is_resolved keys e && (e.depends_on_key === key) then e.action_key ∷ rest else rest

-- The map holds `f key` at each of the keys, and nothing else.
abbrev pub Holds {ℓ} : {V : Type ℓ} → List String → (String → V) → List (String × V) → Type ℓ
Holds keys f m = (k : String) → lookup k m ≡ (if elem k keys then some (f k) else none)

add_keys_incoming :
    (keys : List String) (g : Graph) (k : String)
    → lookup k (add_keys keys g).incoming
      ≡ (if elem k keys then some (pos 0) else lookup k g.incoming)
unfolding add_keys
add_keys_incoming [] g k = refl
add_keys_incoming (key ∷ keys) g k = ground (
  arith,
  add_keys_incoming keys
      (record { incoming = insert key (pos 0) g.incoming; outgoing = insert key [] g.outgoing }) k,
  lookup-insert key k (pos 0) g.incoming,
  eq_iff key k,
)

add_keys_outgoing :
    (keys : List String) (g : Graph) (k : String)
    → lookup k (add_keys keys g).outgoing ≡ (if elem k keys then some [] else lookup k g.outgoing)
unfolding add_keys
add_keys_outgoing [] g k = refl
add_keys_outgoing (key ∷ keys) g k = ground (
  arith,
  add_keys_outgoing keys
      (record { incoming = insert key (pos 0) g.incoming; outgoing = insert key [] g.outgoing }) k,
  lookup-insert {V = List String} key k [] g.outgoing,
  eq_iff key k,
)

module _ (keys : List String) where
  abbrev arrivals : Dependency → String → ℕ
  arrivals e k = if is_resolved keys e && (e.action_key === k) then 1 else 0

  abbrev departures : Dependency → String → List String
  departures e k = if is_resolved keys e && (e.depends_on_key === k) then e.action_key ∷ [] else []

  add_edge_incoming :
      (e : Dependency) (g : Graph) (f : String → ℕ)
      → Holds keys (λ k. pos (f k)) g.incoming
      → Holds keys (λ k. pos (arrivals e k + f k)) (add_edge keys e g).incoming
  unfolding add_edge
  add_edge_incoming e g f h k = ground (
    arith,
    h e.action_key,
    h k,
    lookup-insert e.action_key k (pos (suc (f e.action_key))) g.incoming,
    eq_iff e.action_key k,
  )

  add_edge_outgoing :
      (e : Dependency) (g : Graph) (f : String → List String)
      → Holds keys f g.outgoing
      → Holds keys (λ k. f k ++ departures e k) (add_edge keys e g).outgoing
  unfolding add_edge
  add_edge_outgoing e g f h k = ground (
    arith,
    h e.depends_on_key,
    h k,
    append-nil (f k),
    lookup-insert e.depends_on_key k (f e.depends_on_key ++ e.action_key ∷ []) g.outgoing,
    eq_iff e.depends_on_key k,
  )

  add_edges_incoming :
      (es : List Dependency) (g : Graph) (f : String → ℕ)
      → Holds keys (λ k. pos (f k)) g.incoming
      → Holds keys (λ k. pos (indegree keys [] k es + f k)) (add_edges keys es g).incoming
  unfolding add_edges
  add_edges_incoming [] g f h k = ground (arith, h k)
  add_edges_incoming (e ∷ es) g f h k = ground (
    arith,
    add_edges_incoming es (add_edge keys e g) (λ j. arrivals e j + f j) (add_edge_incoming e g f h)
        k,
  )

  add_edges_outgoing :
      (es : List Dependency) (g : Graph) (f : String → List String)
      → Holds keys f g.outgoing
      → Holds keys (λ k. f k ++ targets keys k es) (add_edges keys es g).outgoing
  unfolding add_edges
  add_edges_outgoing [] g f h k = ground (arith, h k, append-nil (f k))
  add_edges_outgoing (e ∷ es) g f h k = ground (
    arith,
    append-nil (f k),
    append_assoc (f k) (e.action_key ∷ []) (targets keys k es),
    add_edges_outgoing es (add_edge keys e g) (λ j. f j ++ departures e j)
        (add_edge_outgoing e g f h) k,
  )

  module _ (es : List Dependency) where
    -- Each counter holds the number of resolved edges into its key.
    pub build_incoming : Holds keys (λ k. pos (indegree keys [] k es)) (build keys es).incoming
    unfolding build
    build_incoming k = ground (
      arith,
      add_edges_incoming es (add_keys keys (record { incoming = []; outgoing = [] })) (λ _. 0)
          (add_keys_incoming keys (record { incoming = []; outgoing = [] })) k,
    )

    -- Each list holds the actions behind the resolved edges out of its key.
    pub build_outgoing : Holds keys (λ k. targets keys k es) (build keys es).outgoing
    unfolding build
    build_outgoing =
        add_edges_outgoing es (add_keys keys (record { incoming = []; outgoing = [] })) (λ _. [])
          (add_keys_outgoing keys (record { incoming = []; outgoing = [] }))
