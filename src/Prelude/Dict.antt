-- ===== src/Prelude/Dict.antt =====
-- A `Map` with string keys: its entries in the order of their first insertion.
use Prim.Native.String.{String}
use mathlib.Core.Path.{◌≡◌, refl, sym, subst}
use mathlib.Core.Option.{Option, none, some}
use mathlib.Core.List.{List, [], ◌∷◌, ◌++◌}
use native.Mathlib.Omega.{arith}
use text.Mathlib.TextEquality.{eq_iff}
use chain_port.Prelude.Tests.{◌===◌, Bool-cases, if◌then◌else◌}
use chain_port.Prelude.Counts.{elem, IsNodup, count-append, elem-count}
use chain_port.Prelude.Lists.{All}
use mathlib.Core.Logic.{inl, inr}

module _ {ℓ} {V : Type ℓ} where
  -- `map.get(k)`
  abbrev pub lookup : String → List (String × V) → Option V
  lookup k [] = none
  lookup k ((j, v) ∷ m) = let rest = lookup k m in if j === k then some v else rest

  -- `map.set(k, v)`: a key that is there keeps its place.
  abbrev pub insert : String → V → List (String × V) → List (String × V)
  insert k v [] = (k, v) ∷ []
  insert k v ((j, w) ∷ m) = let rest = (j, w) ∷ insert k v m in if j === k then (j, v) ∷ m else rest

  -- `[...map.values()]`
  abbrev pub values : List (String × V) → List V
  values [] = []
  values ((k, v) ∷ m) = v ∷ values m

  abbrev pub keys : List (String × V) → List String
  keys [] = []
  keys ((k, v) ∷ m) = k ∷ keys m

  pub lookup-insert :
      (k j : String) (v : V) (m : List (String × V))
      → lookup j (insert k v m) ≡ (if k === j then some v else lookup j m)
  lookup-insert k j v [] = refl
  lookup-insert k j v ((i, w) ∷ m) =
      ground (arith, eq_iff k j, eq_iff i k, eq_iff i j, lookup-insert k j v m)

  pub keys-insert :
      (k : String) (v : V) (m : List (String × V))
      → keys (insert k v m) ≡ (if elem k (keys m) then keys m else keys m ++ k ∷ [])
  keys-insert k v [] = refl
  keys-insert k v ((j, w) ∷ m) = ground (arith, keys-insert k v m)

  pub insert-IsNodup :
      (k : String) (v : V) (m : List (String × V))
      → IsNodup (keys m)
      → IsNodup (keys (insert k v m))
  insert-IsNodup k v m nodup j = ground (
    arith,
    keys-insert k v m,
    nodup j,
    nodup k,
    count-append j (keys m) (k ∷ []),
    elem-count k (keys m),
    eq_iff k j,
  )

  -- A predicate of all entries, through a write and a read.
  pub insert-All {κ} :
      (P : String × V → Type κ) (k : String) (v : V) (m : List (String × V))
      → P (k, v)
      → All P m
      → All P (insert k v m)
  insert-All P k v [] p h = (p, tt)
  insert-All P k v ((j, w) ∷ m) p h = elim (Bool-cases (j === k)) [
    | inl e ↦ rw e (subst (λ x. P (x, v)) (sym ((eq_iff j k).0 e)) p, h.1)
    | inr e ↦ rw e (h.0, insert-All P k v m p h.1)
  ]

  pub lookup-All {κ} :
      (P : String × V → Type κ) (k : String) {v : V} (m : List (String × V))
      → lookup k m ≡ some v
      → All P m
      → P (k, v)
  lookup-All P k {v = v} [] e h = cc
  lookup-All P k {v = v} ((j, w) ∷ m) e h = elim (Bool-cases (j === k)) [
    | inl same ↦
        let w≡v : w ≡ v = cc (rw same at e) in
        subst (λ x. P (k, x)) w≡v (subst (λ x. P (x, w)) ((eq_iff j k).0 same) h.0)
    | inr other ↦ lookup-All P k m (rw other at e) h.1
  ]
