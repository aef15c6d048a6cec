-- ===== src/Migration/Dependencies/Order.antt =====
-- The contract of `topologicalOrder` on distinct keys: it returns, and it returns an order exactly
-- if the resolved edges have no cycle.
use native.Mathlib.Decide.{ℕ_discrete}
use chain_port.Prelude.{
  ℕ, zero, suc, ◌+◌, ◌≤◌, ◌<◌, ◌≡◌, ◌≢◌, ◌⊎◌, refl, ap, ◌∙◌, String, true, ◌&&◌, some, List, [],
  ◌∷◌, ◌++◌, length, length-append, elem, count, count-append, count-filter, elem-count, IsNodup,
  length-le-of-count, count-eq-of-length, lookup, ◌==◌, or_else, pos, is_zero, arith, eq_iff, ok,
  err, inl, inr,
}
use chain_port.Migration.Dependencies.{
  Dependency, Counters, cyclic_migration_dependency, build, release, start_queue, drain, finish,
  topological_order,
}
use chain_port.Migration.Dependencies.Loading.{
  is_resolved, indegree, targets, Holds, build_incoming, build_outgoing,
}
use chain_port.Migration.Dependencies.Release.{
  one_if, index_of, Respects, Inv, head_facts, release-Inv,
}

-- `rank` puts the source of each resolved edge below its target.
abbrev pub IsRanked : List String → (String → ℕ) → List Dependency → Type 0
IsRanked keys rank [] = Unit
IsRanked keys rank (e ∷ es) =
    (is_resolved keys e ≡ true → rank e.depends_on_key < rank e.action_key) × IsRanked keys rank es

module _ (keys : List String) (es : List Dependency) where
  -- What the `while` loop leaves behind: each key that has no edge from a key that is left out, once.
  pub record Drained (ordered : List String) : Type 0 where
    pub once :
        (k : String) → count k ordered ≡ one_if (elem k keys && (indegree keys ordered k es == 0))
    pub respects : Respects keys ordered es

  count-le-keys :
      (k : String) (ordered : List String) → Drained ordered → count k ordered ≤ count k keys
  count-le-keys k ordered d = ground (arith, d.once k, elem-count k keys)

  module _ (incoming : Counters) (queue ordered : List String)
      (inv : Inv keys es incoming queue ordered) where
    count-le-of_Inv : (k : String) → count k (queue ++ ordered) ≤ count k keys
    count-le-of_Inv k = ground (arith, count-append k queue ordered, inv.once k, elem-count k keys)

    length-le-of_Inv : length (queue ++ ordered) ≤ length keys
    length-le-of_Inv = length-le-of-count (queue ++ ordered) keys count-le-of_Inv

  -- With one unit of fuel for each key that is not ordered yet the loop ends.
  drain_total :
      (fuel : ℕ) (outgoing : List (String × List String)) (incoming : Counters)
      (queue ordered : List String)
      → Holds keys (λ k. targets keys k es) outgoing
      → Inv keys es incoming queue ordered
      → length keys ≤ fuel + length ordered
      → (o : List String) × (drain fuel outgoing incoming queue ordered ≡ some o) × Drained o
  unfolding drain
  drain_total zero outgoing incoming [] ordered out inv enough =
      (ordered, refl, record { once = λ k. ground (arith, inv.once k); respects = inv.respects })
  drain_total (suc fuel) outgoing incoming [] ordered out inv enough =
      (ordered, refl, record { once = λ k. ground (arith, inv.once k); respects = inv.respects })
  drain_total zero outgoing incoming (current ∷ queue) ordered out inv enough = absurd (
      omega (
        arith,
        length-le-of_Inv incoming (current ∷ queue) ordered inv,
        length-append {0} queue ordered,
      ))
  drain_total (suc fuel) outgoing incoming (current ∷ queue) ordered out inv enough =
      let found : or_else (lookup current outgoing) [] ≡ targets keys current es =
        ground (arith, out current, head_facts keys es current queue ordered incoming inv) in
      let (incoming', queue') = release (targets keys current es) incoming queue in
      let (o, e, d) =
        drain_total fuel outgoing incoming' queue' (ordered ++ current ∷ []) out
          (release-Inv keys es current queue ordered incoming inv)
          (omega (arith, length-append {0} ordered (current ∷ []))) in
      (
        o,
        ap
              (λ nexts.
                let (i, q) = release nexts incoming queue in
                drain fuel outgoing i q (ordered ++ current ∷ []))
              found
            ∙ e,
        d,
      )

  Respects-nil : (ds : List Dependency) → Respects keys [] ds
  Respects-nil [] = tt
  Respects-nil (e ∷ ds) = (λ resolved placed. cc, Respects-nil ds)

  start-Inv :
      IsNodup keys
      → let incoming = (build keys es).incoming in
        Inv keys es incoming (start_queue keys incoming) []
  unfolding start_queue
  start-Inv nodup = record {
    counters = build_incoming keys es;
    once = λ k. ground (
      arith,
      count-filter k (λ key. is_zero (or_else (lookup key (build keys es).incoming) (pos 0))) keys,
      build_incoming keys es k,
      nodup k,
      elem-count k keys,
    );
    respects = Respects-nil es;
  }

  -- What the loop leaves behind, for `topological_order` from its start.
  Drained-order :
      IsNodup keys
      → (o : List String) × (topological_order keys es ≡ finish keys (some o)) × Drained o
  unfolding topological_order
  Drained-order nodup =
      let g = build keys es in
      let (o, e, d) =
        drain_total (length keys) g.outgoing g.incoming (start_queue keys g.incoming) []
          (build_outgoing keys es) (start-Inv nodup) (omega arith) in
      (o, ap (finish keys) e, d)

  module _ (rank : String → ℕ) (ordered : List String) where
    -- A key has no edge from a key left out, if all keys of lower rank are ordered.
    no_indegree :
        (ds : List Dependency) (k : String)
        → IsRanked keys rank ds
        → ((j : String) → rank j < rank k → elem j keys ≡ true → elem j ordered ≡ true)
        → indegree keys ordered k ds ≡ 0
    no_indegree [] k ranked below = refl
    no_indegree (e ∷ ds) k ranked below = ground (
      arith,
      ranked.0,
      no_indegree ds k ranked.1 below,
      eq_iff e.action_key k,
      below e.depends_on_key,
    )

    all_ordered :
        (n : ℕ) (k : String)
        → rank k < n
        → IsRanked keys rank es
        → Drained ordered
        → elem k keys ≡ true
        → elem k ordered ≡ true
    all_ordered zero k h ranked d known = absurd (omega arith)
    all_ordered (suc n) k h ranked d known = ground (
      arith,
      d.once k,
      elem-count k ordered,
      no_indegree es k ranked (λ j lower j_known. all_ordered n j (omega arith) ranked d j_known),
    )

  finish-ok : (o : List String) → length o ≡ length keys → finish keys (some o) ≡ some (ok o)
  unfolding finish
  finish-ok o long = ground arith

  finish-err :
      (o : List String)
      → length o ≢ length keys
      → finish keys (some o) ≡ some (err cyclic_migration_dependency)
  unfolding finish
  finish-err o short = ground arith

  IsRanked-of_Respects :
      (ordered : List String) (ds : List Dependency)
      → ((k : String) → count k ordered ≡ count k keys)
      → Respects keys ordered ds
      → IsRanked keys (λ k. index_of k ordered) ds
  IsRanked-of_Respects ordered [] same h = tt
  IsRanked-of_Respects ordered (e ∷ ds) same h = (
    λ resolved. ground (
      arith,
      h.0,
      same e.action_key,
      elem-count e.action_key keys,
      elem-count e.action_key ordered,
    ),
    IsRanked-of_Respects ordered ds same h.1,
  )

  -- The order returned: each key once, and the source of each resolved edge before its target.
  pub record IsOrder (ordered : List String) : Type 0 where
    pub same_keys : (k : String) → count k ordered ≡ count k keys
    pub sorted : IsRanked keys (λ k. index_of k ordered) es

  Drained-IsOrder : (o : List String) → Drained o → length o ≡ length keys → IsOrder o
  Drained-IsOrder o d long =
      let same = count-eq-of-length o keys (λ k. count-le-keys k o d) long in
      record { same_keys = same; sorted = IsRanked-of_Respects o es same d.respects }

  Drained-long :
      (rank : String → ℕ) (o : List String)
      → IsNodup keys
      → IsRanked keys rank es
      → Drained o
      → length o ≡ length keys
  Drained-long rank o nodup ranked d =
      let same : (k : String) → count k keys ≤ count k o = λ k. ground (
        arith,
        nodup k,
        elem-count k keys,
        elem-count k o,
        all_ordered rank o (suc (rank k)) k (omega arith) ranked d,
      ) in
      omega (
        arith,
        length-le-of-count keys o same,
        length-le-of-count o keys (λ k. count-le-keys k o d),
      )

  -- On distinct keys `topologicalOrder` returns: an order, or the cycle error, and the error only if
  -- no ranking of the keys puts the source of every resolved edge below its target.
  pub topological_order_total :
      IsNodup keys
      → ((o : List String) × (topological_order keys es ≡ some (ok o)) × IsOrder o)
        ⊎ ((topological_order keys es ≡ some (err cyclic_migration_dependency))
            × ((rank : String → ℕ) → ¬ IsRanked keys rank es))
  topological_order_total nodup =
      let (o, e, d) = Drained-order nodup in
      elim (ℕ_discrete (length o) (length keys)) [
        | yes long ↦ inl (o, e ∙ finish-ok o long, Drained-IsOrder o d long)
        | no short ↦
            inr (e ∙ finish-err o short, λ rank ranked. short (Drained-long rank o nodup ranked d))
      ]

  -- So where there is such a ranking the order is returned.
  pub topological_order-ok :
      (rank : String → ℕ)
      → IsNodup keys
      → IsRanked keys rank es
      → (o : List String) × (topological_order keys es ≡ some (ok o)) × IsOrder o
  topological_order-ok rank nodup ranked = elim (topological_order_total nodup) [
    | inl found ↦ found
    | inr (e, none_ranked) ↦ absurd (none_ranked rank ranked)
  ]
