-- ===== src/Migration/Dependencies/Release.antt =====
-- One round of the `while` loop of `topologicalOrder`, and the invariant that it keeps.
use chain_port.Prelude.{
  ℕ, suc, ◌+◌, ◌<◌, ◌≡◌, refl, String, Bool, true, false, ◌&&◌, ◌||◌, List, [], ◌∷◌, ◌++◌, length,
  elem, count, count-append, elem-count, lookup, insert, lookup-insert, if◌then◌else◌, ◌==◌, ◌===◌,
  ===_refl, or_else, pos, sub_one, is_zero, arith, eq_iff, ltb,
}
use chain_port.Migration.Dependencies.{Dependency, Counters, release}
use chain_port.Migration.Dependencies.Loading.{is_resolved, indegree, targets, Holds}

abbrev pub one_if : Bool → ℕ
one_if true = 1
one_if false = 0

module _ (keys : List String) (left : String → ℕ) where
  -- The counters after the inner loop are what was left beside its arrivals.
  release_lem :
      (nexts : List String) (incoming : Counters) (queue : List String)
      → ((k : String) → 0 < count k nexts → elem k keys ≡ true)
      → Holds keys (λ k. pos (left k + count k nexts)) incoming
      → let (incoming', queue') = release nexts incoming queue in
        Holds keys (λ k. pos (left k)) incoming'
        × ((k : String)
            → count k queue'
              ≡ count k queue + one_if (elem k keys && (left k == 0) && ltb 0 (count k nexts)))
  unfolding release
  release_lem [] incoming queue known h = (λ k. ground (arith, h k), λ k. ground arith)
  release_lem (next ∷ rest) incoming queue known h =
      let remaining = sub_one (or_else (lookup next incoming) (pos 0)) in
      let value : remaining ≡ pos (left next + count next rest) =
        ground (arith, h next, known next, ===_refl next) in
      let queue' = if is_zero remaining then queue ++ next ∷ [] else queue in
      let pushed : (k : String)
          → count k queue'
            ≡ count k queue + one_if (is_zero (pos (left next + count next rest)) && (next === k)) =
        λ k. ground (arith, value, count-append k queue (next ∷ [])) in
      let (after, queued) =
        release_lem rest (insert next remaining incoming) queue' (λ k p. known k (omega arith))
          (λ k. ground (
            arith,
            h k,
            known next,
            value,
            ===_refl next,
            lookup-insert next k remaining incoming,
            eq_iff next k,
          )) in
      (after, λ k. ground (arith, queued k, pushed k, known next, ===_refl next, eq_iff next k))

-- The place of a string in a list, the list's length where it is missing.
abbrev pub index_of : String → List String → ℕ
index_of k [] = 0
index_of k (x ∷ xs) = if x === k then 0 else suc (index_of k xs)

pub index_of_lt : (k : String) (xs : List String) → elem k xs ≡ true → index_of k xs < length xs
index_of_lt k [] h = cc
index_of_lt k (x ∷ xs) h = ground (arith, index_of_lt k xs)

pub index_of_missing :
    (k : String) (xs : List String) → elem k xs ≡ false → index_of k xs ≡ length xs
index_of_missing k [] h = refl
index_of_missing k (x ∷ xs) h = ground (arith, index_of_missing k xs)

index_of-append :
    (k x : String) (xs : List String)
    → index_of k (xs ++ x ∷ [])
      ≡ (if elem k xs then index_of k xs else if x === k then length xs else suc (length xs))
index_of-append k x [] = refl
index_of-append k x (y ∷ xs) = ground (arith, index_of-append k x xs)

elem-append : (k x : String) (xs : List String) → elem k (xs ++ x ∷ []) ≡ (elem k xs || (x === k))
elem-append k x [] = ground arith
elem-append k x (y ∷ xs) = ground (arith, elem-append k x xs)

module _ (keys : List String) where
  -- Every resolved edge into an ordered key leaves a key that is ordered before it.
  abbrev pub Respects : List String → List Dependency → Type 0
  Respects ordered [] = Unit
  Respects ordered (e ∷ es) =
      (is_resolved keys e ≡ true
        → elem e.action_key ordered ≡ true
        → index_of e.depends_on_key ordered < index_of e.action_key ordered)
      × Respects ordered es

  module _ (current : String) (ordered : List String) where
    targets_known :
        (es : List Dependency) (k : String)
        → 0 < count k (targets keys current es)
        → elem k keys ≡ true
    targets_known [] k h = absurd (omega arith)
    targets_known (e ∷ es) k h = ground (arith, targets_known es k, eq_iff e.action_key k)

    indegree-append :
        (es : List Dependency) (k : String)
        → elem current ordered ≡ false
        → indegree keys ordered k es
          ≡ indegree keys (ordered ++ current ∷ []) k es + count k (targets keys current es)
    indegree-append [] k fresh = refl
    indegree-append (e ∷ es) k fresh = ground (
      arith,
      indegree-append es k fresh,
      elem-append e.depends_on_key current ordered,
      eq_iff current e.depends_on_key,
      eq_iff e.depends_on_key current,
    )

    Respects-append :
        (es : List Dependency)
        → elem current ordered ≡ false
        → indegree keys ordered current es ≡ 0
        → Respects ordered es
        → Respects (ordered ++ current ∷ []) es
    Respects-append [] fresh free h = tt
    Respects-append (e ∷ es) fresh free h = (
      λ resolved placed. ground (
        arith,
        h.0,
        index_of-append e.depends_on_key current ordered,
        index_of-append e.action_key current ordered,
        elem-append e.action_key current ordered,
        index_of_lt e.depends_on_key ordered,
        index_of_lt e.action_key ordered,
        index_of_missing e.depends_on_key ordered,
        eq_iff current e.action_key,
        eq_iff e.action_key current,
      ),
      Respects-append es fresh (omega arith) h.1,
    )

  module _ (es : List Dependency) where
    -- The invariant of the `while` loop: a counter holds the edges from keys not yet ordered, and
    -- the keys with none are those queued or ordered, once each.
    pub record Inv (incoming : Counters) (queue ordered : List String) : Type 0 where
      pub counters : Holds keys (λ k. pos (indegree keys ordered k es)) incoming
      pub once :
          (k : String)
          → count k queue + count k ordered
            ≡ one_if (elem k keys && (indegree keys ordered k es == 0))
      pub respects : Respects ordered es

    module _ (current : String) (queue ordered : List String) (incoming : Counters)
        (inv : Inv incoming (current ∷ queue) ordered) where
      pub head_facts :
          (elem current keys ≡ true)
          × (elem current ordered ≡ false)
          × (indegree keys ordered current es ≡ 0)
      head_facts = ground (arith, inv.once current, ===_refl current, elem-count current ordered)

      pub release-Inv :
          let (incoming', queue') = release (targets keys current es) incoming queue in
          Inv incoming' queue' (ordered ++ current ∷ [])
      release-Inv =
          let (known, fresh, free) = head_facts in
          let (after, queued) =
            release_lem keys (λ k. indegree keys (ordered ++ current ∷ []) k es)
              (targets keys current es) incoming queue (targets_known current ordered es)
              (λ k. rw (← indegree-append current ordered es k fresh) (inv.counters k)) in
          record {
            counters = after;
            once = λ k. ground (
              arith,
              queued k,
              inv.once k,
              known,
              free,
              count-append k ordered (current ∷ []),
              eq_iff current k,
              indegree-append current ordered es k fresh,
              targets_known current ordered es k,
            );
            respects = Respects-append current ordered es fresh free inv.respects;
          }
