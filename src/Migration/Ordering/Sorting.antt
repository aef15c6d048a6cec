-- ===== src/Migration/Ordering/Sorting.antt =====
-- The sort of `orderActions` rearranges, and puts the ranks in order whatever the locale says.
use Prim.Native.Nat.{Ordering}
use mathlib.Core.List.{Perm}
use mathlib.Core.List.Perm
use chain_port.Prelude.{
  ◌+◌, ◌≤◌, ◌<◌, ◌≡◌, ◌≢◌, ◌⊎◌, inl, inr, refl, String, Bool, ◌||◌, List, [], ◌∷◌, map, All, any,
  count, if◌then◌else◌, arith, ◌===◌,
}
use chain_port.Shared.Enums.{stage_index}
use chain_port.Migration.Types.{MigrationActionDraft}
use chain_port.Migration.Ordering.{automation_rank, compare_actions, insert_sorted, sort_actions}

-- At most, by the automation rank and then the stage.
abbrev pub RankedLe : MigrationActionDraft → MigrationActionDraft → Type 0
RankedLe a b =
    (automation_rank a.automation_level < automation_rank b.automation_level)
    ⊎ ((automation_rank a.automation_level ≡ automation_rank b.automation_level)
        × (stage_index a.stage ≤ stage_index b.stage))

RankedLe-trans : (a b c : MigrationActionDraft) → RankedLe a b → RankedLe b c → RankedLe a c
RankedLe-trans a b c h k = ground arith

-- Each action is at most all that follow it.
abbrev pub IsRankSorted : List MigrationActionDraft → Type 0
IsRankSorted [] = Unit
IsRankSorted (a ∷ rest) = All (RankedLe a) rest × IsRankSorted rest

All-RankedLe :
    (a b : MigrationActionDraft) (xs : List MigrationActionDraft)
    → RankedLe a b
    → All (RankedLe b) xs
    → All (RankedLe a) xs
All-RankedLe a b [] h k = tt
All-RankedLe a b (x ∷ xs) h k = (RankedLe-trans a b x h k.0, All-RankedLe a b xs h k.1)

Ordering-cases : (o : Ordering) → (o ≡ Ordering.gt) ⊎ (o ≢ Ordering.gt)
Ordering-cases Ordering.gt = inl refl
Ordering-cases Ordering.lt = inr (λ e. cc)
Ordering-cases Ordering.eq = inr (λ e. cc)

module _ (locale_compare : String → String → Ordering) where
  RankedLe-of_gt :
      (a b : MigrationActionDraft) → compare_actions locale_compare a b ≡ Ordering.gt → RankedLe b a
  RankedLe-of_gt a b h = ground arith

  RankedLe-of_ne_gt :
      (a b : MigrationActionDraft) → compare_actions locale_compare a b ≢ Ordering.gt → RankedLe a b
  RankedLe-of_ne_gt a b h = ground arith

  insert_sorted-gt :
      (a b : MigrationActionDraft) (rest : List MigrationActionDraft)
      → compare_actions locale_compare a b ≡ Ordering.gt
      → insert_sorted locale_compare a (b ∷ rest) ≡ b ∷ insert_sorted locale_compare a rest
  unfolding insert_sorted
  insert_sorted-gt a b rest h = ground arith

  insert_sorted-le :
      (a b : MigrationActionDraft) (rest : List MigrationActionDraft)
      → compare_actions locale_compare a b ≢ Ordering.gt
      → insert_sorted locale_compare a (b ∷ rest) ≡ a ∷ b ∷ rest
  unfolding insert_sorted
  insert_sorted-le a b rest h = ground arith

  insert_sorted-All {κ} :
      (P : MigrationActionDraft → Type κ) (a : MigrationActionDraft)
      (xs : List MigrationActionDraft)
      → P a
      → All P xs
      → All P (insert_sorted locale_compare a xs)
  unfolding insert_sorted
  insert_sorted-All P a [] p h = (p, tt)
  insert_sorted-All P a (b ∷ rest) p h =
      elim (Ordering-cases (compare_actions locale_compare a b)) [
        | inl e ↦ rw (insert_sorted-gt a b rest e) (h.0, insert_sorted-All P a rest p h.1)
        | inr e ↦ rw (insert_sorted-le a b rest e) (p, h)
      ]

  insert_sorted-IsRankSorted :
      (a : MigrationActionDraft) (xs : List MigrationActionDraft)
      → IsRankSorted xs
      → IsRankSorted (insert_sorted locale_compare a xs)
  unfolding insert_sorted
  insert_sorted-IsRankSorted a [] h = (tt, tt)
  insert_sorted-IsRankSorted a (b ∷ rest) h =
      elim (Ordering-cases (compare_actions locale_compare a b)) [
        | inl e ↦ rw (insert_sorted-gt a b rest e) (
          insert_sorted-All (RankedLe b) a rest (RankedLe-of_gt a b e) h.0,
          insert_sorted-IsRankSorted a rest h.1,
        )
        | inr e ↦
            let le = RankedLe-of_ne_gt a b e in
            rw (insert_sorted-le a b rest e) ((le, All-RankedLe a b rest le h.0), h)
      ]

  pub sort_actions-IsRankSorted :
      (xs : List MigrationActionDraft) → IsRankSorted (sort_actions locale_compare xs)
  unfolding sort_actions
  sort_actions-IsRankSorted [] = tt
  sort_actions-IsRankSorted (a ∷ rest) =
      insert_sorted-IsRankSorted a (sort_actions locale_compare rest)
        (sort_actions-IsRankSorted rest)

  insert_sorted-perm :
      (a : MigrationActionDraft) (xs : List MigrationActionDraft)
      → Perm (insert_sorted locale_compare a xs) (a ∷ xs)
  unfolding insert_sorted
  insert_sorted-perm a [] = Perm.refl (a ∷ [])
  insert_sorted-perm a (b ∷ rest) = elim (Ordering-cases (compare_actions locale_compare a b)) [
    | inl e ↦
        rw (insert_sorted-gt a b rest e)
          (Perm.trans (Perm.cons b (insert_sorted-perm a rest)) (Perm.swap a b rest))
    | inr e ↦ rw (insert_sorted-le a b rest e) (Perm.refl (a ∷ b ∷ rest))
  ]

  pub sort_actions-perm :
      (xs : List MigrationActionDraft) → Perm (sort_actions locale_compare xs) xs
  unfolding sort_actions
  sort_actions-perm [] = Perm.refl []
  sort_actions-perm (a ∷ rest) =
      Perm.trans (insert_sorted-perm a (sort_actions locale_compare rest))
        (Perm.cons a (sort_actions-perm rest))

  pub sort_actions-All {κ} :
      (P : MigrationActionDraft → Type κ) (xs : List MigrationActionDraft)
      → All P xs
      → All P (sort_actions locale_compare xs)
  unfolding sort_actions
  sort_actions-All P [] h = tt
  sort_actions-All P (a ∷ rest) h =
      insert_sorted-All P a (sort_actions locale_compare rest) h.0 (sort_actions-All P rest h.1)

  -- A test that some action passes, and a number of actions that pass, are the same after the sort.
  insert_sorted-any :
      (p : MigrationActionDraft → Bool) (a : MigrationActionDraft) (xs : List MigrationActionDraft)
      → any p (insert_sorted locale_compare a xs) ≡ (p a || any p xs)
  unfolding insert_sorted
  insert_sorted-any p a [] = refl
  insert_sorted-any p a (b ∷ rest) = ground (arith, insert_sorted-any p a rest)

  pub sort_actions-any :
      (p : MigrationActionDraft → Bool) (xs : List MigrationActionDraft)
      → any p (sort_actions locale_compare xs) ≡ any p xs
  unfolding sort_actions
  sort_actions-any p [] = refl
  sort_actions-any p (a ∷ rest) =
      ground
        (arith, insert_sorted-any p a (sort_actions locale_compare rest), sort_actions-any p rest)

  insert_sorted-count :
      (k : String) (a : MigrationActionDraft) (xs : List MigrationActionDraft)
      → count k (map (λ x. x.key) (insert_sorted locale_compare a xs))
        ≡ (if a.key === k then 1 else 0) + count k (map (λ x. x.key) xs)
  unfolding insert_sorted
  insert_sorted-count k a [] = refl
  insert_sorted-count k a (b ∷ rest) = ground (arith, insert_sorted-count k a rest)

  pub sort_actions-count :
      (k : String) (xs : List MigrationActionDraft)
      → count k (map (λ x. x.key) (sort_actions locale_compare xs)) ≡ count k (map (λ x. x.key) xs)
  unfolding sort_actions
  sort_actions-count k [] = refl
  sort_actions-count k (a ∷ rest) =
      omega (
        arith,
        insert_sorted-count k a (sort_actions locale_compare rest),
        sort_actions-count k rest,
      )
