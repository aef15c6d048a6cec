-- ===== src/Migration/Dedupe/Laws.antt =====
-- What `mergeDrafts` keeps: one action for each key, and nothing of what the drafts refer to is lost.
use chain_port.Prelude.{
  ◌≤◌, ◌≡◌, ◌≢◌, refl, String, Bool, false, ◌&&◌, ◌||◌, Option, none, some, List, [], ◌∷◌, ◌++◌,
  map, All, any, elem, count, elem-count, IsNodup, lookup, values, keys, lookup-insert,
  insert-IsNodup, insert-All, lookup-All, if◌then◌else◌, ◌===◌, arith, eq_iff, Bool-cases,
  Option-cases, inl, inr,
}
use chain_port.Migration.Types.{PlannedEvidence, MigrationActionDraft}
use chain_port.Migration.Dedupe.{
  unique_from, unique, unique_evidence, ByKey, combine, stored, merge_one, merge_all, merge_drafts,
}

count-unique_from :
    (k : String) (seen xs : List String)
    → count k (unique_from seen xs) ≡ (if elem k seen then 0 else if elem k xs then 1 else 0)
unfolding unique_from
count-unique_from k seen [] = ground arith
count-unique_from k seen (x ∷ xs) =
    ground (arith, count-unique_from k seen xs, count-unique_from k (x ∷ seen) xs, eq_iff x k)

-- `unique` keeps every value once.
pub count-unique :
    (k : String) (xs : List String) → count k (unique xs) ≡ (if elem k xs then 1 else 0)
unfolding unique
count-unique k xs = count-unique_from k [] xs

elem-append : (k : String) (xs ys : List String) → elem k (xs ++ ys) ≡ (elem k xs || elem k ys)
elem-append k [] ys = refl
elem-append k (x ∷ xs) ys = ground (arith, elem-append k xs ys)

elem-unique_append :
    (k : String) (xs ys : List String) → elem k (unique (xs ++ ys)) ≡ (elem k xs || elem k ys)
elem-unique_append k xs ys =
    ground (arith, elem-count k (unique (xs ++ ys)), count-unique k (xs ++ ys), elem-append k xs ys)

unique_from-All {κ} :
    (P : String → Type κ) (seen xs : List String) → All P xs → All P (unique_from seen xs)
unfolding unique_from
unique_from-All P seen [] h = tt
unique_from-All P seen (x ∷ xs) h = elim (Bool-cases (elem x seen)) [
  | inl e ↦ rw e (unique_from-All P seen xs h.1)
  | inr e ↦ rw e (h.0, unique_from-All P (x ∷ seen) xs h.1)
]

pub unique-All {κ} : (P : String → Type κ) (xs : List String) → All P xs → All P (unique xs)
unfolding unique
unique-All P xs h = unique_from-All P [] xs h

pub unique_evidence-ne-nil :
    (es fs : List PlannedEvidence) → es ≢ [] → unique_evidence (es ++ fs) ≢ []
unfolding unique_evidence
unique_evidence-ne-nil [] fs h e = h refl
unique_evidence-ne-nil (x ∷ es) fs h e = cc

-- The entries of the map: each action under its own key, no key twice.
record IsKeyed (m : ByKey) : Type 0 where
  matches : All (λ (e : String × MigrationActionDraft). e.1.key ≡ e.0) m
  distinct : IsNodup (keys m)

stored-key :
    (draft : MigrationActionDraft) (m : ByKey)
    → IsKeyed m
    → (stored (lookup draft.key m) draft).key ≡ draft.key
stored-key draft m inv = elim (Option-cases (lookup draft.key m)) [
  | inl e ↦ rw e refl
  | inr (a, e) ↦
      rw e (
        lookup-All (λ (e : String × MigrationActionDraft). e.1.key ≡ e.0) draft.key m e inv.matches)
]

merge_one-IsKeyed :
    (draft : MigrationActionDraft) (m : ByKey) → IsKeyed m → IsKeyed (merge_one draft m)
merge_one-IsKeyed draft m inv = record {
  matches =
      insert-All (λ (e : String × MigrationActionDraft). e.1.key ≡ e.0) draft.key
        (stored (lookup draft.key m) draft) m (stored-key draft m inv) inv.matches;
  distinct = insert-IsNodup draft.key (stored (lookup draft.key m) draft) m inv.distinct;
}

merge_all-IsKeyed :
    (drafts : List MigrationActionDraft) (m : ByKey) → IsKeyed m → IsKeyed (merge_all drafts m)
unfolding merge_all
merge_all-IsKeyed [] m inv = inv
merge_all-IsKeyed (draft ∷ drafts) m inv =
    merge_all-IsKeyed drafts (merge_one draft m) (merge_one-IsKeyed draft m inv)

map-key-values :
    (m : ByKey)
    → All (λ (e : String × MigrationActionDraft). e.1.key ≡ e.0) m
    → map (λ a. a.key) (values m) ≡ keys m
map-key-values [] h = refl
map-key-values ((k, a) ∷ m) h = cc (map-key-values m h.1, h.0)

-- No two merged actions have one key.
pub merge_drafts-IsNodup :
    (drafts : List MigrationActionDraft) → IsNodup (map (λ a. a.key) (merge_drafts drafts))
unfolding merge_drafts
merge_drafts-IsNodup drafts =
    let inv = merge_all-IsKeyed drafts [] (record { matches = tt; distinct = λ k. omega arith }) in
    rw (map-key-values (merge_all drafts []) inv.matches) inv.distinct

module _ {κ} (P : MigrationActionDraft → Type κ)
    (keeps : (a b : MigrationActionDraft) → P a → P b → P (combine a b)) where
  stored-All :
      (draft : MigrationActionDraft) (m : ByKey)
      → P draft
      → All (λ (e : String × MigrationActionDraft). P e.1) m
      → P (stored (lookup draft.key m) draft)
  stored-All draft m p h = elim (Option-cases (lookup draft.key m)) [
    | inl e ↦ rw e p
    | inr (a, e) ↦ rw e (
        keeps a draft (lookup-All (λ (x : String × MigrationActionDraft). P x.1) draft.key m e h) p)
  ]

  merge_all-All :
      (drafts : List MigrationActionDraft) (m : ByKey)
      → All P drafts
      → All (λ (e : String × MigrationActionDraft). P e.1) m
      → All (λ (e : String × MigrationActionDraft). P e.1) (merge_all drafts m)
  unfolding merge_all
  merge_all-All [] m hs h = h
  merge_all-All (draft ∷ drafts) m hs h = merge_all-All drafts (merge_one draft m) hs.1 (
      insert-All (λ (x : String × MigrationActionDraft). P x.1) draft.key
        (stored (lookup draft.key m) draft) m (stored-All draft m hs.0 h) h)

  values-All : (m : ByKey) → All (λ (e : String × MigrationActionDraft). P e.1) m → All P (values m)
  values-All [] h = tt
  values-All ((k, a) ∷ m) h = (h.0, values-All m h.1)

  -- What holds of all drafts, and is kept when two of them are combined, holds of the result.
  pub merge_drafts-All :
      (drafts : List MigrationActionDraft) → All P drafts → All P (merge_drafts drafts)
  unfolding merge_drafts
  merge_drafts-All drafts h = values-All (merge_all drafts []) (merge_all-All drafts [] h tt)

-- A list of names that an action carries, such as its findings.
module _ (names : MigrationActionDraft → List String)
    (names-combine : (a b : MigrationActionDraft)
      → names (combine a b) ≡ unique (names a ++ names b))
    (name key : String) where
  abbrev pub carries : MigrationActionDraft → Bool
  carries a = (a.key === key) && elem name (names a)

  abbrev carried : Option MigrationActionDraft → Bool
  carried none = false
  carried (some a) = elem name (names a)

  merge_one-carried :
      (draft : MigrationActionDraft) (m : ByKey)
      → carried (lookup key (merge_one draft m)) ≡ (carries draft || carried (lookup key m))
  merge_one-carried draft m = elim (Option-cases (lookup draft.key m)) [
    | inl e ↦ ground (
      arith,
      e,
      lookup-insert draft.key key (stored (lookup draft.key m) draft) m,
      eq_iff draft.key key,
    )
    | inr (a, e) ↦ ground (
      arith,
      e,
      names-combine a draft,
      elem-unique_append name (names a) (names draft),
      lookup-insert draft.key key (stored (lookup draft.key m) draft) m,
      eq_iff draft.key key,
    )
  ]

  merge_all-carried :
      (drafts : List MigrationActionDraft) (m : ByKey)
      → carried (lookup key (merge_all drafts m)) ≡ (any carries drafts || carried (lookup key m))
  unfolding merge_all
  merge_all-carried [] m = refl
  merge_all-carried (draft ∷ drafts) m =
      ground (arith, merge_all-carried drafts (merge_one draft m), merge_one-carried draft m)

  any-values_missing :
      (m : ByKey)
      → All (λ (e : String × MigrationActionDraft). e.1.key ≡ e.0) m
      → elem key (keys m) ≡ false
      → any carries (values m) ≡ false
  any-values_missing [] h e = refl
  any-values_missing ((k, a) ∷ m) h e = ground (arith, h.0, any-values_missing m h.1)

  any-values :
      (m : ByKey)
      → All (λ (e : String × MigrationActionDraft). e.1.key ≡ e.0) m
      → count key (keys m) ≤ 1
      → any carries (values m) ≡ carried (lookup key m)
  any-values [] h once = refl
  any-values ((k, a) ∷ m) h once =
      ground (arith, h.0, any-values m h.1, any-values_missing m h.1, elem-count key (keys m))

  -- An action carries a name under a key after the merge exactly if some draft did before.
  pub merge_drafts-carries :
      (drafts : List MigrationActionDraft) → any carries (merge_drafts drafts) ≡ any carries drafts
  unfolding merge_drafts
  merge_drafts-carries drafts =
      let inv =
        merge_all-IsKeyed drafts [] (record { matches = tt; distinct = λ k. omega arith }) in
      ground (
        arith,
        any-values (merge_all drafts []) inv.matches (inv.distinct key),
        merge_all-carried drafts [],
      )
