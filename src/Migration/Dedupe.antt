-- ===== src/Migration/Dedupe.antt =====
-- packages/migration/src/dedupe.ts: drafts of one key are merged into the first of them.
pub mod Laws
use chain_port.Prelude.{
  ℕ, String, Bool, Option, none, some, List, [], ◌∷◌, ◌++◌, elem, lookup, insert, values,
  if◌then◌else◌, template, decimal,
}
use chain_port.Migration.Types.{PlannedEvidence, MigrationActionDraft}

-- `[...new Set(values)]`, after the values in `seen`.
unique_from : List String → List String → List String
unique_from seen [] = []
unique_from seen (x ∷ xs) =
    let old = unique_from seen xs in
    let new = x ∷ unique_from (x ∷ seen) xs in if elem x seen then old else new

pub unique : List String → List String
unfolding unique_from
unique xs = unique_from [] xs

abbrev pub evidence_key : PlannedEvidence → String
evidence_key e =
    template (e.finding_id ∷ ":" ∷ e.file_path ∷ ":" ∷ decimal e.start_line ∷ ":" ∷ e.excerpt ∷ [])

unique_evidence_from : List String → List PlannedEvidence → List PlannedEvidence
unique_evidence_from seen [] = []
unique_evidence_from seen (e ∷ es) =
    let old = unique_evidence_from seen es in
    let new = e ∷ unique_evidence_from (evidence_key e ∷ seen) es in
    if elem (evidence_key e) seen then old else new

pub unique_evidence : List PlannedEvidence → List PlannedEvidence
unfolding unique_evidence_from
unique_evidence es = unique_evidence_from [] es

abbrev pub ByKey : Type 0
ByKey = List (String × MigrationActionDraft)

abbrev pub combine : MigrationActionDraft → MigrationActionDraft → MigrationActionDraft
combine existing draft = record existing {
  finding_ids = unique (existing.finding_ids ++ draft.finding_ids);
  evidence = unique_evidence (existing.evidence ++ draft.evidence);
  depends_on_keys = unique (existing.depends_on_keys ++ draft.depends_on_keys);
}

-- What is stored for a draft, beside what is there already.
abbrev pub stored : Option MigrationActionDraft → MigrationActionDraft → MigrationActionDraft
stored none draft = draft
stored (some existing) draft = combine existing draft

-- The body of the loop.
abbrev pub merge_one : MigrationActionDraft → ByKey → ByKey
merge_one draft by_key = insert draft.key (stored (lookup draft.key by_key) draft) by_key

pub merge_all : List MigrationActionDraft → ByKey → ByKey
merge_all [] by_key = by_key
merge_all (draft ∷ drafts) by_key = merge_all drafts (merge_one draft by_key)

unfoldable pub merge_drafts : List MigrationActionDraft → List MigrationActionDraft
unfolding merge_all unique unique_evidence
merge_drafts drafts = values (merge_all drafts [])
