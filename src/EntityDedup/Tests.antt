-- ===== src/EntityDedup/Tests.antt =====
-- A deduplication of four rows.
use pr_killer.Prelude.{ℕ, ◌+◌, ◌≤◌, ◌≡◌, refl, none, some, List, [], ◌∷◌, map}
use pr_killer.Text.{Text, codes, lower}
use pr_killer.EntityDedup.{
  Unicode, EntityRow, entity_fingerprint, ordered_entities, deduplicate_project_entities,
}
use pr_killer.EntityDedup.Refine.{linked, dedup_refines}
use pr_killer.EntityDedup.Counts.{dedup_counts}

abbrev plain : Unicode
plain = record { nfc = λ t. t; to_lower = λ t. lower t }

abbrev fact : ℕ → ℕ → Text → EntityRow
fact k time title = record {
  id = k;
  project_id = 1;
  entity_type = codes "claim";
  title = title;
  content = codes "x";
  created_at = time;
  canonical_entity_id = none;
}

-- The third is the oldest, and equal to the first but for case and spaces.
abbrev facts : List EntityRow
facts =
    fact 1 20 (codes "Price  is high")
    ∷ fact 2 10 (codes "other")
    ∷ fact 3 5 (codes " price is HIGH ")
    ∷ record (fact 4 1 (codes "other")) { project_id = 2 }
    ∷ []

dedup_run :
    map (λ (e : EntityRow). e.canonical_entity_id) (deduplicate_project_entities plain 1 facts).1
    ≡ some 3 ∷ none ∷ none ∷ none ∷ []
unfolding deduplicate_project_entities lower
dedup_run = refl

dedup_refines_example :
    (deduplicate_project_entities plain 1 facts).1
    ≡ map (linked (entity_fingerprint plain) 1 (ordered_entities 1 facts)) facts
dedup_refines_example =
    dedup_refines plain 1 facts
      ((refl, (refl, (refl, tt))), ((refl, (refl, tt)), ((refl, tt), (tt, tt))))

dedup_counts_example :
    ((deduplicate_project_entities plain 1 facts).0.total_entities
      ≡ (deduplicate_project_entities plain 1 facts).0.distinct_fingerprints
        + (deduplicate_project_entities plain 1 facts).0.duplicates_linked)
    × ((deduplicate_project_entities plain 1 facts).0.clusters_merged
        ≤ (deduplicate_project_entities plain 1 facts).0.duplicates_linked)
dedup_counts_example = dedup_counts plain 1 facts
