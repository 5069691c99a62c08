-- ===== src/EntityDedup/Counts.antt =====
-- The statistics of a deduplication.
use pr_killer.Prelude.{
  ℕ, suc, ◌+◌, ◌≤◌, ◌<◌, ◌≡◌, refl, ap, List, [], ◌∷◌, ◌++◌, arith, length, length-append, leb,
  Bool-cases, inl, inr,
}
use pr_killer.Text.{Text, text_eq}
use pr_killer.Queue.Pick.Sound.{All}
use pr_killer.EntityDedup.{
  Unicode, EntityRow, Group, entity_fingerprint, append_to_group, group_entities, links_to,
  links_of_members, links_of_groups, count_merged, ordered_entities, deduplicate_project_entities,
}

abbrev IsFull : Group → Type 0
IsFull g = 0 < length g.members

length-links_to : (root : ℕ) (ds : List EntityRow) → length (links_to root ds) ≡ length ds
unfolding links_to
length-links_to root [] = refl
length-links_to root (d ∷ ds) = ap suc (length-links_to root ds)

length-links : (ms : List EntityRow) → 0 < length ms → length (links_of_members ms) + 1 ≡ length ms
unfolding links_of_members
length-links [] h = absurd (omega arith)
length-links (r ∷ ds) h = omega (arith, length-links_to r.id ds)

-- The links and the groups together.
abbrev weight : List Group → ℕ
weight gs = length (links_of_groups gs) + length gs

append-weight :
    (f : Text) (e : EntityRow) (gs : List Group)
    → All IsFull gs
    → All IsFull (append_to_group f e gs) × (weight (append_to_group f e gs) ≡ weight gs + 1)
unfolding append_to_group links_of_groups
append-weight f e [] h = ((omega arith, tt), refl)
append-weight f e (g ∷ gs) h = elim (Bool-cases (text_eq g.key f)) [
  | inl p ↦
      let more = g.members ++ e ∷ [] in
      let len = length-append {0} g.members (e ∷ []) in
      let pos : 0 < length more = omega (arith, len) in
      rw p (
        (pos, h.1),
        omega (
          arith,
          len,
          length-links more pos,
          length-links g.members h.0,
          length-append {0} (links_of_members more) (links_of_groups gs),
          length-append {0} (links_of_members g.members) (links_of_groups gs),
        ),
      )
  | inr p ↦
      let (full, w) = append-weight f e gs h.1 in
      rw p (
        (h.0, full),
        omega (
          arith,
          w,
          length-append {0} (links_of_members g.members) (links_of_groups gs),
          length-append {0} (links_of_members g.members) (links_of_groups (append_to_group f e gs)),
        ),
      )
]

group-weight :
    (fp : EntityRow → Text) (es : List EntityRow) (gs : List Group)
    → All IsFull gs
    → weight (group_entities fp es gs) ≡ weight gs + length es
unfolding group_entities
group-weight fp [] gs h = omega arith
group-weight fp (e ∷ es) gs h =
    let (full, w) = append-weight (fp e) e gs h in
    omega (arith, w, group-weight fp es (append_to_group (fp e) e gs) full)

merged_le : (gs : List Group) → count_merged gs ≤ length (links_of_groups gs)
unfolding count_merged links_of_groups
merged_le [] = omega arith
merged_le (g ∷ gs) = elim (Bool-cases (leb (length g.members) 1)) [
  | inl e ↦ rw e (
      omega
        (arith, merged_le gs, length-append {0} (links_of_members g.members) (links_of_groups gs)))
  | inr e ↦
      let many : 1 < length g.members = ground arith in
      rw e (
        omega (
          arith,
          merged_le gs,
          many,
          length-links g.members (omega (arith, many)),
          length-append {0} (links_of_members g.members) (links_of_groups gs),
        ))
]

-- The statistics add up: every entity of the project is either the first of its fingerprint or a
-- linked duplicate, and no more clusters are merged than duplicates are linked.
pub dedup_counts :
    (u : Unicode) (p : ℕ) (rows : List EntityRow)
    → let stats = (deduplicate_project_entities u p rows).0 in
      (stats.total_entities ≡ stats.distinct_fingerprints + stats.duplicates_linked)
      × (stats.clusters_merged ≤ stats.duplicates_linked)
unfolding deduplicate_project_entities
dedup_counts u p rows =
    let es = ordered_entities p rows in
    let gs = group_entities (entity_fingerprint u) es [] in
    (omega (arith, group-weight (entity_fingerprint u) es [] tt), merged_le gs)
