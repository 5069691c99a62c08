-- ===== src/EntityDedup.antt =====
-- app/services/entity_deduplication.py: entities with the same fingerprint are linked to the earliest
-- of them. Unicode normalisation and `str.lower` are parameters.
pub mod Links
pub mod Groups
pub mod Ids
pub mod Refine
pub mod Counts
mod Tests
use pr_killer.Prelude.{
  ℕ, suc, ◌+◌, ◌-◌, Bool, not, ◌&&◌, ◌||◌, Option, none, some, List, [], ◌∷◌, ◌++◌, map, take, ltb,
  leb, ◌==◌, length, if◌then◌else◌,
}
use pr_killer.Sort.{sort}
use pr_killer.Text.{Text, strip, is_space, text_eq}
use pr_killer.Documents.World.{select_where}

pub record Unicode : Type 0 where
  pub nfc : Text → Text
  pub to_lower : Text → Text

-- The columns of app/models/extracted_entity.py that count here; `entity_type` is the enum's value.
pub record EntityRow : Type 0 where
  pub id : ℕ
  pub project_id : ℕ
  pub entity_type : Text
  pub title : Text
  pub content : Text
  pub created_at : ℕ
  pub canonical_entity_id : Option ℕ

-- `re.sub(r"\s+", " ", s)`, where `inside` tells that a run of spaces has begun.
unfoldable pub collapse_spaces : Bool → Text → Text
unfolding is_space
collapse_spaces inside [] = []
collapse_spaces inside (c ∷ s) =
    let rest = collapse_spaces (is_space c) s in
    if is_space c then if inside then rest else 32 ∷ rest else c ∷ rest

unfoldable pub normalize_fingerprint_text : Unicode → Text → Text
unfolding collapse_spaces strip
normalize_fingerprint_text u value =
    take 480 (strip (collapse_spaces Bool.false (u.to_lower (u.nfc value))))

unfoldable pub entity_fingerprint : Unicode → EntityRow → Text
unfolding normalize_fingerprint_text
entity_fingerprint u e =
    e.entity_type
    ++ 124
      ∷ (normalize_fingerprint_text u e.title
          ++ 124 ∷ normalize_fingerprint_text u (take 800 e.content))

-- `groups[fp].append(e)`; a new key goes to the end.
pub record Group : Type 0 where
  pub key : Text
  pub members : List EntityRow

unfoldable pub append_to_group : Text → EntityRow → List Group → List Group
unfolding text_eq
append_to_group fp e [] = record { key = fp; members = e ∷ [] } ∷ []
append_to_group fp e (g ∷ gs) =
    let rest = append_to_group fp e gs in
    if text_eq g.key fp then record g { members = g.members ++ e ∷ [] } ∷ gs else g ∷ rest

unfoldable pub group_entities : (EntityRow → Text) → List EntityRow → List Group → List Group
unfolding append_to_group
group_entities fp [] gs = gs
group_entities fp (e ∷ es) gs = group_entities fp es (append_to_group (fp e) e gs)

-- The assignments `dup.canonical_entity_id = root.id`, in order: the id of the row and of its root.
unfoldable pub links_to : ℕ → List EntityRow → List (ℕ × ℕ)
links_to root [] = []
links_to root (d ∷ ds) = (d.id, root) ∷ links_to root ds

unfoldable pub links_of_members : List EntityRow → List (ℕ × ℕ)
unfolding links_to
links_of_members [] = []
links_of_members (root ∷ dups) = links_to root.id dups

unfoldable pub links_of_groups : List Group → List (ℕ × ℕ)
unfolding links_of_members
links_of_groups [] = []
links_of_groups (g ∷ gs) = links_of_members g.members ++ links_of_groups gs

abbrev pub set_canonical : ℕ → ℕ → EntityRow → EntityRow
set_canonical dup root x = if x.id == dup then record x { canonical_entity_id = some root } else x

unfoldable pub assign_all : List (ℕ × ℕ) → List EntityRow → List EntityRow
assign_all [] rows = rows
assign_all ((dup, root) ∷ links) rows = assign_all links (map (set_canonical dup root) rows)

-- Groups of more than one.
unfoldable pub count_merged : List Group → ℕ
count_merged [] = 0
count_merged (g ∷ gs) = let n = count_merged gs in if leb (length g.members) 1 then n else suc n

pub record Stats : Type 0 where
  pub total_entities : ℕ
  pub distinct_fingerprints : ℕ
  pub clusters_merged : ℕ
  pub duplicates_linked : ℕ

-- `.order_by(created_at.asc(), id.asc())`
abbrev pub by_age : EntityRow → EntityRow → Bool
by_age a b = ltb a.created_at b.created_at || (a.created_at == b.created_at && not (ltb b.id a.id))

abbrev pub of_project : ℕ → EntityRow → Bool
of_project p e = e.project_id == p

unfoldable pub ordered_entities : ℕ → List EntityRow → List EntityRow
unfolding sort select_where
ordered_entities p rows = sort by_age (select_where (of_project p) rows)

abbrev pub clear_canonical : ℕ → EntityRow → EntityRow
clear_canonical p x = if of_project p x then record x { canonical_entity_id = none } else x

-- The statistics, and the table afterwards.
unfoldable pub deduplicate_project_entities : Unicode → ℕ → List EntityRow → Stats × List EntityRow
unfolding entity_fingerprint group_entities links_of_groups assign_all count_merged ordered_entities
deduplicate_project_entities u p rows =
    let entities = ordered_entities p rows in
    let groups = group_entities (entity_fingerprint u) entities [] in
    let links = links_of_groups groups in
    (
      record {
        total_entities = length entities;
        distinct_fingerprints = length groups;
        clusters_merged = count_merged groups;
        duplicates_linked = length links;
      },
      assign_all links (map (clear_canonical p) rows),
    )
