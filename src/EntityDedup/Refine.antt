-- ===== src/EntityDedup/Refine.antt =====
-- The grouping against its specification: a row is linked to the first row with its fingerprint.
use mathlib.Core.Path.{subst}
use pr_killer.Prelude.{
  ℕ, ◌≡◌, refl, sym, ap, ◌∙◌, inl, inr, true, false, Option, none, some, List, [], ◌∷◌, map, arith,
  ◌==◌, if◌then◌else◌, if_true, if_false, Bool-cases,
}
use pr_killer.Text.{Text, text_eq}
use pr_killer.Text.Equal.{text_eq_refl}
use pr_killer.Queue.Pick.Sound.{All, All-sort}
use pr_killer.Documents.World.{select_where}
use pr_killer.EntityDedup.{
  Unicode, EntityRow, entity_fingerprint, group_entities, links_of_members, links_of_groups, by_age,
  of_project, ordered_entities, clear_canonical, assign_all, deduplicate_project_entities,
}
use pr_killer.EntityDedup.Ids.{
  In, Distinct, All-In, All-of_In, All-select, select-Distinct, sort-Distinct, same_id,
  has_id-select, In-sort, In-select, select-passes,
}
use pr_killer.EntityDedup.Links.{
  assign_one, assign_all-map, map-map, assign-links_to, has_id, NoneIs, NoneIs-has_id, groups_none,
}
use pr_killer.EntityDedup.Groups.{
  select_key, members_of-group, group-Clean, Keyed, group-Apart, assign-Apart,
}

-- The identifier of the first of some rows, unless it is the row's own.
abbrev pub root_of : EntityRow → List EntityRow → Option ℕ
root_of x [] = none
root_of x (r ∷ rs) = if x.id == r.id then none else some r.id

-- The specification: rows of other projects stay, and a row of the project is linked to the oldest
-- one with its fingerprint.
abbrev pub linked : (EntityRow → Text) → ℕ → List EntityRow → EntityRow → EntityRow
linked fp p entities x =
    if of_project p x
    then record x { canonical_entity_id = root_of x (select_key fp (fp x) entities) }
    else x

map_agree :
    (f g : EntityRow → EntityRow) (xs : List EntityRow)
    → All (λ (x : EntityRow). f x ≡ g x) xs
    → map f xs ≡ map g xs
map_agree f g [] h = refl
map_agree f g (x ∷ xs) h =
    ap (λ (y : EntityRow). y ∷ map f xs) h.0
    ∙ ap (λ (l : List EntityRow). g x ∷ l) (map_agree f g xs h.1)

-- The assignments of one group to one of its members.
members_root :
    (x : EntityRow) (sel : List EntityRow)
    → Distinct sel
    → has_id x.id sel ≡ true
    → assign_one (links_of_members sel) (record x { canonical_entity_id = none })
      ≡ record x { canonical_entity_id = root_of x sel }
unfolding links_of_members
members_root x [] d h = absurd (cc)
members_root x (r ∷ ds) d h =
    let x0 : EntityRow = record x { canonical_entity_id = none } in
    assign-links_to r.id ds x0 ∙ elim (Bool-cases (x.id == r.id)) [
      | inl e ↦
          let same : x.id ≡ r.id = ground arith in
          let out : has_id x.id ds ≡ false =
            NoneIs-has_id x.id ds (subst (λ (k : ℕ). NoneIs k ds) (sym same) d.0) in
          rw out (rw e refl)
      | inr e ↦ let out : has_id x.id ds ≡ true = rw e at h in rw out (rw e refl)
    ]

module _ (fp : EntityRow → Text) (p : ℕ) (rows : List EntityRow) (d : Distinct rows) where
  entities : List EntityRow
  entities = ordered_entities p rows

  entities-Distinct : Distinct entities
  unfolding entities ordered_entities
  entities-Distinct =
      sort-Distinct (select_where (of_project p) rows) (select-Distinct (of_project p) rows d)

  links : List (ℕ × ℕ)
  links = links_of_groups (group_entities fp entities [])

  equal_by_id :
      (x : EntityRow) → In x rows → All (λ (e : EntityRow). x.id == e.id ≡ true → e ≡ x) entities
  unfolding entities ordered_entities
  equal_by_id x i =
      let Q = λ (e : EntityRow). x.id == e.id ≡ true → e ≡ x in
      All-sort Q by_age (select_where (of_project p) rows)
        (All-select Q (of_project p) rows (same_id rows x d i))

  passes : All (λ (e : EntityRow). of_project p e ≡ true) entities
  unfolding entities ordered_entities
  passes =
      All-sort (λ (e : EntityRow). of_project p e ≡ true) by_age (select_where (of_project p) rows)
        (select-passes (of_project p) rows)

  In-entities : (x : EntityRow) → of_project p x ≡ true → In x rows → In x entities
  unfolding entities ordered_entities
  In-entities x t i =
      In-sort x (select_where (of_project p) rows) (In-select (of_project p) x rows t i)

  inside_row :
      (x : EntityRow)
      → In x rows
      → of_project p x ≡ true
      → assign_one links (record x { canonical_entity_id = none })
        ≡ record x { canonical_entity_id = root_of x (select_key fp (fp x) entities) }
  unfolding links
  inside_row x i t =
      let f = fp x in
      let x0 : EntityRow = record x { canonical_entity_id = none } in
      let sel = select_key fp f entities in
      let keyed : All (Keyed fp f x.id) entities = All-of_In (Keyed fp f x.id) entities λ e j h.
        ap fp (
          All-In (λ (q : EntityRow). x.id == q.id ≡ true → q ≡ x) entities e (equal_by_id x i) j
            h) in
      assign-Apart f x0 (group_entities fp entities []) (group-Apart fp f x.id entities [] keyed tt)
      ∙ ap (λ (l : List EntityRow). assign_one (links_of_members l) x0)
          (members_of-group fp f entities [])
      ∙ members_root x sel (select-Distinct (λ e. text_eq (fp e) f) entities entities-Distinct)
          (has_id-select (λ e. text_eq (fp e) f) entities x (In-entities x t i) (text_eq_refl f))

  outside_row : (x : EntityRow) → In x rows → of_project p x ≡ false → assign_one links x ≡ x
  unfolding links
  outside_row x i t =
      let none_is : NoneIs x.id entities =
        All-of_In (λ (e : EntityRow). x.id == e.id ≡ false) entities
          λ e j.
            let same =
              All-In (λ (q : EntityRow). x.id == q.id ≡ true → q ≡ x) entities e (equal_by_id x i)
                j in
            let yes_ = All-In (λ (q : EntityRow). of_project p q ≡ true) entities e passes j in
            elim (Bool-cases (x.id == e.id)) [
              | inl h ↦ (let eq = ap (of_project p) (same h) in absurd (cc))
              | inr h ↦ h
            ] in
      groups_none (group_entities fp entities []) x (group-Clean x.id fp entities [] none_is tt)

  row-linked :
      (x : EntityRow) → In x rows → assign_one links (clear_canonical p x) ≡ linked fp p entities x
  row-linked x i = elim (Bool-cases (of_project p x)) [
    | inl t ↦
        ap (assign_one links) (if_true (of_project p x) _ x t)
        ∙ inside_row x i t
        ∙ sym (if_true (of_project p x) _ x t)
    | inr t ↦
        ap (assign_one links) (if_false (of_project p x) _ x t)
        ∙ outside_row x i t
        ∙ sym (if_false (of_project p x) _ x t)
  ]

  rows-linked : assign_all links (map (clear_canonical p) rows) ≡ map (linked fp p entities) rows
  rows-linked =
      assign_all-map links (map (clear_canonical p) rows)
      ∙ map-map (assign_one links) (clear_canonical p) rows
      ∙ map_agree (λ x. assign_one links (clear_canonical p x)) (linked fp p entities) rows
          (All-of_In
            (λ (x : EntityRow). assign_one links (clear_canonical p x) ≡ linked fp p entities x)
            rows row-linked)

-- If no two rows have the same identifier, the deduplication of a project does what it promises:
-- of the project's rows, one is linked to the oldest row with the same fingerprint (by creation time
-- and identifier), and to none if it is that row itself; and the rows of other projects stay.
pub dedup_refines :
    (u : Unicode) (p : ℕ) (rows : List EntityRow)
    → Distinct rows
    → (deduplicate_project_entities u p rows).1
      ≡ map (linked (entity_fingerprint u) p (ordered_entities p rows)) rows
unfolding deduplicate_project_entities entities links
dedup_refines u p rows d = rows-linked (entity_fingerprint u) p rows d
