-- ===== src/EntityDedup/Links.antt =====
-- The assignments seen from one row.
use pr_killer.Prelude.{
  ℕ, ◌≡◌, refl, sym, ap, ◌∙◌, Bool, true, false, ◌||◌, List, [], ◌∷◌, ◌++◌, map, ◌==◌,
  if◌then◌else◌, Bool-cases, inl, inr, some, if_true, if_false, if_both,
}
use pr_killer.Queue.Pick.Sound.{All}
use pr_killer.EntityDedup.{
  EntityRow, Group, links_to, links_of_members, links_of_groups, set_canonical, assign_all,
}

abbrev pub assign_one : List (ℕ × ℕ) → EntityRow → EntityRow
assign_one [] x = x
assign_one ((dup, root) ∷ links) x = assign_one links (set_canonical dup root x)

pub map-map :
    (f g : EntityRow → EntityRow) (l : List EntityRow) → map f (map g l) ≡ map (λ x. f (g x)) l
map-map f g [] = refl
map-map f g (x ∷ l) = ap (λ (r : List EntityRow). f (g x) ∷ r) (map-map f g l)

map_same : (l : List EntityRow) → map (λ x. x) l ≡ l
map_same [] = refl
map_same (x ∷ l) = ap (λ (r : List EntityRow). x ∷ r) (map_same l)

pub assign_all-map :
    (links : List (ℕ × ℕ)) (rows : List EntityRow)
    → assign_all links rows ≡ map (assign_one links) rows
unfolding assign_all
assign_all-map [] rows = sym (map_same rows)
assign_all-map ((dup, root) ∷ links) rows =
    assign_all-map links (map (set_canonical dup root) rows)
    ∙ map-map (assign_one links) (set_canonical dup root) rows

pub assign-append :
    (ls ms : List (ℕ × ℕ)) (x : EntityRow)
    → assign_one (ls ++ ms) x ≡ assign_one ms (assign_one ls x)
assign-append [] ms x = refl
assign-append ((dup, root) ∷ ls) ms x = assign-append ls ms (set_canonical dup root x)

pub assign-id : (links : List (ℕ × ℕ)) (x : EntityRow) → (assign_one links x).id ≡ x.id
assign-id [] x = refl
assign-id ((dup, root) ∷ links) x =
    assign-id links (set_canonical dup root x)
    ∙ if_both (λ (y : EntityRow). y.id ≡ x.id) (x.id == dup)
        (record x { canonical_entity_id = some root }) x refl refl

abbrev pub has_id : ℕ → List EntityRow → Bool
has_id k [] = false
has_id k (e ∷ es) = k == e.id || has_id k es

abbrev pub with_root : ℕ → EntityRow → EntityRow
with_root root x = record x { canonical_entity_id = some root }

-- All links of a group have the same root.
pub assign-links_to :
    (root : ℕ) (ds : List EntityRow) (x : EntityRow)
    → assign_one (links_to root ds) x ≡ (if has_id x.id ds then with_root root x else x)
unfolding links_to
assign-links_to root [] x = refl
assign-links_to root (d ∷ ds) x = elim (Bool-cases (x.id == d.id)) [
  | inl e ↦
      ap (assign_one (links_to root ds)) (if_true (x.id == d.id) (with_root root x) x e)
      ∙ assign-links_to root ds (with_root root x)
      ∙ both (has_id x.id ds)
      ∙ sym (ap (λ (b : Bool). if b || has_id x.id ds then with_root root x else x) e)
  | inr e ↦
      ap (assign_one (links_to root ds)) (if_false (x.id == d.id) (with_root root x) x e)
      ∙ assign-links_to root ds x
      ∙ sym (ap (λ (b : Bool). if b || has_id x.id ds then with_root root x else x) e)
]
  where
    both : (b : Bool) → (if b then with_root root x else with_root root x) ≡ with_root root x
    both true = refl
    both false = refl

-- No row of the list has the identifier.
abbrev pub NoneIs : ℕ → List EntityRow → Type 0
NoneIs k es = All (λ (e : EntityRow). k == e.id ≡ false) es

pub NoneIs-has_id : (k : ℕ) (es : List EntityRow) → NoneIs k es → has_id k es ≡ false
NoneIs-has_id k [] h = refl
NoneIs-has_id k (e ∷ es) h = rw h.0 (NoneIs-has_id k es h.1)

pub members_none :
    (g : List EntityRow) (x : EntityRow) → NoneIs x.id g → assign_one (links_of_members g) x ≡ x
unfolding links_of_members
members_none [] x h = refl
members_none (r ∷ ds) x h =
    assign-links_to r.id ds x
    ∙ ap (λ (b : Bool). if b then with_root r.id x else x) (NoneIs-has_id x.id ds h.1)

-- No group has the identifier.
abbrev pub Clean : ℕ → List Group → Type 0
Clean k [] = Unit {0}
Clean k (g ∷ gs) = NoneIs k g.members × Clean k gs

pub groups_none :
    (gs : List Group) (x : EntityRow) → Clean x.id gs → assign_one (links_of_groups gs) x ≡ x
unfolding links_of_groups
groups_none [] x h = refl
groups_none (g ∷ gs) x h =
    assign-append (links_of_members g.members) (links_of_groups gs) x
    ∙ ap (assign_one (links_of_groups gs)) (members_none g.members x h.0)
    ∙ groups_none gs x h.1
