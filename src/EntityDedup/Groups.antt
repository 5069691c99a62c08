-- ===== src/EntityDedup/Groups.antt =====
-- The groups seen from one row.
use mathlib.Core.Path.{subst}
use mathlib.Core.List.{append_assoc, append-nil}
use pr_killer.Prelude.{
  ℕ, ◌≡◌, refl, sym, ap, ◌∙◌, Bool, true, false, List, [], ◌∷◌, ◌++◌, ◌==◌, if◌then◌else◌,
  Bool-cases, inl, inr,
}
use pr_killer.Text.{Text, text_eq}
use pr_killer.Text.Equal.{text_eq_sound, text_eq_refl}
use pr_killer.Queue.Pick.Sound.{All, All-append}
use pr_killer.Documents.World.{select_where}
use pr_killer.EntityDedup.{
  EntityRow, Group, append_to_group, group_entities, links_of_members, links_of_groups,
}
use pr_killer.EntityDedup.Links.{
  assign_one, assign-append, assign-id, NoneIs, Clean, groups_none, members_none,
}

-- The members of the group with the key `f`.
abbrev pub members_of : Text → List Group → List EntityRow
members_of f [] = []
members_of f (g ∷ gs) = let rest = members_of f gs in if text_eq g.key f then g.members else rest

abbrev pub select_key : (EntityRow → Text) → Text → List EntityRow → List EntityRow
select_key fp f es = select_where (λ e. text_eq (fp e) f) es

text_eq-sym : (s t : Text) → text_eq s t ≡ false → text_eq t s ≡ false
text_eq-sym s t h = elim (Bool-cases (text_eq t s)) [
  | inl e ↦ (let same = text_eq_sound t s e in let r = text_eq_refl s in cc)
  | inr e ↦ e
]

members_of-append :
    (k f : Text) (e : EntityRow) (gs : List Group)
    → members_of f (append_to_group k e gs)
      ≡ (if text_eq k f then members_of f gs ++ e ∷ [] else members_of f gs)
unfolding append_to_group
members_of-append k f e [] = refl
members_of-append k f e (g ∷ gs) = elim (Bool-cases (text_eq g.key k)) [
  | inl p ↦
      let same : g.key ≡ k = text_eq_sound g.key k p in
      let q : text_eq k f ≡ text_eq g.key f = ap (λ (t : Text). text_eq t f) (sym same) in
      rw (p, q) (elim (Bool-cases (text_eq g.key f)) [ inl r ↦ rw r refl | inr r ↦ rw r refl ])
  | inr p ↦ rw p (elim (Bool-cases (text_eq g.key f)) [
    | inl r ↦
        let same : g.key ≡ f = text_eq_sound g.key f r in
        let other : text_eq k f ≡ false = ap (text_eq k) (sym same) ∙ text_eq-sym g.key k p in
        rw (r, other) refl
    | inr r ↦ rw r (members_of-append k f e gs)
  ])
]

pub members_of-group :
    (fp : EntityRow → Text) (f : Text) (es : List EntityRow) (gs : List Group)
    → members_of f (group_entities fp es gs) ≡ members_of f gs ++ select_key fp f es
unfolding group_entities select_where
members_of-group fp f [] gs = sym (append-nil (members_of f gs))
members_of-group fp f (e ∷ es) gs = elim (Bool-cases (text_eq (fp e) f)) [
  | inl p ↦ rw p (
      members_of-group fp f es (append_to_group (fp e) e gs)
      ∙ ap (λ (l : List EntityRow). l ++ select_key fp f es)
          (members_of-append (fp e) f e gs
            ∙ ap (λ (b : Bool). if b then members_of f gs ++ e ∷ [] else members_of f gs) p)
      ∙ append_assoc (members_of f gs) (e ∷ []) (select_key fp f es))
  | inr p ↦ rw p (
      members_of-group fp f es (append_to_group (fp e) e gs)
      ∙ ap (λ (l : List EntityRow). l ++ select_key fp f es)
          (members_of-append (fp e) f e gs
            ∙ ap (λ (b : Bool). if b then members_of f gs ++ e ∷ [] else members_of f gs) p))
]

append-Clean :
    (k : ℕ) (f : Text) (e : EntityRow) (gs : List Group)
    → k == e.id ≡ false
    → Clean k gs
    → Clean k (append_to_group f e gs)
unfolding append_to_group
append-Clean k f e [] h c = ((h, tt), tt)
append-Clean k f e (g ∷ gs) h c = elim (Bool-cases (text_eq g.key f)) [
  | inl p ↦
      rw p (All-append (λ (q : EntityRow). k == q.id ≡ false) g.members (e ∷ []) c.0 (h, tt), c.1)
  | inr p ↦ rw p (c.0, append-Clean k f e gs h c.1)
]

pub group-Clean :
    (k : ℕ) (fp : EntityRow → Text) (es : List EntityRow) (gs : List Group)
    → NoneIs k es
    → Clean k gs
    → Clean k (group_entities fp es gs)
unfolding group_entities
group-Clean k fp [] gs h c = c
group-Clean k fp (e ∷ es) gs h c =
    group-Clean k fp es (append_to_group (fp e) e gs) h.1 (append-Clean k (fp e) e gs h.0 c)

-- Outside the first group with the key `f`, nobody has the identifier.
abbrev pub Apart : Text → ℕ → List Group → Type 0
Apart f k [] = Unit {0}
Apart f k (g ∷ gs) =
    (text_eq g.key f ≡ true → Clean k gs)
    × (text_eq g.key f ≡ false → NoneIs k g.members × Apart f k gs)

-- An entity with the identifier has the key.
abbrev pub Keyed : (EntityRow → Text) → Text → ℕ → EntityRow → Type 0
Keyed fp f k e = k == e.id ≡ true → fp e ≡ f

differs :
    (fp : EntityRow → Text) (f : Text) (k : ℕ) (e : EntityRow)
    → Keyed fp f k e
    → text_eq (fp e) f ≡ false
    → k == e.id ≡ false
differs fp f k e h n = elim (Bool-cases (k == e.id)) [
  | inl p ↦ (let same = h p in let r = text_eq_refl f in cc)
  | inr p ↦ p
]

append-Apart :
    (fp : EntityRow → Text) (f : Text) (k : ℕ) (e : EntityRow) (gs : List Group)
    → Keyed fp f k e
    → Apart f k gs
    → Apart f k (append_to_group (fp e) e gs)
unfolding append_to_group
append-Apart fp f k e [] h a = ((λ p. tt), (λ p. ((differs fp f k e h p, tt), tt)))
append-Apart fp f k e (g ∷ gs) h a = elim (Bool-cases (text_eq g.key (fp e))) [
  | inl p ↦
      let same : g.key ≡ fp e = text_eq_sound g.key (fp e) p in
      rw p (
        a.0,
        λ q.
            let n : text_eq (fp e) f ≡ false = ap (λ (t : Text). text_eq t f) (sym same) ∙ q in
            (
              All-append (λ (x : EntityRow). k == x.id ≡ false) g.members (e ∷ []) (a.1 q).0
                  (differs fp f k e h n, tt),
              (a.1 q).1,
            ),
      )
  | inr p ↦ rw p (
    (λ q.
        let same : g.key ≡ f = text_eq_sound g.key f q in
        let n : text_eq (fp e) f ≡ false =
          ap (text_eq (fp e)) (sym same) ∙ text_eq-sym g.key (fp e) p in
        append-Clean k (fp e) e gs (differs fp f k e h n) (a.0 q)),
    λ q. ((a.1 q).0, append-Apart fp f k e gs h (a.1 q).1),
  )
]

pub group-Apart :
    (fp : EntityRow → Text) (f : Text) (k : ℕ) (es : List EntityRow) (gs : List Group)
    → All (Keyed fp f k) es
    → Apart f k gs
    → Apart f k (group_entities fp es gs)
unfolding group_entities
group-Apart fp f k [] gs h a = a
group-Apart fp f k (e ∷ es) gs h a =
    group-Apart fp f k es (append_to_group (fp e) e gs) h.1 (append-Apart fp f k e gs h.0 a)

-- Only the group with the row's key assigns to the row.
pub assign-Apart :
    (f : Text) (x : EntityRow) (gs : List Group)
    → Apart f x.id gs
    → assign_one (links_of_groups gs) x ≡ assign_one (links_of_members (members_of f gs)) x
unfolding links_of_groups links_of_members
assign-Apart f x [] a = refl
assign-Apart f x (g ∷ gs) a = elim (Bool-cases (text_eq g.key f)) [
  | inl p ↦ rw p (assign-append (links_of_members g.members) (links_of_groups gs) x ∙ rest (a.0 p))
  | inr p ↦ rw p (
      assign-append (links_of_members g.members) (links_of_groups gs) x
      ∙ ap (assign_one (links_of_groups gs)) (members_none g.members x (a.1 p).0)
      ∙ assign-Apart f x gs (a.1 p).1)
]
  where
    rest :
        Clean x.id gs
        → assign_one (links_of_groups gs) (assign_one (links_of_members g.members) x)
          ≡ assign_one (links_of_members g.members) x
    rest c =
        let y = assign_one (links_of_members g.members) x in
        let same : y.id ≡ x.id = assign-id (links_of_members g.members) x in
        groups_none gs y (subst (λ (k : ℕ). Clean k gs) (sym same) c)
