-- ===== src/EntityDedup/Ids.antt =====
-- Membership and identifiers in lists of rows, through selection and sorting.
use mathlib.Core.Path.{subst}
use pr_killer.Prelude.{
  ℕ, ◌≡◌, refl, sym, ap, ◌∙◌, ◌⊎◌, inl, inr, Bool, true, false, ◌||◌, List, [], ◌∷◌, arith, ◌==◌,
  Bool-cases, ==_refl,
}
use pr_killer.Sort.{insert, sort}
use pr_killer.Queue.Pick.Sound.{All, All-sort}
use pr_killer.Documents.World.{select_where}
use pr_killer.EntityDedup.{EntityRow, by_age}
use pr_killer.EntityDedup.Links.{has_id, NoneIs}

abbrev pub In : EntityRow → List EntityRow → Type 0
In x [] = ⊥
In x (y ∷ ys) = (x ≡ y) ⊎ In x ys

-- No two rows have the same identifier.
abbrev pub Distinct : List EntityRow → Type 0
Distinct [] = Unit {0}
Distinct (x ∷ xs) = NoneIs x.id xs × Distinct xs

module _ (Q : EntityRow → Type 0) where
  pub All-In : (xs : List EntityRow) (x : EntityRow) → All Q xs → In x xs → Q x
  All-In [] x h i = absurd i
  All-In (y ∷ ys) x h (inl e) = subst Q (sym e) h.0
  All-In (y ∷ ys) x h (inr i) = All-In ys x h.1 i

  pub All-of_In : (xs : List EntityRow) → ((x : EntityRow) → In x xs → Q x) → All Q xs
  All-of_In [] h = tt
  All-of_In (x ∷ xs) h = (h x (inl refl), All-of_In xs (λ y i. h y (inr i)))

  pub All-select :
      (test : EntityRow → Bool) (xs : List EntityRow) → All Q xs → All Q (select_where test xs)
  unfolding select_where
  All-select test [] h = tt
  All-select test (x ∷ xs) h = elim (Bool-cases (test x)) [
    | inl e ↦ rw e (h.0, All-select test xs h.1)
    | inr e ↦ rw e (All-select test xs h.1)
  ]

==_sym : (a b : ℕ) → a == b ≡ false → b == a ≡ false
==_sym a b h = ground arith

pub select-Distinct :
    (test : EntityRow → Bool) (xs : List EntityRow) → Distinct xs → Distinct (select_where test xs)
unfolding select_where
select-Distinct test [] d = tt
select-Distinct test (x ∷ xs) d = elim (Bool-cases (test x)) [
  | inl e ↦ rw e (
    All-select (λ (y : EntityRow). x.id == y.id ≡ false) test xs d.0,
    select-Distinct test xs d.1,
  )
  | inr e ↦ rw e (select-Distinct test xs d.1)
]

insert-NoneIs :
    (k : ℕ) (x : EntityRow) (xs : List EntityRow)
    → k == x.id ≡ false
    → NoneIs k xs
    → NoneIs k (insert by_age x xs)
unfolding insert
insert-NoneIs k x [] h n = (h, tt)
insert-NoneIs k x (y ∷ ys) h n = elim (Bool-cases (by_age x y)) [
  | inl e ↦ rw e (h, n)
  | inr e ↦ rw e (n.0, insert-NoneIs k x ys h n.1)
]

insert-Distinct :
    (x : EntityRow) (xs : List EntityRow)
    → NoneIs x.id xs
    → Distinct xs
    → Distinct (insert by_age x xs)
unfolding insert
insert-Distinct x [] n d = (tt, tt)
insert-Distinct x (y ∷ ys) n d = elim (Bool-cases (by_age x y)) [
  | inl e ↦ rw e (n, d)
  | inr e ↦ rw e (insert-NoneIs y.id x ys (==_sym x.id y.id n.0) d.0, insert-Distinct x ys n.1 d.1)
]

pub sort-Distinct : (xs : List EntityRow) → Distinct xs → Distinct (sort by_age xs)
unfolding sort
sort-Distinct [] d = tt
sort-Distinct (x ∷ xs) d =
    insert-Distinct x (sort by_age xs)
      (All-sort (λ (y : EntityRow). x.id == y.id ≡ false) by_age xs d.0) (sort-Distinct xs d.1)

-- Rows with the same identifier are the same row.
pub same_id :
    (xs : List EntityRow) (x : EntityRow)
    → Distinct xs
    → In x xs
    → All (λ (e : EntityRow). x.id == e.id ≡ true → e ≡ x) xs
same_id [] x d i = tt
same_id (y ∷ ys) x d (inl e) = (
  λ h. sym e,
  All-of_In (λ (z : EntityRow). x.id == z.id ≡ true → z ≡ x) ys
      λ z i h.
        let apart : y.id == z.id ≡ false =
          All-In (λ (q : EntityRow). y.id == q.id ≡ false) ys z d.0 i in
        let same : x.id == z.id ≡ y.id == z.id = ap (λ (q : EntityRow). q.id == z.id) e in
        absurd (cc),
)
same_id (y ∷ ys) x d (inr i) = (
  λ h.
      let apart : y.id == x.id ≡ false =
        All-In (λ (q : EntityRow). y.id == q.id ≡ false) ys x d.0 i in
      let other = ==_sym y.id x.id apart in absurd (cc),
  same_id ys x d.1 i,
)

or_true : (a : Bool) {b : Bool} → b ≡ true → (a || b) ≡ true
or_true true h = refl
or_true false h = h

pub has_id-select :
    (test : EntityRow → Bool) (xs : List EntityRow) (x : EntityRow)
    → In x xs
    → test x ≡ true
    → has_id x.id (select_where test xs) ≡ true
unfolding select_where
has_id-select test [] x i h = absurd i
has_id-select test (y ∷ ys) x (inl e) h =
    let t : test y ≡ true = ap test (sym e) ∙ h in
    let same : x.id == y.id ≡ true = ap (λ (q : EntityRow). x.id == q.id) (sym e) ∙ ==_refl x.id in
    rw t (rw same refl)
has_id-select test (y ∷ ys) x (inr i) h = elim (Bool-cases (test y)) [
  | inl e ↦ rw e (or_true (x.id == y.id) (has_id-select test ys x i h))
  | inr e ↦ rw e (has_id-select test ys x i h)
]

In-insert : (x y : EntityRow) (l : List EntityRow) → In x (y ∷ l) → In x (insert by_age y l)
unfolding insert
In-insert x y [] i = i
In-insert x y (z ∷ l) i = elim (Bool-cases (by_age y z)) [
  | inl e ↦ rw e i
  | inr e ↦ rw e (go (λ k. In-insert x y l k) i)
]
  where
    go : (In x (y ∷ l) → In x (insert by_age y l)) → In x (y ∷ z ∷ l) → In x (z ∷ insert by_age y l)
    go rec (inl p) = inr (rec (inl p))
    go rec (inr (inl p)) = inl p
    go rec (inr (inr q)) = inr (rec (inr q))

pub In-sort : (x : EntityRow) (l : List EntityRow) → In x l → In x (sort by_age l)
unfolding sort
In-sort x [] i = i
In-sort x (y ∷ l) (inl e) = In-insert x y (sort by_age l) (inl e)
In-sort x (y ∷ l) (inr i) = In-insert x y (sort by_age l) (inr (In-sort x l i))

pub In-select :
    (test : EntityRow → Bool) (x : EntityRow) (l : List EntityRow)
    → test x ≡ true
    → In x l
    → In x (select_where test l)
unfolding select_where
In-select test x [] t i = i
In-select test x (y ∷ l) t (inl e) = let u : test y ≡ true = ap test (sym e) ∙ t in rw u (inl e)
In-select test x (y ∷ l) t (inr i) = elim (Bool-cases (test y)) [
  | inl u ↦ rw u (inr (In-select test x l t i))
  | inr u ↦ rw u (In-select test x l t i)
]

pub select-passes :
    (test : EntityRow → Bool) (l : List EntityRow)
    → All (λ (e : EntityRow). test e ≡ true) (select_where test l)
unfolding select_where
select-passes test [] = tt
select-passes test (y ∷ l) = elim (Bool-cases (test y)) [
  | inl u ↦ rw u (u, select-passes test l)
  | inr u ↦ rw u (select-passes test l)
]
