-- ===== src/Queue/Pick/Order.antt =====
-- The keys by which the queue sorts are totally ordered.
use pr_killer.Prelude.{
  ℕ, ◌≡◌, true, false, List, [], ◌∷◌, map, arith, refl, Bool-cases, inl, inr, take, zero, suc, ap,
}
use pr_killer.Sort.{insert, sort}
use pr_killer.Queue.Status.{Kind}
use pr_killer.Queue.Rows.{Source}
use pr_killer.Queue.Pick.{PendingProjectSource, row_le, item_le, item_of}

pub item_le_trans :
    (a b c : PendingProjectSource) → item_le a b ≡ true → item_le b c ≡ true → item_le a c ≡ true
unfolding item_le
item_le_trans a b c h k = ground arith

pub item_le_total : (a b : PendingProjectSource) → item_le a b ≡ false → item_le b a ≡ true
unfolding item_le
item_le_total a b h = ground arith

-- Sorting rows and sorting their items is the same.
insert-item_of :
    (kind : Kind) (r : Source) (l : List Source)
    → map (item_of kind) (insert row_le r l)
      ≡ insert item_le (item_of kind r) (map (item_of kind) l)
unfolding insert row_le item_le
insert-item_of kind r [] = refl
insert-item_of kind r (q ∷ l) = elim (Bool-cases (row_le r q)) [
  | inl e ↦ rw e refl
  | inr e ↦
      rw e (ap (λ (t : List PendingProjectSource). item_of kind q ∷ t) (insert-item_of kind r l))
]

pub sort-item_of :
    (kind : Kind) (l : List Source)
    → map (item_of kind) (sort row_le l) ≡ sort item_le (map (item_of kind) l)
unfolding sort
sort-item_of kind [] = refl
sort-item_of kind (r ∷ l) = rw (insert-item_of kind r (sort row_le l), sort-item_of kind l) refl

pub map-take :
    (kind : Kind) (n : ℕ) (l : List Source)
    → map (item_of kind) (take n l) ≡ take n (map (item_of kind) l)
map-take kind zero l = refl
map-take kind (suc n) [] = refl
map-take kind (suc n) (r ∷ l) =
    ap (λ (t : List PendingProjectSource). item_of kind r ∷ t) (map-take kind n l)
