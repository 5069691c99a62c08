-- ===== src/Queue/Pick/Sound.antt =====
-- Every picked item is a pending source of the project.
use pr_killer.Prelude.{
  ℕ, zero, suc, ◌*◌, ◌≡◌, refl, Bool, true, ◌&&◌, some, List, [], ◌∷◌, ◌++◌, map, max, take,
  if_both, Bool-cases, inl, inr, ◌==◌, ==_refl,
}
use pr_killer.Sort.{insert, sort}
use pr_killer.Queue.Status.{Kind, document, audio, is_pending}
use pr_killer.Queue.Rows.{Source, get}
use pr_killer.Queue.World.{World, Env, rows}
use pr_killer.Queue.Pick.{
  is_some, PendingProjectSource, item_le, row_le, item_of, pending_rows, select_pending,
  pick_pending_project_sources,
}

abbrev pub All {ℓ κ} : {A : Type ℓ} → (A → Type κ) → List A → Type κ
All P [] = Unit
All P (x ∷ xs) = P x × All P xs

module _ {ℓ κ} {A : Type ℓ} (P : A → Type κ) where
  pub All-append : (xs ys : List A) → All P xs → All P ys → All P (xs ++ ys)
  All-append [] ys hx hy = hy
  All-append (x ∷ xs) ys hx hy = (hx.0, All-append xs ys hx.1 hy)

  pub All-take : (n : ℕ) (xs : List A) → All P xs → All P (take n xs)
  All-take zero xs h = tt
  All-take (suc n) [] h = tt
  All-take (suc n) (x ∷ xs) h = (h.0, All-take n xs h.1)

  All-insert : (le : A → A → Bool) (x : A) (xs : List A) → P x → All P xs → All P (insert le x xs)
  unfolding insert
  All-insert le x [] h hs = (h, tt)
  All-insert le x (y ∷ xs) h hs = elim (Bool-cases (le x y)) [
    | inl e ↦ rw e (h, hs)
    | inr e ↦ rw e (hs.0, All-insert le x xs h hs.1)
  ]

  pub All-sort : (le : A → A → Bool) (xs : List A) → All P xs → All P (sort le xs)
  unfolding sort
  All-sort le [] h = tt
  All-sort le (x ∷ xs) h = All-insert le x (sort le xs) h.0 (All-sort le xs h.1)

-- The row of an item is in its table.
abbrev pub IsPresent : World → PendingProjectSource → Type 0
IsPresent w item = is_some (get item.source_id (rows item.kind w)) ≡ true

abbrev RowIn : List Source → Source → Type 0
RowIn rs q = is_some (get q.id rs) ≡ true

RowIn-cons : (r : Source) (rs : List Source) (q : Source) → RowIn rs q → RowIn (r ∷ rs) q
unfolding get
RowIn-cons r rs q h = if_both (λ o. is_some o ≡ true) (r.id == q.id) (some r) (get q.id rs) refl h

RowIn-head : (r : Source) (rs : List Source) → RowIn (r ∷ rs) r
unfolding get
RowIn-head r rs = rw (==_refl r.id) refl

All-RowIn-cons : (r : Source) (rs qs : List Source) → All (RowIn rs) qs → All (RowIn (r ∷ rs)) qs
All-RowIn-cons r rs [] h = tt
All-RowIn-cons r rs (q ∷ qs) h = (RowIn-cons r rs q h.0, All-RowIn-cons r rs qs h.1)

pending_rows-RowIn :
    (free : ℕ → Bool) (p : ℕ) (rs : List Source) → All (RowIn rs) (pending_rows free p rs)
unfolding pending_rows
pending_rows-RowIn free p [] = tt
pending_rows-RowIn free p (r ∷ rs) =
    let tail = All-RowIn-cons r rs (pending_rows free p rs) (pending_rows-RowIn free p rs) in
    if_both (All (RowIn (r ∷ rs)))
      (r.project_id == p && (is_pending r.processing_status && free r.id))
      (r ∷ pending_rows free p rs) (pending_rows free p rs) (RowIn-head r rs, tail) tail

items-IsPresent :
    (kind : Kind) (w : World) (qs : List Source)
    → All (RowIn (rows kind w)) qs
    → All (IsPresent w) (map (item_of kind) qs)
items-IsPresent kind w [] h = tt
items-IsPresent kind w (q ∷ qs) h = (h.0, items-IsPresent kind w qs h.1)

-- What is picked is there: each item's row is found by its key.
pub pick-IsPresent :
    (e : Env) (p limit : ℕ) (w : World)
    → All (IsPresent w) (pick_pending_project_sources e p limit w)
unfolding pick_pending_project_sources select_pending
pick-IsPresent e p limit w =
    let n = max (limit * 2) limit in
    let docs =
      All-take (RowIn w.documents) n (sort row_le (pending_rows (e.free document) p w.documents)) (
        All-sort (RowIn w.documents) row_le (pending_rows (e.free document) p w.documents)
          (pending_rows-RowIn (e.free document) p w.documents)) in
    let audios =
      All-take (RowIn w.audios) n (sort row_le (pending_rows (e.free audio) p w.audios)) (
        All-sort (RowIn w.audios) row_le (pending_rows (e.free audio) p w.audios)
          (pending_rows-RowIn (e.free audio) p w.audios)) in
    let items_d = map (item_of document) (select_pending (e.free document) p n w.documents) in
    let items_a = map (item_of audio) (select_pending (e.free audio) p n w.audios) in
    All-take (IsPresent w) limit (sort item_le (items_d ++ items_a)) (
      All-sort (IsPresent w) item_le (items_d ++ items_a) (
        All-append (IsPresent w) items_d items_a
          (items-IsPresent document w (select_pending (e.free document) p n w.documents) docs)
          (items-IsPresent audio w (select_pending (e.free audio) p n w.audios) audios)))
