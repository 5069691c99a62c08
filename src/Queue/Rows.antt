-- ===== src/Queue/Rows.antt =====
-- The rows of `source_documents` and `source_audios`, with the columns that the queue uses, and the
-- look-up and update of a row by its key. Both tables have the same queue columns.
use mathlib.Core.Option
use pr_killer.Prelude.{
  ℕ, ◌≡◌, refl, Bool, Option, none, some, List, [], ◌∷◌, arith, ◌==◌, if◌then◌else◌, Bool-cases,
  inl, inr,
}
use pr_killer.Text.{Text}
use pr_killer.Queue.Status.{Status}

pub record Source : Type 0 where
  pub id : ℕ
  pub project_id : ℕ
  pub processing_status : Status
  pub processing_sort_order : ℕ
  pub processing_started_at : Option ℕ
  pub processing_completed_at : Option ℕ
  pub processing_last_error : Option Text
  pub created_at : ℕ

-- `session.get(Model, key)`
unfoldable pub get : ℕ → List Source → Option Source
get k [] = none
get k (r ∷ rs) = if r.id == k then some r else get k rs

-- Assignments to the fields of the row that `session.get` returned.
unfoldable pub modify : ℕ → (Source → Source) → List Source → List Source
modify k f [] = []
modify k f (r ∷ rs) = (if r.id == k then f r else r) ∷ modify k f rs

-- `WHERE project_id = :p`
unfoldable pub in_project : ℕ → List Source → List Source
in_project p [] = []
in_project p (r ∷ rs) = let rest = in_project p rs in if r.project_id == p then r ∷ rest else rest

-- An update of every row that a `WHERE` clause admits.
unfoldable pub update_where : (Source → Bool) → (Source → Source) → List Source → List Source
update_where test f [] = []
update_where test f (r ∷ rs) = (if test r then f r else r) ∷ update_where test f rs

abbrev pub Each : (Source → Type 0) → List Source → Type 0
Each P [] = Unit {0}
Each P (r ∷ rs) = P r × Each P rs

module _ (k : ℕ) (f : Source → Source) (same : (r : Source) → (f r).id ≡ r.id) where
  pub get-modify :
      (j : ℕ) (rs : List Source)
      → get j (modify k f rs) ≡ (if k == j then Option.map f (get j rs) else get j rs)
  unfolding get modify
  get-modify j [] = elim (Bool-cases (k == j)) [ inl e ↦ rw e refl | inr e ↦ rw e refl ]
  get-modify j (r ∷ rs) = ground (arith, same r, get-modify j rs)

module _ (P : Source → Type 0) where
  pub Each-modify :
      (k : ℕ) (f : Source → Source) (rs : List Source)
      → ((r : Source) → P r → P (f r))
      → Each P rs
      → Each P (modify k f rs)
  unfolding modify
  Each-modify k f [] h e = tt
  Each-modify k f (r ∷ rs) h e = (
    elim (Bool-cases (r.id == k)) [ inl q ↦ rw q (h r e.0) | inr q ↦ rw q e.0 ],
    Each-modify k f rs h e.1,
  )

  pub Each-update_where :
      (test : Source → Bool) (f : Source → Source) (rs : List Source)
      → ((r : Source) → P r → P (f r))
      → Each P rs
      → Each P (update_where test f rs)
  unfolding update_where
  Each-update_where test f [] h e = tt
  Each-update_where test f (r ∷ rs) h e = (
    elim (Bool-cases (test r)) [ inl q ↦ rw q (h r e.0) | inr q ↦ rw q e.0 ],
    Each-update_where test f rs h e.1,
  )
