-- ===== src/Queue/Pick/Fresh.antt =====
-- The number that `_next_sort_order` gives.
use pr_killer.Prelude.{
  ℕ, ◌≤◌, ◌<◌, ◌≡◌, true, some, List, [], ◌∷◌, arith, ◌==◌, Bool-cases, inl, inr,
}
use pr_killer.Queue.Status.{Kind, document, audio}
use pr_killer.Queue.Rows.{Source, get, in_project}
use pr_killer.Queue.World.{World, rows}
use pr_killer.Queue.Pick.{max_order, next_sort_order}

max_order-bounds :
    (p k : ℕ) (rs : List Source) (r : Source)
    → get k rs ≡ some r
    → r.project_id == p ≡ true
    → r.processing_sort_order ≤ max_order (in_project p rs)
unfolding get in_project
max_order-bounds p k [] r found here = absurd (cc)
max_order-bounds p k (q ∷ rs) r found here = elim (Bool-cases (q.id == k)) [
  | inl e ↦ (let same : some q ≡ some r = rw e at found in grind arith)
  | inr e ↦
      (let ih = max_order-bounds p k rs r (rw e at found) here in
        elim (Bool-cases (q.project_id == p)) [
          | inl f ↦ rw f (omega (arith, ih))
          | inr f ↦ rw f ih
        ])
]

-- The next number is larger than the number of every source of the project, document or audio: a
-- source that is queued without a number of its own goes behind all others.
next_sort_order-exceeds :
    (p k : ℕ) (kind : Kind) (w : World) (r : Source)
    → get k (rows kind w) ≡ some r
    → r.project_id == p ≡ true
    → r.processing_sort_order < next_sort_order p w
unfolding next_sort_order
next_sort_order-exceeds p k document w r found here =
    omega (arith, max_order-bounds p k w.documents r found here)
next_sort_order-exceeds p k audio w r found here =
    omega (arith, max_order-bounds p k w.audios r found here)
