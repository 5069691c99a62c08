-- ===== src/Queue/Summary/Counts.antt =====
-- The summary against counts of the rows.
use mathlib.Core.List.{append_assoc, append-nil}
use pr_killer.Prelude.{
  ℕ, suc, ◌+◌, ◌≡◌, refl, Bool, true, false, ◌||◌, List, [], ◌∷◌, ◌++◌, arith, ltb, length,
  if◌then◌else◌, Bool-cases, inl, inr,
}
use pr_killer.Queue.Status.{
  Status, idle, pending, processing, completed, failed, unknown, Kind, normalised, is_active,
  is_pending, is_processing,
}
use pr_killer.Queue.Rows.{Source}
use pr_killer.Queue.Summary.{
  Row, Summary, zero_summary, current, count_as, count_row, count_rows,
  compute_project_queue_summary, project_queue_has_active_work, project_rows,
  fetch_project_queue_summary,
}

abbrev pub is_completed : Status → Bool
is_completed completed = true
is_completed _ = false

abbrev pub is_failed : Status → Bool
is_failed failed = true
is_failed _ = false

-- The rows whose normalised status passes a test.
abbrev pub count : (Status → Bool) → List Row → ℕ
count test [] = 0
count test (r ∷ rs) = if test (normalised r.status) then suc (count test rs) else count test rs

abbrev pub any_active : List Row → Bool
any_active [] = false
any_active (r ∷ rs) = is_active (normalised r.status) || any_active rs

abbrev pub processing_ids : List Row → List (Kind × ℕ)
processing_ids [] = []
processing_ids (r ∷ rs) =
    if is_processing (normalised r.status)
    then current r r.id ++ processing_ids rs
    else processing_ids rs

-- What counting more rows adds to a summary.
record Adds (s t : Summary) (rs : List Row) : Type 0 where
  pub pending : t.pending ≡ s.pending + count is_pending rs
  pub processing : t.processing ≡ s.processing + count is_processing rs
  pub completed : t.completed ≡ s.completed + count is_completed rs
  pub failed : t.failed ≡ s.failed + count is_failed rs
  pub all :
      t.idle + t.pending + t.processing + t.completed + t.failed
      ≡ s.idle + s.pending + s.processing + s.completed + s.failed + length rs

count_as-Adds :
    (st : Status) (r : Row) (rs : List Row) (s t : Summary)
    → normalised r.status ≡ st
    → Adds (count_as st r s) t rs
    → Adds s t (r ∷ rs)
count_as-Adds idle r rs s t e h = ground arith
count_as-Adds pending r rs s t e h = ground arith
count_as-Adds processing r rs s t e h = ground arith
count_as-Adds completed r rs s t e h = ground arith
count_as-Adds failed r rs s t e h = ground arith
count_as-Adds (unknown u) r rs s t e h = ground arith

count_rows-Adds : (s : Summary) (rs : List Row) → Adds s (count_rows s rs) rs
unfolding count_rows
count_rows-Adds s [] = omega arith
count_rows-Adds s (r ∷ rs) =
    count_as-Adds (normalised r.status) r rs s (count_rows (count_row r s) rs) refl
      (count_rows-Adds (count_row r s) rs)

-- Each counter is the number of rows with that status, and every row is counted once: what has no
-- known status counts as idle.
pub compute_summary-counts :
    (rows : List Row)
    → let s = compute_project_queue_summary rows in
      (s.pending ≡ count is_pending rows)
      × (s.processing ≡ count is_processing rows)
      × (s.completed ≡ count is_completed rows)
      × (s.failed ≡ count is_failed rows)
      × (s.idle + s.pending + s.processing + s.completed + s.failed ≡ length rows)
unfolding compute_project_queue_summary
compute_summary-counts rows = omega (arith, count_rows-Adds zero_summary rows)

ids-count_as :
    (st : Status) (r : Row) (s : Summary)
    → (count_as st r s).currently_processing
      ≡ s.currently_processing ++ (if is_processing st then current r r.id else [])
ids-count_as idle r s = rw append-nil
ids-count_as pending r s = rw append-nil
ids-count_as processing r s = refl
ids-count_as completed r s = rw append-nil
ids-count_as failed r s = rw append-nil
ids-count_as (unknown t) r s = rw append-nil

ids-count_rows :
    (s : Summary) (rs : List Row)
    → (count_rows s rs).currently_processing ≡ s.currently_processing ++ processing_ids rs
unfolding count_rows
ids-count_rows s [] = rw append-nil
ids-count_rows s (r ∷ rs) =
    rw (ids-count_rows (count_row r s) rs, ids-count_as (normalised r.status) r s, append_assoc)
      (elim (Bool-cases (is_processing (normalised r.status))) [
        | inl e ↦ rw e refl
        | inr e ↦ rw e refl
      ])

-- `currently_processing` lists the rows that are processing and have an id, in the rows' order.
pub currently_processing-eq :
    (rows : List Row)
    → (compute_project_queue_summary rows).currently_processing ≡ processing_ids rows
unfolding compute_project_queue_summary
currently_processing-eq rows = ids-count_rows zero_summary rows

active-counts :
    (rs : List Row)
    → (ltb 0 (count is_pending rs) || ltb 0 (count is_processing rs)) ≡ any_active rs
active-counts [] = refl
active-counts (r ∷ rs) = go (normalised r.status) refl (active-counts rs)
  where
    go :
        (st : Status)
        → normalised r.status ≡ st
        → (ltb 0 (count is_pending rs) || ltb 0 (count is_processing rs)) ≡ any_active rs
        → (ltb 0 (count is_pending (r ∷ rs)) || ltb 0 (count is_processing (r ∷ rs)))
          ≡ any_active (r ∷ rs)
    go idle e ih = rw e ih
    go pending e ih = rw e (ground arith)
    go processing e ih = rw e (ground arith)
    go completed e ih = rw e ih
    go failed e ih = rw e ih
    go (unknown t) e ih = rw e ih

-- The queue has active work exactly when a row of the project is pending or processing.
pub has_active_work-eq :
    (p : ℕ) (docs audios : List Source)
    → project_queue_has_active_work (fetch_project_queue_summary p docs audios)
      ≡ any_active (project_rows p docs audios)
unfolding project_queue_has_active_work fetch_project_queue_summary
has_active_work-eq p docs audios =
    let c = compute_summary-counts (project_rows p docs audios) in
    rw (c.0, c.1) (active-counts (project_rows p docs audios))
