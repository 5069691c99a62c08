-- ===== src/Batch/Summary.antt =====
-- `compute_batch_queue_summary`: how many rows of a batch stand in each status.
use pr_killer.Prelude.{ℕ, ◌+◌, ◌≡◌, refl, sym, ◌∙◌, ap, Option, none, some, List, [], ◌∷◌, ◌++◌}
use pr_killer.Queue.Status.{
  Status, idle, pending, processing, completed, failed, unknown, Kind, normalised,
}
use pr_killer.Queue.Summary.{
  Row, Summary, zero_summary, current, count_as, count_row, count_rows,
  compute_project_queue_summary,
}

pub record BatchSummary : Type 0 where
  pub idle : ℕ
  pub pending : ℕ
  pub processing : ℕ
  pub completed : ℕ
  pub failed : ℕ
  pub currently_processing_row_id : Option ℕ

-- `if current_row is None: current_row = rid if isinstance(rid, UUID) else None`
abbrev pub first_id : Option ℕ → Option ℕ → Option ℕ
first_id none rid = rid
first_id (some k) rid = some k

-- One round of the loop, by the normalised status.
abbrev pub count_batch_as : Status → Option ℕ → BatchSummary → BatchSummary
count_batch_as idle rid s = record s { idle = s.idle + 1 }
count_batch_as pending rid s = record s { pending = s.pending + 1 }
count_batch_as processing rid s = record s {
  processing = s.processing + 1;
  currently_processing_row_id = first_id s.currently_processing_row_id rid;
}
count_batch_as completed rid s = record s { completed = s.completed + 1 }
count_batch_as failed rid s = record s { failed = s.failed + 1 }
count_batch_as (unknown t) rid s = record s { idle = s.idle + 1 }

unfoldable pub count_batch_rows : BatchSummary → List Row → BatchSummary
count_batch_rows s [] = s
count_batch_rows s (r ∷ rs) = count_batch_rows (count_batch_as (normalised r.status) r.id s) rs

abbrev zero_batch_summary : BatchSummary
zero_batch_summary = record {
  idle = 0;
  pending = 0;
  processing = 0;
  completed = 0;
  failed = 0;
  currently_processing_row_id = none;
}

unfoldable pub compute_batch_queue_summary : List Row → BatchSummary
unfolding count_batch_rows
compute_batch_queue_summary rows = count_batch_rows zero_batch_summary rows

-- The batch's view of a project summary: of the sources in work, the first one's id.
abbrev pub head_id : List (Kind × ℕ) → Option ℕ
head_id [] = none
head_id ((k, i) ∷ rest) = some i

abbrev pub batch_view : Summary → BatchSummary
batch_view s = record {
  idle = s.idle;
  pending = s.pending;
  processing = s.processing;
  completed = s.completed;
  failed = s.failed;
  currently_processing_row_id = head_id s.currently_processing;
}

head_id-append :
    (xs : List (Kind × ℕ)) (r : Row) → head_id (xs ++ current r r.id) ≡ first_id (head_id xs) r.id
head_id-append [] r = go r.id
  where
    go : (o : Option ℕ) → head_id (current r o) ≡ o
    go none = refl
    go (some i) = refl
head_id-append ((k, i) ∷ xs) r = refl

view-count_as :
    (st : Status) (r : Row) (s : Summary)
    → batch_view (count_as st r s) ≡ count_batch_as st r.id (batch_view s)
view-count_as idle r s = refl
view-count_as pending r s = refl
view-count_as processing r s =
    ap
      (λ (o : Option ℕ). record (batch_view (record s { processing = s.processing + 1 })) {
        currently_processing_row_id = o;
      })
      (head_id-append s.currently_processing r)
view-count_as completed r s = refl
view-count_as failed r s = refl
view-count_as (unknown t) r s = refl

view-count_rows :
    (rows : List Row) (s : Summary)
    → batch_view (count_rows s rows) ≡ count_batch_rows (batch_view s) rows
unfolding count_rows count_row count_batch_rows
view-count_rows [] s = refl
view-count_rows (r ∷ rs) s =
    view-count_rows rs (count_as (normalised r.status) r s)
    ∙ ap (λ (b : BatchSummary). count_batch_rows b rs) (view-count_as (normalised r.status) r s)

-- The batch queue and the project queue count alike: the batch's summary is the project's one of the
-- same rows, with the first source in work in place of their list.
pub batch_summary-eq :
    (rows : List Row)
    → compute_batch_queue_summary rows ≡ batch_view (compute_project_queue_summary rows)
unfolding compute_batch_queue_summary compute_project_queue_summary
batch_summary-eq rows = sym (view-count_rows rows zero_summary)
