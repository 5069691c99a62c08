-- ===== src/Queue/Summary.antt =====
-- `compute_project_queue_summary` and its callers: how many rows stand in each status.
pub mod Counts
use pr_killer.Prelude.{
  ℕ, zero, suc, ◌+◌, ◌<◌, ◌≡◌, refl, ◌↔◌, ◌⊎◌, inl, inr, Bool, true, false, ◌||◌, Option, none,
  some, List, [], ◌∷◌, ◌++◌, map, arith, ltb, length, length-append, length-map, if◌then◌else◌,
  Bool-cases,
}
use mathlib.Core.List.{append_assoc}
use pr_killer.Text.{Text}
use pr_killer.Queue.Status.{
  Status, idle, pending, processing, completed, failed, unknown, Kind, document, audio, normalised,
}
use pr_killer.Queue.Rows.{Source, in_project}

-- What `getattr` finds on a row: `id` is None where the row has no UUID.
pub record Row : Type 0 where
  pub kind : Kind
  pub id : Option ℕ
  pub status : Status

pub record Summary : Type 0 where
  pub idle : ℕ
  pub pending : ℕ
  pub processing : ℕ
  pub completed : ℕ
  pub failed : ℕ
  pub currently_processing : List (Kind × ℕ)

abbrev pub zero_summary : Summary
zero_summary = record {
  idle = 0;
  pending = 0;
  processing = 0;
  completed = 0;
  failed = 0;
  currently_processing = [];
}

abbrev pub current : Row → Option ℕ → List (Kind × ℕ)
current r none = []
current r (some i) = (r.kind, i) ∷ []

-- One round of the loop, by the normalised status.
abbrev pub count_as : Status → Row → Summary → Summary
count_as idle r s = record s { idle = s.idle + 1 }
count_as pending r s = record s { pending = s.pending + 1 }
count_as processing r s = record s {
  processing = s.processing + 1;
  currently_processing = s.currently_processing ++ current r r.id;
}
count_as completed r s = record s { completed = s.completed + 1 }
count_as failed r s = record s { failed = s.failed + 1 }
count_as (unknown t) r s = record s { idle = s.idle + 1 }

unfoldable pub count_row : Row → Summary → Summary
count_row r s = count_as (normalised r.status) r s

unfoldable pub count_rows : Summary → List Row → Summary
unfolding count_row
count_rows s [] = s
count_rows s (r ∷ rs) = count_rows (count_row r s) rs

unfoldable pub compute_project_queue_summary : List Row → Summary
unfolding count_rows
compute_project_queue_summary rows = count_rows zero_summary rows

-- `int(summary["pending"]) > 0 or int(summary["processing"]) > 0`
unfoldable pub project_queue_has_active_work : Summary → Bool
project_queue_has_active_work s = ltb 0 s.pending || ltb 0 s.processing

abbrev pub row_of : Kind → Source → Row
row_of k r = record { kind = k; id = some r.id; status = r.processing_status }

-- `[*docs, *audios]` of the project.
unfoldable pub project_rows : ℕ → List Source → List Source → List Row
project_rows p docs audios =
    map (row_of document) (in_project p docs) ++ map (row_of audio) (in_project p audios)

unfoldable pub fetch_project_queue_summary : ℕ → List Source → List Source → Summary
fetch_project_queue_summary p docs audios =
    compute_project_queue_summary (project_rows p docs audios)
