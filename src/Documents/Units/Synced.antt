-- ===== src/Documents/Units/Synced.antt =====
-- The rows of interview_units after a synchronisation.
use pr_killer.Prelude.{ℕ, ◌≡◌, true, List, [], map, length}
use pr_killer.Text.{Text, strip, or_text}
use pr_killer.Queue.Pick.Sound.{All}
use pr_killer.Documents.World.{Document, UnitDraft, InterviewUnit}
use pr_killer.Documents.Chunks.Rows.{count_up}
use pr_killer.Documents.Units.{Splitter, build_interview_unit_drafts, drafts_to_rows, flag_or}
use pr_killer.Text.Ink.{HasInk}

abbrev pub index_of : UnitDraft → ℕ
index_of d = d.unit_index

-- Drafts that are numbered from `i` on, none of them blank.
abbrev pub Numbered : ℕ → List UnitDraft → Type 0
Numbered i ds = (map index_of ds ≡ count_up i (length ds)) × All (λ d. HasInk d.raw_text) ds

-- The rows that a document gets.
abbrev rows_of : Splitter → Document → List InterviewUnit
rows_of x d = drafts_to_rows d.project_id d.id (
    build_interview_unit_drafts x (strip (or_text d.raw_text []))
      (flag_or d.single_file_multi_interview_mode true))
