-- ===== src/AudioProgress/Tests.antt =====
-- A batch with an interview document and two recordings.
use pr_killer.Prelude.{ℕ, ◌+◌, ◌≤◌, ◌≡◌, refl, true, none, some, List, [], ◌∷◌}
use pr_killer.Text.{Text, codes}
use pr_killer.AudioProgress.{
  AudioSegment, BatchSource, Tables, Progress, build_audio_progress, interview_rollup,
}
use pr_killer.AudioProgress.Bounds.{IsSound, progress-IsSound}
use pr_killer.AudioProgress.Interviews.{rollup_bounded}

abbrev segment : ℕ → Text → AudioSegment
segment k status = record { source_audio_id = k; status = status }

abbrev tables : Tables
tables = record {
  audios =
      record {
        id = 7;
        audio_pipeline_status = some (codes "Transcribing");
        audio_pipeline_last_error = none;
      }
      ∷ record {
        id = 8;
        audio_pipeline_status = some (codes "failed");
        audio_pipeline_last_error = none;
      }
      ∷ [];
  segments =
      segment 7 (codes "done")
      ∷ segment 7 (codes "pending")
      ∷ segment 7 (codes "failed")
      ∷ segment 8 (codes "failed")
      ∷ [];
  documents = record { id = 1; phase = some (codes "extracted") } ∷ [];
  units = 1 ∷ 1 ∷ 1 ∷ [];
}

abbrev sources : List BatchSource
sources =
    record { source_document_id = some 1; source_audio_id = none }
    ∷ record { source_document_id = none; source_audio_id = some 7 }
    ∷ record { source_document_id = none; source_audio_id = some 8 }
    ∷ []

abbrev expected : Progress
expected = record {
  source_audio_id = 7;
  overall_status = codes "Transcribing";
  total_chunks = 3;
  done_chunks = 1;
  failed_chunks = 1;
  pipeline_stage = codes "transcribing";
  last_error = none;
  progress_percent = 33;
}

progress_of_seven : build_audio_progress tables 7 ≡ some expected
unfolding build_audio_progress
progress_of_seven = refl

rollup_of_three :
    interview_rollup true tables sources
    ≡ record { total_interviews = 5; processed_interviews = 3; errors_count = 1 }
unfolding interview_rollup
rollup_of_three = refl

progress-IsSound_example : IsSound expected
progress-IsSound_example = progress-IsSound tables 7 expected progress_of_seven

rollup_bounded_example :
    let r = interview_rollup true tables sources in
    r.processed_interviews + r.errors_count ≤ r.total_interviews
rollup_bounded_example = rollup_bounded true tables sources
