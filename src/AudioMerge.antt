-- ===== src/AudioMerge.antt =====
-- `_try_merge_audio` of app/workers/tasks/audio_segment_pipeline.py: when no segment of a recording is
-- waiting, the texts of the finished ones become its transcript, or the recording fails. Here are the
-- changes of the session and its calls of other services, in the order in which they are made, when
-- none of them raises; that one raises and the session is rolled back is `session` in AudioTasks.
pub mod Once
pub mod Stored
mod Tests
use pr_killer.Prelude.{
  ℕ, zero, suc, ◌+◌, ◌/◌, ◌%◌, Bool, true, false, not, ◌&&◌, Option, none, some, List, [], ◌∷◌,
  ◌++◌, take, ltb, leb, ◌==◌, if◌then◌else◌,
}
use pr_killer.Sort.{sort}
use pr_killer.Text.{Text, codes, strip, is_empty, or_text}

-- `AudioPipelineStatus`, and any other text of its column.
pub data PipelineStatus : Type 0 where
  uploaded splitting transcribing merging ready failed : PipelineStatus
  other_status : Text → PipelineStatus

pub data SegmentStatus : Type 0 where
  pending processing done segment_failed : SegmentStatus
  other_segment_status : Text → SegmentStatus

pub record Recording : Type 0 where
  pub id : ℕ
  pub audio_pipeline_status : PipelineStatus
  pub audio_pipeline_last_error : Option Text
  pub language : Option Text
  pub original_path : Option Text
  pub mime_type : Option Text
  pub duration_ms : Option ℕ
  pub audio_file_bytes : Option ℕ

pub record AsrSegment : Type 0 where
  pub id : ℕ
  pub source_audio_id : ℕ
  pub segment_index : ℕ
  pub status : SegmentStatus
  pub transcript_text : Option Text
  pub provider : Option Text
  pub start_ms : ℕ
  pub end_ms : ℕ
  pub segment_path : Text
  pub error_message : Option Text

pub record MergedTranscript : Type 0 where
  pub id : ℕ
  pub source_audio_id : ℕ
  pub full_text : Text
  pub language : Option Text
  pub provider_name : Text

pub data Call : Type 0 where
  finalize_project_failure finalize_batch_failure : ℕ → Text → Call
  chunk_transcript extract_entities : ℕ → Call
  -- `.delay` of the other two tasks
  split_audio transcribe_segment : ℕ → Call

pub record AsrWorld : Type 0 where
  pub recordings : List Recording
  pub segments : List AsrSegment
  pub transcripts : List MergedTranscript
  -- transcript and text of each row of transcript_segments
  pub previews : List (ℕ × Text)
  -- the recording of each row of text_chunks
  pub text_chunks : List ℕ
  pub next_id : ℕ
  pub calls : List Call

unfoldable pub get_recording : ℕ → List Recording → Option Recording
get_recording k [] = none
get_recording k (a ∷ rest) = if a.id == k then some a else get_recording k rest

unfoldable pub modify_recording : ℕ → (Recording → Recording) → List Recording → List Recording
modify_recording k f [] = []
modify_recording k f (a ∷ rest) = (if a.id == k then f a else a) ∷ modify_recording k f rest

abbrev pub is_waiting : SegmentStatus → Bool
is_waiting pending = true
is_waiting processing = true
is_waiting _ = false

abbrev pub is_done : SegmentStatus → Bool
is_done done = true
is_done _ = false

abbrev pub is_failed_segment : SegmentStatus → Bool
is_failed_segment segment_failed = true
is_failed_segment _ = false

abbrev pub is_transcribing : PipelineStatus → Bool
is_transcribing transcribing = true
is_transcribing _ = false

-- The segments of a recording whose status passes a test, and their number.
unfoldable pub segments_of : (SegmentStatus → Bool) → ℕ → List AsrSegment → List AsrSegment
segments_of test k [] = []
segments_of test k (s ∷ rest) =
    let more = segments_of test k rest in
    if s.source_audio_id == k && test s.status then s ∷ more else more

abbrev pub count_of : List AsrSegment → ℕ
count_of [] = 0
count_of (s ∷ rest) = suc (count_of rest)

abbrev pub by_index : AsrSegment → AsrSegment → Bool
by_index a b = leb a.segment_index b.segment_index

-- `[str(r.transcript_text or "").strip() for r in rows if (r.transcript_text or "").strip()]`
abbrev pub parts_of : List AsrSegment → List Text
parts_of [] = []
parts_of (s ∷ rest) =
    let more = parts_of rest in
    let part = strip (or_text s.transcript_text []) in if is_empty part then more else part ∷ more

-- "\n\n".join(parts)
abbrev pub join_parts : List Text → Text
join_parts [] = []
join_parts (p ∷ []) = p
join_parts (p ∷ q ∷ rest) = p ++ 10 ∷ 10 ∷ join_parts (q ∷ rest)

-- The first provider that is not blank, or "chunked-asr".
abbrev pub provider_from : List AsrSegment → Text
provider_from [] = codes "chunked-asr"
provider_from (s ∷ rest) =
    if is_empty (strip (or_text s.provider [])) then provider_from rest else or_text s.provider []

abbrev pub fail_recording : Text → Recording → Recording
fail_recording message a = record a {
  audio_pipeline_status = failed;
  audio_pipeline_last_error = some message;
}

-- The recording fails, and both queues are told.
unfoldable pub merge_fails : ℕ → Text → AsrWorld → AsrWorld
unfolding modify_recording
merge_fails k message w = record w {
  recordings = modify_recording k (fail_recording message) w.recordings;
  calls = w.calls ++ finalize_project_failure k message ∷ finalize_batch_failure k message ∷ [];
}

unfoldable pub without_transcripts : ℕ → List MergedTranscript → List MergedTranscript
without_transcripts k [] = []
without_transcripts k (t ∷ ts) =
    let rest = without_transcripts k ts in if t.source_audio_id == k then rest else t ∷ rest

unfoldable pub without_chunks : ℕ → List ℕ → List ℕ
without_chunks k [] = []
without_chunks k (c ∷ cs) = let rest = without_chunks k cs in if c == k then rest else c ∷ rest

-- The decimal digits of a number, on fuel: one unit more than the number is enough.
abbrev pub digits : ℕ → ℕ → Text
digits zero n = []
digits (suc fuel) n =
    let rest = digits fuel (n / 10) in
    if ltb n 10 then (48 + n) ∷ [] else rest ++ (48 + n % 10) ∷ []

abbrev pub str : ℕ → Text
str n = digits (suc n) n

abbrev pub merge_note : ℕ → ℕ → Option Text
merge_note n_failed n_done =
    if ltb 0 n_failed
    then some
        (str n_failed ++ codes " segment(s) failed; merged " ++ str n_done ++ codes " slice(s).")
    else none

abbrev pub make_ready : ℕ → ℕ → Recording → Recording
make_ready n_failed n_done a = record a {
  audio_pipeline_status = ready;
  audio_pipeline_last_error = merge_note n_failed n_done;
}

unfoldable pub store_transcript : Recording → List AsrSegment → Text → ℕ → AsrWorld → AsrWorld
unfolding modify_recording without_transcripts without_chunks
store_transcript a done_segments merged n_failed w =
    let tr : MergedTranscript = record {
      id = w.next_id;
      source_audio_id = a.id;
      full_text = merged;
      language = a.language;
      provider_name = provider_from done_segments;
    } in
    record w {
      recordings =
          modify_recording a.id (make_ready n_failed (count_of done_segments)) w.recordings;
      transcripts = tr ∷ without_transcripts a.id w.transcripts;
      previews = (w.next_id, take 8000 merged) ∷ w.previews;
      text_chunks = without_chunks a.id w.text_chunks;
      next_id = w.next_id + 1;
      calls = w.calls ++ chunk_transcript w.next_id ∷ extract_entities w.next_id ∷ [];
    }

-- From the update of the status to merging on, which is seen by nobody before the commit.
unfoldable pub merge_done : Recording → AsrWorld → AsrWorld
unfolding merge_fails store_transcript segments_of strip or_text
merge_done a w =
    let done_segments = sort by_index (segments_of is_done a.id w.segments) in
    let merged = join_parts (parts_of done_segments) in
    if is_empty (strip merged)
    then merge_fails a.id (codes "Merged transcript empty") w
    else store_transcript a done_segments merged
        (count_of (segments_of is_failed_segment a.id w.segments)) w

abbrev pub merge_found : Option Recording → AsrWorld → AsrWorld
merge_found none w = w
merge_found (some a) w =
    if count_of (segments_of is_done a.id w.segments) == 0
    then merge_fails a.id (codes "All transcription segments failed") w
    else if is_transcribing a.audio_pipeline_status
    then merge_done a w
    else w

unfoldable pub try_merge_audio : ℕ → AsrWorld → AsrWorld
unfolding segments_of merge_done merge_fails get_recording
try_merge_audio k w =
    if ltb 0 (count_of (segments_of is_waiting k w.segments))
    then w
    else if count_of (segments_of (λ s. true) k w.segments) == 0
    then w
    else merge_found (get_recording k w.recordings) w
