-- ===== src/AudioProgress.antt =====
-- app/services/audio_pipeline_progress_service.py: how far the recordings of a batch have come.
-- Columns that hold text are compared as texts. The float 100.0 * d / n + 0.5 is computed without
-- rounding errors, which are smaller than its distance to the next whole number.
pub mod Bounds
pub mod Interviews
mod Tests
use pr_killer.Prelude.{
  ℕ, zero, suc, ◌+◌, ◌*◌, ◌/◌, min, max, Bool, true, false, not, ◌&&◌, ◌||◌, Option, none, some,
  List, [], ◌∷◌, length, leb, ltb, ◌==◌, if◌then◌else◌,
}
use pr_killer.Text.{Text, codes, is_empty, lower, or_text, text_eq}

-- The columns that are read.
pub record Audio : Type 0 where
  pub id : ℕ
  pub audio_pipeline_status : Option Text
  pub audio_pipeline_last_error : Option Text

pub record AudioSegment : Type 0 where
  pub source_audio_id : ℕ
  pub status : Text

pub record Document : Type 0 where
  pub id : ℕ
  pub phase : Option Text

pub record BatchSource : Type 0 where
  pub source_document_id : Option ℕ
  pub source_audio_id : Option ℕ

-- `units` holds the document of each row of interview_units.
pub record Tables : Type 0 where
  pub audios : List Audio
  pub segments : List AudioSegment
  pub documents : List Document
  pub units : List ℕ

unfoldable pub chunk_progress_percent : ℕ → ℕ → ℕ → ℕ
chunk_progress_percent n_total n_done n_failed =
    if ltb n_total 1 then 0 else min 100 ((200 * n_done + n_total) / (2 * n_total))

-- The second test of `_ui_stage_and_progress`.
abbrev pub all_failed : ℕ → ℕ → ℕ → Bool
all_failed n_total n_done n_failed =
    ltb 0 n_total && leb n_total (n_done + n_failed) && n_done == 0 && n_failed == n_total

unfoldable pub ui_stage_and_progress : Option Text → ℕ → ℕ → ℕ → Text × ℕ
unfolding chunk_progress_percent text_eq lower or_text
ui_stage_and_progress status n_total n_done n_failed =
    let st = lower (or_text status []) in
    let pct = chunk_progress_percent n_total n_done n_failed in
    if text_eq st (codes "failed") || all_failed n_total n_done n_failed
    then (codes "failed", 0)
    else if text_eq st (codes "ready")
    then (codes "done", 100)
    else if text_eq st (codes "uploaded")
    then (codes "uploaded", 0)
    else if text_eq st (codes "splitting")
    then (codes "splitting", pct)
    else if text_eq st (codes "transcribing")
    then (codes "transcribing", pct)
    else if text_eq st (codes "merging")
    then (codes "analyzing", max pct (if ltb 0 n_total && leb n_total n_done then 90 else pct))
    else if text_eq st (codes "unknown") || is_empty st
    then (codes "uploaded", pct)
    else (st, pct)

unfoldable pub get_audio : ℕ → List Audio → Option Audio
get_audio k [] = none
get_audio k (a ∷ rest) = if a.id == k then some a else get_audio k rest

unfoldable pub get_document : ℕ → List Document → Option Document
get_document k [] = none
get_document k (d ∷ rest) = if d.id == k then some d else get_document k rest

-- `select(count()).where(source_audio_id == k, test)`
unfoldable pub count_segments : (Text → Bool) → ℕ → List AudioSegment → ℕ
count_segments test k [] = 0
count_segments test k (s ∷ rest) =
    let n = count_segments test k rest in
    if s.source_audio_id == k && test s.status then suc n else n

-- `count_units_for_documents(session, [k])`
unfoldable pub count_units : ℕ → List ℕ → ℕ
count_units k [] = 0
count_units k (u ∷ rest) = let n = count_units k rest in if u == k then suc n else n

pub record Progress : Type 0 where
  pub source_audio_id : ℕ
  pub overall_status : Text
  pub total_chunks : ℕ
  pub done_chunks : ℕ
  pub failed_chunks : ℕ
  pub pipeline_stage : Text
  pub last_error : Option Text
  pub progress_percent : ℕ

-- `if ps == "done": ppct = 100` and `if ps == "failed": ppct = 0`
unfoldable pub settled_percent : Text × ℕ → ℕ
unfolding text_eq
settled_percent (stage, pct) =
    let pct' = if text_eq stage (codes "done") then 100 else pct in
    if text_eq stage (codes "failed") then 0 else pct'

abbrev pub progress_of : Tables → ℕ → Option Audio → Option Progress
progress_of t k none = none
progress_of t k (some a) =
    let n_total = count_segments (λ s. true) k t.segments in
    let n_done = count_segments (λ s. text_eq s (codes "done")) k t.segments in
    let n_failed = count_segments (λ s. text_eq s (codes "failed")) k t.segments in
    let stage = ui_stage_and_progress a.audio_pipeline_status n_total n_done n_failed in
    some (record {
      source_audio_id = a.id;
      overall_status = or_text a.audio_pipeline_status (codes "ready");
      total_chunks = n_total;
      done_chunks = n_done;
      failed_chunks = n_failed;
      pipeline_stage = stage.0;
      last_error = a.audio_pipeline_last_error;
      progress_percent = settled_percent stage;
    })

unfoldable pub build_audio_progress : Tables → ℕ → Option Progress
unfolding get_audio count_segments ui_stage_and_progress settled_percent text_eq or_text
build_audio_progress t k = progress_of t k (get_audio k t.audios)

-- The three counters of `_interview_rollup`.
pub record Rollup : Type 0 where
  pub total_interviews : ℕ
  pub processed_interviews : ℕ
  pub errors_count : ℕ

abbrev pub add_document : Bool → ℕ → Option Document → Rollup → Rollup
add_document multi n_u none r = r
add_document multi n_u (some d) r =
    let done = text_eq (lower (or_text d.phase [])) (codes "extracted") in
    let n = if multi && ltb 0 n_u then n_u else 1 in
    record r {
      total_interviews = r.total_interviews + n;
      processed_interviews = r.processed_interviews + (if done then n else 0);
    }

abbrev pub add_batch_document : Bool → Tables → Option ℕ → Rollup → Rollup
add_batch_document multi t none r = r
add_batch_document multi t (some k) r =
    add_document multi (count_units k t.units) (get_document k t.documents) r

unfoldable pub rollup_documents : Bool → Tables → List BatchSource → Rollup → Rollup
unfolding get_document count_units text_eq lower or_text
rollup_documents multi t [] r = r
rollup_documents multi t (s ∷ rest) r =
    rollup_documents multi t rest (add_batch_document multi t s.source_document_id r)

abbrev pub add_audio : Option Audio → Rollup → Rollup
add_audio none r = record r { errors_count = r.errors_count + 1 }
add_audio (some a) r =
    let st = lower (or_text a.audio_pipeline_status []) in
    if text_eq st (codes "ready")
    then record r { processed_interviews = r.processed_interviews + 1 }
    else if text_eq st (codes "failed")
    then record r { errors_count = r.errors_count + 1 }
    else r

abbrev pub add_batch_audio : Tables → Option ℕ → Rollup → Rollup
add_batch_audio t none r = r
add_batch_audio t (some k) r =
    add_audio (get_audio k t.audios) (record r { total_interviews = r.total_interviews + 1 })

unfoldable pub rollup_audios : Tables → List BatchSource → Rollup → Rollup
unfolding get_audio text_eq lower or_text
rollup_audios t [] r = r
rollup_audios t (s ∷ rest) r = rollup_audios t rest (add_batch_audio t s.source_audio_id r)

unfoldable pub interview_rollup : Bool → Tables → List BatchSource → Rollup
unfolding rollup_documents rollup_audios
interview_rollup multi t sources = rollup_audios t sources (
    rollup_documents multi t sources
      (record { total_interviews = 0; processed_interviews = 0; errors_count = 0 }))

-- The items of `build_batch_audio_pipeline` and its counters of them.
pub record Items : Type 0 where
  pub items : List Progress
  pub ready : ℕ
  pub failed : ℕ
  pub in_progress : ℕ

abbrev pub add_item : Option Progress → Items → Items
add_item none r = r
add_item (some p) r =
    let st = lower p.overall_status in
    let more = p ∷ r.items in
    if text_eq st (codes "ready")
    then record r { items = more; ready = r.ready + 1 }
    else if text_eq st (codes "failed")
    then record r { items = more; failed = r.failed + 1 }
    else record r { items = more; in_progress = r.in_progress + 1 }

abbrev pub item_of : Tables → Option ℕ → Option Progress
item_of t none = none
item_of t (some k) = build_audio_progress t k

-- The loop over the batch's audios; the counters do not depend on the order of the rows.
unfoldable pub collect_items : Tables → List BatchSource → Items
unfolding build_audio_progress text_eq lower
collect_items t [] = record { items = []; ready = 0; failed = 0; in_progress = 0 }
collect_items t (s ∷ rest) = add_item (item_of t s.source_audio_id) (collect_items t rest)
