-- ===== src/AudioSplit.antt =====
-- app/services/audio_segment_split_service.py: a recording is cut into overlapping windows, and cut
-- again into shorter ones if a file is too large. Times are whole milliseconds: the half of a length
-- is rounded down as `int` rounds it. ffprobe and ffmpeg are the parameter `Media`; the directory
-- that the files are written to is left out, since a file's name is its index. The settings are those
-- of app/infrastructure/settings.py, and reading an attribute that they do not have raises.
pub mod Window
pub mod Covered
pub mod Ends
pub mod Raises
mod Tests
use pr_killer.Prelude.{
  ℕ, zero, suc, ◌+◌, ◌-◌, ◌*◌, ◌/◌, min, max, Bool, true, false, Option, none, some, List, [], ◌∷◌,
  leb, ltb, ◌==◌, if◌then◌else◌,
}
use mathlib.Core.Option

-- What the external programs say about one file.
pub record Media : Type 0 where
  -- the duration that ffprobe prints; none if it fails
  pub duration : Option ℕ
  -- the size of the file that ffmpeg writes for an index, a start and an end; none if it fails, 0 if
  -- there is no file
  pub encode : ℕ → ℕ → ℕ → Option ℕ

-- The attributes of the settings that the split reads, by their names in the code:
-- audio_transcription_chunk_overlap_seconds, transcription_max_segment_bytes,
-- audio_transcription_chunk_seconds and effective_audio_transcription_chunk_seconds.
pub data Attribute : Type 0 where
  overlap_attribute max_bytes_attribute chunk_attribute effective_chunk_attribute : Attribute

-- The field of `Settings` that the split reads and that there is.
pub record SplitSettings : Type 0 where
  pub transcription_max_segment_bytes : ℕ

-- `Settings` has no field and no property of the other three names, and `extra` is "ignore".
abbrev pub getattr : SplitSettings → Attribute → Option ℕ
getattr st max_bytes_attribute = some st.transcription_max_segment_bytes
getattr st overlap_attribute = none
getattr st chunk_attribute = none
getattr st effective_chunk_attribute = none

pub data SplitError : Type 0 where
  attribute_error : Attribute → SplitError
  chunk_not_positive duration_zero tool_failed could_not_fit : SplitError
  empty_segment segment_file_too_large : ℕ → SplitError

pub data Result {ℓ} (A : Type ℓ) : Type ℓ where
  ok : A → Result A
  error : SplitError → Result A

pub record Segment : Type 0 where
  pub segment_index : ℕ
  pub start_ms : ℕ
  pub end_ms : ℕ

pub record Limits : Type 0 where
  pub chunk_ms : ℕ
  pub overlap_ms : ℕ
  pub max_segment_bytes : ℕ

-- `max(0, pos_ms - overlap_ms) if pos_ms > 0 else 0`
unfoldable pub window_start : Limits → ℕ → ℕ
window_start l pos = if ltb 0 pos then pos - l.overlap_ms else 0

unfoldable pub window_stop : Limits → ℕ → ℕ → ℕ
window_stop l total pos =
    let raw_end = pos + l.chunk_ms in
    min total (if ltb raw_end total then raw_end + l.overlap_ms else raw_end)

-- The checks of the file that was written.
unfoldable pub check_file : ℕ → ℕ → Option ℕ → Option SplitError
check_file limit idx none = some tool_failed
check_file limit idx (some bytes) =
    if bytes == 0
    then some (empty_segment idx)
    else if ltb limit bytes
    then some (segment_file_too_large idx)
    else none

-- The file's window in front of those that follow it.
abbrev pub add_segment :
    Option SplitError → Segment → Option (Result (List Segment)) → Option (Result (List Segment))
add_segment (some e) seg rest = some (error e)
add_segment none seg none = none
add_segment none seg (some (error e)) = some (error e)
add_segment none seg (some (ok segs)) = some (ok (seg ∷ segs))

-- `while pos_ms < total_ms`, on fuel; `none` means that the fuel ran out.
unfoldable pub plan_loop : Media → Limits → ℕ → ℕ → ℕ → ℕ → Option (Result (List Segment))
unfolding window_start window_stop check_file
plan_loop m l total zero pos idx = none
plan_loop m l total (suc fuel) pos idx =
    let start = window_start l pos in
    let stop = window_stop l total pos in
    let seg : Segment = record { segment_index = idx; start_ms = start; end_ms = stop } in
    let rest = plan_loop m l total fuel (pos + l.chunk_ms) (idx + 1) in
    if ltb pos total
    then (if leb stop start
        then some (ok [])
        else add_segment (check_file l.max_segment_bytes idx (m.encode idx start stop)) seg rest)
    else some (ok [])

abbrev pub plan_of : Media → Limits → Option ℕ → Option (Result (List Segment))
plan_of m l none = some (error tool_failed)
plan_of m l (some total) =
    if total == 0 then some (error duration_zero) else plan_loop m l total (suc total) 0 0

-- `_build_segment_plan`. A round moves by at least one millisecond, so one round more than the
-- recording has milliseconds is enough.
unfoldable pub build_segment_plan : Media → Limits → Option (Result (List Segment))
unfolding plan_loop
build_segment_plan m l =
    if leb l.chunk_ms 0 then some (error chunk_not_positive) else plan_of m l m.duration

-- `"segment_file_too_large" not in str(e)`, and whether `except RuntimeError` catches it at all.
abbrev pub is_too_large : SplitError → Bool
is_too_large (segment_file_too_large idx) = true
is_too_large _ = false

abbrev pub floor_ms : ℕ
floor_ms = 60000

abbrev pub or_retry :
    Option (Result (List Segment)) → Option (Result (List Segment)) → Option (Result (List Segment))
or_retry none again = none
or_retry (some (ok segs)) again = some (ok segs)
or_retry (some (error e)) again = if is_too_large e then again else some (error e)

-- `for attempt in range(n)`; the files of an attempt are written anew.
unfoldable pub attempts : (ℕ → Media) → ℕ → Limits → Option (Result (List Segment))
unfolding build_segment_plan
attempts m zero l = some (error could_not_fit)
attempts m (suc n) l =
    or_retry (build_segment_plan (m n) l)
      (attempts m n (record l { chunk_ms = max floor_ms (l.chunk_ms / 2) }))

abbrev pub read_attribute : SplitSettings → Attribute → Result ℕ
read_attribute st name = elim (getattr st name) [
  | none ↦ error (attribute_error name)
  | some n ↦ ok n
]

-- An argument of the call, or else the attribute.
abbrev pub given_or : SplitSettings → Option ℕ → Attribute → Result ℕ
given_or st none name = read_attribute st name
given_or st (some n) name = ok n

abbrev pub and_then :
    Result ℕ → (ℕ → Option (Result (List Segment))) → Option (Result (List Segment))
and_then (ok n) f = f n
and_then (error e) f = some (error e)

-- `split_audio_into_segment_files` with its optional lengths of a chunk and of an overlap; the media is
-- that of the attempt with so many left after it.
unfoldable pub split_audio_into_segment_files :
    (ℕ → Media) → SplitSettings → Option ℕ → Option ℕ → Option (Result (List Segment))
unfolding attempts
split_audio_into_segment_files m st chunk overlap =
    and_then (given_or st overlap overlap_attribute) (λ overlap_ms.
      and_then (read_attribute st max_bytes_attribute) (λ max_bytes.
        and_then (given_or st chunk chunk_attribute) (λ requested.
          and_then (read_attribute st effective_chunk_attribute) (λ effective_cap.
            attempts m 12 (record {
              chunk_ms = max floor_ms (min requested effective_cap);
              overlap_ms = overlap_ms;
              max_segment_bytes = max_bytes;
            })))))
