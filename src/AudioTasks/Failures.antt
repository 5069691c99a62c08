-- ===== src/AudioTasks/Failures.antt =====
-- What `split_audio_into_segments` leaves.
use mathlib.Core.Path.{subst}
use pr_killer.Prelude.{ℕ, ◌≡◌, refl, ◌∙◌, ap, Option, none, some, List, ◌++◌, take, arith, if_both}
use pr_killer.Text.{Text, codes, is_empty}
use pr_killer.AudioSplit.{attribute_error}
use pr_killer.AudioSplit.Raises.{split_raises}
use pr_killer.AudioMerge.{Recording, PipelineStatus, failed, AsrWorld, get_recording}
use pr_killer.AudioMerge.Once.{get_recording-id, get_recording-modify}
use pr_killer.AudioTasks.{AsrConfig, without_segments}
use pr_killer.AudioTasks.Split.{
  SplitReply, split_error, fail_splitting, split_fails, split_with, split_file, split_path,
  split_audio_into_segments,
}

-- A recording has the status.
abbrev pub HasStatus : PipelineStatus → ℕ → List Recording → Type 0
HasStatus s k rs = (a : Recording) × (get_recording k rs ≡ some a) × (a.audio_pipeline_status ≡ s)

-- The split answers an error, the recording has failed, and no call is made.
abbrev pub SplitFails : ℕ → AsrWorld → SplitReply × AsrWorld → Type 0
SplitFails k w (reply, v) =
    ((e : Text) × (reply ≡ split_error e)) × (v.calls ≡ w.calls) × HasStatus failed k v.recordings

fails-SplitFails :
    (k : ℕ) (code message : Text) (w v : AsrWorld) (a : Recording)
    → get_recording k w.recordings ≡ some a
    → v.recordings ≡ w.recordings
    → v.calls ≡ w.calls
    → SplitFails k w (split_fails k code message v)
unfolding split_fails
fails-SplitFails k code message w v a h same calls = (
  (code, refl),
  calls,
  (
    fail_splitting message a,
    rw same (get_recording-modify k (fail_splitting message) w.recordings a (λ q. refl) h),
    refl,
  ),
)

file-SplitFails :
    (c : AsrConfig) (a : Recording) (path : Text) (size : Option ℕ) (w : AsrWorld)
    → get_recording a.id w.recordings ≡ some a
    → SplitFails a.id w (split_file c a path size w)
unfolding split_with
file-SplitFails c a path none w h =
    fails-SplitFails a.id (codes "file_not_found") (codes "file_not_found:" ++ path) w
      (record w { segments = without_segments a.id w.segments }) a h refl refl
file-SplitFails c a path (some n) w h =
    let (name, raises) = split_raises (c.media a) c.settings none none in
    let text = c.describe (attribute_error name) in
    rw raises (fails-SplitFails a.id text (take 4000 text) w w a h refl refl)

no_path-SplitFails :
    (a : Recording) (w : AsrWorld)
    → get_recording a.id w.recordings ≡ some a
    → SplitFails a.id w
        (split_fails a.id (codes "missing_original_path") (codes "missing_original_path") w)
no_path-SplitFails a w h =
    fails-SplitFails a.id (codes "missing_original_path") (codes "missing_original_path") w w a h
      refl refl

path-SplitFails :
    (c : AsrConfig) (a : Recording) (path : Option Text) (w : AsrWorld)
    → get_recording a.id w.recordings ≡ some a
    → SplitFails a.id w (split_path c a path w)
path-SplitFails c a none w h = no_path-SplitFails a w h
path-SplitFails c a (some path) w h =
    if_both (SplitFails a.id w) (is_empty path)
      (split_fails a.id (codes "missing_original_path") (codes "missing_original_path") w)
      (split_file c a path (c.file_size path) w) (no_path-SplitFails a w h)
      (file-SplitFails c a path (c.file_size path) w h)

-- The split of a recording that is there always fails, whether or not it has a path and a file, and
-- whatever the programs say: the reply is an error, the recording gets the status "failed", and no
-- call is made, so that neither queue is told and no segment is transcribed.
pub split_always_fails :
    (c : AsrConfig) (k : ℕ) (w : AsrWorld) (a : Recording)
    → get_recording k w.recordings ≡ some a
    → SplitFails k w (split_audio_into_segments c k w)
unfolding split_audio_into_segments
split_always_fails c k w a h =
    let key : a.id ≡ k = (let same = get_recording-id k w.recordings a h in ground (arith, same)) in
    let here : get_recording a.id w.recordings ≡ some a =
      ap (λ (i : ℕ). get_recording i w.recordings) key ∙ h in
    rw h (
      subst (λ i. SplitFails i w (split_path c a a.original_path w)) key
        (path-SplitFails c a a.original_path w here))
