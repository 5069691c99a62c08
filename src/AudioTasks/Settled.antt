-- ===== src/AudioTasks/Settled.antt =====
-- What `transcribe_audio_segment` leaves of its segment.
use mathlib.Core.Option
use pr_killer.Prelude.{ℕ, ◌≡◌, refl, ◌⊎◌, Option, none, some, List, if_both, arith}
use pr_killer.Sort.{sort}
use pr_killer.Text.{Text, codes, strip, is_empty}
use pr_killer.AudioMerge.{
  SegmentStatus, processing, done, segment_failed, AsrSegment, AsrWorld, Recording, get_recording,
  is_done, segments_of, count_of, is_failed_segment, by_index, parts_of, join_parts, merge_fails,
  store_transcript, merge_done, merge_found, try_merge_audio,
}
use pr_killer.AudioTasks.{
  AsrConfig, unreadable, get_segment, modify_segment, TaskResult, missing, skipped, transcribed,
  task_raised, begin_segment,
}
use pr_killer.AudioTasks.Committed.{Refused, Committed}

abbrev pub SameSegments : AsrWorld → AsrWorld → Type 0
SameSegments w v = v.segments ≡ w.segments

done-SameSegments : (a : Recording) (w : AsrWorld) → SameSegments w (merge_done a w)
unfolding merge_done merge_fails store_transcript
done-SameSegments a w =
    let done_segments = sort by_index (segments_of is_done a.id w.segments) in
    let merged = join_parts (parts_of done_segments) in
    if_both (SameSegments w) (is_empty (strip merged))
      (merge_fails a.id (codes "Merged transcript empty") w)
      (store_transcript a done_segments merged
        (count_of (segments_of is_failed_segment a.id w.segments)) w)
      refl refl

found-SameSegments : (o : Option Recording) (w : AsrWorld) → SameSegments w (merge_found o w)
unfolding merge_fails
found-SameSegments none w = refl
found-SameSegments (some a) w = let inner = done-SameSegments a w in ground (arith, inner)

pub merge-SameSegments : (k : ℕ) (w : AsrWorld) → SameSegments w (try_merge_audio k w)
unfolding try_merge_audio
merge-SameSegments k w =
    let inner = found-SameSegments (get_recording k w.recordings) w in ground (arith, inner)

-- A segment has the status.
abbrev pub SegmentIs : SegmentStatus → ℕ → List AsrSegment → Type 0
SegmentIs status k ss = (s : AsrSegment) × (get_segment k ss ≡ some s) × (s.status ≡ status)

-- The exception of a task that leaves its segment in progress: that of a call, or of the reading of the
-- segment's file.
abbrev pub Excused : AsrConfig → Text → Type 0
Excused c e =
    Refused c e ⊎ ((s : AsrSegment) × (a : Option Recording) × (c.transcribe s a ≡ unreadable e))

-- By the result of the task.
abbrev pub TaskLeaves : AsrConfig → ℕ → AsrWorld → TaskResult × AsrWorld → Type 0
TaskLeaves c k w (missing, v) = (v ≡ w) × (get_segment k v.segments ≡ none)
TaskLeaves c k w (skipped, v) = (v ≡ w) × SegmentIs done k v.segments
TaskLeaves c k w (transcribed, v) = SegmentIs done k v.segments
TaskLeaves c k w (task_raised e, v) =
    SegmentIs segment_failed k v.segments ⊎ (SegmentIs processing k v.segments × Excused c e)

-- By the end of the last session: with the status, or in progress as before.
abbrev Ended : AsrConfig → SegmentStatus → ℕ → Option Text × AsrWorld → Type 0
Ended c status k (none, x) = SegmentIs status k x.segments
Ended c status k (some e, x) = SegmentIs processing k x.segments × Refused c e

-- The world in which the service is asked.
abbrev pub begun : AsrSegment → AsrWorld → AsrWorld
begun s w = record w { segments = modify_segment s.id begin_segment w.segments }
