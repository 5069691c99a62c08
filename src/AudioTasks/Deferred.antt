-- ===== src/AudioTasks/Deferred.antt =====
-- What `transcribe_full_audio_gemini_fast` leaves.
use mathlib.Core.Path.{subst}
use pr_killer.Prelude.{
  ℕ, ◌≡◌, refl, ◌∙◌, ap, true, not, ◌||◌, Option, none, some, List, [], ◌∷◌, ◌++◌, arith,
  Bool-cases, inl, inr,
}
use pr_killer.Text.{Text, is_empty}
use pr_killer.AudioMerge.{
  Recording, Call, split_audio, AsrWorld, get_recording, modify_recording, segments_of,
}
use pr_killer.AudioMerge.Once.{get_recording-id}
use pr_killer.AudioTasks.{
  AsrConfig, get_segment, without_segments, TaskResult, missing, skipped, transcribed, task_raised,
  session, transcribe_audio_segment,
}
use pr_killer.AudioTasks.Committed.{Refused, Committed, session-Committed}
use pr_killer.AudioTasks.FastPath.{
  should_use_gemini_fast_path, FastResult, fast_missing, deferred, fast_ok, fallback, fast_raised,
  without_error, delay_split, fell_back, fall_back, after_defer, after_fast, begin_fast, fast_path,
  fast_found, transcribe_full_audio_gemini_fast,
}
use pr_killer.AudioTasks.Whole.{without_segments-none, SingleDone, WholeDone, whole_done}

-- The last call is the split of the recording.
abbrev pub EndsWithSplit : ℕ → List Call → Type 0
EndsWithSplit k calls = (before : List Call) × (calls ≡ before ++ split_audio k ∷ [])

-- The fast path is chosen for a recording and its file.
abbrev pub Chosen : AsrConfig → ℕ → Recording → Text → AsrWorld → Type 0
Chosen c k a path w =
    (get_recording k w.recordings ≡ some a)
    × (a.original_path ≡ some path)
    × (should_use_gemini_fast_path c a path ≡ true)

-- By the result of the task.
abbrev pub FastLeaves : AsrConfig → ℕ → AsrWorld → FastResult × AsrWorld → Type 0
FastLeaves c k w (fast_missing, v) = v ≡ w
FastLeaves c k w (deferred, v) = v ≡ record w { calls = w.calls ++ split_audio k ∷ [] }
FastLeaves c k w (fallback e, v) =
    (segments_of (λ s. true) k v.segments ≡ []) × EndsWithSplit k v.calls
FastLeaves c k w (fast_raised e, v) = (segments_of (λ s. true) k v.segments ≡ []) × Refused c e
FastLeaves c k w (fast_ok r, v) =
    (r ≡ transcribed)
    × (a : Recording) × (path : Text) × Chosen c k a path w
    × SingleDone k path v.segments

fell_back-FastLeaves :
    (c : AsrConfig) (k : ℕ) (e : Text) (w u : AsrWorld) (r : Option Text × AsrWorld)
    → segments_of (λ s. true) k u.segments ≡ []
    → Committed c u (record u { calls = split_audio k ∷ [] }) r
    → FastLeaves c k w (fell_back e r)
fell_back-FastLeaves c k e w u (none, x) gone h = rw h (gone, (u.calls, refl))
fell_back-FastLeaves c k e w u (some t, x) gone (h, refused) = (rw h gone, refused)

fall_back-FastLeaves :
    (c : AsrConfig) (k : ℕ) (e : Text) (w v : AsrWorld) → FastLeaves c k w (fall_back c k e v)
unfolding fall_back delay_split
fall_back-FastLeaves c k e w v =
    let u : AsrWorld = record v {
      recordings = modify_recording k without_error v.recordings;
      segments = without_segments k v.segments;
    } in
    fell_back-FastLeaves c k e w u (delay_split c k u) (without_segments-none k v.segments)
      (session-Committed c u (record u { calls = split_audio k ∷ [] }))

defer-FastLeaves :
    (c : AsrConfig) (k : ℕ) (w : AsrWorld) → FastLeaves c k w (after_defer c k (delay_split c k w))
unfolding delay_split
defer-FastLeaves c k w =
    let v : AsrWorld = record w { calls = split_audio k ∷ [] } in
    go (session c w v) (session-Committed c w v)
  where
    go :
        (r : Option Text × AsrWorld)
        → Committed c w (record w { calls = split_audio k ∷ [] }) r
        → FastLeaves c k w (after_defer c k r)
    go (none, x) h = h
    go (some e, x) h = fall_back-FastLeaves c k e w x

after-FastLeaves :
    (c : AsrConfig) (k : ℕ) (a : Recording) (path : Text) (w : AsrWorld) (r : TaskResult × AsrWorld)
    → Chosen c k a path w
    → WholeDone k path r
    → FastLeaves c k w (after_fast c k r)
after-FastLeaves c k a path w (task_raised e, v) chosen whole = fall_back-FastLeaves c k e w v
after-FastLeaves c k a path w (missing, v) chosen whole = absurd (cc)
after-FastLeaves c k a path w (skipped, v) chosen whole = absurd (cc)
after-FastLeaves c k a path w (transcribed, v) chosen whole = (refl, a, path, chosen, whole)

path-FastLeaves :
    (c : AsrConfig) (a : Recording) (path : Option Text) (w : AsrWorld)
    → get_segment w.next_id w.segments ≡ none
    → get_recording a.id w.recordings ≡ some a
    → a.original_path ≡ path
    → FastLeaves c a.id w (fast_path c a path w)
path-FastLeaves c a none w fresh h p = defer-FastLeaves c a.id w
path-FastLeaves c a (some path) w fresh h p =
    elim (Bool-cases (is_empty path || not (should_use_gemini_fast_path c a path))) [
      | inl e ↦ rw e (defer-FastLeaves c a.id w)
      | inr e ↦
          (let chosen : should_use_gemini_fast_path c a path ≡ true = ground arith in
            rw e (
              after-FastLeaves c a.id a path w
                (transcribe_audio_segment c w.next_id (begin_fast a path w)) (h, p, chosen)
                (whole_done c a path w fresh)))
    ]

found-FastLeaves :
    (c : AsrConfig) (k : ℕ) (o : Option Recording) (w : AsrWorld)
    → get_segment w.next_id w.segments ≡ none
    → get_recording k w.recordings ≡ o
    → FastLeaves c k w (fast_found c o w)
found-FastLeaves c k none w fresh h = refl
found-FastLeaves c k (some a) w fresh h =
    let key : a.id ≡ k = (let same = get_recording-id k w.recordings a h in ground (arith, same)) in
    let here : get_recording a.id w.recordings ≡ some a =
      ap (λ (i : ℕ). get_recording i w.recordings) key ∙ h in
    subst (λ i. FastLeaves c i w (fast_path c a a.original_path w)) key
      (path-FastLeaves c a a.original_path w fresh here refl)

-- If the next identifier is new: the fast path changes nothing if there is no such recording, and if it
-- is deferred all that it does is to queue the split. If it answers "ok", the recording met the test
-- of the fast path, and its segments are a single one, for the whole file, which is done and has a
-- text that is not blank. If it falls back, the recording has no segment, and the last call queues
-- the split. If it raises, the recording has no segment, and the exception is that of a call.
pub fast_leaves :
    (c : AsrConfig) (k : ℕ) (w : AsrWorld)
    → get_segment w.next_id w.segments ≡ none
    → FastLeaves c k w (transcribe_full_audio_gemini_fast c k w)
unfolding transcribe_full_audio_gemini_fast
fast_leaves c k w fresh = found-FastLeaves c k (get_recording k w.recordings) w fresh refl
