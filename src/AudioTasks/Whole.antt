-- ===== src/AudioTasks/Whole.antt =====
-- What the fast path makes of the single segment of a recording.
use pr_killer.Prelude.{
  ℕ, ◌≡◌, refl, ◌∙◌, ap, true, false, Option, none, some, List, [], ◌∷◌, ◌++◌, take, ◌==◌, ==_refl,
  Bool-cases, inl, inr, arith,
}
use pr_killer.Text.{Text, codes, strip, is_empty}
use pr_killer.AudioMerge.{
  Recording, done, AsrSegment, AsrWorld, get_recording, segments_of, try_merge_audio,
}
use pr_killer.AudioTasks.{
  AsrConfig, Spoken, unreadable, raised, spoken, get_segment, modify_segment, without_segments,
  TaskResult, missing, skipped, transcribed, task_raised, begin_segment, fail_segment,
  finish_segment, session, settle_segment, then_raise, then_end, after_transcription,
  transcribe_audio_segment,
}
use pr_killer.AudioTasks.Committed.{Committed, session-Committed}
use pr_killer.AudioTasks.FastPath.{whole_segment, begin_fast}
use pr_killer.AudioTasks.Settled.{merge-SameSegments, begun}

pub without_segments-none :
    (k : ℕ) (ss : List AsrSegment) → segments_of (λ s. true) k (without_segments k ss) ≡ []
unfolding segments_of without_segments
without_segments-none k [] = refl
without_segments-none k (s ∷ ss) = let ih = without_segments-none k ss in ground (arith, ih)

get_segment-last :
    (n k : ℕ) (ss : List AsrSegment) (x : AsrSegment)
    → x.id == n ≡ true
    → get_segment n ss ≡ none
    → get_segment n (without_segments k ss ++ x ∷ []) ≡ some x
unfolding get_segment without_segments
get_segment-last n k [] x here fresh = rw here refl
get_segment-last n k (s ∷ ss) x here fresh = elim (Bool-cases (s.id == n)) [
  | inl e ↦ (let h : some s ≡ none = rw e at fresh in absurd (cc))
  | inr e ↦
      (let ih = get_segment-last n k ss x here (rw e at fresh) in
        elim (Bool-cases (s.source_audio_id == k)) [ inl t ↦ rw t ih | inr t ↦ rw t (rw e ih) ])
]

segments_of-last :
    (k : ℕ) (ss : List AsrSegment) (x : AsrSegment)
    → x.source_audio_id == k ≡ true
    → segments_of (λ s. true) k ss ≡ []
    → segments_of (λ s. true) k (ss ++ x ∷ []) ≡ x ∷ []
unfolding segments_of
segments_of-last k [] x here empty = rw here refl
segments_of-last k (s ∷ ss) x here empty = elim (Bool-cases (s.source_audio_id == k)) [
  | inl t ↦ (let h : s ∷ segments_of (λ s. true) k ss ≡ [] = rw t at empty in absurd (cc))
  | inr t ↦ rw t (segments_of-last k ss x here (rw t at empty))
]

segments_of-modify :
    (k n : ℕ) (f : AsrSegment → AsrSegment) (ss : List AsrSegment)
    → ((q : AsrSegment) → (f q).source_audio_id ≡ q.source_audio_id)
    → segments_of (λ s. true) k (modify_segment n f ss)
      ≡ modify_segment n f (segments_of (λ s. true) k ss)
unfolding segments_of modify_segment
segments_of-modify k n f [] same = refl
segments_of-modify k n f (s ∷ ss) same =
    let ih = segments_of-modify k n f ss same in
    let kept = same s in
    elim (Bool-cases (s.id == n)) [
      | inl e ↦ elim (Bool-cases (s.source_audio_id == k)) [
        | inl t ↦
            (let t' : (f s).source_audio_id == k ≡ true = ground arith in
              rw e (rw t' (rw t (rw e (rw ih refl)))))
        | inr t ↦
            (let t' : (f s).source_audio_id == k ≡ false = ground arith in rw e (rw t' (rw t ih)))
      ]
      | inr e ↦ elim (Bool-cases (s.source_audio_id == k)) [
        | inl t ↦ rw e (rw t (rw e (rw ih refl)))
        | inr t ↦ rw e (rw t ih)
      ]
    ]

modify-one :
    (n : ℕ) (f : AsrSegment → AsrSegment) (x : AsrSegment)
    → x.id == n ≡ true
    → modify_segment n f (x ∷ []) ≡ f x ∷ []
unfolding modify_segment
modify-one n f x h = rw h refl

-- The recording has one segment: the file as a whole, done, with a text that is not blank.
abbrev pub SingleDone : ℕ → Text → List AsrSegment → Type 0
SingleDone k path ss =
    (s : AsrSegment) × (segments_of (λ s. true) k ss ≡ s ∷ [])
    × (s.status ≡ done)
    × (s.segment_index ≡ 0)
    × (s.segment_path ≡ path)
    × (t : Text) × (s.transcript_text ≡ some t)
    × (is_empty (strip t) ≡ false)

-- By the result of the task.
abbrev pub WholeDone : ℕ → Text → TaskResult × AsrWorld → Type 0
WholeDone k path (missing, v) = true ≡ false
WholeDone k path (skipped, v) = true ≡ false
WholeDone k path (task_raised e, v) = Unit {0}
WholeDone k path (transcribed, v) = SingleDone k path v.segments

module _ (c : AsrConfig) (a : Recording) (path : Text) (w : AsrWorld)
    (fresh : get_segment w.next_id w.segments ≡ none) where
  finished :
      (text : Text) (provider : Option Text)
      → is_empty (strip text) ≡ false
      → (let begun' = begun (whole_segment a path w.next_id) (begin_fast a path w) in
          let ss = modify_segment w.next_id (finish_segment text provider) begun'.segments in
          SingleDone a.id path ss)
  unfolding begin_fast
  finished text provider full =
      let x = whole_segment a path w.next_id in
      let ss = without_segments a.id w.segments in
      let one = segments_of-last a.id ss x (==_refl a.id) (without_segments-none a.id w.segments) in
      let n = w.next_id in
      let f = finish_segment text provider in
      (
        f (begin_segment x),
        segments_of-modify a.id n f (modify_segment n begin_segment (ss ++ x ∷ [])) (λ q. refl)
            ∙ ap (modify_segment n f) (
                segments_of-modify a.id n begin_segment (ss ++ x ∷ []) (λ q. refl)
                ∙ ap (modify_segment n begin_segment) one
                ∙ modify-one n begin_segment x (==_refl n))
            ∙ modify-one n f (begin_segment x) (==_refl n),
        refl,
        refl,
        refl,
        text,
        refl,
        full,
      )

  raise-WholeDone : (e : Text) (r : Option Text × AsrWorld) → WholeDone a.id path (then_raise e r)
  raise-WholeDone e (none, v) = tt
  raise-WholeDone e (some t, v) = tt

  end-WholeDone :
      (u v : AsrWorld) (r : Option Text × AsrWorld)
      → Committed c u v r
      → SingleDone a.id path v.segments
      → WholeDone a.id path (then_end r)
  end-WholeDone u v (none, x) h one = rw h one
  end-WholeDone u v (some t, x) h one = tt

  settled-WholeDone :
      (text : Text) (provider : Option Text)
      → is_empty (strip text) ≡ false
      → (let x = whole_segment a path w.next_id in
          WholeDone a.id path (
            then_end
              (settle_segment c x (finish_segment text provider) (begun x (begin_fast a path w)))))
  unfolding settle_segment
  settled-WholeDone text provider full =
      let x = whole_segment a path w.next_id in
      let w1 = begun x (begin_fast a path w) in
      let w2 : AsrWorld = record w1 {
        segments = modify_segment w.next_id (finish_segment text provider) w1.segments;
        calls = [];
      } in
      let v = try_merge_audio a.id w2 in
      end-WholeDone w1 v (session c w1 v) (session-Committed c w1 v)
        (rw (merge-SameSegments a.id w2) (finished text provider full))

  after-WholeDone :
      (r : Spoken)
      → (let x = whole_segment a path w.next_id in
          WholeDone a.id path (after_transcription c x r (begun x (begin_fast a path w))))
  after-WholeDone (unreadable e) = tt
  after-WholeDone (raised e) =
      let x = whole_segment a path w.next_id in
      raise-WholeDone e
        (settle_segment c x (fail_segment (take 4000 e)) (begun x (begin_fast a path w)))
  after-WholeDone (spoken text provider) = elim (Bool-cases (is_empty (strip text))) [
    | inl e ↦
        (let x = whole_segment a path w.next_id in
          let m = codes "empty_transcription" in
          rw e (
            raise-WholeDone m
              (settle_segment c x (fail_segment m) (begun x (begin_fast a path w)))))
    | inr e ↦ rw e (settled-WholeDone text provider e)
  ]

  -- The transcription of the single segment raises, or the recording has this segment alone and it is
  -- done.
  pub whole_done : WholeDone a.id path (transcribe_audio_segment c w.next_id (begin_fast a path w))
  unfolding transcribe_audio_segment begin_fast
  whole_done =
      let x = whole_segment a path w.next_id in
      let w1 = begin_fast a path w in
      let found = get_segment-last w.next_id a.id w.segments x (==_refl w.next_id) fresh in
      rw found (after-WholeDone (c.transcribe x (get_recording a.id w1.recordings)))
