-- ===== src/AudioMerge/Once.antt =====
-- A recording is merged once.
use mathlib.Core.Option
use pr_killer.Prelude.{
  ℕ, ◌≡◌, refl, ◌⊎◌, ◌∙◌, ap, true, false, Option, none, some, List, [], ◌∷◌, arith, ltb, ◌==◌,
  Bool-cases, inl, inr, if_both,
}
use pr_killer.Sort.{sort}
use pr_killer.Text.{Text, codes, strip, is_empty}
use pr_killer.AudioMerge.{
  Recording, AsrWorld, get_recording, modify_recording, is_waiting, is_done, is_failed_segment,
  is_transcribing, segments_of, count_of, by_index, parts_of, join_parts, fail_recording,
  merge_fails, make_ready, store_transcript, merge_done, merge_found, try_merge_audio,
}

pub get_recording-id :
    (k : ℕ) (rs : List Recording) (a : Recording) → get_recording k rs ≡ some a → a.id == k ≡ true
unfolding get_recording
get_recording-id k [] a h = absurd (cc)
get_recording-id k (q ∷ rs) a h = elim (Bool-cases (q.id == k)) [
  | inl e ↦ (let h' : some q ≡ some a = rw e at h in grind arith)
  | inr e ↦ get_recording-id k rs a (rw e at h)
]

pub get_recording-modify :
    (k : ℕ) (f : Recording → Recording) (rs : List Recording) (a : Recording)
    → ((q : Recording) → (f q).id ≡ q.id)
    → get_recording k rs ≡ some a
    → get_recording k (modify_recording k f rs) ≡ some (f a)
unfolding get_recording modify_recording
get_recording-modify k f [] a same h = absurd (cc)
get_recording-modify k f (q ∷ rs) a same h = elim (Bool-cases (q.id == k)) [
  | inl e ↦
      (let h' : some q ≡ some a = rw e at h in
        let i = same q in
        let moved : (f q).id == k ≡ true = ground arith in
        rw e (rw moved (ap (λ (o : Option Recording). Option.map f o) h')))
  | inr e ↦ rw e (rw e (get_recording-modify k f rs a same (rw e at h)))
]

-- The recording is there and is not being transcribed, and the segments are still those of w.
abbrev Settled : ℕ → AsrWorld → AsrWorld → Type 0
Settled k w v =
    (v.segments ≡ w.segments)
    × ((a : Recording) × (get_recording k v.recordings ≡ some a)
        × (is_transcribing a.audio_pipeline_status ≡ false))

fails-Settled :
    (k : ℕ) (message : Text) (w : AsrWorld) (a : Recording)
    → get_recording k w.recordings ≡ some a
    → Settled k w (merge_fails k message w)
unfolding merge_fails
fails-Settled k message w a h = (
  refl,
  (
    fail_recording message a,
    get_recording-modify k (fail_recording message) w.recordings a (λ q. refl) h,
    refl,
  ),
)

done-Settled :
    (k : ℕ) (w : AsrWorld) (a : Recording)
    → get_recording k w.recordings ≡ some a
    → a.id ≡ k
    → Settled k w (merge_done a w)
unfolding merge_done store_transcript
done-Settled k w a h key =
    let done_segments = sort by_index (segments_of is_done a.id w.segments) in
    let merged = join_parts (parts_of done_segments) in
    let n_failed = count_of (segments_of is_failed_segment a.id w.segments) in
    let f = make_ready n_failed (count_of done_segments) in
    if_both (Settled k w) (is_empty (strip merged))
      (merge_fails a.id (codes "Merged transcript empty") w)
      (store_transcript a done_segments merged n_failed w)
      (rw key (fails-Settled k (codes "Merged transcript empty") w a h))
      (
        refl,
        (
          f a,
          ap (λ (i : ℕ). get_recording k (modify_recording i f w.recordings)) key
              ∙ get_recording-modify k f w.recordings a (λ q. refl) h,
          refl,
        ),
      )

-- A settled recording with a finished segment is left alone.
Settled-stays :
    (k : ℕ) (w v : AsrWorld)
    → count_of (segments_of is_done k w.segments) == 0 ≡ false
    → Settled k w v
    → try_merge_audio k v ≡ v
unfolding try_merge_audio
Settled-stays k w v some_done (same, (a, found, settled)) =
    let key : a.id ≡ k = (let h = get_recording-id k v.recordings a found in ground (arith, h)) in
    let left : merge_found (some a) v ≡ v = rw key (rw same (rw some_done (rw settled refl))) in
    if_both (λ (u : AsrWorld). u ≡ v) (ltb 0 (count_of (segments_of is_waiting k v.segments))) v _
      refl
      (if_both (λ (u : AsrWorld). u ≡ v) (count_of (segments_of (λ s. true) k v.segments) == 0) v _
        refl (rw found left))

-- An attempt to merge changes nothing, or settles the recording.
try_merge-cases :
    (k : ℕ) (w : AsrWorld)
    → count_of (segments_of is_done k w.segments) == 0 ≡ false
    → (try_merge_audio k w ≡ w) ⊎ Settled k w (try_merge_audio k w)
unfolding try_merge_audio
try_merge-cases k w some_done =
    elim (Bool-cases (ltb 0 (count_of (segments_of is_waiting k w.segments)))) [
      | inl e ↦ rw e (inl refl)
      | inr e ↦ rw e (elim (Bool-cases (count_of (segments_of (λ s. true) k w.segments) == 0)) [
        | inl f ↦ rw f (inl refl)
        | inr f ↦ rw f (found_cases (get_recording k w.recordings) refl)
      ])
    ]
  where
    found_cases :
        (o : Option Recording)
        → get_recording k w.recordings ≡ o
        → (merge_found o w ≡ w) ⊎ Settled k w (merge_found o w)
    found_cases none h = inl refl
    found_cases (some a) h =
        let key : a.id ≡ k =
          (let same = get_recording-id k w.recordings a h in ground (arith, same)) in
        let done_a : count_of (segments_of is_done a.id w.segments) == 0 ≡ false =
          rw key some_done in
        rw done_a (elim (Bool-cases (is_transcribing a.audio_pipeline_status)) [
          | inl t ↦ rw t (inr (done-Settled k w a h key))
          | inr t ↦ rw t (inl refl)
        ])

-- Once a segment is finished, and if no call of the first attempt to merge the recording raises, a
-- second attempt changes nothing and calls nothing: no transcript is stored twice and no extraction
-- is started twice.
pub merge_once :
    (k : ℕ) (w : AsrWorld)
    → count_of (segments_of is_done k w.segments) == 0 ≡ false
    → try_merge_audio k (try_merge_audio k w) ≡ try_merge_audio k w
merge_once k w some_done = elim (try_merge-cases k w some_done) [
  | inl same ↦ ap (try_merge_audio k) same
  | inr settled ↦ Settled-stays k w (try_merge_audio k w) some_done settled
]
