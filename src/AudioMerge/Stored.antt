-- ===== src/AudioMerge/Stored.antt =====
-- What a merge stores.
use pr_killer.Prelude.{
  ℕ, suc, ◌≡◌, refl, sym, ◌∙◌, ap, Bool, true, false, Option, none, some, List, [], ◌∷◌, arith, ltb,
  ◌==◌, if◌then◌else◌, ==_refl, if_both,
}
use pr_killer.Sort.{sort}
use pr_killer.Text.{Text, codes, strip, is_empty}
use pr_killer.AudioMerge.{
  Recording, PipelineStatus, ready, AsrSegment, MergedTranscript, AsrWorld, get_recording,
  is_waiting, is_done, is_failed_segment, is_transcribing, segments_of, count_of, by_index,
  parts_of, join_parts, fail_recording, merge_fails, without_transcripts, store_transcript,
  merge_done, try_merge_audio,
}
use pr_killer.AudioMerge.Once.{get_recording-id, get_recording-modify}

abbrev pub transcripts_of : ℕ → List MergedTranscript → ℕ
transcripts_of k [] = 0
transcripts_of k (t ∷ ts) =
    let n = transcripts_of k ts in if t.source_audio_id == k then suc n else n

abbrev pub is_ready : PipelineStatus → Bool
is_ready ready = true
is_ready _ = false

transcripts_of-without :
    (k : ℕ) (ts : List MergedTranscript) → transcripts_of k (without_transcripts k ts) ≡ 0
unfolding without_transcripts
transcripts_of-without k [] = refl
transcripts_of-without k (t ∷ ts) = let ih = transcripts_of-without k ts in ground (arith, ih)

store-one :
    (a : Recording) (done_segments : List AsrSegment) (merged : Text) (n : ℕ) (w : AsrWorld)
    → transcripts_of a.id (store_transcript a done_segments merged n w).transcripts ≡ 1
unfolding store_transcript
store-one a done_segments merged n w =
    rw (==_refl a.id, transcripts_of-without a.id w.transcripts) refl

-- The recording has one transcript if it is ready.
abbrev OneIfReady : ℕ → AsrWorld → Type 0
OneIfReady k v =
    (a : Recording)
    → get_recording k v.recordings ≡ some a
    → is_ready a.audio_pipeline_status ≡ true
    → transcripts_of k v.transcripts ≡ 1

fails-OneIfReady :
    (k : ℕ) (message : Text) (w : AsrWorld) (a : Recording)
    → get_recording k w.recordings ≡ some a
    → OneIfReady k (merge_fails k message w)
unfolding merge_fails
fails-OneIfReady k message w a h b found is =
    let other = get_recording-modify k (fail_recording message) w.recordings a (λ q. refl) h in
    let same : some (fail_recording message a) ≡ some b = sym other ∙ found in
    let contra : false ≡ is_ready b.audio_pipeline_status =
      ap
        (λ (o : Option Recording). elim o as (λ z. Bool) [
          | none ↦ false
          | some r ↦ is_ready r.audio_pipeline_status
        ])
        same in
    absurd (cc)

busy-OneIfReady :
    (k : ℕ) (w : AsrWorld) (a : Recording)
    → get_recording k w.recordings ≡ some a
    → is_transcribing a.audio_pipeline_status ≡ true
    → OneIfReady k w
busy-OneIfReady k w a h t b found is =
    let same : some a ≡ some b = sym h ∙ found in
    let moved : is_transcribing a.audio_pipeline_status ≡ is_transcribing b.audio_pipeline_status =
      ap
        (λ (o : Option Recording). elim o as (λ z. Bool) [
          | none ↦ false
          | some r ↦ is_transcribing r.audio_pipeline_status
        ])
        same in
    apart b.audio_pipeline_status (sym moved ∙ t) is
  where
    apart : {P : Type 0} (s : PipelineStatus) → is_transcribing s ≡ true → is_ready s ≡ true → P
    apart s x y = absurd (ground arith)

done-OneIfReady :
    (k : ℕ) (w : AsrWorld) (a : Recording)
    → get_recording k w.recordings ≡ some a
    → a.id ≡ k
    → OneIfReady k (merge_done a w)
unfolding merge_done
done-OneIfReady k w a h key =
    let done_segments = sort by_index (segments_of is_done a.id w.segments) in
    let merged = join_parts (parts_of done_segments) in
    let n_failed = count_of (segments_of is_failed_segment a.id w.segments) in
    if_both (OneIfReady k) (is_empty (strip merged))
      (merge_fails a.id (codes "Merged transcript empty") w)
      (store_transcript a done_segments merged n_failed w)
      (rw key (fails-OneIfReady k (codes "Merged transcript empty") w a h))
      (λ b found is.
        ap
          (λ (i : ℕ).
            transcripts_of i (store_transcript a done_segments merged n_failed w).transcripts)
          (sym key)
        ∙ store-one a done_segments merged n_failed w)

-- If an attempt to merge, no call of which raises, makes a recording that is being transcribed ready,
-- then the recording has exactly one transcript afterwards, however many it had before.
pub ready_has_transcript :
    (k : ℕ) (w : AsrWorld) (a b : Recording)
    → get_recording k w.recordings ≡ some a
    → is_transcribing a.audio_pipeline_status ≡ true
    → get_recording k (try_merge_audio k w).recordings ≡ some b
    → is_ready b.audio_pipeline_status ≡ true
    → transcripts_of k (try_merge_audio k w).transcripts ≡ 1
unfolding try_merge_audio
ready_has_transcript k w a b h busy found is =
    let same = get_recording-id k w.recordings a h in
    let key : a.id ≡ k = ground (arith, same) in
    let stays = busy-OneIfReady k w a h busy in
    let merges =
      if_both (OneIfReady k) (count_of (segments_of is_done a.id w.segments) == 0)
        (merge_fails a.id (codes "All transcription segments failed") w)
        (if is_transcribing a.audio_pipeline_status then merge_done a w else w)
        (rw key (fails-OneIfReady k (codes "All transcription segments failed") w a h))
        (if_both (OneIfReady k) (is_transcribing a.audio_pipeline_status) (merge_done a w) w
          (done-OneIfReady k w a h key) stays) in
    let outcome : OneIfReady k (try_merge_audio k w) =
      if_both (OneIfReady k) (ltb 0 (count_of (segments_of is_waiting k w.segments))) w _ stays (
        if_both (OneIfReady k) (count_of (segments_of (λ s. true) k w.segments) == 0) w _ stays
          (rw h merges)) in
    outcome b found is
