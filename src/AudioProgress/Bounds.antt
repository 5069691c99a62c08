-- ===== src/AudioProgress/Bounds.antt =====
-- The percentage of a recording's progress.
use mathlib.Core.Path.{subst}
use pr_killer.Prelude.{
  ℕ, suc, ◌+◌, ◌≤◌, ◌≡◌, refl, max, Bool, true, false, ◌&&◌, Option, none, some, List, [], ◌∷◌,
  arith, leb, ltb, ◌==◌, if◌then◌else◌, Bool-cases, inl, inr,
}
use pr_killer.Text.{Text, codes, text_eq, lower, or_text}
use pr_killer.Text.Equal.{text_eq_sound}
use pr_killer.AudioProgress.{
  Audio, AudioSegment, Tables, Progress, chunk_progress_percent, ui_stage_and_progress,
  count_segments, settled_percent, progress_of, build_audio_progress, get_audio,
}

percent_le : (n_total n_done n_failed : ℕ) → chunk_progress_percent n_total n_done n_failed ≤ 100
unfolding chunk_progress_percent
percent_le n_total n_done n_failed = elim (Bool-cases (ltb n_total 1)) [
  | inl e ↦ rw e (omega arith)
  | inr e ↦ rw e (omega arith)
]

record Low (r : Text × ℕ) : Type 0 where
  pub low : r.1 ≤ 100

Low-if : (b : Bool) {x y : Text × ℕ} → Low x → Low y → Low (if b then x else y)
Low-if true hx hy = hx
Low-if false hx hy = hy

Low-at : (s : Text) (n : ℕ) → n ≤ 100 → Low (s, n)
Low-at s n h = record { low = h }

stage-Low :
    (status : Option Text) (n_total n_done n_failed : ℕ)
    → Low (ui_stage_and_progress status n_total n_done n_failed)
unfolding ui_stage_and_progress
stage-Low status n_total n_done n_failed =
    let st = lower (or_text status []) in
    let pct = chunk_progress_percent n_total n_done n_failed in
    let h = percent_le n_total n_done n_failed in
    let merged : max pct (if ltb 0 n_total && leb n_total n_done then 90 else pct) ≤ 100 =
      ground (arith, h) in
    let none_done : 0 ≤ 100 = omega arith in
    let all_done : 100 ≤ 100 = omega arith in
    Low-if _ (Low-at (codes "failed") 0 none_done) (
      Low-if _ (Low-at (codes "done") 100 all_done) (
        Low-if _ (Low-at (codes "uploaded") 0 none_done) (
          Low-if _ (Low-at (codes "splitting") pct h) (
            Low-if _ (Low-at (codes "transcribing") pct h) (
              Low-if _
                (Low-at (codes "analyzing")
                  (max pct (if ltb 0 n_total && leb n_total n_done then 90 else pct)) merged)
                (Low-if _ (Low-at (codes "uploaded") pct h) (Low-at st pct h)))))))

settled_percent_le : (r : Text × ℕ) → Low r → settled_percent r ≤ 100
unfolding settled_percent
settled_percent_le (stage, pct) h = let l = h.low in ground (arith, l)

not_both : (s : Text) → text_eq s (codes "done") && text_eq s (codes "failed") ≡ false
unfolding text_eq
not_both s = elim (Bool-cases (text_eq s (codes "done"))) [
  | inl e ↦ rw (text_eq_sound s (codes "done") e) refl
  | inr e ↦ rw e refl
]

-- A recording's done and failed segments are among its segments.
counted :
    (k : ℕ) (segs : List AudioSegment)
    → count_segments (λ s. text_eq s (codes "done")) k segs
        + count_segments (λ s. text_eq s (codes "failed")) k segs
      ≤ count_segments (λ s. true) k segs
unfolding count_segments
counted k [] = omega arith
counted k (s ∷ segs) =
    let ih = counted k segs in
    let d = not_both s.status in
    go (text_eq s.status (codes "done")) (text_eq s.status (codes "failed"))
      (s.source_audio_id == k) d ih
  where
    go :
        (x y here : Bool)
        → x && y ≡ false
        → count_segments (λ s. text_eq s (codes "done")) k segs
            + count_segments (λ s. text_eq s (codes "failed")) k segs
          ≤ count_segments (λ s. true) k segs
        → (if here && x
              then suc (count_segments (λ s. text_eq s (codes "done")) k segs)
              else count_segments (λ s. text_eq s (codes "done")) k segs)
            + (if here && y
                then suc (count_segments (λ s. text_eq s (codes "failed")) k segs)
                else count_segments (λ s. text_eq s (codes "failed")) k segs)
          ≤ (if here && true
              then suc (count_segments (λ s. true) k segs)
              else count_segments (λ s. true) k segs)
    go x y here d ih = ground arith

-- What a recording's progress always satisfies.
pub record IsSound (p : Progress) : Type 0 where
  pub percent : p.progress_percent ≤ 100
  pub chunks : p.done_chunks + p.failed_chunks ≤ p.total_chunks

progress_of-IsSound :
    (t : Tables) (k : ℕ) (a : Option Audio) (p : Progress) → progress_of t k a ≡ some p → IsSound p
progress_of-IsSound t k none p h = absurd (cc)
progress_of-IsSound t k (some a) p h =
    let n_total = count_segments (λ s. true) k t.segments in
    let n_done = count_segments (λ s. text_eq s (codes "done")) k t.segments in
    let n_failed = count_segments (λ s. text_eq s (codes "failed")) k t.segments in
    let stage = ui_stage_and_progress a.audio_pipeline_status n_total n_done n_failed in
    let good =
      settled_percent_le stage (stage-Low a.audio_pipeline_status n_total n_done n_failed) in
    subst_some IsSound h (record { percent = good; chunks = counted k t.segments })
  where
    subst_some : (P : Progress → Type 0) {x y : Progress} → some x ≡ some y → P x → P y
    subst_some P e px =
        subst (λ (o : Option Progress). elim o as (λ z. Type 0) [ none ↦ P p | some z ↦ P z ]) e px

-- The progress that is reported for a recording is at most 100 per cent, and its done and failed
-- segments together are no more than its segments.
pub progress-IsSound :
    (t : Tables) (k : ℕ) (p : Progress) → build_audio_progress t k ≡ some p → IsSound p
unfolding build_audio_progress
progress-IsSound t k p h = progress_of-IsSound t k (get_audio k t.audios) p h
