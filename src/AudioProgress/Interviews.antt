-- ===== src/AudioProgress/Interviews.antt =====
-- The counters of a batch.
use pr_killer.Prelude.{
  ℕ, ◌+◌, ◌≤◌, ◌≡◌, refl, Bool, true, false, ◌&&◌, Option, none, some, List, [], ◌∷◌, arith, length,
  ltb, if◌then◌else◌, Bool-cases, inl, inr,
}
use pr_killer.Text.{codes, text_eq, lower, or_text}
use pr_killer.AudioProgress.{
  Audio, Document, BatchSource, Tables, Progress, Rollup, add_document, add_batch_document,
  rollup_documents, add_audio, add_batch_audio, rollup_audios, interview_rollup, Items, add_item,
  item_of, collect_items, get_document, get_audio, count_units,
}

-- A rollup counts no interview twice: what is processed or in error is among the total.
abbrev Fits : Rollup → Type 0
Fits r = r.processed_interviews + r.errors_count ≤ r.total_interviews

add_document-Fits :
    (multi : Bool) (n_u : ℕ) (d : Option Document) (r : Rollup)
    → Fits r
    → Fits (add_document multi n_u d r)
add_document-Fits multi n_u none r h = h
add_document-Fits multi n_u (some d) r h =
    go (text_eq (lower (or_text d.phase [])) (codes "extracted"))
      (if multi && ltb 0 n_u then n_u else 1)
  where
    go :
        (done : Bool) (n : ℕ)
        → r.processed_interviews + (if done then n else 0) + r.errors_count ≤ r.total_interviews + n
    go true n = omega arith
    go false n = omega arith

rollup_documents-Fits :
    (multi : Bool) (t : Tables) (sources : List BatchSource) (r : Rollup)
    → Fits r
    → Fits (rollup_documents multi t sources r)
unfolding rollup_documents
rollup_documents-Fits multi t [] r h = h
rollup_documents-Fits multi t (s ∷ rest) r h =
    rollup_documents-Fits multi t rest (add_batch_document multi t s.source_document_id r)
      (go s.source_document_id)
  where
    go : (k : Option ℕ) → Fits (add_batch_document multi t k r)
    go none = h
    go (some k) = add_document-Fits multi (count_units k t.units) (get_document k t.documents) r h

add_audio-Fits :
    (a : Option Audio) (r : Rollup)
    → Fits r
    → Fits (add_audio a (record r { total_interviews = r.total_interviews + 1 }))
add_audio-Fits none r h = omega (arith, h)
add_audio-Fits (some a) r h =
    let st = lower (or_text a.audio_pipeline_status []) in
    go (text_eq st (codes "ready")) (text_eq st (codes "failed"))
  where
    more : Rollup
    more = record r { total_interviews = r.total_interviews + 1 }

    go :
        (ready failed : Bool)
        → Fits (
            if ready
            then record r {
              total_interviews = r.total_interviews + 1;
              processed_interviews = r.processed_interviews + 1;
            }
            else if failed
            then record r {
              total_interviews = r.total_interviews + 1;
              errors_count = r.errors_count + 1;
            }
            else record r { total_interviews = r.total_interviews + 1 })
    go true failed = omega (arith, h)
    go false true = omega (arith, h)
    go false false = omega (arith, h)

rollup_audios-Fits :
    (t : Tables) (sources : List BatchSource) (r : Rollup)
    → Fits r
    → Fits (rollup_audios t sources r)
unfolding rollup_audios
rollup_audios-Fits t [] r h = h
rollup_audios-Fits t (s ∷ rest) r h =
    rollup_audios-Fits t rest (add_batch_audio t s.source_audio_id r) (go s.source_audio_id)
  where
    go : (k : Option ℕ) → Fits (add_batch_audio t k r)
    go none = h
    go (some k) = add_audio-Fits (get_audio k t.audios) r h

-- The processed interviews of a batch and its errors are together no more than its interviews.
pub rollup_bounded :
    (multi : Bool) (t : Tables) (sources : List BatchSource)
    → let r = interview_rollup multi t sources in
      r.processed_interviews + r.errors_count ≤ r.total_interviews
unfolding interview_rollup
rollup_bounded multi t sources =
    let zeros : Rollup = record {
      total_interviews = 0;
      processed_interviews = 0;
      errors_count = 0;
    } in
    rollup_audios-Fits t sources (rollup_documents multi t sources zeros)
      (rollup_documents-Fits multi t sources zeros (omega arith))

abbrev Adds : Items → Type 0
Adds r = r.ready + r.failed + r.in_progress ≡ length r.items

add_item-Adds : (p : Option Progress) (r : Items) → Adds r → Adds (add_item p r)
add_item-Adds none r h = h
add_item-Adds (some p) r h =
    let st = lower p.overall_status in
    elim (Bool-cases (text_eq st (codes "ready"))) [
      | inl e ↦ rw e (omega (arith, h))
      | inr e ↦ elim (Bool-cases (text_eq st (codes "failed"))) [
        | inl f ↦ rw e (rw f (omega (arith, h)))
        | inr f ↦ rw e (rw f (omega (arith, h)))
      ]
    ]

-- Every recording of a batch that is listed counts once, as ready, as failed or as in progress.
pub items_counted :
    (t : Tables) (sources : List BatchSource)
    → let r = collect_items t sources in r.ready + r.failed + r.in_progress ≡ length r.items
unfolding collect_items
items_counted t [] = refl
items_counted t (s ∷ rest) =
    add_item-Adds (item_of t s.source_audio_id) (collect_items t rest) (items_counted t rest)
