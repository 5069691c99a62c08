-- ===== src/Batch/Keeps.antt =====
-- What a batch row's columns say in each status, and that every step keeps it.
use pr_killer.Prelude.{
  ℕ, ◌≡◌, refl, Bool, true, false, Option, none, some, List, [], ◌∷◌, ◌==◌, Bool-cases, inl, inr,
  if_both,
}
use pr_killer.Text.{Text, codes, or_text}
use pr_killer.Queue.Status.{
  Status, idle, pending, processing, completed, failed, unknown, Kind, document, audio,
}
use pr_killer.Queue.World.{Outcome, ok, raised, Env, get_transcript}
use pr_killer.Queue.Pick.{is_some}
use pr_killer.Queue.Pick.Sound.{All}
use pr_killer.Batch.World.{
  BatchRow, RawId, absent, malformed, uuid, BatchAnalysis, Owner, BatchMessage, BatchWorld, B,
  after, get_row, modify_row, get_owner, send_batch, schedule_batch_queue,
}
use pr_killer.Batch.Resolve.{resolve_batch_row, row_of_batch}
use pr_killer.Batch.Finalize.{
  finish_batch_row, invalidate_batch_llm_cache, finish_resolved, finish_owner, owner_of,
  requeue_batch_row, requeue_row_of_batch, requeue_ids, requeue_analysis, batch_analysis_from,
  maybe_finalize_batch_after_document_pipeline, maybe_finalize_batch_after_audio_failure,
  maybe_finalize_batch_after_audio_extract_outcome, requeue_batch_document_pipeline,
}
use pr_killer.Batch.Pick.{
  pick_all_pending_batch_sources, start_batch_row, mark_batch_source_processing,
}
use pr_killer.Batch.Worker.{
  Target, no_target, target, target_of, message_for, on_batch_refused, caught_send, dispatch_target,
  dispatch_rows, mark_rows, dispatch_batch, drain_batch_rows,
}

abbrev Fits : Status → BatchRow → Type 0
Fits pending r = r.started_at ≡ none
Fits processing r = is_some r.started_at ≡ true
Fits completed r = (is_some r.completed_at ≡ true) × (r.last_error ≡ none)
Fits failed r = (is_some r.completed_at ≡ true) × (is_some r.last_error ≡ true)
Fits idle r = Unit {0}
Fits (unknown t) r = Unit {0}

abbrev RowFits : BatchRow → Type 0
RowFits r = Fits r.processing_status r

abbrev pub Inv : BatchWorld → Type 0
Inv w = All RowFits w.batch_rows

modify-All :
    (k : ℕ) (f : BatchRow → BatchRow) (rs : List BatchRow)
    → ((r : BatchRow) → RowFits (f r))
    → All RowFits rs
    → All RowFits (modify_row k f rs)
unfolding modify_row
modify-All k f [] fits h = tt
modify-All k f (r ∷ rs) fits h =
    (if_both RowFits (r.id == k) (f r) r (fits r) h.0, modify-All k f rs fits h.1)

finish-RowFits :
    (b : Bool) (now : ℕ) (m : Text) (r : BatchRow) → RowFits (finish_batch_row b now m r)
unfolding finish_batch_row
finish-RowFits true now m r = (refl, refl)
finish-RowFits false now m r = (refl, refl)

requeue-RowFits : (reason : Text) (r : BatchRow) → RowFits (requeue_batch_row reason r)
unfolding requeue_batch_row
requeue-RowFits reason r = refl

start-RowFits : (now : ℕ) (r : BatchRow) → RowFits (start_batch_row now r)
unfolding start_batch_row
start-RowFits now r = refl

send-Inv : (e : Env) (m : BatchMessage) (w : BatchWorld) → Inv w → Inv (send_batch e m w).1
unfolding send_batch
send-Inv e m w h = elim (Bool-cases (e.accepts w.sends)) [ inl a ↦ rw a h | inr a ↦ rw a h ]

pub schedule-Inv :
    (e : Env) (b : ℕ) (c : Option ℕ) (w : BatchWorld) → Inv w → Inv (schedule_batch_queue e b c w).1
unfolding schedule_batch_queue
schedule-Inv e b c w h = send-Inv e _ w h

finish_resolved-Inv :
    (e : Env) (b : Bool) (m : Text) (o : Option (BatchRow × ℕ)) (w : BatchWorld)
    → Inv w
    → Inv (finish_resolved e b m o w).1
unfolding finish_resolved invalidate_batch_llm_cache
finish_resolved-Inv e b m none w h = h
finish_resolved-Inv e b m (some (r, c)) w h =
    schedule-Inv e c none _
      (modify-All r.id (finish_batch_row b e.now m) w.batch_rows (finish-RowFits b e.now m) h)

finish_owner-Inv :
    (e : Env) (kind : Kind) (b : Bool) (m : Text) (o : Option Owner) (w : BatchWorld)
    → Inv w
    → Inv (finish_owner e kind b m o w).1
finish_owner-Inv e kind b m none w h = h
finish_owner-Inv e kind b m (some o) w h =
    finish_resolved-Inv e b m (resolve_batch_row kind o.id o.metadata_json w.batch_rows) w h

pub document-Inv :
    (e : Env) (k : ℕ) (b : Bool) (error : Option Text) (w : BatchWorld)
    → Inv w
    → Inv (maybe_finalize_batch_after_document_pipeline e k b error w).1
unfolding maybe_finalize_batch_after_document_pipeline
document-Inv e k b error w h =
    finish_owner-Inv e document b (or_text error (codes "pipeline_failed"))
      (get_owner k w.documents) w h

pub audio-Inv :
    (e : Env) (k : ℕ) (m : Text) (w : BatchWorld)
    → Inv w
    → Inv (maybe_finalize_batch_after_audio_failure e k m w).1
unfolding maybe_finalize_batch_after_audio_failure
audio-Inv e k m w h =
    finish_owner-Inv e audio false (or_text (some m) (codes "audio_pipeline_failed"))
      (get_owner k w.audios) w h

pub extract-Inv :
    (e : Env) (k : ℕ) (b : Bool) (error : Option Text) (w : BatchWorld)
    → Inv w
    → Inv (maybe_finalize_batch_after_audio_extract_outcome e k b error w).1
unfolding maybe_finalize_batch_after_audio_extract_outcome
extract-Inv e k b error w h =
    finish_owner-Inv e audio b (or_text error (codes "transcript_extraction_failed"))
      (owner_of w (get_transcript k w.transcripts)) w h

pub requeue-Inv :
    (e : Env) (k : ℕ) (reason : Text) (countdown : ℕ) (w : BatchWorld)
    → Inv w
    → Inv (requeue_batch_document_pipeline e k reason countdown w).1
unfolding requeue_batch_document_pipeline
requeue-Inv e k reason countdown w h = analysis (batch_analysis_from (get_owner k w.documents))
  where
    row : (o : Option (BatchRow × ℕ)) → Inv (requeue_row_of_batch e reason countdown o w).1
    row none = h
    row (some (r, b)) =
        schedule-Inv e b (some countdown) _
          (modify-All r.id (requeue_batch_row reason) w.batch_rows (requeue-RowFits reason) h)

    ids : (r b : RawId) → Inv (requeue_ids e reason countdown r b w).1
    ids absent b = h
    ids malformed b = h
    ids (uuid r) absent = h
    ids (uuid r) malformed = h
    ids (uuid r) (uuid b) = row (row_of_batch b (get_row r w.batch_rows))

    analysis : (a : Option BatchAnalysis) → Inv (requeue_analysis e reason countdown a w).1
    analysis none = h
    analysis (some a) = ids a.batch_source_row_id a.batch_id

pub after-Inv :
    {A C : Type 0} (o : Outcome A × BatchWorld) (f : A → B C)
    → Inv o.1
    → ((a : A) (v : BatchWorld) → Inv v → Inv (f a v).1)
    → Inv (after o f).1
after-Inv (ok a, w) f h keeps = keeps a w h
after-Inv (raised, w) f h keeps = h

refused-Inv :
    (e : Env) (kind : Kind) (k : ℕ) (w : BatchWorld) → Inv w → Inv (on_batch_refused e kind k w).1
refused-Inv e document k w h = document-Inv e k false (some e.refusal) w h
refused-Inv e audio k w h = audio-Inv e k e.refusal w h

caught-Inv :
    (e : Env) (kind : Kind) (k : ℕ) (sent : ℕ × ℕ) (o : Outcome (Unit {0}) × BatchWorld)
    → Inv o.1
    → Inv (caught_send e kind k sent o).1
caught-Inv e kind k sent (ok u, w) h = h
caught-Inv e kind k sent (raised, w) h =
    after-Inv (on_batch_refused e kind k w) (λ _ v. (ok sent, v)) (refused-Inv e kind k w h)
      (λ a v hv. hv)

target-Inv :
    (e : Env) (t : Target) (sent : ℕ × ℕ) (w : BatchWorld)
    → Inv w
    → Inv (dispatch_target e t sent w).1
target-Inv e no_target sent w h = h
target-Inv e (target kind k) sent w h =
    caught-Inv e kind k sent (send_batch e (message_for kind k) w)
      (send-Inv e (message_for kind k) w h)

dispatch-Inv :
    (e : Env) (rs : List BatchRow) (sent : ℕ × ℕ) (w : BatchWorld)
    → Inv w
    → Inv (dispatch_rows e rs sent w).1
unfolding dispatch_rows
dispatch-Inv e [] sent w h = h
dispatch-Inv e (r ∷ rs) sent w h =
    let t = target_of r.source_document_id r.source_audio_id in
    after-Inv (dispatch_target e t sent w) (λ sent' v. dispatch_rows e rs sent' v)
      (target-Inv e t sent w h) (λ sent' v hv. dispatch-Inv e rs sent' v hv)

mark-Inv : (now : ℕ) (rs : List BatchRow) (w : BatchWorld) → Inv w → Inv (mark_rows now rs w)
unfolding mark_rows mark_batch_source_processing
mark-Inv now [] w h = h
mark-Inv now (r ∷ rs) w h =
    mark-Inv now rs (mark_batch_source_processing now r w)
      (modify-All r.id (start_batch_row now) w.batch_rows (start-RowFits now) h)

pub drain-Inv : (e : Env) (b : ℕ) (w : BatchWorld) → Inv w → Inv (drain_batch_rows e b w).1
unfolding drain_batch_rows
drain-Inv e b w h =
    let picked = pick_all_pending_batch_sources (e.free document) b 64 w.batch_rows in
    go picked (mark_rows e.now picked w) (mark-Inv e.now picked w h)
  where
    go : (rs : List BatchRow) (v : BatchWorld) → Inv v → Inv (dispatch_batch e rs v).1
    go [] v hv = hv
    go (r ∷ rs) v hv =
        after-Inv (dispatch_rows e (r ∷ rs) (0, 0) v) _ (dispatch-Inv e (r ∷ rs) (0, 0) v hv)
          (λ s u hu. hu)
