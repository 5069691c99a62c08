-- ===== src/Batch/Reopen.antt =====
-- What a busy report does to a row that is done.
use mathlib.Core.Option
use pr_killer.Prelude.{
  ℕ, ◌≡◌, refl, ◌∙◌, ap, Bool, true, Option, none, some, List, [], ◌∷◌, ◌++◌, arith, ◌==◌,
  Bool-cases, inl, inr,
}
use pr_killer.Text.{Text}
use pr_killer.Queue.Status.{pending}
use pr_killer.Queue.World.{Env, delay_of}
use pr_killer.Batch.World.{
  BatchRow, uuid, Owner, BatchMessage, BatchWorld, get_row, modify_row, get_owner, drain_batch,
  send_batch, schedule_batch_queue,
}
use pr_killer.Batch.Finalize.{
  requeue_batch_row, requeue_row_of_batch, requeue_batch_document_pipeline,
}

-- A row is found under its own key.
get_row-id : (k : ℕ) (rs : List BatchRow) (r : BatchRow) → get_row k rs ≡ some r → r.id == k ≡ true
unfolding get_row
get_row-id k [] r h = absurd (cc)
get_row-id k (q ∷ rs) r h = elim (Bool-cases (q.id == k)) [
  | inl e ↦ (let h' : some q ≡ some r = rw e at h in grind arith)
  | inr e ↦ get_row-id k rs r (rw e at h)
]

get_row-modify :
    (k : ℕ) (f : BatchRow → BatchRow) (rs : List BatchRow) (r : BatchRow)
    → ((q : BatchRow) → (f q).id ≡ q.id)
    → get_row k rs ≡ some r
    → get_row k (modify_row k f rs) ≡ some (f r)
unfolding get_row modify_row
get_row-modify k f [] r same h = absurd (cc)
get_row-modify k f (q ∷ rs) r same h = elim (Bool-cases (q.id == k)) [
  | inl e ↦
      (let h' : some q ≡ some r = rw e at h in
        let i = same q in
        let moved : (f q).id == k ≡ true = ground arith in
        rw e (rw moved (ap (λ (o : Option BatchRow). Option.map f o) h')))
  | inr e ↦ rw e (rw e (get_row-modify k f rs r same (rw e at h)))
]

send-rows :
    (e : Env) (m : BatchMessage) (w : BatchWorld) → (send_batch e m w).1.batch_rows ≡ w.batch_rows
unfolding send_batch
send-rows e m w = elim (Bool-cases (e.accepts w.sends)) [ inl a ↦ rw a refl | inr a ↦ rw a refl ]

requeue_batch_row-id : (reason : Text) (q : BatchRow) → (requeue_batch_row reason q).id ≡ q.id
unfolding requeue_batch_row
requeue_batch_row-id reason q = refl

requeued :
    (e : Env) (reason : Text) (countdown : ℕ) (w : BatchWorld) (row b : ℕ) (r : BatchRow)
    → get_row row w.batch_rows ≡ some r
    → get_row row (requeue_row_of_batch e reason countdown (some (r, b)) w).1.batch_rows
      ≡ some (requeue_batch_row reason r)
unfolding schedule_batch_queue
requeued e reason countdown w row b r found =
    let f = requeue_batch_row reason in
    let same = get_row-id row w.batch_rows r found in
    let key : r.id ≡ row = ground (arith, same) in
    let w' : BatchWorld = record w { batch_rows = modify_row r.id f w.batch_rows } in
    ap (get_row row) (send-rows e (drain_batch b (delay_of (some countdown))) w')
    ∙ ap (λ (i : ℕ). get_row row (modify_row i f w.batch_rows)) key
    ∙ get_row-modify row f w.batch_rows r (requeue_batch_row-id reason) found

-- The row of a key is pending and has no start time, and it has the batch and the completion time of r.
abbrev pub IsReopened : ℕ → BatchRow → List BatchRow → Type 0
IsReopened row r rs =
    (q : BatchRow) × (get_row row rs ≡ some q)
    × (q.processing_status ≡ pending)
    × (q.started_at ≡ none)
    × (q.batch_id ≡ r.batch_id)
    × (q.completed_at ≡ r.completed_at)

reopened :
    (row : ℕ) (reason : Text) (r : BatchRow) (rs : List BatchRow)
    → get_row row rs ≡ some (requeue_batch_row reason r)
    → IsReopened row r rs
unfolding requeue_batch_row
reopened row reason r rs h = (requeue_batch_row reason r, h, refl, refl, refl, refl)

requeue_sends :
    (e : Env) (reason : Text) (countdown : ℕ) (r : BatchRow) (b : ℕ) (w : BatchWorld)
    → e.accepts w.sends ≡ true
    → (requeue_row_of_batch e reason countdown (some (r, b)) w).1.outbox
      ≡ w.outbox ++ drain_batch b (delay_of (some countdown)) ∷ []
unfolding schedule_batch_queue send_batch
requeue_sends e reason countdown r b w up = rw up refl

-- If a document's metadata names a row of a batch that is there, and the broker takes the message, a
-- report that the document is busy puts that row back into the batch's queue, whatever its status was:
-- also one that is completed, or failed. The row is pending and has no start time, its batch and its
-- completion time are kept, and a run of its batch is queued with the delay of the report.
pub requeue_reopens :
    (e : Env) (k : ℕ) (reason : Text) (countdown : ℕ) (w : BatchWorld) (o : Owner) (row b : ℕ)
    (multi : Bool) (r : BatchRow)
    → get_owner k w.documents ≡ some o
    → o.metadata_json.batch_analysis
      ≡ some (record {
        batch_id = uuid b;
        batch_source_row_id = uuid row;
        single_file_multi_interview_mode = multi;
      })
    → get_row row w.batch_rows ≡ some r
    → r.batch_id == b ≡ true
    → e.accepts w.sends ≡ true
    → let v = (requeue_batch_document_pipeline e k reason countdown w).1 in
      IsReopened row r v.batch_rows
      × (v.outbox ≡ w.outbox ++ drain_batch b (delay_of (some countdown)) ∷ [])
unfolding requeue_batch_document_pipeline
requeue_reopens e k reason countdown w o row b multi r owner meta found inside up =
    rw (owner, meta, found, inside)
      (
        reopened row reason r (requeue_row_of_batch e reason countdown (some (r, b)) w).1.batch_rows
            (requeued e reason countdown w row b r found),
        requeue_sends e reason countdown r b w up,
      )
