-- ===== src/Batch/Worker.antt =====
-- app/workers/tasks/batch_processing_queue.py: `process_batch_processing_queue`.
use pr_killer.Prelude.{
  ℕ, ◌+◌, Bool, true, false, Option, none, some, List, [], ◌∷◌, length, if◌then◌else◌,
}
use pr_killer.Queue.Status.{Kind, document, audio}
use pr_killer.Queue.World.{Outcome, ok, raised, Env}
use pr_killer.Queue.Lock.{
  Redis, LockResult, Reachable, try_acquire_project_queue_lock, release_project_queue_lock,
}
use pr_killer.Batch.World.{
  BatchRow, BatchMessage, analyse_document, transcribe_audio, BatchWorld, B, after, send_batch,
  schedule_batch_queue,
}
use pr_killer.Batch.Finalize.{
  maybe_finalize_batch_after_document_pipeline, maybe_finalize_batch_after_audio_failure,
}
use pr_killer.Batch.Pick.{pick_all_pending_batch_sources, mark_batch_source_processing}

pub data BatchReply : Type 0 where
  idle skipped_locked : BatchReply
  -- how many rows were picked, and how many documents and recordings were handed to the broker
  fan_out : ℕ → ℕ → ℕ → BatchReply

-- What a row is about: its document, else its recording, else nothing.
pub data Target : Type 0 where
  no_target : Target
  target : Kind → ℕ → Target

unfoldable pub target_of : Option ℕ → Option ℕ → Target
target_of (some k) a = target document k
target_of none (some k) = target audio k
target_of none none = no_target

abbrev pub message_for : Kind → ℕ → BatchMessage
message_for document k = analyse_document k
message_for audio k = transcribe_audio k

-- `except`: the row is marked failed.
abbrev pub on_batch_refused : Env → Kind → ℕ → B (Unit {0})
on_batch_refused e document k =
    maybe_finalize_batch_after_document_pipeline e k false (some e.refusal)
on_batch_refused e audio k = maybe_finalize_batch_after_audio_failure e k e.refusal

abbrev pub count_sent : Kind → ℕ × ℕ → ℕ × ℕ
count_sent document (d, a) = (d + 1, a)
count_sent audio (d, a) = (d, a + 1)

-- One row's `try`; the pair counts what the broker took.
abbrev pub caught_send :
    Env → Kind → ℕ → ℕ × ℕ → Outcome (Unit {0}) × BatchWorld → Outcome (ℕ × ℕ) × BatchWorld
caught_send e kind k sent (ok u, w) = (ok (count_sent kind sent), w)
caught_send e kind k sent (raised, w) = after (on_batch_refused e kind k w) (λ _ v. (ok sent, v))

abbrev pub dispatch_target : Env → Target → ℕ × ℕ → B (ℕ × ℕ)
dispatch_target e no_target sent w = (ok sent, w)
dispatch_target e (target kind k) sent w =
    caught_send e kind k sent (send_batch e (message_for kind k) w)

unfoldable pub dispatch_rows : Env → List BatchRow → ℕ × ℕ → B (ℕ × ℕ)
unfolding send_batch target_of maybe_finalize_batch_after_document_pipeline
    maybe_finalize_batch_after_audio_failure
dispatch_rows e [] sent w = (ok sent, w)
dispatch_rows e (r ∷ rs) sent w =
    after (dispatch_target e (target_of r.source_document_id r.source_audio_id) sent w)
      (λ sent' v. dispatch_rows e rs sent' v)

unfoldable pub mark_rows : ℕ → List BatchRow → BatchWorld → BatchWorld
unfolding mark_batch_source_processing
mark_rows now [] w = w
mark_rows now (r ∷ rs) w = mark_rows now rs (mark_batch_source_processing now r w)

abbrev pub dispatch_batch : Env → List BatchRow → B BatchReply
dispatch_batch e [] w = (ok idle, w)
dispatch_batch e (r ∷ rs) w =
    after (dispatch_rows e (r ∷ rs) (0, 0) w) (λ s v. (ok (fan_out (length (r ∷ rs)) s.0 s.1), v))

-- The rows that no other transaction has locked are, in the environment, those of `document`.
unfoldable pub drain_batch_rows : Env → ℕ → B BatchReply
unfolding pick_all_pending_batch_sources mark_rows dispatch_rows
drain_batch_rows e b w =
    let picked = pick_all_pending_batch_sources (e.free document) b 64 w.batch_rows in
    dispatch_batch e picked (mark_rows e.now picked w)

module _ (R : Redis) where
  open R use {State}

  -- The same code as for a project, under keys of its own.
  abbrev pub try_acquire_batch_queue_lock : Reachable → ℕ → ℕ → State → State × LockResult
  try_acquire_batch_queue_lock = try_acquire_project_queue_lock R

  abbrev pub release_batch_queue_lock : Reachable → ℕ → Option ℕ → State → State
  release_batch_queue_lock = release_project_queue_lock R

  abbrev pub locked_out : Env → ℕ → Bool → B BatchReply
  locked_out e b true w =
      after (schedule_batch_queue e b (some 5) w) (λ _ v. (ok skipped_locked, v))
  locked_out e b false w = (ok skipped_locked, w)

  abbrev pub under_batch_lock :
      Env
      → Reachable
      → ℕ
      → State × LockResult
      → BatchWorld
      → (Outcome BatchReply × BatchWorld) × State
  under_batch_lock e later b (s, lock) w =
      if lock.acquired
      then (drain_batch_rows e b w, release_batch_queue_lock later b lock.token s)
      else (locked_out e b lock.busy w, s)

  unfoldable pub process_batch_processing_queue :
      Env
      → Reachable
      → Reachable
      → ℕ
      → ℕ
      → State
      → BatchWorld
      → (Outcome BatchReply × BatchWorld) × State
  unfolding drain_batch_rows try_acquire_project_queue_lock release_project_queue_lock
      schedule_batch_queue
  process_batch_processing_queue e now later token b s w =
      under_batch_lock e later b (try_acquire_batch_queue_lock now b token s) w
