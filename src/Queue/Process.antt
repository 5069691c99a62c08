-- ===== src/Queue/Process.antt =====
-- app/workers/tasks/project_processing_queue.py: `process_project_processing_queue`, one run of the queue's task.
pub mod Keeps
pub mod Marks
pub mod Refused
pub mod Released
pub mod Sends
pub mod Stranded
use pr_killer.Prelude.{
  ℕ, suc, ◌+◌, Bool, true, false, Option, none, some, List, [], ◌∷◌, ◌++◌, map, length, ◌==◌,
  if◌then◌else◌,
}
use pr_killer.Queue.Status.{Kind, document, audio}
use pr_killer.Queue.Rows.{Source, in_project}
use pr_killer.Queue.World.{
  World, Env, Message, analyse_document, transcribe_audio, Outcome, ok, raised, M, pure, change,
  ◌>>=◌, ◌>>◌, send, schedule_project_processing,
}
use pr_killer.Queue.Lock.{
  Redis, LockResult, Reachable, try_acquire_project_queue_lock, release_project_queue_lock,
}
use pr_killer.Queue.Pick.{
  PendingProjectSource, pick_pending_project_sources, mark_project_source_processing,
}
use pr_killer.Queue.Finalize.{
  maybe_finalize_project_after_document_pipeline, maybe_finalize_project_after_audio_failure,
}

-- The returned payload.
pub data Reply : Type 0 where
  idle skipped_locked : Reply
  -- how many sources were picked, and how many documents and audios were handed to the broker
  dispatched : ℕ → ℕ → ℕ → Reply
  fan_out : ℕ → ℕ → ℕ → ℕ → Reply

abbrev pub message_of : Kind → ℕ → Message
message_of document k = analyse_document k
message_of audio k = transcribe_audio k

-- `try: ...delay(...)`: whether the broker took the message.
abbrev pub caught : Outcome (Unit {0}) → Bool
caught (ok u) = true
caught raised = false

unfoldable pub try_send : Env → Message → M Bool
unfolding send
try_send e m w = let (r, w') = send e m w in (ok (caught r), w')

-- `except`: the source is marked failed.
unfoldable pub on_refused : Env → Kind → ℕ → M (Unit {0})
unfolding maybe_finalize_project_after_document_pipeline maybe_finalize_project_after_audio_failure
on_refused e document k = maybe_finalize_project_after_document_pipeline e k false (some e.refusal)
on_refused e audio k = maybe_finalize_project_after_audio_failure e k e.refusal

abbrev pub add_sent : Kind → ℕ × ℕ → ℕ × ℕ
add_sent document (d, a) = (d + 1, a)
add_sent audio (d, a) = (d, a + 1)

unfoldable pub dispatch : Env → List PendingProjectSource → ℕ × ℕ → M (ℕ × ℕ)
unfolding try_send on_refused
dispatch e [] sent = pure sent
dispatch e (item ∷ rest) sent = do
  taken ← try_send e (message_of item.kind item.source_id)
  elim taken [
    | true ↦ dispatch e rest (add_sent item.kind sent)
    | false ↦ on_refused e item.kind item.source_id >> dispatch e rest sent
  ]

unfoldable pub mark_all : Env → List PendingProjectSource → World → World
unfolding mark_project_source_processing
mark_all e [] w = w
mark_all e (item ∷ rest) w = mark_all e rest (mark_project_source_processing e item w)

abbrev pub dispatch_picked : Env → List PendingProjectSource → M Reply
dispatch_picked e [] = pure idle
dispatch_picked e (item ∷ rest) = do
  (d, a) ← dispatch e (item ∷ rest) (0, 0)
  pure (dispatched (length (item ∷ rest)) d a)

-- What the task does while it may drain the queue.
unfoldable pub drain : Env → ℕ → M Reply
unfolding pick_pending_project_sources mark_all dispatch
drain e p w =
    let picked = pick_pending_project_sources e p e.project_queue_concurrency w in
    dispatch_picked e picked (mark_all e picked w)

-- A loop of `_legacy_fan_out_all`; refused messages are only logged.
unfoldable pub send_all : Env → Kind → List Source → ℕ → M ℕ
unfolding try_send
send_all e kind [] n = pure n
send_all e kind (r ∷ rs) n = do
  taken ← try_send e (message_of kind r.id)
  send_all e kind rs (if taken then n + 1 else n)

abbrev pub fan_out_rows : Env → List Source → List Source → M Reply
fan_out_rows e [] [] = pure idle
fan_out_rows e docs audios = do
  d ← send_all e document docs 0
  a ← send_all e audio audios 0
  pure (fan_out (length docs) (length audios) d a)

unfoldable pub legacy_fan_out_all : Env → ℕ → M Reply
unfolding send_all
legacy_fan_out_all e p w = fan_out_rows e (in_project p w.documents) (in_project p w.audios) w

module _ (R : Redis) where
  open R use {State}

  -- A worker that finds the lock taken asks for another run in five seconds.
  abbrev pub without_lock : Env → ℕ → Bool → M Reply
  without_lock e p busy = do
    if busy then schedule_project_processing e p (some 5) else pure tt
    pure skipped_locked

  abbrev pub under_lock :
      Env → Reachable → ℕ → State × LockResult → World → (Outcome Reply × World) × State
  under_lock e after p (s, lock) w =
      if lock.acquired
      then (drain e p w, release_project_queue_lock R after p lock.token s)
      else (without_lock e p lock.busy w, s)

  -- `before` and `after` say whether Redis is reached when the lock is taken and given back; the
  -- release is in a `finally`.
  unfoldable pub process_project_processing_queue :
      Env → Reachable → Reachable → ℕ → ℕ → State → World → (Outcome Reply × World) × State
  unfolding drain legacy_fan_out_all try_acquire_project_queue_lock release_project_queue_lock
  process_project_processing_queue e before after token p s w =
      if e.project_queue_enabled
      then under_lock e after p (try_acquire_project_queue_lock R before p token s) w
      else (legacy_fan_out_all e p w, s)
