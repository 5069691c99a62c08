-- ===== src/Queue/Process/Keeps.antt =====
-- A rule for what a run of the queue's task keeps.
use pr_killer.Prelude.{ℕ, ◌+◌, ◌≡◌, Bool, true, false, some, List, [], ◌∷◌, if◌then◌else◌, if_both}
use pr_killer.Text.{Text}
use pr_killer.Queue.Status.{Kind, document, audio, is_active, is_processing}
use pr_killer.Queue.Rows.{Source, get, modify, in_project}
use pr_killer.Queue.World.{
  World, Env, Message, Outcome, ok, raised, M, continue, ◌>>=◌, ◌>>◌, rows, map_rows, send,
  schedule_project_processing,
}
use pr_killer.Queue.Finalize.{finish_row, requeue_row}
use pr_killer.Queue.Pick.{
  PendingProjectSource, start_row, mark_project_source_processing, pick_pending_project_sources,
}
use pr_killer.Queue.Lock.{
  Redis, Reachable, try_acquire_project_queue_lock, release_project_queue_lock,
}
use pr_killer.Queue.Process.{
  Reply, message_of, try_send, on_refused, add_sent, dispatch, mark_all, dispatch_picked, drain,
  send_all, fan_out_rows, legacy_fan_out_all, without_lock, under_lock,
  process_project_processing_queue,
}
use pr_killer.Queue.Callbacks.Frames.{SameRows, send-Frames, schedule-Frames}
use pr_killer.Queue.Callbacks.Keeps.{document_done-keeps, audio_failed-keeps}

module _ (P : World → Type 0) (of_rows : (w v : World) → SameRows w v → P v → P w)
    (on_finish : (kind : Kind) (k : ℕ) (b : Bool) (now : ℕ) (message : Text) (w : World)
        (r : Source)
      → get k (rows kind w) ≡ some r
      → is_active r.processing_status ≡ true
      → P w
      → P (map_rows kind (modify k (finish_row b now message)) w))
    (on_requeue : (k : ℕ) (message : Text) (w : World) (r : Source)
      → get k w.documents ≡ some r
      → is_processing r.processing_status ≡ true
      → P w
      → P (map_rows document (modify k (requeue_row message)) w))
    (on_start : (kind : Kind) (k now : ℕ) (w : World)
      → P w
      → P (map_rows kind (modify k (start_row now)) w)) where
  abbrev Keeps : {A : Type 0} → M A → Type 0
  Keeps m = (w : World) → P w → P (m w).1

  bind-Keeps :
      {A B : Type 0} (m : M A) (f : A → M B) → Keeps m → ((a : A) → Keeps (f a)) → Keeps (m >>= f)
  bind-Keeps {A} {B} m f km kf w h = go (m w) (km w h)
    where
      go : (r : Outcome A × World) → P r.1 → P (continue r.0 f r.1).1
      go (ok a, w') h' = kf a w' h'
      go (raised, w') h' = h'

  try_send-Keeps : (e : Env) (m : Message) → Keeps (try_send e m)
  unfolding try_send
  try_send-Keeps e m w h = of_rows (send e m w).1 w (send-Frames e m w) h

  on_refused-Keeps : (e : Env) (kind : Kind) (k : ℕ) → Keeps (on_refused e kind k)
  unfolding on_refused
  on_refused-Keeps e document k w h =
      document_done-keeps P of_rows on_finish on_requeue e k false (some e.refusal) w h
  on_refused-Keeps e audio k w h =
      audio_failed-keeps P of_rows on_finish on_requeue e k e.refusal w h

  dispatch-Keeps :
      (e : Env) (items : List PendingProjectSource) (sent : ℕ × ℕ) → Keeps (dispatch e items sent)
  unfolding dispatch
  dispatch-Keeps e [] sent = λ w h. h
  dispatch-Keeps e (item ∷ rest) sent =
      bind-Keeps {B = ℕ × ℕ} (try_send e (message_of item.kind item.source_id))
        (λ taken. elim taken [
          | true ↦ dispatch e rest (add_sent item.kind sent)
          | false ↦ on_refused e item.kind item.source_id >> dispatch e rest sent
        ])
        (try_send-Keeps e (message_of item.kind item.source_id))
        (λ taken. after taken (dispatch-Keeps e rest))
    where
      after :
          (taken : Bool)
          → ((s : ℕ × ℕ) → Keeps (dispatch e rest s))
          → Keeps (elim taken [
            | true ↦ dispatch e rest (add_sent item.kind sent)
            | false ↦ on_refused e item.kind item.source_id >> dispatch e rest sent
          ])
      after true rec = rec (add_sent item.kind sent)
      after false rec =
          bind-Keeps (on_refused e item.kind item.source_id) (λ _. dispatch e rest sent)
            (on_refused-Keeps e item.kind item.source_id) (λ _. rec sent)

  mark_all-keeps :
      (e : Env) (items : List PendingProjectSource) (w : World) → P w → P (mark_all e items w)
  unfolding mark_all mark_project_source_processing
  mark_all-keeps e [] w h = h
  mark_all-keeps e (item ∷ rest) w h =
      mark_all-keeps e rest (mark_project_source_processing e item w)
        (on_start item.kind item.source_id e.now w h)

  dispatch_picked-Keeps :
      (e : Env) (items : List PendingProjectSource) → Keeps (dispatch_picked e items)
  dispatch_picked-Keeps e [] = λ w h. h
  dispatch_picked-Keeps e (item ∷ rest) =
      bind-Keeps (dispatch e (item ∷ rest) (0, 0)) _ (dispatch-Keeps e (item ∷ rest) (0, 0))
        (λ s w h. h)

  drain-Keeps : (e : Env) (p : ℕ) → Keeps (drain e p)
  unfolding drain
  drain-Keeps e p w h =
      let picked = pick_pending_project_sources e p e.project_queue_concurrency w in
      dispatch_picked-Keeps e picked (mark_all e picked w) (mark_all-keeps e picked w h)

  send_all-Keeps : (e : Env) (kind : Kind) (rs : List Source) (n : ℕ) → Keeps (send_all e kind rs n)
  unfolding send_all
  send_all-Keeps e kind [] n = λ w h. h
  send_all-Keeps e kind (r ∷ rs) n =
      bind-Keeps {B = ℕ} (try_send e (message_of kind r.id))
        (λ taken. send_all e kind rs (if taken then n + 1 else n))
        (try_send-Keeps e (message_of kind r.id))
        (λ taken. send_all-Keeps e kind rs (if taken then n + 1 else n))

  fan_out-Keeps : (e : Env) (docs audios : List Source) → Keeps (fan_out_rows e docs audios)
  fan_out-Keeps e [] [] = λ w h. h
  fan_out-Keeps e docs audios =
      bind-Keeps (send_all e document docs 0) _ (send_all-Keeps e document docs 0) (λ d.
        bind-Keeps (send_all e audio audios 0) _ (send_all-Keeps e audio audios 0) (λ a w h. h))

  without_lock-Keeps : (R : Redis) (e : Env) (p : ℕ) (busy : Bool) → Keeps (without_lock R e p busy)
  without_lock-Keeps R e p true =
      bind-Keeps (schedule_project_processing e p (some 5)) _
        (λ w h.
          of_rows (schedule_project_processing e p (some 5) w).1 w (schedule-Frames e p (some 5) w)
            h)
        (λ u w h. h)
  without_lock-Keeps R e p false = λ w h. h

  pub process-keeps :
      (R : Redis) (e : Env) (before after : Reachable) (token p : ℕ) (s : R.State) (w : World)
      → P w
      → P (process_project_processing_queue R e before after token p s w).0.1
  unfolding process_project_processing_queue
  process-keeps R e before after token p s w h =
      let (s', lock) = try_acquire_project_queue_lock R before p token s in
      if_both (λ (r : (Outcome Reply × World) × R.State). P r.0.1) e.project_queue_enabled
        (under_lock R e after p (s', lock) w) (legacy_fan_out_all e p w, s)
        (if_both (λ (r : (Outcome Reply × World) × R.State). P r.0.1) lock.acquired
          (drain e p w, release_project_queue_lock R after p lock.token s')
          (without_lock R e p lock.busy w, s') (drain-Keeps e p w h)
          (without_lock-Keeps R e p lock.busy w h))
        (fan_out-Keeps e (in_project p w.documents) (in_project p w.audios) w h)
