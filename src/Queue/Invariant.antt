-- ===== src/Queue/Invariant.antt =====
-- What a source's columns say in each status.
use pr_killer.Prelude.{
  ℕ, ◌≡◌, refl, Bool, true, false, Option, none, some, List, [], ◌∷◌, if◌then◌else◌, ◌+◌,
}
use pr_killer.Text.{Text}
use pr_killer.Queue.Status.{
  Status, idle, pending, processing, completed, failed, unknown, Kind, document, audio, is_active,
  is_processing,
}
use pr_killer.Queue.Rows.{Source, get, modify, Each, Each-modify, Each-update_where}
use pr_killer.Queue.World.{World, Env, rows, map_rows}
use pr_killer.Queue.Pick.{
  start_row, repend_row, restartable, mark_idle_and_failed_sources_pending, enqueue_row,
  mark_pending_loop, mark_sources_pending, mark_source_pending, mark_found, order_or_next, is_some,
}
use pr_killer.Queue.Finalize.{finish_row, requeue_row}
use pr_killer.Queue.Callbacks.{Report, callback}
use pr_killer.Queue.Callbacks.Frames.{SameRows}
use pr_killer.Queue.Callbacks.Keeps.{callback-keeps}
use pr_killer.Queue.Lock.{Redis, Reachable}
use pr_killer.Queue.Process.{process_project_processing_queue}
use pr_killer.Queue.Process.Keeps.{process-keeps}

-- A waiting source has not started, a running one has; a finished one has its time, and an error
-- exactly if it failed.
abbrev Fits : Status → Source → Type 0
Fits pending r = r.processing_started_at ≡ none
Fits processing r = is_some r.processing_started_at ≡ true
Fits completed r = (is_some r.processing_completed_at ≡ true) × (r.processing_last_error ≡ none)
Fits failed r =
    (is_some r.processing_completed_at ≡ true) × (is_some r.processing_last_error ≡ true)
Fits idle r = Unit {0}
Fits (unknown t) r = Unit {0}

abbrev pub RowFits : Source → Type 0
RowFits r = Fits r.processing_status r

pub record Inv (w : World) : Type 0 where
  pub documents : Each RowFits w.documents
  pub audios : Each RowFits w.audios

Inv-SameRows : (w v : World) → SameRows w v → Inv v → Inv w
Inv-SameRows w v same h = record {
  documents = rw same.documents h.documents;
  audios = rw same.audios h.audios;
}

modify-Inv :
    (kind : Kind) (k : ℕ) (f : Source → Source) (w : World)
    → ((r : Source) → RowFits (f r))
    → Inv w
    → Inv (map_rows kind (modify k f) w)
modify-Inv document k f w fits h = record {
  documents = Each-modify RowFits k f w.documents (λ r _. fits r) h.documents;
  audios = h.audios;
}
modify-Inv audio k f w fits h = record {
  documents = h.documents;
  audios = Each-modify RowFits k f w.audios (λ r _. fits r) h.audios;
}

finish_row-fits :
    (b : Bool) (now : ℕ) (message : Text) (r : Source) → RowFits (finish_row b now message r)
unfolding finish_row
finish_row-fits true now message r = (refl, refl)
finish_row-fits false now message r = (refl, refl)

requeue_row-fits : (message : Text) (r : Source) → RowFits (requeue_row message r)
unfolding requeue_row
requeue_row-fits message r = refl

start_row-fits : (now : ℕ) (r : Source) → RowFits (start_row now r)
unfolding start_row
start_row-fits now r = refl

repend_row-fits : (r : Source) → RowFits (repend_row r)
unfolding repend_row
repend_row-fits r = refl

enqueue_row-fits : (order : ℕ) (r : Source) → RowFits (enqueue_row order r)
unfolding enqueue_row
enqueue_row-fits order r = refl

-- What may happen to the queue: a report of a pipeline, a run of the task, and the requests of the
-- API that put sources into the queue.
pub data Op : Type 0 where
  report : Env → Report → Op
  run : Env → Reachable → Reachable → ℕ → ℕ → Op
  restart : ℕ → Op
  enqueue : List ℕ → List ℕ → ℕ → Op
  enqueue_one : Kind → ℕ → Option ℕ → Op

module _ (R : Redis) where
  unfoldable pub step : Op → World × R.State → World × R.State
  unfolding callback process_project_processing_queue mark_idle_and_failed_sources_pending
      mark_sources_pending mark_source_pending
  step (report e r) (w, s) = ((callback e r w).1, s)
  step (run e before after token p) (w, s) =
      let ((reply, w'), s') = process_project_processing_queue R e before after token p s w in
      (w', s')
  step (restart p) (w, s) = ((mark_idle_and_failed_sources_pending p w).1, s)
  step (enqueue docs audios base) (w, s) = (mark_sources_pending docs audios base w, s)
  step (enqueue_one kind k order) (w, s) = (mark_source_pending kind k order w, s)

  unfoldable pub steps : List Op → World × R.State → World × R.State
  unfolding step
  steps [] w = w
  steps (op ∷ ops) w = steps ops (step op w)

finish-Inv :
    (kind : Kind) (k : ℕ) (b : Bool) (now : ℕ) (message : Text) (w : World) (r : Source)
    → get k (rows kind w) ≡ some r
    → is_active r.processing_status ≡ true
    → Inv w
    → Inv (map_rows kind (modify k (finish_row b now message)) w)
finish-Inv kind k b now message w r at a h =
    modify-Inv kind k (finish_row b now message) w (finish_row-fits b now message) h

requeue-Inv :
    (k : ℕ) (message : Text) (w : World) (r : Source)
    → get k w.documents ≡ some r
    → is_processing r.processing_status ≡ true
    → Inv w
    → Inv (map_rows document (modify k (requeue_row message)) w)
requeue-Inv k message w r at a h =
    modify-Inv document k (requeue_row message) w (requeue_row-fits message) h

start-Inv :
    (kind : Kind) (k now : ℕ) (w : World) → Inv w → Inv (map_rows kind (modify k (start_row now)) w)
start-Inv kind k now w h = modify-Inv kind k (start_row now) w (start_row-fits now) h

restart-Inv : (p : ℕ) (w : World) → Inv w → Inv (mark_idle_and_failed_sources_pending p w).1
unfolding mark_idle_and_failed_sources_pending
restart-Inv p w h = record {
  documents =
      Each-update_where RowFits (restartable p) repend_row w.documents (λ r _. repend_row-fits r)
        h.documents;
  audios =
      Each-update_where RowFits (restartable p) repend_row w.audios (λ r _. repend_row-fits r)
        h.audios;
}

loop-Inv :
    (kind : Kind) (ks : List ℕ) (order : ℕ) (w : World)
    → Inv w
    → Inv (mark_pending_loop kind ks order w).1
unfolding mark_pending_loop
loop-Inv kind [] order w h = h
loop-Inv kind (k ∷ ks) order w h =
    loop-Inv kind ks (if is_some (get k (rows kind w)) then order + 1 else order)
      (map_rows kind (modify k (enqueue_row order)) w)
      (modify-Inv kind k (enqueue_row order) w (enqueue_row-fits order) h)

enqueue-Inv :
    (docs audios : List ℕ) (base : ℕ) (w : World)
    → Inv w
    → Inv (mark_sources_pending docs audios base w)
unfolding mark_sources_pending
enqueue-Inv docs audios base w h =
    let (order, w') = mark_pending_loop document docs base w in
    loop-Inv audio audios order w' (loop-Inv document docs base w h)

found-Inv :
    (kind : Kind) (k : ℕ) (order : Option ℕ) (found : Option Source) (w : World)
    → Inv w
    → Inv (mark_found kind k order found w)
found-Inv kind k order none w h = h
found-Inv kind k order (some r) w h =
    modify-Inv kind k (enqueue_row (order_or_next order r.project_id w)) w
      (enqueue_row-fits (order_or_next order r.project_id w)) h

enqueue_one-Inv :
    (kind : Kind) (k : ℕ) (order : Option ℕ) (w : World)
    → Inv w
    → Inv (mark_source_pending kind k order w)
unfolding mark_source_pending
enqueue_one-Inv kind k order w h = found-Inv kind k order (get k (rows kind w)) w h

step-Inv : (R : Redis) (op : Op) (w : World) (s : R.State) → Inv w → Inv (step R op (w, s)).0
unfolding step
step-Inv R (report e r) w s h = callback-keeps Inv Inv-SameRows finish-Inv requeue-Inv e r w h
step-Inv R (run e before after token p) w s h =
    process-keeps Inv Inv-SameRows finish-Inv requeue-Inv start-Inv R e before after token p s w h
step-Inv R (restart p) w s h = restart-Inv p w h
step-Inv R (enqueue docs audios base) w s h = enqueue-Inv docs audios base w h
step-Inv R (enqueue_one kind k order) w s h = enqueue_one-Inv kind k order w h

-- If the columns of every source fit its status at first, they still do whatever happens to the
-- queue, in whatever order and whatever fails:
-- a pending source has no start time, a processing one has, a completed one has a completion time and
-- no error, and a failed one has a completion time and an error.
pub steps-Inv :
    (R : Redis) (ops : List Op) (w : World) (s : R.State) → Inv w → Inv (steps R ops (w, s)).0
unfolding steps
steps-Inv R [] w s h = h
steps-Inv R (op ∷ ops) w s h =
    let (w', s') = step R op (w, s) in steps-Inv R ops w' s' (step-Inv R op w s h)
