-- ===== src/Queue/Process/Stranded.antt =====
-- What a run leaves behind when the broker is down.
use mathlib.Core.List.{Memᴰ}
use mathlib.Core.Path.{subst}
use pr_killer.Prelude.{
  ℕ, ◌+◌, ◌≡◌, refl, ◌∙◌, ap, true, false, ◌&&◌, some, List, [], ◌∷◌, arith, ◌==◌,
}
use pr_killer.Text.{Text}
use pr_killer.Queue.Status.{Kind, document, audio}
use pr_killer.Queue.Rows.{Source, get, modify, get-modify}
use pr_killer.Queue.World.{World, Env, raised, map_rows}
use pr_killer.Queue.Finalize.{finish_row}
use pr_killer.Queue.Pick.{
  PendingProjectSource, start_row, mark_project_source_processing, pick_pending_project_sources,
}
use pr_killer.Queue.Pick.Sound.{All, IsPresent, pick-IsPresent}
use pr_killer.Queue.Process.{mark_all, dispatch_picked, drain}
use pr_killer.Queue.Process.Marks.{IsRunning, same_source, same_kind, mark_all_runs}
use pr_killer.Queue.Process.Refused.{OnlyRow, dispatch_fails, IsRunning-sends}
use pr_killer.Queue.Callbacks.Once.{finish_row-id}

pub mark_all-outbox :
    (e : Env) (items : List PendingProjectSource) (w : World)
    → (mark_all e items w).outbox ≡ w.outbox
unfolding mark_all mark_project_source_processing
mark_all-outbox e [] w = refl
mark_all-outbox e (item ∷ rest) w =
    mark_all-outbox e rest (mark_project_source_processing e item w) ∙ quiet item.kind
  where
    quiet :
        (kind : Kind)
        → (map_rows kind (modify item.source_id (start_row e.now)) w).outbox ≡ w.outbox
    quiet document = refl
    quiet audio = refl

-- Another row keeps what it is when one is marked failed.
get-other :
    (k j now : ℕ) (message : Text) (rs vs : List Source) (r : Source)
    → j == k ≡ false
    → vs ≡ modify k (finish_row false now message) rs
    → get j rs ≡ some r
    → get j vs ≡ some r
get-other k j now message rs vs r ne same at =
    ap (get j) same
    ∙ get-modify k (finish_row false now message) (finish_row-id false now message) j rs
    ∙ rw (differs, at) refl
  where
    differs : k == j ≡ false
    differs = ground arith

other_runs :
    (e : Env) (kind kind' : Kind) (j k : ℕ) (w v : World)
    → OnlyRow e kind k w v
    → (same_kind kind' kind && j == k) ≡ false
    → IsRunning kind' j w
    → IsRunning kind' j v
other_runs e document document j k w v (m, h) ne (r, at, run) =
    (r, get-other k j e.now m w.documents v.documents r ne h.documents at, run)
other_runs e document audio j k w v (m, h) ne (r, at, run) = (r, ap (get j) h.audios ∙ at, run)
other_runs e audio document j k w v (m, h) ne (r, at, run) = (r, ap (get j) h.documents ∙ at, run)
other_runs e audio audio j k w v (m, h) ne (r, at, run) =
    (r, get-other k j e.now m w.audios v.audios r ne h.audios at, run)

pub drain_picked :
    (e : Env) (p : ℕ) (w : World) (items : List PendingProjectSource)
    → pick_pending_project_sources e p e.project_queue_concurrency w ≡ items
    → drain e p w ≡ dispatch_picked e items (mark_all e items w)
unfolding drain
drain_picked e p w items h = rw h refl

-- While the broker refuses every message and the queue is switched on, a run that picks a source
-- x and others raises and sends nothing, and each of the others (a source whose kind and key are
-- not x's) is left with the status processing, though no message about it was sent.
pub refused_strands :
    (e : Env)
    → ((n : ℕ) → e.accepts n ≡ false)
    → e.project_queue_enabled ≡ true
    → (p : ℕ) (w : World) (x : PendingProjectSource) (rest : List PendingProjectSource)
    → pick_pending_project_sources e p e.project_queue_concurrency w ≡ x ∷ rest
    → (y : PendingProjectSource) → Memᴰ y rest
    → same_source y x ≡ false
    → ((drain e p w).0 ≡ raised)
      × ((drain e p w).1.outbox ≡ w.outbox)
      × IsRunning y.kind y.source_id (drain e p w).1
refused_strands e down on p w x rest picked y m ne =
    let items = x ∷ rest in
    let here =
      subst (All (IsPresent w)) picked (pick-IsPresent e p e.project_queue_concurrency w) in
    let w' = mark_all e items w in
    let (fails, quiet, only) =
      dispatch_fails e down on x rest w' (mark_all_runs e items x w here (Memᴰ.head refl)) in
    let run =
      IsRunning-sends y.kind y.source_id (w'.sends + 1) w'
        (mark_all_runs e items y w here (Memᴰ.tail m)) in
    rw (drain_picked e p w items picked) (
      fails,
      quiet ∙ mark_all-outbox e items w,
      other_runs e x.kind y.kind y.source_id x.source_id (record w' { sends = w'.sends + 1 })
          (dispatch_picked e items w').1 only ne run,
    )
