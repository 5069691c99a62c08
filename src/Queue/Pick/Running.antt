-- ===== src/Queue/Pick/Running.antt =====
-- What a run picks while other sources of the project are being processed.
use pr_killer.Prelude.{ℕ, ◌≡◌, refl, Bool, List, ◌∷◌, arith}
use pr_killer.Queue.Status.{Kind, document, audio, processing}
use pr_killer.Queue.Rows.{Source}
use pr_killer.Queue.World.{World, Env, map_rows}
use pr_killer.Queue.Pick.{pending_rows, select_pending, pick_pending_project_sources}

pending_rows-processing :
    (free : ℕ → Bool) (p : ℕ) (r : Source) (rs : List Source)
    → r.processing_status ≡ processing
    → pending_rows free p (r ∷ rs) ≡ pending_rows free p rs
unfolding pending_rows
pending_rows-processing free p r rs h = rw h (ground arith)

-- A source that is being processed makes no difference to what a run picks: the limit is one of
-- the single run, and not of the sources that are in work at the same time.
pub pick_ignores_processing :
    (e : Env) (p limit : ℕ) (kind : Kind) (r : Source) (w : World)
    → r.processing_status ≡ processing
    → pick_pending_project_sources e p limit (map_rows kind (λ rs. r ∷ rs) w)
      ≡ pick_pending_project_sources e p limit w
unfolding pick_pending_project_sources select_pending
pick_ignores_processing e p limit document r w h =
    rw (pending_rows-processing (e.free document) p r w.documents h) refl
pick_ignores_processing e p limit audio r w h =
    rw (pending_rows-processing (e.free audio) p r w.audios h) refl
