-- ===== src/Queue/Callbacks/Terminal.antt =====
-- A callback leaves alone what the queue is not working on.
use pr_killer.Prelude.{
  ℕ, ◌≡◌, refl, sym, ◌∙◌, true, false, some, List, arith, ◌==◌, Bool-cases, inl, inr, ==_iff,
}
use pr_killer.Text.{Text}
use pr_killer.Queue.Status.{Status, Kind, document, audio, is_active, is_processing}
use pr_killer.Queue.Rows.{Source, get, modify, get-modify}
use pr_killer.Queue.World.{World, Env, rows, map_rows}
use pr_killer.Queue.Finalize.{finish_row, requeue_row}
use pr_killer.Queue.Callbacks.{Report, callback}
use pr_killer.Queue.Callbacks.Frames.{SameRows}
use pr_killer.Queue.Callbacks.Keeps.{callback-keeps}
use pr_killer.Queue.Callbacks.Once.{finish_row-id}

requeue_row-id : (message : Text) (r : Source) → (requeue_row message r).id ≡ r.id
unfolding requeue_row
requeue_row-id message r = refl

-- A change of another row's assignments is not seen at this one.
get-modify_other :
    (j k : ℕ) (f : Source → Source) (rs : List Source) (r s : Source)
    → ((q : Source) → (f q).id ≡ q.id)
    → get j rs ≡ some r
    → get k rs ≡ some s
    → is_active r.processing_status ≡ false
    → is_active s.processing_status ≡ true
    → get j (modify k f rs) ≡ some r
get-modify_other j k f rs r s same at other quiet busy = elim (Bool-cases (k == j)) [
  | inl e ↦
      let k_is_j : k ≡ j = (==_iff k j).0 e in
      let clash : some r ≡ some s = sym at ∙ (rw k_is_j at other) in absurd (cc)
  | inr e ↦ get-modify k f same j rs ∙ rw e at
]

-- The row of a key, in its table.
abbrev Holds : Kind → ℕ → Source → World → Type 0
Holds kind j r w = get j (rows kind w) ≡ some r

Holds-SameRows :
    (kind : Kind) (j : ℕ) (r : Source) (w v : World)
    → SameRows w v
    → Holds kind j r v
    → Holds kind j r w
Holds-SameRows document j r w v same h = rw same.documents h
Holds-SameRows audio j r w v same h = rw same.audios h

-- An assignment to an active row leaves a row that is not active.
assign-Holds :
    (kind kind' : Kind) (j k : ℕ) (r s : Source) (f : Source → Source) (w : World)
    → is_active r.processing_status ≡ false
    → ((q : Source) → (f q).id ≡ q.id)
    → get k (rows kind' w) ≡ some s
    → is_active s.processing_status ≡ true
    → Holds kind j r w
    → Holds kind j r (map_rows kind' (modify k f) w)
assign-Holds document document j k r s f w quiet same at a h =
    get-modify_other j k f w.documents r s same h at quiet a
assign-Holds document audio j k r s f w quiet same at a h = h
assign-Holds audio document j k r s f w quiet same at a h = h
assign-Holds audio audio j k r s f w quiet same at a h =
    get-modify_other j k f w.audios r s same h at quiet a

active_of_processing : (s : Status) → is_processing s ≡ true → is_active s ≡ true
active_of_processing s h = ground arith

-- No report of a pipeline, whatever it says and whether or not the broker takes the messages that
-- follow it, changes a source that is neither pending nor processing: completed, failed and idle
-- sources stay as they are.
pub callback-keeps_inactive :
    (e : Env) (report : Report) (kind : Kind) (j : ℕ) (r : Source) (w : World)
    → is_active r.processing_status ≡ false
    → get j (rows kind w) ≡ some r
    → get j (rows kind (callback e report w).1) ≡ some r
callback-keeps_inactive e report kind j r w quiet h =
    callback-keeps (Holds kind j r) (Holds-SameRows kind j r)
      (λ kind' k b now message v s at a hv.
        assign-Holds kind kind' j k r s (finish_row b now message) v quiet
          (finish_row-id b now message) at a hv)
      (λ k message v s at a hv.
        assign-Holds kind document j k r s (requeue_row message) v quiet (requeue_row-id message) at
          (active_of_processing s.processing_status a) hv)
      e report w h
