-- ===== src/Batch/Advances.antt =====
-- Which batch a report touches.
use pr_killer.Prelude.{
  ℕ, ◌≡◌, refl, ap, ◌⊎◌, Bool, true, false, not, ◌&&◌, Option, none, some, List, [], ◌∷◌, ◌++◌,
  arith, ◌==◌, Bool-cases, inl, inr,
}
use pr_killer.Text.{Text}
use pr_killer.Queue.Status.{Kind}
use pr_killer.Queue.World.{Env}
use pr_killer.Queue.Finalize.Idle.{is_cached, cached-without_project}
use pr_killer.Batch.World.{
  BatchRow, Owner, BatchWorld, get_row, modify_row, drain_batch, send_batch, schedule_batch_queue,
}
use pr_killer.Batch.Resolve.{Belongs, resolve_batch_row, resolve-Belongs}
use pr_killer.Batch.Finalize.{
  finish_batch_row, invalidate_batch_llm_cache, finish_resolved, finish_owner,
}

-- What changes when a batch advances: at most one message, to its own queue, its own cached answers,
-- and the row of one key.
abbrev pub Advances : ℕ → ℕ → BatchWorld → BatchWorld → Type 0
Advances b row w v =
    ((v.outbox ≡ w.outbox) ⊎ (v.outbox ≡ w.outbox ++ drain_batch b 0 ∷ []))
    × ((q : ℕ) → is_cached q v.llm_cache ≡ (is_cached q w.llm_cache && not (q == b)))
    × ((j : ℕ) → row == j ≡ false → get_row j v.batch_rows ≡ get_row j w.batch_rows)

-- By the row that the report is about.
abbrev pub OwnBatch : Option (BatchRow × ℕ) → BatchWorld → BatchWorld → Type 0
OwnBatch none w v = v ≡ w
OwnBatch (some (r, b)) w v = Advances r.batch_id r.id w v

get_row-other :
    (k j : ℕ) (f : BatchRow → BatchRow) (rs : List BatchRow)
    → ((q : BatchRow) → (f q).id ≡ q.id)
    → k == j ≡ false
    → get_row j (modify_row k f rs) ≡ get_row j rs
unfolding get_row modify_row
get_row-other k j f [] same ne = refl
get_row-other k j f (q ∷ rs) same ne =
    let ih = get_row-other k j f rs same ne in
    let kept = same q in
    elim (Bool-cases (q.id == k)) [
      | inl e ↦
          (let moved : (f q).id == j ≡ false = ground arith in
            let stood : q.id == j ≡ false = ground arith in rw e (rw moved (rw stood ih)))
      | inr e ↦ rw e (rw ih refl)
    ]

finish_batch_row-id :
    (b : Bool) (now : ℕ) (m : Text) (q : BatchRow) → (finish_batch_row b now m q).id ≡ q.id
unfolding finish_batch_row
finish_batch_row-id true now m q = refl
finish_batch_row-id false now m q = refl

scheduled-Advances :
    (e : Env) (b row : ℕ) (w v : BatchWorld)
    → v.outbox ≡ w.outbox
    → ((q : ℕ) → is_cached q v.llm_cache ≡ (is_cached q w.llm_cache && not (q == b)))
    → ((j : ℕ) → row == j ≡ false → get_row j v.batch_rows ≡ get_row j w.batch_rows)
    → Advances b row w (schedule_batch_queue e b none v).1
unfolding schedule_batch_queue send_batch
scheduled-Advances e b row w v same cache others = elim (Bool-cases (e.accepts v.sends)) [
  | inl up ↦ rw up (inr (ap (λ o. o ++ drain_batch b 0 ∷ []) same), cache, others)
  | inr down ↦ rw down (inl same, cache, others)
]

resolved-Advances :
    (e : Env) (pipeline_ok : Bool) (message : Text) (o : Option (BatchRow × ℕ)) (w : BatchWorld)
    → Belongs o
    → OwnBatch o w (finish_resolved e pipeline_ok message o w).1
unfolding finish_resolved invalidate_batch_llm_cache
resolved-Advances e pipeline_ok message none w inside = refl
resolved-Advances e pipeline_ok message (some (r, b)) w inside =
    let f = finish_batch_row pipeline_ok e.now message in
    let v : BatchWorld =
      invalidate_batch_llm_cache b (record w { batch_rows = modify_row r.id f w.batch_rows }) in
    rw inside (
      scheduled-Advances e b r.id w v refl (λ q. cached-without_project b q w.llm_cache)
        (λ j ne.
          get_row-other r.id j f w.batch_rows (finish_batch_row-id pipeline_ok e.now message) ne))

-- A report that the work on a document or an audio has ended does nothing if no batch row is found
-- for it. Otherwise it changes no row but the one that is found, queues at most one message, which
-- is a run of the batch that this row is in, and drops the cached answers of this batch alone.
pub report_advances_own :
    (e : Env) (kind : Kind) (pipeline_ok : Bool) (message : Text) (o : Owner) (w : BatchWorld)
    → OwnBatch
        (resolve_batch_row kind o.id o.metadata_json w.batch_rows)
        w
        (finish_owner e kind pipeline_ok message (some o) w).1
report_advances_own e kind pipeline_ok message o w =
    resolved-Advances e pipeline_ok message
      (resolve_batch_row kind o.id o.metadata_json w.batch_rows) w
      (resolve-Belongs kind o.id o.metadata_json w.batch_rows)
