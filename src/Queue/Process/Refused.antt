-- ===== src/Queue/Process/Refused.antt =====
-- A run whose first message the broker refuses, when it refuses all.
use pr_killer.Prelude.{
  ℕ, ◌+◌, ◌≡◌, refl, ◌∙◌, ap, Bool, true, false, Option, none, some, List, ◌∷◌, if◌then◌else◌,
  length, if_both, if_true,
}
use pr_killer.Text.{Text, codes, or_text}
use pr_killer.Queue.Status.{Kind, document, audio, is_active}
use pr_killer.Queue.Rows.{Source, get, modify}
use pr_killer.Queue.Summary.{project_queue_has_active_work, fetch_project_queue_summary}
use pr_killer.Queue.World.{
  M, pure, continue, ◌>>=◌, ◌>>◌, delay_of, drain_project, schedule_project_processing, World, Env,
  Message, Outcome, ok, raised, rows, map_rows, send,
}
use pr_killer.Queue.Finalize.{
  finish_row, after_finish, finish_found, invalidate_project_llm_cache,
  aggregate_project_after_source, maybe_finalize_project_queue_idle,
}
use pr_killer.Queue.Pick.{PendingProjectSource}
use pr_killer.Queue.Process.{on_refused, dispatched, dispatch, dispatch_picked}
use pr_killer.Queue.Callbacks.Frames.{SameRows, after_finish-Frames}
use pr_killer.Queue.Process.Marks.{IsRunning}

pub IsRunning-sends :
    (kind : Kind) (k n : ℕ) (w : World)
    → IsRunning kind k w
    → IsRunning kind k (record w { sends = n })
IsRunning-sends document k n w h = h
IsRunning-sends audio k n w h = h

-- Only the row of this key may be another one: it is marked as failed.
abbrev pub OnlyRow : Env → Kind → ℕ → World → World → Type 0
OnlyRow e kind k w v =
    (message : Text) × SameRows v (map_rows kind (modify k (finish_row false e.now message)) w)

module _ (e : Env) (down : (n : ℕ) → e.accepts n ≡ false)
    (on : e.project_queue_enabled ≡ true) where
  -- What a step leaves that raises and sends nothing.
  pub record Fails {A : Type 0} (w : World) (r : Outcome A × World) : Type 0 where
    pub raises : r.0 ≡ raised
    pub silent : r.1.outbox ≡ w.outbox

  send-Fails : (m : Message) (w : World) → Fails w (send e m w)
  unfolding send
  send-Fails m w = rw (down w.sends) (record { raises = refl; silent = refl })

  then-Fails :
      (m k : M (Unit {0})) (w : World)
      → (m w).0 ≡ ok tt
      → (m w).1.outbox ≡ w.outbox
      → ((v : World) → Fails v (k v))
      → Fails w ((m >> k) w)
  then-Fails m k w fine quiet fails = go (m w) fine quiet
    where
      go :
          (r : Outcome (Unit {0}) × World)
          → r.0 ≡ ok tt
          → r.1.outbox ≡ w.outbox
          → Fails w (continue r.0 (λ _. k) r.1)
      go (ok u, v) f q = let h = fails v in record { raises = h.raises; silent = h.silent ∙ q }
      go (raised, v) f q = absurd (cc)

  finish-Fails : (b : Bool) (p : ℕ) (w : World) → Fails w (after_finish e b p w)
  unfolding after_finish aggregate_project_after_source maybe_finalize_project_queue_idle
      schedule_project_processing
  finish-Fails b p w =
      then-Fails (if b then aggregate_project_after_source p else pure tt)
        (maybe_finalize_project_queue_idle p >> schedule_project_processing e p none) w
        (if_both (λ (m : M (Unit {0})). (m w).0 ≡ ok tt) b (aggregate_project_after_source p)
          (pure tt) refl refl)
        (if_both (λ (m : M (Unit {0})). (m w).1.outbox ≡ w.outbox) b
          (aggregate_project_after_source p) (pure tt) refl refl)
        (λ v.
          then-Fails (maybe_finalize_project_queue_idle p) (schedule_project_processing e p none) v
            refl
            (if_both (λ (u : World). u.outbox ≡ v.outbox)
              (project_queue_has_active_work (fetch_project_queue_summary p v.documents v.audios)) v
              (invalidate_project_llm_cache p v) refl (unfold invalidate_project_llm_cache in refl))
            (λ u. send-Fails (drain_project p (delay_of none)) u))

  -- A refused message marks its source as failed, and then the next run cannot be asked for.
  finish_found-Fails :
      (kind : Kind) (k : ℕ) (message : Text) (r : Source) (w : World)
      → is_active r.processing_status ≡ true
      → Fails w (finish_found e kind k false message (some r) w)
        × SameRows
            (finish_found e kind k false message (some r) w).1
            (map_rows kind (modify k (finish_row false e.now message)) w)
  unfolding finish_found
  finish_found-Fails document k message r w a =
      let w' = map_rows document (modify k (finish_row false e.now message)) w in
      let f = finish-Fails false r.project_id w' in
      rw a (
        record { raises = f.raises; silent = f.silent },
        after_finish-Frames e false r.project_id w',
      )
  finish_found-Fails audio k message r w a =
      let w' = map_rows audio (modify k (finish_row false e.now message)) w in
      let f = finish-Fails false r.project_id w' in
      rw a (
        record { raises = f.raises; silent = f.silent },
        after_finish-Frames e false r.project_id w',
      )

  on_refused-eq :
      (kind : Kind) (k : ℕ) (w : World) (r : Source)
      → get k (rows kind w) ≡ some r
      → (message : Text) × (on_refused e kind k w ≡ finish_found e kind k false message (some r) w)
  unfolding on_refused
  on_refused-eq document k w r at =
      let message = or_text (some e.refusal) (codes "pipeline_failed") in
      (
        message,
        if_true e.project_queue_enabled
              (finish_found e document k false message (get k w.documents) w) (ok tt, w) on
            ∙ ap (λ (o : Option Source). finish_found e document k false message o w) at,
      )
  on_refused-eq audio k w r at =
      let message = or_text (some e.refusal) (codes "audio_pipeline_failed") in
      (
        message,
        if_true e.project_queue_enabled (finish_found e audio k false message (get k w.audios) w)
              (ok tt, w) on
            ∙ ap (λ (o : Option Source). finish_found e audio k false message o w) at,
      )

  on_refused-Fails :
      (kind : Kind) (k : ℕ) (w : World)
      → IsRunning kind k w
      → Fails w (on_refused e kind k w) × OnlyRow e kind k w (on_refused e kind k w).1
  on_refused-Fails kind k w (r, at, run) =
      let (message, eq) = on_refused-eq kind k w r at in
      let h = finish_found-Fails kind k message r w (rw run refl) in rw eq (h.0, (message, h.1))

  then_raised :
      {A B : Type 0} (m : M A) (f : A → M B) (w v : World)
      → m w ≡ (raised, v)
      → (m >>= f) w ≡ (raised, v)
  then_raised m f w v h = rw h refl

  raised_pair : {A : Type 0} (r : Outcome A × World) → r.0 ≡ raised → r ≡ (raised, r.1)
  raised_pair (ok a, w) h = absurd (cc)
  raised_pair (raised, w) h = refl

  dispatch_refused :
      (item : PendingProjectSource) (rest : List PendingProjectSource) (w : World)
      → dispatch e (item ∷ rest) (0, 0) w
        ≡ (on_refused e item.kind item.source_id >> dispatch e rest (0, 0))
            (record w { sends = w.sends + 1 })
  unfolding dispatch
  dispatch_refused item rest w = rw (down w.sends) refl

  -- The run ends at its first message.
  pub dispatch_fails :
      (item : PendingProjectSource) (rest : List PendingProjectSource) (w : World)
      → IsRunning item.kind item.source_id w
      → let r = dispatch_picked e (item ∷ rest) w in
        (r.0 ≡ raised)
        × (r.1.outbox ≡ w.outbox)
        × OnlyRow e item.kind item.source_id (record w { sends = w.sends + 1 }) r.1
  dispatch_fails item rest w (r, at, run) =
      let w' : World = record w { sends = w.sends + 1 } in
      let h =
        on_refused-Fails item.kind item.source_id w'
          (IsRunning-sends item.kind item.source_id (w.sends + 1) w (r, at, run)) in
      let v = (on_refused e item.kind item.source_id w').1 in
      let first =
        dispatch_refused item rest w
        ∙ then_raised (on_refused e item.kind item.source_id) (λ _. dispatch e rest (0, 0)) w' v
            (raised_pair (on_refused e item.kind item.source_id w') h.0.raises) in
      let all =
        then_raised (dispatch e (item ∷ rest) (0, 0))
          (λ s. pure (dispatched (length (item ∷ rest)) s.0 s.1)) w v first in
      rw all (refl, h.0.silent, h.1)
