-- ===== src/Queue/Process/Sends.antt =====
-- What a run hands to the broker.
use mathlib.Core.List.{Memᴰ, append_assoc, append-nil}
use native.Mathlib.Nat.{add-zero}
use pr_killer.Prelude.{ℕ, suc, ◌+◌, ◌≡◌, refl, ◌∙◌, ap, true, List, [], ◌∷◌, ◌++◌, arith, length}
use pr_killer.Queue.World.{World, Env, Message, ok}
use pr_killer.Queue.Pick.{PendingProjectSource, pick_pending_project_sources}
use pr_killer.Queue.Status.{Kind, document, audio}
use pr_killer.Queue.Pick.Sound.{pick-IsPresent}
use pr_killer.Queue.Process.Marks.{IsRunning, mark_all_runs}
use pr_killer.Queue.Process.Stranded.{mark_all-outbox, drain_picked}
use pr_killer.Queue.Process.{
  Reply, idle, dispatched, message_of, add_sent, dispatch, mark_all, dispatch_picked, drain,
}

abbrev pub messages : List PendingProjectSource → List Message
messages [] = []
messages (item ∷ rest) = message_of item.kind item.source_id ∷ messages rest

-- How many documents and audios are in a list, counted on from a pair.
abbrev pub tally : List PendingProjectSource → ℕ × ℕ → ℕ × ℕ
tally [] sent = sent
tally (item ∷ rest) sent = tally rest (add_sent item.kind sent)

abbrev pub reply_of : List PendingProjectSource → Reply
reply_of [] = idle
reply_of (item ∷ rest) =
    dispatched (length (item ∷ rest)) (tally (item ∷ rest) (0, 0)).0 (tally (item ∷ rest) (0, 0)).1

module _ (e : Env) (up : (n : ℕ) → e.accepts n ≡ true) where
  after_sending : List PendingProjectSource → World → World
  after_sending items w = record w {
    sends = w.sends + length items;
    outbox = w.outbox ++ messages items;
  }

  sending_on :
      (item : PendingProjectSource) (rest : List PendingProjectSource) (w : World)
      → after_sending rest (record w {
        sends = w.sends + 1;
        outbox = w.outbox ++ message_of item.kind item.source_id ∷ [];
      })
        ≡ after_sending (item ∷ rest) w
  unfolding after_sending
  sending_on item rest w =
      let one : w.sends + 1 + length rest ≡ w.sends + suc (length rest) = omega arith in
      rw (one, append_assoc) refl

  dispatch_all :
      (items : List PendingProjectSource) (sent : ℕ × ℕ) (w : World)
      → dispatch e items sent w ≡ (ok (tally items sent), after_sending items w)
  unfolding dispatch
  dispatch_all [] sent w = unfold after_sending in rw (add-zero, append-nil) refl
  dispatch_all (item ∷ rest) sent w =
      let m = message_of item.kind item.source_id in
      let w' : World = record w { sends = w.sends + 1; outbox = w.outbox ++ m ∷ [] } in
      rw (up w.sends) (
        dispatch_all rest (add_sent item.kind sent) w'
        ∙ ap (λ (v : World). (ok (tally rest (add_sent item.kind sent)), v))
            (sending_on item rest w))

  dispatch_picked_all :
      (items : List PendingProjectSource) (w : World)
      → dispatch_picked e items w ≡ (ok (reply_of items), after_sending items w)
  dispatch_picked_all [] w = unfold after_sending in rw (add-zero, append-nil) refl
  dispatch_picked_all (item ∷ rest) w = rw (dispatch_all (item ∷ rest) (0, 0) w) refl

  drain_marks :
      (p : ℕ) (w : World) (items : List PendingProjectSource)
      → pick_pending_project_sources e p e.project_queue_concurrency w ≡ items
      → drain e p w ≡ (ok (reply_of items), after_sending items (mark_all e items w))
  drain_marks p w items h =
      drain_picked e p w items h ∙ dispatch_picked_all items (mark_all e items w)

  sent_runs :
      (items : List PendingProjectSource) (kind : Kind) (j : ℕ) (w : World)
      → IsRunning kind j w
      → IsRunning kind j (after_sending items w)
  unfolding after_sending
  sent_runs items document j w h = h
  sent_runs items audio j w h = h

  -- While the broker takes messages, a run hands exactly one message for each picked source to the
  -- broker, in the order of the pick, and replies with the number of the picked sources and of the
  -- documents and the audios among them; and the row of each picked source is there and has the
  -- status "processing" afterwards.
  pub drain_dispatches :
      (p : ℕ) (w : World)
      → let picked = pick_pending_project_sources e p e.project_queue_concurrency w in
        ((drain e p w).0 ≡ ok (reply_of picked))
        × ((drain e p w).1.outbox ≡ w.outbox ++ messages picked)
        × ((y : PendingProjectSource)
            → Memᴰ y picked
            → IsRunning y.kind y.source_id (drain e p w).1)
  unfolding after_sending
  drain_dispatches p w =
      let picked = pick_pending_project_sources e p e.project_queue_concurrency w in
      let w' = mark_all e picked w in
      rw (drain_marks p w picked refl) (
        refl,
        ap (λ (o : List Message). o ++ messages picked) (mark_all-outbox e picked w),
        λ y m.
            sent_runs picked y.kind y.source_id w'
              (mark_all_runs e picked y w (pick-IsPresent e p e.project_queue_concurrency w) m),
      )
