-- ===== src/Queue/Process/Released.antt =====
-- The queue's lock is given back.
use pr_killer.Prelude.{ℕ, ◌≡◌, refl, true, none, some, ==_refl}
use pr_killer.Queue.World.{World, Env}
use pr_killer.Queue.Lock.{
  Redis, Reachable, try_acquire_project_queue_lock, release_project_queue_lock,
}
use pr_killer.Queue.Process.{process_project_processing_queue}

module _ (R : Redis) where
  open R use {State, get, set_nx, del}

  release_own :
      (n : Reachable) (p token : ℕ) (s : State)
      → n.client ≡ true
      → n.command ≡ true
      → get p s ≡ some token
      → get p (release_project_queue_lock R n p (some token) s) ≡ none
  unfolding release_project_queue_lock
  release_own n p token s c d held = rw c (rw d (rw held (rw (==_refl token) (R.get-del p s))))

  acquire_free :
      (n : Reachable) (p token : ℕ) (s : State)
      → n.client ≡ true
      → n.command ≡ true
      → get p s ≡ none
      → ((try_acquire_project_queue_lock R n p token s).1.acquired ≡ true)
        × ((try_acquire_project_queue_lock R n p token s).1.token ≡ some token)
        × (get p (try_acquire_project_queue_lock R n p token s).0 ≡ some token)
  unfolding try_acquire_project_queue_lock
  acquire_free n p token s c d free =
      let h = R.set_nx_free p token s free in rw c (rw d (rw h.0 (refl, refl, h.1)))

  -- If the queue is switched on, Redis is reached when the run begins and when it ends, and the lock
  -- was free, then it is free afterwards: also when the run raised, because the broker refused a message.
  pub process_releases :
      (e : Env) (before after : Reachable) (token p : ℕ) (s : State) (w : World)
      → e.project_queue_enabled ≡ true
      → before.client ≡ true
      → before.command ≡ true
      → after.client ≡ true
      → after.command ≡ true
      → get p s ≡ none
      → get p (process_project_processing_queue R e before after token p s w).1 ≡ none
  unfolding process_project_processing_queue
  process_releases e before after token p s w on c d c' d' free =
      let h = acquire_free before p token s c d free in
      let s' = (try_acquire_project_queue_lock R before p token s).0 in
      simp (on, h.0) (rw h.1 (release_own after p token s' c' d' h.2))
