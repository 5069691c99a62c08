-- ===== src/Queue/Lock/Exclusion.antt =====
-- At most one worker holds a project's lock.
use pr_killer.Prelude.{
  ℕ, ◌≤◌, ◌≡◌, refl, sym, ap, ◌∙◌, ◌⊎◌, inl, inr, false, Option, none, some, List, [], ◌∷◌, arith,
  length, ◌==◌, if◌then◌else◌, Bool-cases, Option-cases,
}
use pr_killer.Queue.Pick.Sound.{All}
use pr_killer.Queue.Lock.{
  lock_result, Redis, LockResult, Reachable, try_acquire_project_queue_lock,
  release_project_queue_lock,
}

-- What the workers of one project do, in any order; a worker releases with the token it was given.
-- A key expires when its time to live is over, whether or not its worker is done.
pub data Event : Type 0 where
  acquire : Reachable → ℕ → Event
  release : Reachable → ℕ → Event
  expire : Event

module _ (R : Redis) (n : Reachable) (project t : ℕ) where
  open R use {State, get, set_nx, del}

  abbrev Acquired : State → State × LockResult → Type 0
  Acquired s (s', r) =
      ((r.token ≡ none) × (get project s' ≡ get project s))
      ⊎ ((r.token ≡ some t) × (get project s ≡ none) × (get project s' ≡ some t))

  acquire_reached : (s : State) → Acquired s (lock_result R (set_nx project t s) t)
  acquire_reached s = elim (Option-cases (get project s)) [
    | inl free ↦ let h = R.set_nx_free project t s free in rw h.0 (inr (refl, free, h.1))
    | inr (u, taken) ↦
        let h = R.set_nx_taken project t u s taken in rw h.0 (inl (refl, h.1 ∙ sym taken))
  ]

  -- A token is handed out only for a free key, which then holds it.
  pub acquire-cases : (s : State) → Acquired s (try_acquire_project_queue_lock R n project t s)
  unfolding try_acquire_project_queue_lock
  acquire-cases s = elim (Bool-cases n.client) [
    | inl c ↦ rw c (elim (Bool-cases n.command) [
      | inl d ↦ rw d (acquire_reached s)
      | inr d ↦ rw d (inl (refl, refl))
    ])
    | inr c ↦ rw c (inl (refl, refl))
  ]

module _ (R : Redis) (project : ℕ) where
  open R use {State, get, set_nx, del}

  abbrev hold : Option ℕ → List ℕ → List ℕ
  hold none hs = hs
  hold (some t) hs = t ∷ hs

  abbrev drop_holder : ℕ → List ℕ → List ℕ
  drop_holder t [] = []
  drop_holder t (h ∷ hs) = if h == t then hs else h ∷ drop_holder t hs

  -- The tokens of the workers that hold the lock, beside the Redis state. A release that does not
  -- reach Redis ends the worker's hold too, and so does the expiry of the key.
  abbrev pub step : Event → State × List ℕ → State × List ℕ
  step (acquire n t) (s, hs) =
      let (s', r) = try_acquire_project_queue_lock R n project t s in (s', hold r.token hs)
  step (release n t) (s, hs) = (release_project_queue_lock R n project (some t) s, drop_holder t hs)
  step expire (s, hs) = (del project s, [])

  abbrev pub run : List Event → State × List ℕ → State × List ℕ
  run [] w = w
  run (e ∷ es) w = run es (step e w)

  -- Nobody holds the lock, or one worker does and its token is the one in Redis.
  abbrev Inv : State × List ℕ → Type 0
  Inv (s, hs) = (hs ≡ []) ⊎ ((t : ℕ) × (get project s ≡ some t) × (hs ≡ t ∷ []))

  acquire-Inv : (n : Reachable) (t : ℕ) (w : State × List ℕ) → Inv w → Inv (step (acquire n t) w)
  acquire-Inv n t (s, hs) inv =
      go (try_acquire_project_queue_lock R n project t s) (acquire-cases R n project t s) inv
    where
      go :
          (r : State × LockResult)
          → Acquired R n project t s r
          → Inv (s, hs)
          → Inv (r.0, hold r.1.token hs)
      go (s', r) (inl (none_given, same)) (inl free) = rw none_given (inl free)
      go (s', r) (inl (none_given, same)) (inr (u, held, one)) =
          rw none_given (inr (u, same ∙ held, one))
      go (s', r) (inr (given, free, now)) (inl nobody) =
          rw given (inr (t, now, ap (λ (l : List ℕ). t ∷ l) nobody))
      go (s', r) (inr (given, free, now)) (inr (u, held, one)) =
          let clash : none ≡ some u = sym free ∙ held in absurd (cc)

  -- A release with another token than the one in Redis changes nothing there.
  release_other :
      (n : Reachable) (t u : ℕ) (s : State)
      → get project s ≡ some u
      → (u == t) ≡ false
      → release_project_queue_lock R n project (some t) s ≡ s
  unfolding release_project_queue_lock
  release_other n t u s held other = rw held (rw other (ground arith))

  release-Inv : (n : Reachable) (t : ℕ) (w : State × List ℕ) → Inv w → Inv (step (release n t) w)
  release-Inv n t (s, hs) (inl nobody) = rw nobody (inl refl)
  release-Inv n t (s, hs) (inr (u, held, one)) = elim (Bool-cases (u == t)) [
    | inl same ↦ rw one (rw same (inl refl))
    | inr other ↦ rw one (rw (other, release_other n t u s held other) (inr (u, held, refl)))
  ]

  run-Inv : (es : List Event) (w : State × List ℕ) → Inv w → Inv (run es w)
  run-Inv [] w inv = inv
  run-Inv (acquire n t ∷ es) w inv = run-Inv es (step (acquire n t) w) (acquire-Inv n t w inv)
  run-Inv (release n t ∷ es) w inv = run-Inv es (step (release n t) w) (release-Inv n t w inv)
  run-Inv (expire ∷ es) w inv = run-Inv es (step expire w) (inl refl)

  -- At most one worker holds the lock, and then its token is the one in Redis.
  abbrev pub IsExclusive : State × List ℕ → Type 0
  IsExclusive (s, hs) = (length hs ≤ 1) × All (λ (t : ℕ). get project s ≡ some t) hs

  Inv-IsExclusive : (w : State × List ℕ) → Inv w → IsExclusive w
  Inv-IsExclusive w (inl e) = rw e (omega arith, tt)
  Inv-IsExclusive w (inr (t, h, e)) = rw e (omega arith, (h, tt))

  -- If nobody holds the lock at first, then however acquires and releases of the workers and the expiry of the key follow one another, and
  -- whichever of the calls fail to reach Redis, at most one worker holds an unexpired token of the
  -- project's lock, and its token is the one in Redis: nobody else's release has deleted it.
  pub lock-IsExclusive : (es : List Event) (s : State) → IsExclusive (run es (s, []))
  lock-IsExclusive es s = Inv-IsExclusive (run es (s, [])) (run-Inv es (s, []) (inl refl))
