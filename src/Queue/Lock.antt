-- ===== src/Queue/Lock.antt =====
-- The Redis lock of a project's queue: `try_acquire_project_queue_lock`, `release_project_queue_lock`.
-- Redis is not part of the repository: it is a parameter, with the documented behaviour of SET NX,
-- GET and DEL.
pub mod Exclusion
pub mod Table
use pr_killer.Prelude.{
  ℕ, ◌≡◌, ◌≢◌, Bool, true, false, ◌&&◌, Option, none, some, ◌==◌, if◌then◌else◌,
}

-- Keys stand for projects: the code's key is a fixed prefix and the project's id.
pub record Redis : Type 1 where
  pub State : Type 0
  pub get : ℕ → State → Option ℕ
  pub set_nx : ℕ → ℕ → State → State × Bool
  pub del : ℕ → State → State
  pub set_nx_free :
      (k t : ℕ) (s : State)
      → get k s ≡ none
      → ((set_nx k t s).1 ≡ true) × (get k (set_nx k t s).0 ≡ some t)
  pub set_nx_taken :
      (k t u : ℕ) (s : State)
      → get k s ≡ some u
      → ((set_nx k t s).1 ≡ false) × (get k (set_nx k t s).0 ≡ some u)
  pub get-del : (k : ℕ) (s : State) → get k (del k s) ≡ none

-- `token` is none for the empty string.
pub record LockResult : Type 0 where
  pub acquired : Bool
  pub token : Option ℕ
  pub busy : Bool

-- Which calls get through: the client is made, and the command is executed.
pub record Reachable : Type 0 where
  pub client : Bool
  pub command : Bool

abbrev pub works : Reachable → Bool
works n = n.client && n.command

module _ (R : Redis) where
  open R use {State, get, set_nx, del}

  abbrev pub lock_result : State × Bool → ℕ → State × LockResult
  lock_result (s, true) token = (s, record { acquired = true; token = some token; busy = false })
  lock_result (s, false) token = (s, record { acquired = false; token = none; busy = true })

  -- Without Redis the worker goes on without a lock.
  abbrev pub degraded : LockResult
  degraded = record { acquired = true; token = none; busy = false }

  unfoldable pub try_acquire_project_queue_lock : Reachable → ℕ → ℕ → State → State × LockResult
  try_acquire_project_queue_lock n project token s =
      if n.client
      then (if n.command then lock_result (set_nx project token s) token else (s, degraded))
      else (s, degraded)

  -- `if redis.call('get', KEYS[1]) == ARGV[1] then del`
  abbrev release_script : ℕ → ℕ → Option ℕ → State → State
  release_script project token none s = s
  release_script project token (some held) s = if held == token then del project s else s

  unfoldable pub release_project_queue_lock : Reachable → ℕ → Option ℕ → State → State
  release_project_queue_lock n project none s = s
  release_project_queue_lock n project (some token) s =
      if n.client
      then (if n.command then release_script project token (get project s) s else s)
      else s
