-- ===== src/Queue/Callbacks/Frames.antt =====
-- The steps that follow a commit touch no row.
use pr_killer.Prelude.{
  ℕ, ◌≡◌, refl, ◌∙◌, Bool, true, false, Option, none, if◌then◌else◌, Bool-cases, inl, inr,
}
use pr_killer.Queue.Summary.{project_queue_has_active_work, fetch_project_queue_summary}
use pr_killer.Queue.World.{
  raised, continue, delay_of, Message, drain_project, World, Env, Outcome, ok, M, pure, ◌>>◌, send,
  schedule_project_processing,
}
use pr_killer.Queue.Finalize.{
  after_finish, aggregate_project_after_source, maybe_finalize_project_queue_idle,
}

-- Two worlds with the same rows.
pub record SameRows (w v : World) : Type 0 where
  pub documents : w.documents ≡ v.documents
  pub audios : w.audios ≡ v.audios

abbrev pub Frames : M (Unit {0}) → Type 0
Frames m = (w : World) → SameRows (m w).1 w

Frames-then : (m k : M (Unit {0})) → Frames m → Frames k → Frames (m >> k)
Frames-then m k fm fk w = go (m w) (fm w)
  where
    go :
        (r : Outcome (Unit {0}) × World) → SameRows r.1 w → SameRows (continue r.0 (λ _. k) r.1).1 w
    go (ok u, w') h =
        let h' = fk w' in
        record { documents = h'.documents ∙ h.documents; audios = h'.audios ∙ h.audios }
    go (raised, w') h = h

pub send-Frames : (e : Env) (m : Message) → Frames (send e m)
unfolding send
send-Frames e m w = elim (Bool-cases (e.accepts w.sends)) [
  | inl a ↦ rw a (record { documents = refl; audios = refl })
  | inr a ↦ rw a (record { documents = refl; audios = refl })
]

pub schedule-Frames : (e : Env) (p : ℕ) (c : Option ℕ) → Frames (schedule_project_processing e p c)
unfolding schedule_project_processing
schedule-Frames e p c = send-Frames e (drain_project p (delay_of c))

idle-Frames : (p : ℕ) → Frames (maybe_finalize_project_queue_idle p)
unfolding maybe_finalize_project_queue_idle
idle-Frames p w =
    elim (Bool-cases
      (project_queue_has_active_work (fetch_project_queue_summary p w.documents w.audios))) [
        | inl a ↦ rw a (record { documents = refl; audios = refl })
        | inr a ↦ rw a (record { documents = refl; audios = refl })
      ]

aggregate-Frames :
    (b : Bool) (p : ℕ) → Frames (if b then aggregate_project_after_source p else pure tt)
unfolding aggregate_project_after_source
aggregate-Frames true p w = record { documents = refl; audios = refl }
aggregate-Frames false p w = record { documents = refl; audios = refl }

-- What follows a commit touches no row.
pub after_finish-Frames : (e : Env) (b : Bool) (p : ℕ) → Frames (after_finish e b p)
unfolding after_finish
after_finish-Frames e b p =
    Frames-then (if b then aggregate_project_after_source p else pure tt)
      (maybe_finalize_project_queue_idle p >> schedule_project_processing e p none)
      (aggregate-Frames b p)
      (Frames-then (maybe_finalize_project_queue_idle p) (schedule_project_processing e p none)
        (idle-Frames p) (schedule-Frames e p none))
