-- ===== src/Queue/Finalize/Idle.antt =====
-- When the project's cached LLM answers are dropped.
use pr_killer.Prelude.{
  ℕ, ◌≡◌, refl, Bool, false, ◌&&◌, ◌||◌, not, List, [], ◌∷◌, arith, ◌==◌, Bool-cases, inl, inr,
}
use pr_killer.Queue.Summary.{project_rows}
use pr_killer.Queue.Summary.Counts.{any_active, has_active_work-eq}
use pr_killer.Queue.World.{World, without_project}
use pr_killer.Queue.Finalize.{invalidate_project_llm_cache, maybe_finalize_project_queue_idle}

abbrev pub is_cached : ℕ → List ℕ → Bool
is_cached q [] = false
is_cached q (c ∷ cs) = c == q || is_cached q cs

pub cached-without_project :
    (p q : ℕ) (cs : List ℕ) → is_cached q (without_project p cs) ≡ (is_cached q cs && not (q == p))
unfolding without_project
cached-without_project p q [] = refl
cached-without_project p q (c ∷ cs) = let ih = cached-without_project p q cs in ground arith

-- The cache entries of a project are dropped exactly when none of its sources is pending or
-- processing, and no other project loses any.
pub idle_drops_cache :
    (p q : ℕ) (w : World)
    → is_cached q (maybe_finalize_project_queue_idle p w).1.llm_cache ≡ (
        is_cached q w.llm_cache
        && (not (q == p) || any_active (project_rows p w.documents w.audios)))
unfolding maybe_finalize_project_queue_idle invalidate_project_llm_cache
idle_drops_cache p q w =
    let active = has_active_work-eq p w.documents w.audios in
    let dropped = cached-without_project p q w.llm_cache in
    elim (Bool-cases (any_active (project_rows p w.documents w.audios))) [
      | inl e ↦ rw (active, e) (ground arith)
      | inr e ↦ rw (active, e, dropped) (ground arith)
    ]
