-- ===== src/Queue/Tests.antt =====
-- Runs of the queue on a small project, with a Redis that is a table of tokens.
use mathlib.Core.List.{Memᴰ}
use pr_killer.Prelude.{
  ℕ, ◌+◌, ◌≡◌, refl, Bool, true, false, not, ◌&&◌, ◌||◌, none, some, List, [], ◌∷◌, ◌++◌, length,
  ◌==◌, take,
}
use pr_killer.Sort.{sort}
use pr_killer.Text.{codes}
use pr_killer.Queue.Status.{
  Status, pending, processing, completed, Kind, document, audio, is_pending, is_processing,
}
use pr_killer.Queue.Rows.{Source, get, modify}
use pr_killer.Queue.Summary.{Row, compute_project_queue_summary, project_rows}
use pr_killer.Queue.Summary.Counts.{
  count, any_active, is_completed, is_failed, compute_summary-counts,
}
use pr_killer.Queue.World.{World, Env, analyse_document, transcribe_audio, ok, raised, map_rows}
use pr_killer.Queue.Lock.{try_acquire_project_queue_lock, release_project_queue_lock}
use pr_killer.Queue.Lock.Exclusion.{
  Event, acquire, release, expire, run, IsExclusive, lock-IsExclusive,
}
use pr_killer.Queue.Lock.Table.{table_redis, reached, no_keys}
use pr_killer.Queue.Pick.{PendingProjectSource, item_le, pick_pending_project_sources}
use pr_killer.Queue.Pick.Reference.{all_pending, pick-eq-first_pending}
use pr_killer.Queue.Pick.Running.{pick_ignores_processing}
use pr_killer.Queue.Finalize.{maybe_finalize_project_queue_idle}
use pr_killer.Queue.Finalize.Idle.{is_cached, idle_drops_cache}
use pr_killer.Queue.Process.{drain, process_project_processing_queue}
use pr_killer.Queue.Process.Marks.{IsRunning}
use pr_killer.Queue.Process.Released.{process_releases}
use pr_killer.Queue.Process.Sends.{messages, reply_of, drain_dispatches}
use pr_killer.Queue.Process.Stranded.{refused_strands}
use pr_killer.Queue.Callbacks.{document_done, audio_failed, callback}
use pr_killer.Queue.Callbacks.Terminal.{callback-keeps_inactive}
use pr_killer.Queue.Invariant.{Inv, Op, report, restart, enqueue_one, steps, steps-Inv}

abbrev env : Bool → Env
env up = record {
  project_queue_enabled = true;
  project_queue_concurrency = 2;
  now = 50;
  free = λ _ _. true;
  accepts = λ _. up;
  refusal = codes "broker down";
}

abbrev source : ℕ → Status → ℕ → Source
source k status order = record {
  id = k;
  project_id = 1;
  processing_status = status;
  processing_sort_order = order;
  processing_started_at = none;
  processing_completed_at = none;
  processing_last_error = none;
  created_at = 10;
}

abbrev started : ℕ → ℕ → Source
started k order = record (source k processing order) { processing_started_at = some 20 }

abbrev done : ℕ → Source
done k = record (source k completed 0) { processing_completed_at = some 30 }

-- Two documents and two audios of project 1; one of each waits.
abbrev project : World
project = record {
  documents = source 1 pending 2 ∷ done 2 ∷ [];
  audios = source 7 pending 1 ∷ started 8 0 ∷ [];
  transcripts = [];
  llm_cache = 1 ∷ 3 ∷ [];
  outbox = [];
  sends = 0;
  aggregated = [];
}

abbrev item : Kind → ℕ → ℕ → PendingProjectSource
item kind k order = record { kind = kind; source_id = k; sort_order = order; created_at = 10 }

picks :
    pick_pending_project_sources (env true) 1 2 project ≡ item audio 7 1 ∷ item document 1 2 ∷ []
unfolding pick_pending_project_sources sort item_le
picks = refl

picks_one : pick_pending_project_sources (env true) 1 1 project ≡ item audio 7 1 ∷ []
unfolding pick_pending_project_sources sort item_le
picks_one = refl

run_sends : (drain (env true) 1 project).1.outbox ≡ transcribe_audio 7 ∷ analyse_document 1 ∷ []
unfolding drain sort item_le
run_sends = refl

run_fails : (drain (env false) 1 project).0 ≡ raised
unfolding drain sort item_le get modify
run_fails = refl

pick-eq-first_pending_example :
    pick_pending_project_sources (env true) 1 1 project
    ≡ take 1 (sort item_le (all_pending (env true) 1 project))
pick-eq-first_pending_example = pick-eq-first_pending (env true) 1 1 project

pick_ignores_processing_example :
    pick_pending_project_sources (env true) 1 2 (map_rows document (λ rs. started 9 0 ∷ rs) project)
    ≡ pick_pending_project_sources (env true) 1 2 project
pick_ignores_processing_example =
    pick_ignores_processing (env true) 1 2 document (started 9 0) project refl

idle_drops_cache_example : is_cached 1 (maybe_finalize_project_queue_idle 1 project).1.llm_cache ≡ (
    is_cached 1 project.llm_cache
    && (not (1 == 1) || any_active (project_rows 1 project.documents project.audios)))
idle_drops_cache_example = idle_drops_cache 1 1 project

abbrev project_counts : List Row
unfolding project_rows
project_counts = project_rows 1 project.documents project.audios

compute_summary-counts_example :
    let s = compute_project_queue_summary project_counts in
    (s.pending ≡ count is_pending project_counts)
    × (s.processing ≡ count is_processing project_counts)
    × (s.completed ≡ count is_completed project_counts)
    × (s.failed ≡ count is_failed project_counts)
    × (s.idle + s.pending + s.processing + s.completed + s.failed ≡ length project_counts)
compute_summary-counts_example = compute_summary-counts project_counts

-- Worker 5 takes the lock and loses it by expiry, worker 6 takes it, and worker 5 gives it back late.
abbrev late_release : List Event
late_release =
    acquire reached 5 ∷ expire ∷ acquire reached 6 ∷ release reached 5 ∷ acquire reached 7 ∷ []

lock-IsExclusive_example : IsExclusive table_redis 1 (run table_redis 1 late_release (no_keys, []))
lock-IsExclusive_example = lock-IsExclusive table_redis 1 late_release no_keys

one_holder : (run table_redis 1 late_release (no_keys, [])).1 ≡ 6 ∷ []
unfolding try_acquire_project_queue_lock release_project_queue_lock
one_holder = refl

process_releases_example :
    (process_project_processing_queue table_redis (env false) reached reached 5 1 no_keys project).1
      1
    ≡ none
process_releases_example =
    process_releases table_redis (env false) reached reached 5 1 no_keys project refl refl refl refl
      refl refl

drain_dispatches_example :
    let picked = pick_pending_project_sources (env true) 1 2 project in
    ((drain (env true) 1 project).0 ≡ ok (reply_of picked))
    × ((drain (env true) 1 project).1.outbox ≡ [] ++ messages picked)
    × ((y : PendingProjectSource)
        → Memᴰ y picked
        → IsRunning y.kind y.source_id (drain (env true) 1 project).1)
drain_dispatches_example = drain_dispatches (env true) (λ _. refl) 1 project

refused_strands_example :
    ((drain (env false) 1 project).0 ≡ raised)
    × ((drain (env false) 1 project).1.outbox ≡ [])
    × IsRunning document 1 (drain (env false) 1 project).1
unfolding pick_pending_project_sources sort item_le
refused_strands_example =
    refused_strands (env false) (λ _. refl) refl 1 project (item audio 7 1) (item document 1 2 ∷ [])
      refl (item document 1 2) (Memᴰ.head refl) refl

callback-keeps_inactive_example :
    get 2 (callback (env true) (document_done 2 false none) project).1.documents ≡ some (done 2)
unfolding get
callback-keeps_inactive_example =
    callback-keeps_inactive (env true) (document_done 2 false none) document 2 (done 2) project refl
      refl

project-Inv : Inv project
project-Inv = record { documents = (refl, ((refl, refl), tt)); audios = (refl, (refl, tt)) }

abbrev history : List Op
history =
    Op.run (env true) reached reached 5 1
    ∷ report (env true) (document_done 1 true none)
    ∷ report (env false) (audio_failed 7 (codes "no speech"))
    ∷ restart 1
    ∷ enqueue_one audio 8 none
    ∷ []

steps-Inv_example : Inv (steps table_redis history (project, no_keys)).0
steps-Inv_example = steps-Inv table_redis history project no_keys project-Inv
