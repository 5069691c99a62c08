-- ===== src/Queue/Process/Marks.antt =====
-- The rows after a run marked its sources as processing.
use mathlib.Core.List.{Memᴰ}
use mathlib.Core.Option
use mathlib.Core.Path.{subst}
use pr_killer.Prelude.{
  ℕ, ◌≡◌, refl, sym, ◌∙◌, Bool, true, false, ◌&&◌, some, List, [], ◌∷◌, arith, if◌then◌else◌,
  Bool-cases, inl, inr, ==_refl, ◌==◌, Option-cases,
}
use pr_killer.Queue.Status.{Kind, document, audio, processing}
use pr_killer.Queue.Rows.{Source, get, modify, get-modify}
use pr_killer.Queue.World.{World, Env, rows, map_rows}
use pr_killer.Queue.Pick.{PendingProjectSource, is_some, start_row}
use pr_killer.Queue.Pick.Sound.{All, IsPresent}
use pr_killer.Queue.Process.{mark_all}

-- The row of a key is there, and is marked as processing.
abbrev pub IsRunning : Kind → ℕ → World → Type 0
IsRunning kind k w =
    (r : Source) × (get k (rows kind w) ≡ some r) × (r.processing_status ≡ processing)

abbrev pub same_kind : Kind → Kind → Bool
same_kind document document = true
same_kind audio audio = true
same_kind _ _ = false

abbrev pub same_source : PendingProjectSource → PendingProjectSource → Bool
same_source a b = same_kind a.kind b.kind && a.source_id == b.source_id

start_row-id : (now : ℕ) (r : Source) → (start_row now r).id ≡ r.id
unfolding start_row
start_row-id now r = refl

-- Marking one row, at its own key and at another.
abbrev start : Kind → ℕ → ℕ → World → World
start kind k now w = map_rows kind (modify k (start_row now)) w

-- The rows of one table after a row was marked.
module _ (k now j : ℕ) (rs : List Source) where
  get-started :
      get j (modify k (start_row now) rs)
      ≡ (if k == j then Option.map (start_row now) (get j rs) else get j rs)
  get-started = get-modify k (start_row now) (start_row-id now) j rs

  started_present : is_some (get j rs) ≡ true → is_some (get j (modify k (start_row now) rs)) ≡ true
  started_present h = rw get-started (ground arith)

  started_running :
      (r : Source)
      → get j rs ≡ some r
      → r.processing_status ≡ processing
      → (q : Source) × (get j (modify k (start_row now) rs) ≡ some q)
        × (q.processing_status ≡ processing)
  unfolding start_row
  started_running r at run = elim (Bool-cases (k == j)) [
    | inl e ↦ (start_row now r, get-started ∙ rw (e, at) refl, refl)
    | inr e ↦ (r, get-started ∙ rw (e, at) refl, run)
  ]

started_self :
    (k now : ℕ) (rs : List Source)
    → is_some (get k rs) ≡ true
    → (q : Source) × (get k (modify k (start_row now) rs) ≡ some q)
      × (q.processing_status ≡ processing)
unfolding start_row
started_self k now rs h = elim (Option-cases (get k rs)) [
  | inl e ↦ let h' : false ≡ true = rw e at h in absurd (cc)
  | inr (r, e) ↦ (start_row now r, get-started k now k rs ∙ rw (==_refl k, e) refl, refl)
]

start_self :
    (kind : Kind) (k now : ℕ) (w : World)
    → is_some (get k (rows kind w)) ≡ true
    → IsRunning kind k (start kind k now w)
start_self document k now w h = started_self k now w.documents h
start_self audio k now w h = started_self k now w.audios h

start-IsRunning :
    (kind kind' : Kind) (j k now : ℕ) (w : World)
    → IsRunning kind j w
    → IsRunning kind j (start kind' k now w)
start-IsRunning document document j k now w h = started_running k now j w.documents h.0 h.1 h.2
start-IsRunning document audio j k now w h = h
start-IsRunning audio document j k now w h = h
start-IsRunning audio audio j k now w h = started_running k now j w.audios h.0 h.1 h.2

start-IsPresent :
    (kind kind' : Kind) (j k now : ℕ) (w : World)
    → is_some (get j (rows kind w)) ≡ true
    → is_some (get j (rows kind (start kind' k now w))) ≡ true
start-IsPresent document document j k now w h = started_present k now j w.documents h
start-IsPresent document audio j k now w h = h
start-IsPresent audio document j k now w h = h
start-IsPresent audio audio j k now w h = started_present k now j w.audios h

module _ (e : Env) where
  mark_all-IsRunning :
      (items : List PendingProjectSource) (kind : Kind) (j : ℕ) (w : World)
      → IsRunning kind j w
      → IsRunning kind j (mark_all e items w)
  unfolding mark_all
  mark_all-IsRunning [] kind j w h = h
  mark_all-IsRunning (item ∷ rest) kind j w h =
      mark_all-IsRunning rest kind j (start item.kind item.source_id e.now w)
        (start-IsRunning kind item.kind j item.source_id e.now w h)

  IsPresent-after :
      (item : PendingProjectSource) (items : List PendingProjectSource) (w : World)
      → All (IsPresent w) items
      → All (IsPresent (start item.kind item.source_id e.now w)) items
  IsPresent-after item [] w h = tt
  IsPresent-after item (x ∷ items) w h = (
    start-IsPresent x.kind item.kind x.source_id item.source_id e.now w h.0,
    IsPresent-after item items w h.1,
  )

  -- After the marks every item's row is processing.
  pub mark_all_runs :
      (items : List PendingProjectSource) (y : PendingProjectSource) (w : World)
      → All (IsPresent w) items
      → Memᴰ y items
      → IsRunning y.kind y.source_id (mark_all e items w)
  unfolding mark_all
  mark_all_runs [] y w h m = elim m [ ]
  mark_all_runs (item ∷ rest) y w h (Memᴰ.head p) =
      subst
        (λ (z : PendingProjectSource). IsRunning z.kind z.source_id (mark_all e (item ∷ rest) w))
        (sym p)
        (mark_all-IsRunning rest item.kind item.source_id (start item.kind item.source_id e.now w)
          (start_self item.kind item.source_id e.now w h.0))
  mark_all_runs (item ∷ rest) y w h (Memᴰ.tail m) =
      mark_all_runs rest y (start item.kind item.source_id e.now w)
        (IsPresent-after item rest w h.1) m
