-- ===== src/Queue/Pick.antt =====
-- Putting sources into the queue and taking the next ones out.
pub mod Fresh
pub mod Order
pub mod Reference
pub mod Running
pub mod Sound
use pr_killer.Prelude.{
  ℕ, suc, ◌+◌, ◌*◌, Bool, true, false, ◌&&◌, ◌||◌, Option, none, some, List, [], ◌∷◌, ◌++◌, map,
  max, ltb, leb, ◌==◌, take, if◌then◌else◌,
}
use pr_killer.Sort.{sort}
use pr_killer.Queue.Status.{
  Status, pending, processing, Kind, document, audio, is_pending, is_idle_or_failed,
}
use pr_killer.Queue.Rows.{Source, get, modify, in_project, update_where}
use pr_killer.Queue.World.{World, Env, rows, map_rows}

pub record PendingProjectSource : Type 0 where
  pub kind : Kind
  pub source_id : ℕ
  pub sort_order : ℕ
  pub created_at : ℕ

-- The key (sort_order, created_at), compared as a pair.
abbrev pub before : ℕ → ℕ → ℕ → ℕ → Bool
before o c o' c' = ltb o o' || (o == o' && leb c c')

unfoldable pub row_le : Source → Source → Bool
row_le a b = before a.processing_sort_order a.created_at b.processing_sort_order b.created_at

unfoldable pub item_le : PendingProjectSource → PendingProjectSource → Bool
item_le a b = before a.sort_order a.created_at b.sort_order b.created_at

abbrev pub item_of : Kind → Source → PendingProjectSource
item_of kind r = record {
  kind = kind;
  source_id = r.id;
  sort_order = r.processing_sort_order;
  created_at = r.created_at;
}

-- `WHERE project_id = :p AND processing_status = 'pending' FOR UPDATE SKIP LOCKED`
unfoldable pub pending_rows : (ℕ → Bool) → ℕ → List Source → List Source
pending_rows free p [] = []
pending_rows free p (r ∷ rs) =
    let rest = pending_rows free p rs in
    if r.project_id == p && (is_pending r.processing_status && free r.id) then r ∷ rest else rest

-- `ORDER BY processing_sort_order, created_at LIMIT n`
unfoldable pub select_pending : (ℕ → Bool) → ℕ → ℕ → List Source → List Source
unfolding pending_rows
select_pending free p n rs = take n (sort row_le (pending_rows free p rs))

unfoldable pub pick_pending_project_sources : Env → ℕ → ℕ → World → List PendingProjectSource
unfolding select_pending
pick_pending_project_sources e p limit w =
    let n = max (limit * 2) limit in
    let docs = map (item_of document) (select_pending (e.free document) p n w.documents) in
    let audios = map (item_of audio) (select_pending (e.free audio) p n w.audios) in
    take limit (sort item_le (docs ++ audios))

unfoldable pub start_row : ℕ → Source → Source
start_row now r = record r { processing_status = processing; processing_started_at = some now }

unfoldable pub mark_project_source_processing : Env → PendingProjectSource → World → World
unfolding start_row
mark_project_source_processing e item w =
    map_rows item.kind (modify item.source_id (start_row e.now)) w

-- `mark_idle_and_failed_sources_pending_async`; the source also returns how many rows it changed.
unfoldable pub repend_row : Source → Source
repend_row r = record r {
  processing_status = pending;
  processing_started_at = none;
  processing_completed_at = none;
}

abbrev pub restartable : ℕ → Source → Bool
restartable p r = r.project_id == p && is_idle_or_failed r.processing_status

abbrev pub count_restartable : ℕ → List Source → ℕ
count_restartable p [] = 0
count_restartable p (r ∷ rs) =
    let rest = count_restartable p rs in if restartable p r then suc rest else rest

unfoldable pub mark_idle_and_failed_sources_pending : ℕ → World → ℕ × World
unfolding repend_row
mark_idle_and_failed_sources_pending p w = (
  count_restartable p w.documents + count_restartable p w.audios,
  record w {
    documents = update_where (restartable p) repend_row w.documents;
    audios = update_where (restartable p) repend_row w.audios;
  },
)

unfoldable pub enqueue_row : ℕ → Source → Source
enqueue_row order r = record r {
  processing_status = pending;
  processing_sort_order = order;
  processing_started_at = none;
  processing_completed_at = none;
  processing_last_error = none;
}

abbrev pub is_some {ℓ} : {A : Type ℓ} → Option A → Bool
is_some none = false
is_some (some a) = true

-- One loop of `mark_sources_pending_async`: ids that are not there take no number.
unfoldable pub mark_pending_loop : Kind → List ℕ → ℕ → World → ℕ × World
unfolding enqueue_row
mark_pending_loop kind [] order w = (order, w)
mark_pending_loop kind (k ∷ ks) order w =
    mark_pending_loop kind ks (if is_some (get k (rows kind w)) then order + 1 else order)
      (map_rows kind (modify k (enqueue_row order)) w)

unfoldable pub mark_sources_pending : List ℕ → List ℕ → ℕ → World → World
unfolding mark_pending_loop
mark_sources_pending document_ids audio_ids sort_base w =
    let (order, w') = mark_pending_loop document document_ids sort_base w in
    (mark_pending_loop audio audio_ids order w').1

-- `func.max(processing_sort_order)`, with 0 for no row.
abbrev pub max_order : List Source → ℕ
max_order [] = 0
max_order (r ∷ rs) = max r.processing_sort_order (max_order rs)

unfoldable pub next_sort_order : ℕ → World → ℕ
next_sort_order p w =
    max (max_order (in_project p w.documents)) (max_order (in_project p w.audios)) + 1

abbrev pub order_or_next : Option ℕ → ℕ → World → ℕ
order_or_next (some order) p w = order
order_or_next none p w = next_sort_order p w

abbrev pub mark_found : Kind → ℕ → Option ℕ → Option Source → World → World
mark_found kind k sort_order none w = w
mark_found kind k sort_order (some r) w =
    map_rows kind (modify k (enqueue_row (order_or_next sort_order r.project_id w))) w

unfoldable pub mark_source_pending : Kind → ℕ → Option ℕ → World → World
unfolding next_sort_order enqueue_row
mark_source_pending kind k sort_order w = mark_found kind k sort_order (get k (rows kind w)) w
