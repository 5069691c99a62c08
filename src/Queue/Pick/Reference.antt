-- ===== src/Queue/Pick/Reference.antt =====
-- What `pick_pending_project_sources` picks: the first of all the project's pending sources.
use pr_killer.Prelude.{ℕ, ◌*◌, ◌≡◌, Bool, List, ◌++◌, map, arith, max, take, refl}
use pr_killer.Sort.{sort, take-sort-append}
use pr_killer.Queue.Status.{Kind, document, audio}
use pr_killer.Queue.Rows.{Source}
use pr_killer.Queue.World.{World, Env}
use pr_killer.Queue.Pick.{
  PendingProjectSource, item_le, item_of, pending_rows, row_le, select_pending,
  pick_pending_project_sources,
}
use pr_killer.Queue.Pick.Order.{item_le_trans, item_le_total, sort-item_of, map-take}

-- All the pending sources of a project, documents first.
abbrev pub all_pending : Env → ℕ → World → List PendingProjectSource
all_pending e p w =
    map (item_of document) (pending_rows (e.free document) p w.documents)
    ++ map (item_of audio) (pending_rows (e.free audio) p w.audios)

items_of_select :
    (kind : Kind) (free : ℕ → Bool) (p n : ℕ) (rs : List Source)
    → map (item_of kind) (select_pending free p n rs)
      ≡ take n (sort item_le (map (item_of kind) (pending_rows free p rs)))
unfolding select_pending
items_of_select kind free p n rs =
    rw
      (
        map-take kind n (sort row_le (pending_rows free p rs)),
        sort-item_of kind (pending_rows free p rs),
      )
      refl

-- The two limited queries and the final sort pick the first `limit` of all the project's pending
-- sources that no other transaction has locked, sorted by (sort_order, created_at).
pub pick-eq-first_pending :
    (e : Env) (p limit : ℕ) (w : World)
    → pick_pending_project_sources e p limit w ≡ take limit (sort item_le (all_pending e p w))
unfolding pick_pending_project_sources
pick-eq-first_pending e p limit w =
    let n = max (limit * 2) limit in
    rw
      (
        items_of_select document (e.free document) p n w.documents,
        items_of_select audio (e.free audio) p n w.audios,
      )
      (take-sort-append item_le item_le_trans item_le_total limit n
        (map (item_of document) (pending_rows (e.free document) p w.documents))
        (map (item_of audio) (pending_rows (e.free audio) p w.audios)) (omega arith))
