-- ===== src/Batch/Pick.antt =====
-- Which rows of a batch are taken next.
use pr_killer.Prelude.{
  ℕ, suc, ◌≡◌, refl, Bool, true, ◌&&◌, Option, none, some, List, [], ◌∷◌, ◌==◌, take, if◌then◌else◌,
  Bool-cases, inl, inr,
}
use pr_killer.Sort.{sort}
use pr_killer.Queue.Status.{processing, is_pending}
use pr_killer.Queue.Pick.{before}
use pr_killer.Queue.Pick.Sound.{All, All-take, All-sort}
use pr_killer.Batch.World.{BatchRow, BatchWorld, modify_row}

unfoldable pub batch_row_le : BatchRow → BatchRow → Bool
batch_row_le a b = before a.sort_order a.created_at b.sort_order b.created_at

abbrev pub is_next : (ℕ → Bool) → ℕ → BatchRow → Bool
is_next free b r = r.batch_id == b && (is_pending r.processing_status && free r.id)

-- `WHERE batch_id = :b AND processing_status = 'pending' FOR UPDATE SKIP LOCKED`
unfoldable pub pending_batch_rows : (ℕ → Bool) → ℕ → List BatchRow → List BatchRow
pending_batch_rows free b [] = []
pending_batch_rows free b (r ∷ rs) =
    let rest = pending_batch_rows free b rs in if is_next free b r then r ∷ rest else rest

unfoldable pub pick_all_pending_batch_sources : (ℕ → Bool) → ℕ → ℕ → List BatchRow → List BatchRow
unfolding pending_batch_rows
pick_all_pending_batch_sources free b limit rs =
    take limit (sort batch_row_le (pending_batch_rows free b rs))

abbrev pub head : List BatchRow → Option BatchRow
head [] = none
head (r ∷ rs) = some r

-- `limit(1)` and `session.scalar`
unfoldable pub pick_next_pending_batch_source : (ℕ → Bool) → ℕ → List BatchRow → Option BatchRow
unfolding pending_batch_rows
pick_next_pending_batch_source free b rs =
    head (take 1 (sort batch_row_le (pending_batch_rows free b rs)))

unfoldable pub start_batch_row : ℕ → BatchRow → BatchRow
start_batch_row now r = record r { processing_status = processing; started_at = some now }

unfoldable pub mark_batch_source_processing : ℕ → BatchRow → BatchWorld → BatchWorld
unfolding start_batch_row modify_row
mark_batch_source_processing now r w = record w {
  batch_rows = modify_row r.id (start_batch_row now) w.batch_rows;
}

-- The single pick is the first of any larger pick.
head-take : (n : ℕ) (rs : List BatchRow) → head (take 1 rs) ≡ head (take (suc n) rs)
head-take n [] = refl
head-take n (r ∷ rs) = refl

-- The row that is picked alone is the first of those that are picked together, under any limit.
pick_next-pick_all :
    (free : ℕ → Bool) (b n : ℕ) (rs : List BatchRow)
    → pick_next_pending_batch_source free b rs
      ≡ head (pick_all_pending_batch_sources free b (suc n) rs)
unfolding pick_next_pending_batch_source pick_all_pending_batch_sources
pick_next-pick_all free b n rs = head-take n (sort batch_row_le (pending_batch_rows free b rs))

abbrev IsNext : (ℕ → Bool) → ℕ → BatchRow → Type 0
IsNext free b r = is_next free b r ≡ true

pending-IsNext :
    (free : ℕ → Bool) (b : ℕ) (rs : List BatchRow)
    → All (IsNext free b) (pending_batch_rows free b rs)
unfolding pending_batch_rows
pending-IsNext free b [] = tt
pending-IsNext free b (r ∷ rs) = elim (Bool-cases (is_next free b r)) [
  | inl e ↦ rw e (e, pending-IsNext free b rs)
  | inr e ↦ rw e (pending-IsNext free b rs)
]

-- Every row that is picked is a pending row of the batch that no other transaction has locked.
pick-All-IsNext :
    (free : ℕ → Bool) (b limit : ℕ) (rs : List BatchRow)
    → All (IsNext free b) (pick_all_pending_batch_sources free b limit rs)
unfolding pick_all_pending_batch_sources
pick-All-IsNext free b limit rs =
    All-take (IsNext free b) limit (sort batch_row_le (pending_batch_rows free b rs)) (
      All-sort (IsNext free b) batch_row_le (pending_batch_rows free b rs)
        (pending-IsNext free b rs))
