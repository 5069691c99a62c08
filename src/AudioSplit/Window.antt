-- ===== src/AudioSplit/Window.antt =====
-- One window of the plan, and what a plan begins with.
use pr_killer.Prelude.{ℕ, ◌+◌, ◌*◌, ◌≤◌, ◌<◌, ◌≡◌, refl, Option, none, some, List, ◌∷◌, arith}
use pr_killer.AudioSplit.{
  Limits, Segment, Result, ok, error, SplitError, window_start, window_stop, check_file,
  add_segment,
}

module _ (l : Limits) (positive : 0 < l.chunk_ms) (total pos : ℕ) (inside : pos < total) where
  pub window_start_le : window_start l pos ≤ pos
  unfolding window_start
  window_start_le = ground arith

  pub window_stop_gt : pos < window_stop l total pos
  unfolding window_stop
  window_stop_gt = ground arith

  pub window_stop_le : window_stop l total pos ≤ total
  unfolding window_stop
  window_stop_le = ground arith

  -- The window reaches the next position, or the end.
  pub window_stop_reaches : (t : ℕ) → t < total → t < pos + l.chunk_ms → t < window_stop l total pos
  unfolding window_stop
  window_stop_reaches t below near = ground arith

  pub window_length : window_stop l total pos ≤ window_start l pos + l.chunk_ms + 2 * l.overlap_ms
  unfolding window_start window_stop
  window_length = ground arith

-- A file that passes its checks.
pub check_file-none :
    (limit idx : ℕ) (size : Option ℕ)
    → check_file limit idx size ≡ none
    → (bytes : ℕ) × (size ≡ some bytes) × (0 < bytes) × (bytes ≤ limit)
unfolding check_file
check_file-none limit idx none h = absurd (cc)
check_file-none limit idx (some bytes) h = (bytes, refl, ground arith, ground arith)

-- The head and the rest of what `add_segment` returns.
pub add_segment-ok :
    (e : Option SplitError) (seg : Segment) (rest : Option (Result (List Segment)))
    (segs : List Segment)
    → add_segment e seg rest ≡ some (ok segs)
    → (tail : List Segment) × (e ≡ none) × (rest ≡ some (ok tail)) × (segs ≡ seg ∷ tail)
add_segment-ok (some e) seg rest segs h = absurd (cc)
add_segment-ok none seg none segs h = absurd (cc)
add_segment-ok none seg (some (error e)) segs h = absurd (cc)
add_segment-ok none seg (some (ok tail)) segs h = (tail, refl, refl, (cc))
