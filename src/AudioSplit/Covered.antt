-- ===== src/AudioSplit/Covered.antt =====
-- A plan covers the whole recording with windows of bounded length.
use mathlib.Core.List.{Memᴰ}
use pr_killer.Prelude.{
  ℕ, zero, suc, ◌+◌, ◌*◌, ◌≤◌, ◌<◌, ◌≡◌, refl, true, false, none, some, List, [], ◌∷◌, arith, leb,
  ltb, ◌==◌, Bool-cases, inl, inr,
}
use pr_killer.Queue.Pick.Sound.{All}
use pr_killer.AudioSplit.{
  Media, Limits, Segment, ok, error, window_start, window_stop, check_file, plan_loop,
  build_segment_plan, plan_of, chunk_not_positive, duration_zero,
}
use pr_killer.AudioSplit.Window.{
  window_start_le, window_stop_gt, window_stop_le, window_stop_reaches, window_length,
  check_file-none, add_segment-ok,
}

-- A moment lies in a window of the plan.
abbrev pub IsCovered : List Segment → ℕ → Type 0
IsCovered segs t = (s : Segment) × Memᴰ s segs × (s.start_ms ≤ t) × (t < s.end_ms)

module _ (m : Media) (l : Limits) (total : ℕ) where
  -- A window lies in the recording, is at most one length and two overlaps long, and its file was
  -- written, is not empty and not too large.
  abbrev pub IsGood : Segment → Type 0
  IsGood s =
      (s.start_ms < s.end_ms)
      × (s.end_ms ≤ total)
      × (s.end_ms ≤ s.start_ms + l.chunk_ms + 2 * l.overlap_ms)
      × ((bytes : ℕ) × (m.encode s.segment_index s.start_ms s.end_ms ≡ some bytes)
          × (0 < bytes)
          × (bytes ≤ l.max_segment_bytes))

module _ (m : Media) (l : Limits) (positive : 0 < l.chunk_ms) (total : ℕ) where
  abbrev segment_at : ℕ → ℕ → Segment
  segment_at pos idx = record {
    segment_index = idx;
    start_ms = window_start l pos;
    end_ms = window_stop l total pos;
  }

  -- What a round of the loop found out when the loop returns a plan.
  abbrev Round : ℕ → ℕ → ℕ → List Segment → Type 0
  Round fuel pos idx segs =
      (tail : List Segment) × (check_file l.max_segment_bytes idx
          (m.encode idx (window_start l pos) (window_stop l total pos))
        ≡ none)
      × (plan_loop m l total fuel (pos + l.chunk_ms) (idx + 1) ≡ some (ok tail))
      × (segs ≡ segment_at pos idx ∷ tail)

  Round-of :
      (fuel pos idx : ℕ) (segs : List Segment)
      → pos < total
      → plan_loop m l total (suc fuel) pos idx ≡ some (ok segs)
      → Round fuel pos idx segs
  unfolding plan_loop
  Round-of fuel pos idx segs inside h =
      let in_range : ltb pos total ≡ true = ground arith in
      let a = window_start_le l positive total pos inside in
      let b = window_stop_gt l positive total pos inside in
      let open_window : leb (window_stop l total pos) (window_start l pos) ≡ false =
        ground (arith, a, b) in
      add_segment-ok
        (check_file l.max_segment_bytes idx
          (m.encode idx (window_start l pos) (window_stop l total pos)))
        (segment_at pos idx) (plan_loop m l total fuel (pos + l.chunk_ms) (idx + 1)) segs
        (rw open_window at rw in_range at h)

  loop_ends :
      (fuel pos idx : ℕ) (segs : List Segment)
      → total ≤ pos
      → plan_loop m l total (suc fuel) pos idx ≡ some (ok segs)
      → segs ≡ []
  unfolding plan_loop
  loop_ends fuel pos idx segs outside h =
      let out : ltb pos total ≡ false = ground arith in
      let h' : some (ok []) ≡ some (ok segs) = rw out at h in cc

  loop-IsCovered :
      (fuel pos idx : ℕ) (segs : List Segment)
      → plan_loop m l total fuel pos idx ≡ some (ok segs)
      → (t : ℕ) → pos ≤ t
      → t < total
      → IsCovered segs t
  loop-IsCovered zero pos idx segs h t after below = unfold plan_loop in absurd (cc)
  loop-IsCovered (suc fuel) pos idx segs h t after below =
      let inside : pos < total = omega arith in
      let (tail, file, rest, same) = Round-of fuel pos idx segs inside h in
      let start = window_start_le l positive total pos inside in
      rw same (elim (Bool-cases (ltb t (pos + l.chunk_ms))) [
        | inl near ↦ (
          segment_at pos idx,
          Memᴰ.head refl,
          omega (arith, start),
          window_stop_reaches l positive total pos inside t below (ground (arith, near)),
        )
        | inr far ↦
            (let (s, member, from, to) =
                loop-IsCovered fuel (pos + l.chunk_ms) (idx + 1) tail rest t (ground (arith, far))
                  below in
              (s, Memᴰ.tail member, from, to))
      ])

  loop-IsGood :
      (fuel pos idx : ℕ) (segs : List Segment)
      → plan_loop m l total fuel pos idx ≡ some (ok segs)
      → All (IsGood m l total) segs
  loop-IsGood zero pos idx segs h = unfold plan_loop in absurd (cc)
  loop-IsGood (suc fuel) pos idx segs h = elim (Bool-cases (ltb pos total)) [
    | inl e ↦
        (let inside : pos < total = ground (arith, e) in
          let (tail, file, rest, same) = Round-of fuel pos idx segs inside h in
          let start = window_start_le l positive total pos inside in
          let stop = window_stop_gt l positive total pos inside in
          let written =
            check_file-none l.max_segment_bytes idx
              (m.encode idx (window_start l pos) (window_stop l total pos)) file in
          rw same (
            (
              omega (arith, start, stop),
              window_stop_le l positive total pos inside,
              window_length l positive total pos inside,
              written,
            ),
            loop-IsGood fuel (pos + l.chunk_ms) (idx + 1) tail rest,
          ))
    | inr e ↦ rw (loop_ends fuel pos idx segs (ground (arith, e)) h) tt
  ]

-- The plan that a build returned came out of the loop.
plan_of-loop :
    (m : Media) (l : Limits) (total : ℕ) (segs : List Segment)
    → m.duration ≡ some total
    → build_segment_plan m l ≡ some (ok segs)
    → (0 < l.chunk_ms) × (plan_loop m l total (suc total) 0 0 ≡ some (ok segs))
unfolding build_segment_plan
plan_of-loop m l total segs d h = elim (Bool-cases (leb l.chunk_ms 0)) [
  | inl e ↦ (let h' : some (error chunk_not_positive) ≡ some (ok segs) = rw e at h in absurd (cc))
  | inr e ↦
      (let h' : plan_of m l m.duration ≡ some (ok segs) = rw e at h in
        let h2 : plan_of m l (some total) ≡ some (ok segs) = rw d at h' in
        elim (Bool-cases (total == 0)) [
          | inl z ↦
              (let h3 : some (error duration_zero) ≡ some (ok segs) = rw z at h2 in absurd (cc))
          | inr nz ↦ (ground (arith, e), rw nz at h2)
        ])
]

-- A plan that `_build_segment_plan` returns for a recording whose duration is known leaves out none of
-- its milliseconds.
pub build-IsCovered :
    (m : Media) (l : Limits) (total : ℕ) (segs : List Segment)
    → m.duration ≡ some total
    → build_segment_plan m l ≡ some (ok segs)
    → (t : ℕ) → t < total
    → IsCovered segs t
build-IsCovered m l total segs d h t below =
    let (positive, loop) = plan_of-loop m l total segs d h in
    loop-IsCovered m l positive total (suc total) 0 0 segs loop t (omega arith) below

-- Every window of a plan that is returned lies in the recording, is not empty, is at most one chunk
-- and two overlaps long, and its file is neither empty nor larger than the limit.
pub build-IsGood :
    (m : Media) (l : Limits) (total : ℕ) (segs : List Segment)
    → m.duration ≡ some total
    → build_segment_plan m l ≡ some (ok segs)
    → All (IsGood m l total) segs
build-IsGood m l total segs d h =
    let (positive, loop) = plan_of-loop m l total segs d h in
    loop-IsGood m l positive total (suc total) 0 0 segs loop
