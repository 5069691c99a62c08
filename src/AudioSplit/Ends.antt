-- ===== src/AudioSplit/Ends.antt =====
-- A plan and the retries end with a plan or an error, whatever ffmpeg writes.
use pr_killer.Prelude.{
  ℕ, zero, suc, ◌+◌, ◌-◌, ◌/◌, ◌<◌, ◌≡◌, refl, Option, none, some, List, [], ◌∷◌, arith, leb, ltb,
  ◌==◌, Bool-cases, inl, inr, max,
}
use pr_killer.AudioSplit.{
  Media, Limits, Segment, Result, ok, error, SplitError, window_start, window_stop, check_file,
  add_segment, plan_loop, build_segment_plan, plan_of, floor_ms, attempts, is_too_large, or_retry,
  tool_failed, duration_zero, chunk_not_positive, could_not_fit,
}

-- A result has come, and the fuel was enough.
abbrev pub Returns : Option (Result (List Segment)) → Type 0
Returns o = (r : Result (List Segment)) × (o ≡ some r)

add_segment-Returns :
    (e : Option SplitError) (seg : Segment) (r : Result (List Segment))
    → Returns (add_segment e seg (some r))
add_segment-Returns (some e) seg r = (error e, refl)
add_segment-Returns none seg (ok segs) = (ok (seg ∷ segs), refl)
add_segment-Returns none seg (error e) = (error e, refl)

module _ (m : Media) (l : Limits) (positive : 0 < l.chunk_ms) (total : ℕ) where
  plan_loop-Returns :
      (fuel pos idx : ℕ) → total - pos < fuel → Returns (plan_loop m l total fuel pos idx)
  unfolding plan_loop
  plan_loop-Returns zero pos idx enough = absurd (omega arith)
  plan_loop-Returns (suc fuel) pos idx enough = elim (Bool-cases (ltb pos total)) [
    | inl e ↦
        (let inside : pos < total = ground (arith, e) in
          let (r, same) = plan_loop-Returns fuel (pos + l.chunk_ms) (idx + 1) (omega arith) in
          let seg : Segment = record {
            segment_index = idx;
            start_ms = window_start l pos;
            end_ms = window_stop l total pos;
          } in
          elim (Bool-cases (leb (window_stop l total pos) (window_start l pos))) [
            | inl c ↦ (ok [], rw e (rw c refl))
            | inr c ↦
                (let (x, eq) =
                    add_segment-Returns
                      (check_file l.max_segment_bytes idx
                        (m.encode idx (window_start l pos) (window_stop l total pos)))
                      seg r in
                  (x, rw e (rw c (rw same eq))))
          ])
    | inr e ↦ (ok [], rw e refl)
  ]

-- The loop over the windows of any recording ends within its fuel, and building a plan gives a plan or
-- an error, whatever the limits are and whatever the programs write.
pub build-Returns : (m : Media) (l : Limits) → Returns (build_segment_plan m l)
unfolding build_segment_plan
build-Returns m l = elim (Bool-cases (leb l.chunk_ms 0)) [
  | inl e ↦ (error chunk_not_positive, rw e refl)
  | inr e ↦ rw e (go (ground (arith, e)) m.duration)
]
  where
    go : 0 < l.chunk_ms → (d : Option ℕ) → Returns (plan_of m l d)
    go positive none = (error tool_failed, refl)
    go positive (some total) = elim (Bool-cases (total == 0)) [
      | inl z ↦ (error duration_zero, rw z refl)
      | inr nz ↦ rw nz (plan_loop-Returns m l positive total (suc total) 0 0 (omega arith))
    ]

or_retry-Returns :
    (o again : Option (Result (List Segment)))
    → Returns o
    → Returns again
    → Returns (or_retry o again)
or_retry-Returns none again (r, h) second = absurd (cc)
or_retry-Returns (some (ok segs)) again first second = (ok segs, refl)
or_retry-Returns (some (error e)) again first second = elim (Bool-cases (is_too_large e)) [
  | inl b ↦ rw b second
  | inr b ↦ (error e, rw b refl)
]

attempts-Returns : (m : ℕ → Media) (n : ℕ) (l : Limits) → Returns (attempts m n l)
unfolding attempts
attempts-Returns m zero l = (error could_not_fit, refl)
attempts-Returns m (suc n) l =
    or_retry-Returns (build_segment_plan (m n) l)
      (attempts m n (record l { chunk_ms = max floor_ms (l.chunk_ms / 2) })) (build-Returns (m n) l)
      (attempts-Returns m n (record l { chunk_ms = max floor_ms (l.chunk_ms / 2) }))
