-- ===== src/Chunking/Loop.antt =====
-- The loop of `chunk_text` ends, and what it appends are non-empty pieces below the limit.
use pr_killer.Prelude.{
  ℕ, zero, suc, ◌-◌, ◌≤◌, ◌<◌, ◌≡◌, refl, false, some, List, [], ◌∷◌, ◌++◌, arith, length,
  Bool-cases, inl, inr, leb, ltb, drop, length-take,
}
use pr_killer.Text.{Text, strip, slice, is_empty}
use pr_killer.Text.Strip.{length-strip}
use pr_killer.Chunking.{
  Chunker, window_end, next_start, Iteration, stop, go_on, advance, iteration, chunk_loop,
  chunk_text, new_chunker,
}
use pr_killer.Chunking.Window.{window_end_bounds, next_start_gt}

-- A piece that may be stored: not empty, and no longer than the limit.
abbrev pub IsPiece : Chunker → Text → Type 0
IsPiece k p = (0 < length p) × (length p ≤ k.max_chars)

abbrev pub AllPieces : Chunker → List Text → Type 0
AllPieces k [] = Unit {0}
AllPieces k (p ∷ ps) = IsPiece k p × AllPieces k ps

AllPieces-append :
    (k : Chunker) (ps qs : List Text) → AllPieces k ps → AllPieces k qs → AllPieces k (ps ++ qs)
AllPieces-append k [] qs hp hq = hq
AllPieces-append k (p ∷ ps) qs hp hq = (hp.0, AllPieces-append k ps qs hp.1 hq)

-- What a round gives: good pieces, and a next start further on.
abbrev RoundOk : Chunker → Text → ℕ → Iteration → Type 0
RoundOk k text start (stop ps) = AllPieces k ps
RoundOk k text start (go_on ps next) = AllPieces k ps × (start < next) × (start < length text)

advance-RoundOk :
    (k : Chunker) (text : Text) (start end : ℕ) (ps : List Text)
    → 0 < k.max_chars
    → start < length text
    → start < end
    → AllPieces k ps
    → RoundOk k text start (advance k text start end ps)
unfolding advance
advance-RoundOk k text start end ps m h e hp =
    let g = next_start_gt k text start end e in
    elim (Bool-cases (leb (length text) end)) [
      | inl p ↦ rw p hp
      | inr p ↦ rw p (elim (Bool-cases (leb (length text) (next_start k text start end))) [
        | inl q ↦ rw q hp
        | inr q ↦ rw q (elim (Bool-cases (leb (next_start k text start end) start)) [
          | inl r ↦ rw r (hp, omega arith, h)
          | inr r ↦ rw r (hp, g, h)
        ])
      ])
    ]

length-window :
    (k : Chunker) (text : Text) (start : ℕ)
    → 0 < k.max_chars
    → start < length text
    → length (strip (slice start (window_end k text start) text)) ≤ k.max_chars
length-window k text start m h =
    let w = slice start (window_end k text start) text in
    omega (
      arith,
      length-strip w,
      length-take (window_end k text start - start) (drop start text),
      window_end_bounds k text start m h,
    )

pos_of_not_empty : (s : Text) → is_empty s ≡ false → 0 < length s
pos_of_not_empty [] h = cc
pos_of_not_empty (c ∷ s) h = omega arith

iteration-RoundOk :
    (k : Chunker) (text : Text) (start : ℕ)
    → 0 < k.max_chars
    → RoundOk k text start (iteration k text start)
unfolding iteration
iteration-RoundOk k text start m =
    let end = window_end k text start in
    let piece = strip (slice start end text) in
    elim (Bool-cases (leb (length text) start)) [
      | inl p ↦ rw p tt
      | inr p ↦
          let h : start < length text = ground arith in
          let e = window_end_bounds k text start m h in
          rw p (elim (Bool-cases (is_empty piece)) [
            | inl q ↦ rw q (elim (Bool-cases (ltb end (length text))) [
              | inl r ↦ rw r (tt, omega arith, h)
              | inr r ↦ rw r (advance-RoundOk k text start end [] m h e.0 tt)
            ])
            | inr q ↦ rw q (
                advance-RoundOk k text start end (piece ∷ []) m h e.0
                  ((pos_of_not_empty piece q, length-window k text start m h), tt))
          ])
    ]

-- With more fuel than characters left the loop returns, and all that it returns are good pieces.
pub chunk_loop_total :
    (fuel : ℕ) (k : Chunker) (text : Text) (start : ℕ)
    → 0 < k.max_chars
    → length text - start < fuel
    → (cs : List Text) × (chunk_loop fuel k text start ≡ some cs) × AllPieces k cs
unfolding chunk_loop
chunk_loop_total zero k text start m h = absurd (omega arith)
chunk_loop_total (suc fuel) k text start m h =
    go (iteration k text start) refl (iteration-RoundOk k text start m)
      (λ next lt. chunk_loop_total fuel k text next m lt)
  where
    go :
        (r : Iteration)
        → iteration k text start ≡ r
        → RoundOk k text start r
        → ((next : ℕ)
            → length text - next < fuel
            → (cs : List Text) × (chunk_loop fuel k text next ≡ some cs) × AllPieces k cs)
        → (cs : List Text) × (chunk_loop (suc fuel) k text start ≡ some cs) × AllPieces k cs
    go (stop ps) e ok rec = (ps, rw (e, chunk_loop) refl, ok)
    go (go_on ps next) e ok rec =
        let (cs, eq, all) = rec next (omega arith) in
        (ps ++ cs, rw (e, chunk_loop) (rw eq refl), AllPieces-append k ps cs ok.0 all)

pub new_chunker_bounds :
    (m o : ℕ)
    → (0 < (new_chunker m o).max_chars)
      × ((new_chunker m o).overlap_chars < (new_chunker m o).max_chars)
unfolding new_chunker
new_chunker_bounds m o = ground arith

-- Whatever the limit, the overlap and the text, `chunk_text` returns, and each chunk is not empty and
-- has at most `max_chars` characters.
pub chunk_text_total :
    (m o : ℕ) (raw : Text)
    → (cs : List Text) × (chunk_text (new_chunker m o) raw ≡ some cs)
      × AllPieces (new_chunker m o) cs
unfolding chunk_text
chunk_text_total m o raw =
    let k = new_chunker m o in
    let text = strip raw in
    elim (Bool-cases (is_empty text)) [
      | inl e ↦ rw e ([], refl, tt)
      | inr e ↦ rw e (elim (Bool-cases (leb (length text) k.max_chars)) [
        | inl f ↦ rw f (text ∷ [], refl, ((pos_of_not_empty text e, ground arith), tt))
        | inr f ↦
            rw f (
              chunk_loop_total (suc (length text)) k text 0 (new_chunker_bounds m o).0
                (omega arith))
      ])
    ]
