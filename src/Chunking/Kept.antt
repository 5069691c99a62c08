-- ===== src/Chunking/Kept.antt =====
-- The loop of `chunk_text` loses nothing from the position where it begins.
use mathlib.Core.Path.{subst}
use pr_killer.Prelude.{
  ℕ, zero, suc, ◌+◌, ◌-◌, ◌≤◌, ◌<◌, ◌≡◌, refl, ap, ◌∙◌, true, false, none, some, List, [], ◌∷◌,
  arith, length, Bool-cases, inl, inr, leb, ◌⊎◌, drop, take, length-take, length-drop, Option-cases,
  get_elem?,
}
use native.Mathlib.Decide.{dec_lt}
use pr_killer.Text.{Text, strip, slice, is_empty, is_space}
use pr_killer.Text.Slices.{
  drop-drop, take-drop-take, get_elem?-drop, get_elem?-take, get_elem?-lt, get_elem?-some,
}
use pr_killer.Text.Strip.{lead, strip-eq-take, strip_keeps}
use pr_killer.Chunking.{
  Chunker, is_blank, window_end, next_start, stop, go_on, advance, iteration, chunk_loop,
}
use pr_killer.Chunking.Window.{
  window_end_bounds, next_start_gt, next_start_stops, next_start_passes,
}

-- Position `i` of `text` stands in one of the chunks, each such chunk being the part of `text` at
-- some offset.
pub data Covers (text : Text) (i : ℕ) : List Text → Type 0 where
  here :
      {p : Text} {ps : List Text} (s : ℕ)
      → s ≤ i
      → i < s + length p
      → take (length p) (drop s text) ≡ p
      → Covers text i (p ∷ ps)
  there : {p : Text} {ps : List Text} → Covers text i ps → Covers text i (p ∷ ps)

-- Every space of the text is one of the four blanks that the loop skips.
abbrev pub IsPlain : Text → Type 0
IsPlain text = (i c : ℕ) → get_elem? text i ≡ some c → is_space c ≡ true → is_blank c ≡ true

blank_space : (c : ℕ) → is_blank c ≡ true → is_space c ≡ true
unfolding is_blank is_space
blank_space c h = ground arith

not_space :
    (text : Text)
    → IsPlain text
    → (i c : ℕ) → get_elem? text i ≡ some c
    → is_blank c ≡ false
    → is_space c ≡ false
not_space text plain i c g h = elim (Bool-cases (is_space c)) [
  | inl e ↦ cc (plain i c g e)
  | inr e ↦ e
]

blank_apart : (c : ℕ) → is_blank c ≡ true → is_space c ≡ false → ⊥
blank_apart c b n = cc (blank_space c b)

-- The stripped part of a slice, as a part of the whole text.
strip_in_slice :
    (text : Text) (start m : ℕ)
    → let w = take m (drop start text) in
      0 < length (strip w) → take (length (strip w)) (drop (start + lead w) text) ≡ strip w
strip_in_slice text start m h =
    let w = take m (drop start text) in
    let len = ap (λ (t : Text). length t) (strip-eq-take w) in
    let fits : lead w + length (strip w) ≤ m = omega (
      arith,
      len,
      length-take (length (strip w)) (drop (lead w) w),
      length-drop (lead w) w,
      length-take m (drop start text),
    ) in
    rw
      (
        ← drop-drop (lead w) start text,
        ← take-drop-take (length (strip w)) (lead w) m (drop start text) fits,
      )
      (strip-eq-take w)

slice_at :
    (text : Text) (start end i c : ℕ)
    → start ≤ i
    → i < end
    → get_elem? text i ≡ some c
    → get_elem? (slice start end text) (i - start) ≡ some c
slice_at text start end i c low high g =
    let at : start + (i - start) ≡ i = omega arith in
    rw
      (
        get_elem?-take (end - start) (i - start) (drop start text) (omega arith),
        get_elem?-drop start (i - start) text,
        at,
      )
      g

window-Covers :
    (text : Text) (start end i c : ℕ) (ps : List Text)
    → start ≤ i
    → i < end
    → get_elem? text i ≡ some c
    → is_space c ≡ false
    → Covers text i (strip (slice start end text) ∷ ps)
window-Covers text start end i c ps low high g n =
    let w = slice start end text in
    let k = strip_keeps w (i - start) c (slice_at text start end i c low high g) n in
    here (start + lead w) (omega arith) (omega arith)
      (strip_in_slice text start (end - start) (omega arith))

-- The loop starts a window only at a character that is no space.
abbrev pub IsStart : Text → ℕ → Type 0
IsStart text start = (c : ℕ) → get_elem? text start ≡ some c → is_space c ≡ false

module _ (k : Chunker) (text : Text) (plain : IsPlain text) (m : 0 < k.max_chars) where
  not_empty_of_pos : (s : Text) → 0 < length s → is_empty s ≡ false
  not_empty_of_pos [] h = absurd (omega arith)
  not_empty_of_pos (c ∷ s) h = refl

  -- So no window is blank, and each round appends its piece.
  iteration-eq-advance :
      (start : ℕ)
      → start < length text
      → IsStart text start
      → iteration k text start
        ≡ advance k text start
            (window_end k text start)
            (strip (slice start (window_end k text start) text) ∷ [])
  unfolding iteration
  iteration-eq-advance start h st =
      let end = window_end k text start in
      let (c, g) = get_elem?-some text start h in
      let b = window_end_bounds k text start m h in
      let w = slice start end text in
      let kept =
        strip_keeps w (start - start) c (slice_at text start end start c (omega arith) b.0 g)
          (st c g) in
      let n : leb (length text) start ≡ false = ground arith in
      let full : is_empty (strip w) ≡ false = not_empty_of_pos (strip w) (omega arith) in
      rw n (rw full refl)

  -- The characters between a window and the next one are blanks.
  gap_is_blank :
      (start end i c : ℕ)
      → start < end
      → end ≤ i
      → i < next_start k text start end
      → get_elem? text i ≡ some c
      → is_space c ≡ false
      → ⊥
  gap_is_blank start end i c h low high g n =
      blank_apart c (next_start_passes k text start end h i c low high g) n

  next_start-IsStart : (start end : ℕ) → start < end → IsStart text (next_start k text start end)
  next_start-IsStart start end h c g =
      not_space text plain (next_start k text start end) c g
        (next_start_stops k text start end h c g)

  -- The `min(n, start + max_c)` at the end of a round is never reached.
  advance-cases :
      (start end : ℕ) (ps : List Text)
      → start < end
      → ((advance k text start end ps ≡ stop ps)
          × ((length text ≤ end) ⊎ (length text ≤ next_start k text start end)))
        ⊎ (advance k text start end ps ≡ go_on ps (next_start k text start end))
  unfolding advance
  advance-cases start end ps h = ground (arith, next_start_gt k text start end h)

  pub loop-Covers :
      (fuel start : ℕ) (cs : List Text)
      → IsStart text start
      → chunk_loop fuel k text start ≡ some cs
      → (i c : ℕ) → start ≤ i
      → get_elem? text i ≡ some c
      → is_space c ≡ false
      → Covers text i cs
  unfolding chunk_loop
  loop-Covers zero start cs st e i c low g n = absurd (cc)
  loop-Covers (suc fuel) start cs st e i c low g n =
      go (advance-cases start end (piece ∷ []) b.0)
        (λ rest r lo. loop-Covers fuel next rest (next_start-IsStart start end b.0) r i c lo g n)
    where
      inside : i < length text
      inside = get_elem?-lt text i g

      end : ℕ
      end = window_end k text start

      next : ℕ
      next = next_start k text start end

      b : (start < end) × (end ≤ length text) × (end ≤ start + k.max_chars)
      b = window_end_bounds k text start m (omega (arith, inside))

      piece : Text
      piece = strip (slice start end text)

      first : (ps : List Text) → i < end → Covers text i (piece ∷ ps)
      first ps lt = window-Covers text start end i c ps low lt g n

      round : iteration k text start ≡ advance k text start end (piece ∷ [])
      round = iteration-eq-advance start (omega (arith, inside)) st

      gap : end ≤ i → i < next → ⊥
      gap lo hi = gap_is_blank start end i c b.0 lo hi g n

      go :
          ((advance k text start end (piece ∷ []) ≡ stop (piece ∷ []))
              × ((length text ≤ end) ⊎ (length text ≤ next)))
            ⊎ (advance k text start end (piece ∷ []) ≡ go_on (piece ∷ []) next)
          → ((rest : List Text)
              → chunk_loop fuel k text next ≡ some rest
              → next ≤ i
              → Covers text i rest)
          → Covers text i cs
      go (inl (eq, done)) rec =
          let whole : some (piece ∷ []) ≡ some cs = rw (round ∙ eq, chunk_loop) at e in
          let within : i < end = elim (dec_lt i end) [
            | yes lt ↦ lt
            | no ge ↦ absurd (gap (omega arith) (omega (arith, inside, done)))
          ] in
          subst (λ l. Covers text i l) (cc) (first [] within)
      go (inr eq) rec = elim (Option-cases (chunk_loop fuel k text next)) [
        | inl out ↦ let lost : none ≡ some cs = rw (round ∙ eq, out, chunk_loop) at e in absurd (cc)
        | inr (rest, r) ↦
            let whole : some (piece ∷ rest) ≡ some cs = rw (round ∙ eq, r, chunk_loop) at e in
            subst (λ l. Covers text i l) (cc)
              (elim (dec_lt i end) [
                | yes lt ↦ first rest lt
                | no ge ↦ elim (dec_lt i next) [
                  | yes lt ↦ absurd (gap (omega arith) lt)
                  | no ge' ↦ there (rec rest r (omega arith))
                ]
              ])
      ]
