-- ===== src/Chunking/Covered.antt =====
-- No text is lost: each character that is no space stands in a chunk.
use mathlib.Core.Path.{subst}
use pr_killer.Prelude.{
  ℕ, suc, ◌+◌, ◌-◌, ◌≤◌, ◌<◌, ◌≡◌, ap, false, some, List, [], ◌∷◌, arith, length, if◌then◌else◌,
  Bool-cases, inl, inr, leb, drop, take, length-take, length-drop, take_all, get_elem?,
}
use pr_killer.Text.{Text, strip, is_empty, is_space}
use pr_killer.Text.Slices.{drop-drop, take-drop-take, get_elem?-drop, get_elem?-take, get_elem?-lt}
use pr_killer.Text.Strip.{lead, strip-eq-take, strip_keeps, strip-head}
use pr_killer.Text.Ink.{get_elem?-strip}
use pr_killer.Chunking.{Chunker, chunk_loop, chunk_text, new_chunker}
use pr_killer.Chunking.Loop.{new_chunker_bounds}
use pr_killer.Chunking.Kept.{Covers, here, there, IsPlain, IsStart, loop-Covers}

strip-IsPlain : (raw : Text) → IsPlain raw → IsPlain (strip raw)
strip-IsPlain raw plain i c g h = plain (lead raw + i) c (get_elem?-strip raw i c g) h

-- Offsets in the stripped text are offsets in the whole, moved by the leading spaces.
Covers-strip :
    (raw : Text) (i : ℕ) {cs : List Text} → Covers (strip raw) i cs → Covers raw (lead raw + i) cs
Covers-strip raw i (here {p = p} s low high part) =
    let part' : take (length (strip raw)) (drop (lead raw) raw) ≡ strip raw = strip-eq-take raw in
    let len = ap (λ (t : Text). length t) part in
    let fits : s + length p ≤ length (strip raw) =
      omega (arith, len, length-take (length p) (drop s (strip raw)), length-drop s (strip raw)) in
    let inner : take (length p) (drop s (take (length (strip raw)) (drop (lead raw) raw))) ≡ p =
      rw part' part in
    here (lead raw + s) (omega arith) (omega arith) (
      rw (← drop-drop s (lead raw) raw)
        (rw (← take-drop-take (length p) s (length (strip raw)) (drop (lead raw) raw) fits) inner))
Covers-strip raw i (there h) = there (Covers-strip raw i h)

strip_at :
    (raw : Text) (i c : ℕ)
    → get_elem? raw i ≡ some c
    → is_space c ≡ false
    → (lead raw ≤ i) × (get_elem? (strip raw) (i - lead raw) ≡ some c)
strip_at raw i c g n =
    let k = strip_keeps raw i c g n in
    let part : take (length (strip raw)) (drop (lead raw) raw) ≡ strip raw = strip-eq-take raw in
    let at : lead raw + (i - lead raw) ≡ i = omega arith in
    (
      k.0,
      rw (← part) (
          rw
            (get_elem?-take (length (strip raw)) (i - lead raw) (drop (lead raw) raw) (omega arith))
            (rw (get_elem?-drop (lead raw) (i - lead raw) raw, at) g)),
    )

Covers-stripped :
    (k : Chunker) (text : Text) (cs : List Text)
    → IsPlain text
    → 0 < k.max_chars
    → IsStart text 0
    → (if is_empty text
        then some []
        else if leb (length text) k.max_chars
        then some (text ∷ [])
        else chunk_loop (suc (length text)) k text 0)
      ≡ some cs
    → (i c : ℕ) → get_elem? text i ≡ some c
    → is_space c ≡ false
    → Covers text i cs
Covers-stripped k [] cs plain m st e i c g n = absurd (cc)
Covers-stripped k (d ∷ t) cs plain m st e i c g n =
    let text : Text = d ∷ t in
    elim (Bool-cases (leb (length text) k.max_chars)) [
      | inl short ↦
          let e' : some (text ∷ []) ≡ some cs = rw short at e in
          subst (λ l. Covers text i l) (cc)
            (here {p = text} {ps = []} 0 (omega arith) (omega (arith, get_elem?-lt text i g))
              (take_all (length text) text (omega arith)))
      | inr long ↦
          let e' : chunk_loop (suc (length text)) k text 0 ≡ some cs = rw long at e in
          loop-Covers k text plain m (suc (length text)) 0 cs st e' i c (omega arith) g n
    ]

-- If the text's only spaces are blanks, tabs, line feeds and carriage returns, then each character
-- that is no space stands in a chunk, and that chunk is a contiguous part of the text around it.
pub chunk_text-Covers :
    (m o : ℕ) (raw : Text) (cs : List Text)
    → IsPlain raw
    → chunk_text (new_chunker m o) raw ≡ some cs
    → (i c : ℕ) → get_elem? raw i ≡ some c
    → is_space c ≡ false
    → Covers raw i cs
unfolding chunk_text
chunk_text-Covers m o raw cs plain e i c g n =
    let (low, at) = strip_at raw i c g n in
    let back : lead raw + (i - lead raw) ≡ i = omega arith in
    subst (λ j. Covers raw j cs) back
      (Covers-strip raw (i - lead raw) (
        Covers-stripped (new_chunker m o) (strip raw) cs (strip-IsPlain raw plain)
          (new_chunker_bounds m o).0 (strip-head raw) e (i - lead raw) c at n))
