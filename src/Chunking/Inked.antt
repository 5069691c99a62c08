-- ===== src/Chunking/Inked.antt =====
-- No chunk is blank, and a text that is not blank has a chunk.
use mathlib.Core.Path.{subst}
use pr_killer.Prelude.{
  ℕ, zero, suc, ◌-◌, ◌<◌, ◌≡◌, refl, ◌∙◌, false, none, some, List, [], ◌∷◌, ◌++◌, arith, length,
  Bool-cases, inl, inr, leb, ltb, get_elem?, if_both, Option-cases, length-append,
}
use pr_killer.Text.{Text, strip, slice, is_empty, is_space}
use pr_killer.Text.Ink.{HasInk, ink_of, strip-HasInk}
use pr_killer.Text.Slices.{get_elem?-take, get_elem?-some}
use pr_killer.Text.Strip.{strip-head}
use pr_killer.Queue.Pick.Sound.{All, All-append}
use pr_killer.Chunking.{
  Chunker, window_end, next_start, Iteration, stop, go_on, advance, iteration, chunk_loop,
  chunk_text, new_chunker,
}
use pr_killer.Chunking.Window.{window_end_bounds}
use pr_killer.Chunking.Loop.{new_chunker_bounds}

-- A predicate of the pieces of a round.
abbrev Gives : (List Text → Type 0) → Iteration → Type 0
Gives P (stop ps) = P ps
Gives P (go_on ps next) = P ps

module _ (P : List Text → Type 0) (k : Chunker) (text : Text) where
  advance-Gives : (start end : ℕ) (ps : List Text) → P ps → Gives P (advance k text start end ps)
  unfolding advance
  advance-Gives start end ps h = if_both (Gives P) (leb (length text) end) (stop ps) _ h (
      if_both (Gives P) (leb (length text) (next_start k text start end)) (stop ps) _ h
        (if_both (Gives P) (leb (next_start k text start end) start) (go_on ps _) (go_on ps _) h h))

iteration-Inked :
    (k : Chunker) (text : Text) (start : ℕ) → Gives (All HasInk) (iteration k text start)
unfolding iteration
iteration-Inked k text start =
    let end = window_end k text start in
    let w = slice start end text in
    let Q = Gives (All HasInk) in
    if_both Q (leb (length text) start) (stop []) _ tt (elim (Bool-cases (is_empty (strip w))) [
      | inl e ↦ rw e (
          if_both Q (ltb end (length text)) (go_on [] _) _ tt
            (advance-Gives (All HasInk) k text start end [] tt))
      | inr e ↦
          rw e (advance-Gives (All HasInk) k text start end (strip w ∷ []) (strip-HasInk w e, tt))
    ])

loop-Inked :
    (fuel : ℕ) (k : Chunker) (text : Text) (start : ℕ) (cs : List Text)
    → chunk_loop fuel k text start ≡ some cs
    → All HasInk cs
unfolding chunk_loop
loop-Inked zero k text start cs h = absurd (cc)
loop-Inked (suc fuel) k text start cs h =
    go (iteration k text start) refl (iteration-Inked k text start)
      (λ next rest. loop-Inked fuel k text next rest)
  where
    go :
        (r : Iteration)
        → iteration k text start ≡ r
        → Gives (All HasInk) r
        → ((next : ℕ) (rest : List Text)
            → chunk_loop fuel k text next ≡ some rest
            → All HasInk rest)
        → All HasInk cs
    go (stop ps) e g rec =
        let whole : some ps ≡ some cs = rw (e, chunk_loop) at h in subst (All HasInk) (cc) g
    go (go_on ps next) e g rec = elim (Option-cases (chunk_loop fuel k text next)) [
      | inl out ↦ let lost : none ≡ some cs = rw (e, out, chunk_loop) at h in absurd (cc)
      | inr (rest, r) ↦
          let whole : some (ps ++ rest) ≡ some cs = rw (e, r, chunk_loop) at h in
          subst (All HasInk) (cc) (All-append HasInk ps rest g (rec next rest r))
    ]

-- Every chunk has a character that is no space.
pub chunk_text-Inked :
    (k : Chunker) (raw : Text) (cs : List Text) → chunk_text k raw ≡ some cs → All HasInk cs
unfolding chunk_text
chunk_text-Inked k raw cs h = elim (Bool-cases (is_empty (strip raw))) [
  | inl e ↦
      let whole : some [] ≡ some cs = rw e at h in
      let same : [] ≡ cs = cc in subst (All HasInk) same tt
  | inr e ↦ elim (Bool-cases (leb (length (strip raw)) k.max_chars)) [
    | inl f ↦
        let whole : some (strip raw ∷ []) ≡ some cs = rw (e, f) at h in
        let same : strip raw ∷ [] ≡ cs = cc in subst (All HasInk) same (strip-HasInk raw e, tt)
    | inr f ↦ loop-Inked (suc (length (strip raw))) k (strip raw) 0 cs (rw (e, f) at h)
  ]
]

abbrev pub IsSome : List Text → Type 0
IsSome ps = 0 < length ps

-- The first window of a stripped text begins with a character that is no space.
first-IsSome :
    (k : Chunker) (text : Text)
    → 0 < k.max_chars
    → ((c : ℕ) → get_elem? text 0 ≡ some c → is_space c ≡ false)
    → 0 < length text
    → Gives IsSome (iteration k text 0)
unfolding iteration
first-IsSome k text m st h =
    let end = window_end k text 0 in
    let w = slice 0 end text in
    let (c, g) = get_elem?-some text 0 h in
    let b = window_end_bounds k text 0 m h in
    let at : get_elem? w 0 ≡ some c = get_elem?-take (end - 0) 0 text (omega (arith, b)) ∙ g in
    let ink : is_empty (strip w) ≡ false = ink_of w 0 c at (st c g) in
    let n : leb (length text) 0 ≡ false = ground arith in
    rw n (rw ink (advance-Gives IsSome k text 0 end (strip w ∷ []) (omega arith)))

loop-IsSome :
    (fuel : ℕ) (k : Chunker) (text : Text) (start : ℕ) (cs : List Text)
    → Gives IsSome (iteration k text start)
    → chunk_loop fuel k text start ≡ some cs
    → IsSome cs
unfolding chunk_loop
loop-IsSome zero k text start cs g h = absurd (cc)
loop-IsSome (suc fuel) k text start cs g h = go (iteration k text start) refl g
  where
    go : (r : Iteration) → iteration k text start ≡ r → Gives IsSome r → IsSome cs
    go (stop ps) e i =
        let whole : some ps ≡ some cs = rw (e, chunk_loop) at h in subst IsSome (cc) i
    go (go_on ps next) e i = elim (Option-cases (chunk_loop fuel k text next)) [
      | inl out ↦ let lost : none ≡ some cs = rw (e, out, chunk_loop) at h in absurd (cc)
      | inr (rest, r) ↦
          let whole : some (ps ++ rest) ≡ some cs = rw (e, r, chunk_loop) at h in
          let same : ps ++ rest ≡ cs = cc in
          subst IsSome same (omega (arith, i, length-append {0} ps rest))
    ]

-- A text that is not blank has at least one chunk.
pub chunk_text-IsSome :
    (m o : ℕ) (raw : Text) (cs : List Text)
    → is_empty (strip raw) ≡ false
    → chunk_text (new_chunker m o) raw ≡ some cs
    → IsSome cs
unfolding chunk_text
chunk_text-IsSome m o raw cs full h =
    let k = new_chunker m o in
    let text = strip raw in
    elim (Bool-cases (leb (length text) k.max_chars)) [
      | inl f ↦
          let whole : some (text ∷ []) ≡ some cs = rw (full, f) at h in
          let same : text ∷ [] ≡ cs = cc in subst IsSome same (omega arith)
      | inr f ↦
          loop-IsSome (suc (length text)) k text 0 cs
            (first-IsSome k text (new_chunker_bounds m o).0 (strip-head raw) (ground arith))
            (rw (full, f) at h)
    ]
