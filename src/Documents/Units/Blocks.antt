-- ===== src/Documents/Units/Blocks.antt =====
-- The heuristic split loses no paragraph.
use mathlib.Core.List.{append_assoc, append-nil}
use pr_killer.Prelude.{
  ◌+◌, ◌≡◌, refl, sym, ap, ◌∙◌, Bool, true, false, not, ◌&&◌, List, [], ◌∷◌, ◌++◌, ltb, leb, length,
  if◌then◌else◌, if_both, Bool-cases, inl, inr,
}
use pr_killer.Text.{Text, strip, is_empty}
use pr_killer.Text.Ink.{HasInk, ink-append, strip-HasInk}
use pr_killer.AudioMerge.{join_parts}
use pr_killer.Queue.Pick.Sound.{All, All-append}
use pr_killer.Documents.Units.{
  strip_parts, paragraphs, split_runs, Buffer, is_nil, add_paragraph, extend_last, finish_blocks,
  add_paragraphs, keep_not_blank, no_buffer, blocks_of, split_heuristic_blocks,
}

-- Joining some of the parts first makes no difference.
join-cons :
    (t : Text) (ts : List Text)
    → is_nil ts ≡ false
    → join_parts (t ∷ ts) ≡ t ++ 10 ∷ 10 ∷ join_parts ts
join-cons t [] h = absurd (cc)
join-cons t (u ∷ ts) h = refl

is_nil-append : (xs : List Text) (t : Text) (ys : List Text) → is_nil (xs ++ t ∷ ys) ≡ false
is_nil-append [] t ys = refl
is_nil-append (x ∷ xs) t ys = refl

join-head :
    (p : Text) (ps ys : List Text)
    → join_parts (join_parts (p ∷ ps) ∷ ys) ≡ join_parts (p ∷ (ps ++ ys))
join-head p [] ys = refl
join-head p (q ∷ ps) [] =
    ap (λ (l : List Text). join_parts l) (ap (λ (l : List Text). p ∷ q ∷ l) (sym (append-nil ps)))
join-head p (q ∷ ps) (y ∷ ys) =
    append_assoc p (10 ∷ 10 ∷ join_parts (q ∷ ps)) (10 ∷ 10 ∷ join_parts (y ∷ ys))
    ∙ ap (λ (l : Text). p ++ 10 ∷ 10 ∷ l) (join-head q ps (y ∷ ys))

join-flat :
    (xs : List Text) (p : Text) (ps ys : List Text)
    → join_parts (xs ++ join_parts (p ∷ ps) ∷ ys) ≡ join_parts (xs ++ (p ∷ (ps ++ ys)))
join-flat [] p ps ys = join-head p ps ys
join-flat (x ∷ xs) p ps ys =
    join-cons x (xs ++ join_parts (p ∷ ps) ∷ ys) (is_nil-append xs (join_parts (p ∷ ps)) ys)
    ∙ ap (λ (l : Text). x ++ 10 ∷ 10 ∷ l) (join-flat xs p ps ys)
    ∙ sym (join-cons x (xs ++ (p ∷ (ps ++ ys))) (is_nil-append xs p (ps ++ ys)))

join-extend :
    (b : Text) (bs : List Text) (t : Text)
    → join_parts (extend_last (b ∷ bs) t) ≡ join_parts (b ∷ (bs ++ t ∷ []))
unfolding extend_last
join-extend b [] t = refl
join-extend b (c ∷ []) t = refl
join-extend b (c ∷ d ∷ bs) t = ap (λ (l : Text). b ++ 10 ∷ 10 ∷ l) (join-extend c (d ∷ bs) t)

-- What the loop holds, in order.
abbrev held : Buffer → List Text → Text
held b ps = join_parts (b.blocks ++ (b.buf ++ ps))

flush :
    (xs buf ys : List Text)
    → is_nil buf ≡ false
    → join_parts ((xs ++ join_parts buf ∷ []) ++ ys) ≡ join_parts (xs ++ (buf ++ ys))
flush xs [] ys h = absurd (cc)
flush xs (p ∷ ps) ys h =
    ap (λ (l : List Text). join_parts l) (append_assoc xs (join_parts (p ∷ ps) ∷ []) ys)
    ∙ join-flat xs p ps ys

no_flush : (b n : Bool) → n ≡ true → (b && not n) ≡ false
no_flush true n h = ap not h
no_flush false n h = refl

add-held : (p : Text) (b : Buffer) (ps : List Text) → held (add_paragraph p b) ps ≡ held b (p ∷ ps)
unfolding add_paragraph
add-held p b ps =
    let Q = λ (x : Buffer). held x ps ≡ held b (p ∷ ps) in
    let ln = length p in
    let buf' = b.buf ++ p ∷ [] in
    let len' = b.buf_len + ln + 2 in
    let grown : buf' ++ ps ≡ b.buf ++ p ∷ ps = append_assoc b.buf (p ∷ []) ps in
    let later : Q (
        if leb 900 len' && leb 2 (length buf')
        then record { blocks = b.blocks ++ join_parts buf' ∷ []; buf = []; buf_len = 0 }
        else record { blocks = b.blocks; buf = buf'; buf_len = len' }) =
      if_both Q (leb 900 len' && leb 2 (length buf'))
        (record { blocks = b.blocks ++ join_parts buf' ∷ []; buf = []; buf_len = 0 })
        (record { blocks = b.blocks; buf = buf'; buf_len = len' })
        (flush b.blocks buf' ps (is_nil-append b.buf p [])
          ∙ ap (λ (l : List Text). join_parts (b.blocks ++ l)) grown)
        (ap (λ (l : List Text). join_parts (b.blocks ++ l)) grown) in
    elim (Bool-cases (is_nil b.buf)) [
      | inl e ↦ rw (no_flush (ltb 14000 (b.buf_len + ln)) (is_nil b.buf) e) later
      | inr e ↦
          if_both Q (ltb 14000 (b.buf_len + ln) && not (is_nil b.buf)) _ _
            (flush b.blocks b.buf (p ∷ ps) e) later
    ]

adds-held : (ps : List Text) (b : Buffer) → held (add_paragraphs ps b) [] ≡ held b ps
unfolding add_paragraphs
adds-held [] b = refl
adds-held (p ∷ ps) b = adds-held ps (add_paragraph p b) ∙ add-held p b ps

finish-held : (b : Buffer) → join_parts (finish_blocks b) ≡ held b []
unfolding finish_blocks
finish-held b = go b.blocks b.buf
  where
    extended :
        (xs : List Text) (t : Text)
        → join_parts
            (if not (is_nil xs) && ltb (length t) 450 then extend_last xs t else xs ++ t ∷ [])
          ≡ join_parts (xs ++ t ∷ [])
    extended [] t = refl
    extended (x ∷ xs) t =
        if_both (λ l. join_parts l ≡ join_parts (x ∷ (xs ++ t ∷ []))) (ltb (length t) 450)
          (extend_last (x ∷ xs) t) (x ∷ (xs ++ t ∷ [])) (join-extend x xs t) refl

    go :
        (xs buf : List Text)
        → join_parts (
            if is_nil buf
            then xs
            else if not (is_nil xs) && ltb (length (join_parts buf)) 450
            then extend_last xs (join_parts buf)
            else xs ++ join_parts buf ∷ [])
          ≡ join_parts (xs ++ (buf ++ []))
    go xs [] = ap (λ (l : List Text). join_parts l) (sym (append-nil xs))
    go xs (p ∷ ps) = extended xs (join_parts (p ∷ ps)) ∙ join-flat xs p ps []

join-HasInk : (p : Text) (ps : List Text) → HasInk p → HasInk (join_parts (p ∷ ps))
join-HasInk p [] h = h
join-HasInk p (q ∷ ps) h = ink-append p (10 ∷ 10 ∷ join_parts (q ∷ ps)) h

joined : (ps : List Text) → is_nil ps ≡ false → All HasInk ps → HasInk (join_parts ps)
joined [] n h = absurd (cc)
joined (p ∷ ps) n h = join-HasInk p ps h.0

-- No block and no paragraph in the buffer is blank.
abbrev Inked : Buffer → Type 0
Inked b = All HasInk b.blocks × All HasInk b.buf

add-Inked : (p : Text) (b : Buffer) → HasInk p → Inked b → Inked (add_paragraph p b)
unfolding add_paragraph
add-Inked p b h k =
    let ln = length p in
    let buf' = b.buf ++ p ∷ [] in
    let len' = b.buf_len + ln + 2 in
    let grown : All HasInk buf' = All-append HasInk b.buf (p ∷ []) k.1 (h, tt) in
    let later : Inked (
        if leb 900 len' && leb 2 (length buf')
        then record { blocks = b.blocks ++ join_parts buf' ∷ []; buf = []; buf_len = 0 }
        else record { blocks = b.blocks; buf = buf'; buf_len = len' }) =
      if_both Inked (leb 900 len' && leb 2 (length buf'))
        (record { blocks = b.blocks ++ join_parts buf' ∷ []; buf = []; buf_len = 0 })
        (record { blocks = b.blocks; buf = buf'; buf_len = len' })
        (
          All-append HasInk b.blocks (join_parts buf' ∷ []) k.0
              (joined buf' (is_nil-append b.buf p []) grown, tt),
          tt,
        )
        (k.0, grown) in
    elim (Bool-cases (is_nil b.buf)) [
      | inl e ↦ rw (no_flush (ltb 14000 (b.buf_len + ln)) (is_nil b.buf) e) later
      | inr e ↦
          if_both Inked (ltb 14000 (b.buf_len + ln) && not (is_nil b.buf))
            (record { blocks = b.blocks ++ join_parts b.buf ∷ []; buf = p ∷ []; buf_len = ln }) _
            (
              All-append HasInk b.blocks (join_parts b.buf ∷ []) k.0 (joined b.buf e k.1, tt),
              (h, tt),
            )
            later
    ]

adds-Inked : (ps : List Text) (b : Buffer) → All HasInk ps → Inked b → Inked (add_paragraphs ps b)
unfolding add_paragraphs
adds-Inked [] b h k = k
adds-Inked (p ∷ ps) b h k = adds-Inked ps (add_paragraph p b) h.1 (add-Inked p b h.0 k)

extend-HasInk :
    (bs : List Text) (t : Text) → HasInk t → All HasInk bs → All HasInk (extend_last bs t)
unfolding extend_last
extend-HasInk [] t n h = (n, tt)
extend-HasInk (b ∷ []) t n h = (ink-append b (10 ∷ 10 ∷ t) h.0, tt)
extend-HasInk (b ∷ c ∷ bs) t n h = (h.0, extend-HasInk (c ∷ bs) t n h.1)

finish-HasInk : (b : Buffer) → Inked b → All HasInk (finish_blocks b)
unfolding finish_blocks
finish-HasInk b k = elim (Bool-cases (is_nil b.buf)) [
  | inl e ↦ rw e k.0
  | inr e ↦
      let tail = join_parts b.buf in
      rw e (
        if_both (All HasInk) (not (is_nil b.blocks) && ltb (length tail) 450)
          (extend_last b.blocks tail) (b.blocks ++ tail ∷ [])
          (extend-HasInk b.blocks tail (joined b.buf e k.1) k.0)
          (All-append HasInk b.blocks (tail ∷ []) k.0 (joined b.buf e k.1, tt)))
]

keep-All : (bs : List Text) → All HasInk bs → keep_not_blank bs ≡ bs
keep-All [] h = refl
keep-All (b ∷ bs) h = rw (h.0, keep-All bs h.1) refl

strip_parts-HasInk : (ts : List Text) → All HasInk (strip_parts ts)
unfolding strip_parts
strip_parts-HasInk [] = tt
strip_parts-HasInk (t ∷ ts) = elim (Bool-cases (is_empty (strip t))) [
  | inl e ↦ rw e (strip_parts-HasInk ts)
  | inr e ↦ rw e (strip-HasInk t e, strip_parts-HasInk ts)
]

paragraphs-HasInk : (t : Text) → All HasInk (paragraphs t)
unfolding paragraphs
paragraphs-HasInk t = strip_parts-HasInk (split_runs 0 [] t)

-- A text that has a paragraph is split by length into blocks that lose nothing of it: joined by
-- blank lines, the blocks are the text's paragraphs joined by blank lines, and no block is blank.
pub blocks_keep_paragraphs :
    (raw : Text)
    → is_empty (strip raw) ≡ false
    → is_nil (paragraphs (strip raw)) ≡ false
    → (join_parts (split_heuristic_blocks raw) ≡ join_parts (paragraphs (strip raw)))
      × All HasInk (split_heuristic_blocks raw)
unfolding split_heuristic_blocks
blocks_keep_paragraphs raw full some_par =
    rw full (go (paragraphs (strip raw)) some_par (paragraphs-HasInk (strip raw)))
  where
    go :
        (ps : List Text)
        → is_nil ps ≡ false
        → All HasInk ps
        → (join_parts (blocks_of (strip raw) ps) ≡ join_parts ps)
          × All HasInk (blocks_of (strip raw) ps)
    go [] n h = absurd (cc)
    go (p ∷ ps) n h =
        let b = add_paragraphs (p ∷ ps) no_buffer in
        let inked : All HasInk (finish_blocks b) =
          finish-HasInk b (adds-Inked (p ∷ ps) no_buffer h (tt, tt)) in
        let whole : join_parts (finish_blocks b) ≡ join_parts (p ∷ ps) =
          finish-held b ∙ adds-held (p ∷ ps) no_buffer in
        rw (keep-All (finish_blocks b) inked) (whole, inked)
