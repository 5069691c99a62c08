-- ===== src/Documents/Extract/Bounds.antt =====
-- How many entities a chunk gets, and how long they are.
use pr_killer.Prelude.{
  ℕ, ◌-◌, ◌≤◌, ◌<◌, ◌≡◌, false, not, ◌&&◌, ◌||◌, Option, List, [], ◌∷◌, ◌++◌, map, take, arith, ltb,
  leb, length, length-append, length-take, if◌then◌else◌, if_both, Bool-cases, inl, inr,
}
use pr_killer.Sort.{sort, length-sort}
use pr_killer.Text.{Text, codes, strip, rstrip, slice, is_empty, text_eq}
use pr_killer.Text.Strip.{length-strip, length-rstrip}
use pr_killer.Queue.Pick.Sound.{All, All-append, All-take, All-sort}
use pr_killer.Documents.World.{Candidate}
use pr_killer.Documents.Extract.{
  Extractor, clip, filter_provider_candidates, any_overlap, make_candidate, add_segments,
  existing_spans, even_segments, segment_count, with_segments, of_sentence, or_tiny_chunk, by_span,
  split_sentences, sentence_level_fallback, supplement_sparse, use_filtered, first_eight,
  finalize_chunk_entities,
}

-- The content of an entity, stripped, has at most 300 characters.
abbrev pub IsShort : Candidate → Type 0
IsShort c = length (strip c.content) ≤ 300

length-clip : (n : ℕ) (s : Text) → 0 < n → length (clip n s) ≤ n
unfolding clip
length-clip n s h = elim (Bool-cases (leb (length (strip s)) n)) [
  | inl e ↦ rw e (ground arith)
  | inr e ↦
      let cut = take (n - 1) (strip s) in
      rw e (
        omega (
          arith,
          length-append {0} (rstrip cut) (0x2026 ∷ []),
          length-rstrip cut,
          length-take {0} (n - 1) (strip s),
        ))
]

make-IsShort :
    (t fallback rule provider : Text) (f : Option Text) (a b : ℕ)
    → IsShort (make_candidate t fallback rule provider f a b)
unfolding make_candidate
make-IsShort t fallback rule provider f a b =
    omega (arith, length-strip (clip 300 t), length-clip 300 t (omega arith))

filter-IsShort : (t : Text) (cs : List Candidate) → All IsShort (filter_provider_candidates t cs)
unfolding filter_provider_candidates
filter-IsShort t [] = tt
filter-IsShort t (c ∷ cs) =
    let rest = filter_provider_candidates t cs in
    let ih = filter-IsShort t cs in
    elim (Bool-cases (ltb 300 (length (strip c.content)))) [
      | inl e ↦ rw e ih
      | inr e ↦ rw e (
          if_both (All IsShort) (not (is_empty t) && text_eq (strip c.content) t) rest (c ∷ rest) ih
            (ground arith, ih))
    ]

-- The candidates are short, and no fewer than before.
abbrev Grows : ℕ → List Candidate → Type 0
Grows n cs = All IsShort cs × (n ≤ length cs)

add_segments-Grows :
    (n enough : ℕ) (rule provider : Text) (f : Option Text) (t : Text) (segs : List (ℕ × ℕ))
    (out : List Candidate) (existing : List (ℕ × ℕ))
    → Grows n out
    → Grows n (add_segments enough rule provider f t segs out existing)
unfolding add_segments
add_segments-Grows n enough rule provider f t [] out existing g = g
add_segments-Grows n enough rule provider f t ((a, b) ∷ rest) out existing g =
    let snippet = strip (slice a b t) in
    let made = make_candidate snippet (codes "Segment") rule provider f a b in
    let out' = out ++ made ∷ [] in
    let g' : Grows n out' = (
      All-append IsShort out (made ∷ []) g.0
          (make-IsShort snippet (codes "Segment") rule provider f a b, tt),
      omega (arith, g.1, length-append {0} out (made ∷ [])),
    ) in
    let skip = add_segments-Grows n enough rule provider f t rest out existing g in
    if_both (Grows n) (leb 8 (length out)) out _ g (
      if_both (Grows n) (any_overlap a b existing) _ _ skip (
        if_both (Grows n) (ltb (length snippet) 12) _ _ skip (
          if_both (Grows n) (text_eq snippet (strip t)) _ _ skip (
            if_both (Grows n) (leb enough (length out')) out' _ g' (
              add_segments-Grows n enough rule provider f t rest out' (existing ++ (a, b) ∷ [])
                g')))))

first_eight-Grows : (n : ℕ) (l : List Candidate) → n ≤ 8 → Grows n l → Grows n (first_eight l)
first_eight-Grows n l h g = (
  All-take IsShort 8 (sort by_span l) (All-sort IsShort by_span l g.0),
  omega (arith, g.1, length-take {0} 8 (sort by_span l), length-sort {0} by_span l),
)

sentences-IsShort :
    (f : Option Text) (ss : List (Text × (ℕ × ℕ))) → All IsShort (map (of_sentence f) ss)
sentences-IsShort f [] = tt
sentences-IsShort f ((s, (a, b)) ∷ ss) = (
  make-IsShort s (codes "Statement") (codes "service_sentence_fallback")
      (codes "service_sentence_fallback") f a b,
  sentences-IsShort f ss,
)

tiny-Grows :
    (t : Text) (f : Option Text) (out : List Candidate)
    → All IsShort out
    → Grows 1 (or_tiny_chunk t f out)
tiny-Grows t f [] h = (
  (
    make-IsShort t (codes "Chunk") (codes "service_tiny_chunk") (codes "service_sentence_fallback")
        f 0 (length t),
    tt,
  ),
  omega arith,
)
tiny-Grows t f (c ∷ cs) h = (h, omega arith)

with_segments-IsShort :
    (t : Text) (f : Option Text) (out : List Candidate)
    → All IsShort out
    → All IsShort (with_segments t f out)
with_segments-IsShort t f out h =
    if_both (All IsShort) (ltb (length out) 3 && leb 30 (length t)) _ out
      (add_segments-Grows 0 8 (codes "service_segment_fallback") (codes "service_sentence_fallback")
        f t (even_segments t (segment_count t)) out (existing_spans out) (h, omega arith)).0
      h

fallback-Grows :
    (x : Extractor) (t : Text) (f : Option Text)
    → is_empty t ≡ false
    → Grows 1 (sentence_level_fallback x t f)
unfolding sentence_level_fallback
fallback-Grows x t f full =
    let made = map (of_sentence f) (take 8 (split_sentences x t)) in
    rw full (
      first_eight-Grows 1 (or_tiny_chunk t f (with_segments t f made)) (omega arith) (
        tiny-Grows t f (with_segments t f made)
          (with_segments-IsShort t f made (sentences-IsShort f (take 8 (split_sentences x t))))))

supplement-Grows :
    (t : Text) (f : Option Text) (cs : List Candidate)
    → Grows 1 cs
    → Grows 1 (supplement_sparse t cs f)
unfolding supplement_sparse
supplement-Grows t f cs g = if_both (Grows 1) (leb 3 (length cs) || ltb (length t) 30) cs _ g (
    first_eight-Grows 1 _ (omega arith) (
      add_segments-Grows 1 3 (codes "service_supplement_segment") (codes "service_supplement") f t
        (even_segments t (segment_count t)) cs (existing_spans cs) g))

filtered-Grows :
    (x : Extractor) (t : Text) (f : Option Text) (kept : List Candidate)
    → is_empty t ≡ false
    → All IsShort kept
    → Grows 1 (use_filtered x t f kept)
filtered-Grows x t f kept full h = elim (Bool-cases (leb (length kept) 1)) [
  | inl e ↦ rw e (fallback-Grows x t f full)
  | inr e ↦ rw e (supplement-Grows t f kept (h, ground arith))
]

-- Whatever the provider proposes for a chunk that is not blank, the chunk gets between one and eight
-- entities, and the content of each, stripped, has at most 300 characters.
pub finalize_bounded :
    (x : Extractor) (chunk : Text) (raw : List Candidate) (filename : Option Text)
    → is_empty (strip chunk) ≡ false
    → let out = finalize_chunk_entities x chunk raw filename in
      All IsShort out × (1 ≤ length out) × (length out ≤ 8)
unfolding finalize_chunk_entities
finalize_bounded x chunk raw filename full =
    let t = strip chunk in
    let final =
      if leb (length raw) 1
      then sentence_level_fallback x t filename
      else use_filtered x t filename (filter_provider_candidates t raw) in
    let g : Grows 1 final =
      if_both (Grows 1) (leb (length raw) 1) _ _ (fallback-Grows x t filename full) (
        filtered-Grows x t filename (filter_provider_candidates t raw) full
          (filter-IsShort t raw)) in
    let more =
      if ltb (length final) 3 && leb 30 (length t)
      then supplement_sparse t final filename
      else final in
    let g' : Grows 1 more =
      if_both (Grows 1) (ltb (length final) 3 && leb 30 (length t)) _ _
        (supplement-Grows t filename final g) g in
    (
      All-take IsShort 8 more g'.0,
      omega (arith, g'.1, length-take {0} 8 more),
      omega (arith, length-take {0} 8 more),
    )
