-- ===== src/Documents/Extract.antt =====
-- The entities of a chunk: app/services/research_extraction_service.py, and the helpers of
-- app/services/extraction/mock_provider.py that it calls. The provider and the regular expression
-- for sentences are parameters. A candidate's confidence is left out, and its spans are numbers.
pub mod Bounds
use pr_killer.Prelude.{
  ℕ, zero, suc, ◌+◌, ◌-◌, ◌*◌, ◌/◌, min, max, Bool, true, false, not, ◌&&◌, ◌||◌, Option, none,
  some, List, [], ◌∷◌, ◌++◌, map, take, ltb, leb, ◌==◌, length, if◌then◌else◌,
}
use pr_killer.Sort.{sort}
use pr_killer.Text.{Text, codes, strip, rstrip, slice, is_empty, or_text, text_eq}
use pr_killer.Documents.World.{Candidate, Result}

pub record Extractor : Type 0 where
  -- the provider, given the text of a chunk, its index and the name of the file
  pub extract_from_chunk : Text → ℕ → Option Text → Result (List Candidate)
  -- the matches of the sentence pattern in the text, its addresses masked
  pub sentence_spans : Text → List (ℕ × ℕ)

unfoldable pub clip : ℕ → Text → Text
unfolding strip rstrip
clip max_len s =
    let t = strip s in
    if leb (length t) max_len then t else rstrip (take (max_len - 1) t) ++ 0x2026 ∷ []

-- s.split("\n", 1)[0]
unfoldable pub first_line : Text → Text
first_line [] = []
first_line (c ∷ s) = let rest = first_line s in if c == 10 then [] else c ∷ rest

unfoldable pub title_from_sentence : Text → Text → Text
unfolding clip first_line strip or_text
title_from_sentence sentence fallback =
    let s = strip sentence in
    if is_empty s
    then take 512 fallback
    else or_text (some (take 512 (clip 120 (strip (first_line s))))) (take 512 fallback)

-- The validator of `ExtractedEntityCandidate`.
unfoldable pub strip_title : Text → Text
unfolding strip
strip_title v = let s = strip v in if is_empty s then codes "Untitled" else take 512 s

abbrev pub keep_sentences : Text → List (ℕ × ℕ) → List (Text × (ℕ × ℕ))
keep_sentences text [] = []
keep_sentences text ((s0, s1) ∷ rest) =
    let more = keep_sentences text rest in
    let seg = strip (slice s0 s1 text) in if is_empty seg then more else (seg, (s0, s1)) ∷ more

abbrev pub or_whole : Text → List (Text × (ℕ × ℕ)) → List (Text × (ℕ × ℕ))
or_whole text [] = (text, (0, length text)) ∷ []
or_whole text (x ∷ xs) = x ∷ xs

unfoldable pub split_sentences : Extractor → Text → List (Text × (ℕ × ℕ))
unfolding strip
split_sentences x raw =
    let text = strip raw in
    if is_empty text then [] else or_whole text (keep_sentences text (x.sentence_spans text))

-- `for i in range(n)` from `i` on, `left` rounds being left.
unfoldable pub segments_from : ℕ → ℕ → ℕ → ℕ → ℕ → List (ℕ × ℕ)
segments_from zero i n step len = []
segments_from (suc left) i n step len =
    let rest = segments_from left (i + 1) n step len in
    let a = i * step in
    let b = if i == n - 1 then len else min len ((i + 1) * step) in
    if ltb a b then (a, b) ∷ rest else rest

unfoldable pub even_segments : Text → ℕ → List (ℕ × ℕ)
unfolding segments_from
even_segments text n =
    let len = length text in
    let m = min n len in
    if leb n 1 || len == 0 then (0, len) ∷ [] else segments_from m 0 m (max 1 (len / m)) len

-- `_filter_provider_candidates`: too long, or the whole chunk.
unfoldable pub filter_provider_candidates : Text → List Candidate → List Candidate
unfolding strip text_eq
filter_provider_candidates text [] = []
filter_provider_candidates text (c ∷ cs) =
    let rest = filter_provider_candidates text cs in
    let content = strip c.content in
    if ltb 300 (length content)
    then rest
    else if not (is_empty text) && text_eq content text
    then rest
    else c ∷ rest

unfoldable pub existing_spans : List Candidate → List (ℕ × ℕ)
existing_spans [] = []
existing_spans (c ∷ cs) = (c.span_start, c.span_end) ∷ existing_spans cs

abbrev pub spans_overlap : ℕ → ℕ → ℕ × ℕ → Bool
spans_overlap a0 a1 (b0, b1) = not (leb a1 b0 || leb b1 a0)

unfoldable pub any_overlap : ℕ → ℕ → List (ℕ × ℕ) → Bool
any_overlap a b [] = false
any_overlap a b (s ∷ ss) = spans_overlap a b s || any_overlap a b ss

-- A candidate that the service makes itself.
unfoldable pub make_candidate : Text → Text → Text → Text → Option Text → ℕ → ℕ → Candidate
unfolding clip title_from_sentence strip_title or_text
make_candidate text fallback rule provider filename a b = record {
  entity_type = codes "supporting_fact";
  title = strip_title (title_from_sentence text fallback);
  content = clip 300 text;
  rule = rule;
  source_file = or_text filename [];
  quote = clip 300 text;
  provider = provider;
  span_start = a;
  span_end = b;
}

abbrev pub of_sentence : Option Text → Text × (ℕ × ℕ) → Candidate
of_sentence filename (sent, (s0, s1)) =
    make_candidate sent (codes "Statement") (codes "service_sentence_fallback")
      (codes "service_sentence_fallback") filename s0 s1

-- The loop over the even segments. It ends at eight entities, and after an addition at `enough`.
unfoldable pub add_segments :
    ℕ
    → Text
    → Text
    → Option Text
    → Text
    → List (ℕ × ℕ)
    → List Candidate
    → List (ℕ × ℕ)
    → List Candidate
unfolding make_candidate any_overlap strip text_eq
add_segments enough rule provider filename text [] out existing = out
add_segments enough rule provider filename text ((a, b) ∷ rest) out existing =
    let snippet = strip (slice a b text) in
    let made = make_candidate snippet (codes "Segment") rule provider filename a b in
    let skip = add_segments enough rule provider filename text rest out existing in
    let out' = out ++ made ∷ [] in
    let go = add_segments enough rule provider filename text rest out' (existing ++ (a, b) ∷ []) in
    if leb 8 (length out)
    then out
    else if any_overlap a b existing
    then skip
    else if ltb (length snippet) 12
    then skip
    else if text_eq snippet (strip text)
    then skip
    else if leb enough (length out')
    then out'
    else go

unfoldable pub text_leb : Text → Text → Bool
text_leb [] t = true
text_leb (c ∷ s) [] = false
text_leb (c ∷ s) (d ∷ t) = let rest = text_leb s t in if c == d then rest else ltb c d

-- The key of the sort: both ends of the span, then the type.
abbrev pub by_span : Candidate → Candidate → Bool
by_span a b =
    if a.span_start == b.span_start
    then if a.span_end == b.span_end
      then text_leb a.entity_type b.entity_type
      else ltb a.span_end b.span_end
    else ltb a.span_start b.span_start

abbrev pub first_eight : List Candidate → List Candidate
first_eight out = take 8 (sort by_span out)

abbrev pub segment_count : Text → ℕ
segment_count text = min 6 (max 3 ((length text + 99) / 100))

abbrev pub with_segments : Text → Option Text → List Candidate → List Candidate
with_segments text filename out =
    if ltb (length out) 3 && leb 30 (length text)
    then add_segments 8 (codes "service_segment_fallback") (codes "service_sentence_fallback")
        filename text (even_segments text (segment_count text)) out (existing_spans out)
    else out

abbrev pub or_tiny_chunk : Text → Option Text → List Candidate → List Candidate
or_tiny_chunk text filename [] =
    make_candidate text (codes "Chunk") (codes "service_tiny_chunk")
      (codes "service_sentence_fallback") filename 0 (length text)
    ∷ []
or_tiny_chunk text filename (c ∷ cs) = c ∷ cs

-- `text` is the stripped text of the chunk.
unfoldable pub sentence_level_fallback : Extractor → Text → Option Text → List Candidate
unfolding split_sentences make_candidate add_segments even_segments existing_spans sort text_leb
sentence_level_fallback x text filename =
    if is_empty text
    then []
    else first_eight (
        or_tiny_chunk text filename (
          with_segments text filename
            (map (of_sentence filename) (take 8 (split_sentences x text)))))

unfoldable pub supplement_sparse : Text → List Candidate → Option Text → List Candidate
unfolding add_segments even_segments existing_spans sort text_leb
supplement_sparse text entities filename =
    if leb 3 (length entities) || ltb (length text) 30
    then entities
    else first_eight (
        add_segments 3 (codes "service_supplement_segment") (codes "service_supplement") filename
          text (even_segments text (segment_count text)) entities (existing_spans entities))

abbrev pub use_filtered : Extractor → Text → Option Text → List Candidate → List Candidate
use_filtered x text filename kept =
    if leb (length kept) 1
    then sentence_level_fallback x text filename
    else supplement_sparse text kept filename

unfoldable pub finalize_chunk_entities :
    Extractor → Text → List Candidate → Option Text → List Candidate
unfolding sentence_level_fallback filter_provider_candidates supplement_sparse strip
finalize_chunk_entities x chunk raw filename =
    let text = strip chunk in
    let final =
      if leb (length raw) 1
      then sentence_level_fallback x text filename
      else use_filtered x text filename (filter_provider_candidates text raw) in
    take 8 (
      if ltb (length final) 3 && leb 30 (length text)
      then supplement_sparse text final filename
      else final)
