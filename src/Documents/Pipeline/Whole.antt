-- ===== src/Documents/Pipeline/Whole.antt =====
-- A run over a new document.
use mathlib.Core.Path.{subst}
use pr_killer.Prelude.{
  ℕ, ◌≤◌, ◌≡◌, refl, sym, ap, ◌∙◌, true, false, some, List, [], ◌∷◌, map, arith, ltb, length,
  length-map, Bool-cases, inl, inr, if_false, Option,
}
use pr_killer.Sort.{length-sort}
use pr_killer.Text.{Text, codes, strip, is_empty, or_text, text_eq, lower, is_space}
use pr_killer.Text.Ink.{HasInk, strip-HasInk}
use pr_killer.Chunking.{new_chunker}
use pr_killer.Chunking.Inked.{chunk_text-Inked, chunk_text-IsSome}
use pr_killer.Queue.Pick.Sound.{All, All-sort}
use pr_killer.Documents.World.{
  Strategy, fixed, Document, Chunk, Tables, Result, returned, failed, settle, get_source_document,
  select_where, in_document,
}
use pr_killer.Documents.Chunks.{
  existing_chunks, chunked, as_chunked, chunk_source_document_sync, chunk_document_body,
  chunk_source_document,
}
use pr_killer.Documents.Chunks.Rows.{get_source_document-id, chunk_document_rows}
use pr_killer.Documents.Entities.{
  by_chunk_index, ordered_chunks, no_chunks, of_document, extracted, extract_for_document_sync,
  extract_entities_for_document, reply_or,
}
use pr_killer.Documents.Entities.Counts.{Answers, IsReady, Adds, extraction_replaces}
use pr_killer.Documents.Units.{sync_interview_units}
use pr_killer.Documents.Pipeline.{
  Worker, word_of, Peek, peek_document_pipeline_state, ran, analysed, after_chunk, extract_or_fail,
  is_complete, skips_chunk, chunk_or_fail, analyse_peeked, peek_found, status_word, entities_count,
  pipeline_document_analysis,
}
use pr_killer.Documents.Pipeline.Frames.{chunk_sync-OnlyChunks, units-OnlyUnits}
use pr_killer.Documents.Pipeline.Phases.{IsOpen}

selected-IsReady :
    (k : ℕ) (cs : List Chunk)
    → All HasInk (map (λ (c : Chunk). c.text) (select_where (in_document k) cs))
    → All (IsReady k) (select_where (in_document k) cs)
unfolding select_where
selected-IsReady k [] h = tt
selected-IsReady k (c ∷ cs) h = elim (Bool-cases (in_document k c)) [
  | inl e ↦
      let h' : All HasInk (c.text ∷ map (λ (x : Chunk). x.text) (select_where (in_document k) cs)) =
        rw e at h in
      rw e ((e, h'.0), selected-IsReady k cs h'.1)
  | inr e ↦ rw e (selected-IsReady k cs (rw e at h))
]

no_chunks-length : (cs : List Chunk) → 1 ≤ length cs → no_chunks cs ≡ false
no_chunks-length [] h = absurd (omega arith)
no_chunks-length (c ∷ cs) h = refl

settle-chunked :
    (s : Strategy) (w : Tables) (out : Result ℕ × Tables) (m : ℕ)
    → out.0 ≡ returned m
    → settle w (as_chunked s out) ≡ (returned (chunked m s), out.1)
settle-chunked s w (returned n, v) m h =
    ap (λ (i : ℕ). (returned (chunked i s), v)) (let same : n ≡ m = cc in same)
settle-chunked s w (failed e, v) m h = absurd (cc)

reply-extracted :
    (absent : Text) (w : Tables) (out : Result ℕ × Tables) (n : ℕ)
    → out.0 ≡ returned n
    → reply_or absent (settle w out) ≡ (returned (extracted n), out.1)
reply-extracted absent w (returned i, v) n h =
    ap (λ (j : ℕ). (returned (extracted j), v)) (let same : i ≡ n = cc in same)
reply-extracted absent w (failed e, v) n h = absurd (cc)

-- From a chunking that has stored `m` chunks on.
after_chunk-analysed :
    (v : Worker) (k m n : ℕ) (s : Strategy) (w : Tables)
    → 1 ≤ m
    → let out =
        extract_for_document_sync v.config v.extractor k (sync_interview_units v.splitter k w) in
      out.0 ≡ returned n
      → after_chunk v k (ran (chunked m s)) w ≡ (analysed (ran (chunked m s)) (extracted n), out.1)
unfolding after_chunk extract_entities_for_document
after_chunk-analysed v k m n s w pos h =
    let synced = sync_interview_units v.splitter k w in
    let enough : ltb m 1 ≡ false = ground arith in
    rw enough (
      ap (extract_or_fail v k (ran (chunked m s))) (
        reply-extracted (codes "source_document_not_found") synced
          (extract_for_document_sync v.config v.extractor k synced) n h))

-- A document that is not complete and has no chunks is chunked.
first_run :
    (v : Worker) (k : ℕ) (p : Peek) (m : ℕ) (w w1 : Tables)
    → is_complete p ≡ false
    → p.n_chunks ≡ 0
    → chunk_source_document v.config k (codes "auto") w ≡ (returned (chunked m fixed), w1)
    → analyse_peeked v k (some p) w ≡ after_chunk v k (ran (chunked m fixed)) w1
first_run v k p m w w1 whole none_yet run =
    if_false (is_complete p) _ _ whole
    ∙ if_false (skips_chunk p) _ _ (rw none_yet refl)
    ∙ ap (chunk_or_fail v k) run

-- A new document: chunks none, no phase but "failed".
module _ (v : Worker) (k : ℕ) (d : Document) (w : Tables)
    (found : get_source_document k w.documents ≡ some d)
    (full : is_empty (strip (or_text d.raw_text [])) ≡ false) (fresh : existing_chunks k w ≡ 0)
    (lock : v.config.advisory_lock_free k ≡ true) where
  chunk_run :
      (m : ℕ)
      → (chunk_source_document_sync v.config fixed k w).0 ≡ returned m
      → chunk_source_document v.config k (codes "auto") w
        ≡ (returned (chunked m fixed), (chunk_source_document_sync v.config fixed k w).1)
  unfolding chunk_source_document chunk_document_body text_eq
  chunk_run m r =
      rw (lock, fresh) (settle-chunked fixed w (chunk_source_document_sync v.config fixed k w) m r)

  peek_of : Peek
  peek_of = record {
    phase = word_of d.pipeline_state_json.phase;
    n_chunks = existing_chunks k w;
    extraction_status = status_word d.pipeline_state_json.extraction;
    entities_created = entities_count d.pipeline_state_json.extraction;
  }

  not_complete : IsOpen d → is_complete peek_of ≡ false
  unfolding peek_of word_of strip lower is_space or_text text_eq
  not_complete (inl e) = rw e refl
  not_complete (inr e) = rw e refl

  open_run :
      IsOpen d
      → (m : ℕ) (w1 : Tables)
      → chunk_source_document v.config k (codes "auto") w ≡ (returned (chunked m fixed), w1)
      → pipeline_document_analysis v k w ≡ after_chunk v k (ran (chunked m fixed)) w1
  unfolding pipeline_document_analysis peek_document_pipeline_state peek_of
  open_run o m w1 run =
      ap (λ (q : Option Document). analyse_peeked v k (peek_found k w q) w) found
      ∙ first_run v k peek_of m w w1 (not_complete o) fresh run

ordered-All :
    (k : ℕ) (w : Tables) (m : ℕ)
    → length (select_where (in_document k) w.chunks) ≡ m
    → All (IsReady k) (select_where (in_document k) w.chunks)
    → (length (ordered_chunks (in_document k) w) ≡ m)
      × All (IsReady k) (ordered_chunks (in_document k) w)
unfolding ordered_chunks
ordered-All k w m h ready =
    let cs = select_where (in_document k) w.chunks in
    (length-sort {0} by_chunk_index cs ∙ h, All-sort (IsReady k) by_chunk_index cs ready)

-- If a document with a text has no chunks, no phase other than "failed", and its advisory lock is
-- free, and the provider answers, then a run of the pipeline stores `m` chunks, at least one, and
-- reports success with a number of entities: at least one and at most eight for each chunk, and
-- these are the document's entities, each with a stripped content of at most 300 characters.
pub pipeline_succeeds :
    (v : Worker) (k : ℕ) (d : Document) (w : Tables)
    → get_source_document k w.documents ≡ some d
    → is_empty (strip (or_text d.raw_text [])) ≡ false
    → existing_chunks k w ≡ 0
    → v.config.advisory_lock_free k ≡ true
    → IsOpen d
    → Answers v.extractor
    → let (payload, w') = pipeline_document_analysis v k w in
      (m : ℕ) × (n : ℕ) × (payload ≡ analysed (ran (chunked m fixed)) (extracted n))
      × (1 ≤ m)
      × (length (select_where (in_document d.id) w'.chunks) ≡ m)
      × Adds d.id m n (select_where (of_document d.id) w'.entities)
pipeline_succeeds v k d w found full fresh lock is_open answers =
    let key = get_source_document-id k w.documents d found in
    let (parts, total, r, texts, indexes, others) =
      chunk_document_rows v.config k d w found full (rw key fresh) in
    let w1 = (chunk_source_document_sync v.config fixed k w).1 in
    let m = length parts in
    let w2 = sync_interview_units v.splitter k w1 in
    let c1 = chunk_sync-OnlyChunks v.config fixed k w in
    let u2 = units-OnlyUnits v.splitter k w1 in
    let at2 : get_source_document k w2.documents ≡ some d =
      ap (λ (l : List Document). get_source_document k l) (u2.0 ∙ c1.0) ∙ found in
    let mine = select_where (in_document d.id) w2.chunks in
    let same_chunks : select_where (in_document d.id) w2.chunks
        ≡ select_where (in_document d.id) w1.chunks =
      ap (λ (l : List Chunk). select_where (in_document d.id) l) u2.1 in
    let texts2 : map (λ (c : Chunk). c.text) mine ≡ parts =
      ap (λ (l : List Chunk). map (λ (c : Chunk). c.text) l) same_chunks ∙ texts in
    let raw = strip (or_text d.raw_text []) in
    let ink =
      chunk_text-Inked (new_chunker v.config.chunk_max_chars v.config.chunk_overlap_chars) raw parts
        total in
    let pos : 1 ≤ m =
      chunk_text-IsSome v.config.chunk_max_chars v.config.chunk_overlap_chars raw parts
        (strip-HasInk (or_text d.raw_text []) full) total in
    let len : length mine ≡ m =
      sym (length-map mine (λ (c : Chunk). c.text)) ∙ ap (λ (l : List Text). length l) texts2 in
    let ready = selected-IsReady d.id w2.chunks (subst (All HasInk) (sym texts2) ink) in
    let (len2, ready2) = ordered-All d.id w2 m len ready in
    let (n, out, adds, rest, chunks3) =
      extraction_replaces v.config v.extractor k d w2 answers at2
        (no_chunks-length (ordered_chunks (in_document d.id) w2) (omega arith)) ready2 in
    let after = (extract_for_document_sync v.config v.extractor k w2).1.entities in
    let run =
      open_run v k d w found full fresh lock is_open m w1
        (chunk_run v k d w found full fresh lock m r)
      ∙ after_chunk-analysed v k m n fixed w1 pos out in
    rw run (
      m,
      n,
      refl,
      pos,
      ap (λ (l : List Chunk). length (select_where (in_document d.id) l)) chunks3 ∙ len,
      subst (λ (i : ℕ). Adds d.id i n (select_where (of_document d.id) after)) len2 adds,
    )
