-- ===== src/Documents/Pipeline/Frames.antt =====
-- What the steps of a run leave alone.
use pr_killer.Prelude.{
  ℕ, ◌≡◌, refl, ◌∙◌, not, ◌&&◌, Option, none, some, List, [], ◌∷◌, ltb, length, if_both,
}
use pr_killer.Text.{Text, codes, strip, is_empty, or_text, text_eq}
use pr_killer.Documents.World.{
  Strategy, fixed, Document, Chunk, Candidate, Tables, Result, returned, failed, settle,
  get_source_document, in_document, delete_where,
}
use pr_killer.Documents.Chunks.{
  Config, parts_of_text, store_document_chunks, existing_chunks, chunk_document_found,
  chunk_source_document_sync, openai_not_configured, already_processing, noop_already_chunked,
  strategy_of, lacks_key, as_chunked, chunk_document_body, chunk_source_document,
}
use pr_killer.Documents.Extract.{Extractor, finalize_chunk_entities}
use pr_killer.Documents.Entities.{
  add_total, with_raw, add_entities, extract_for_chunks, ordered_chunks, of_document, extract_again,
  after_chunking, extract_document_chunks, extract_document_found, no_chunks,
  extract_for_document_sync, ExtractReply, extracted, missing, reply_or,
  extract_entities_for_document,
}
use pr_killer.Documents.Units.{Splitter, sync_found, sync_interview_units}

-- The documents are those of `w`.
abbrev pub SameDocuments : {A : Type 0} → Tables → Result A × Tables → Type 0
SameDocuments w out = (out.1).documents ≡ w.documents

-- After an exception, everything is as in `w`.
abbrev pub RolledBack : {A : Type 0} → Tables → Result A × Tables → Type 0
RolledBack w (returned a, v) = Unit {0}
RolledBack w (failed e, v) = v ≡ w

settle-RolledBack :
    {A : Type 0} (w : Tables) (out : Result A × Tables) → RolledBack w (settle w out)
settle-RolledBack w (returned a, v) = tt
settle-RolledBack w (failed e, v) = refl

settle-SameDocuments :
    {A : Type 0} (w : Tables) (out : Result A × Tables)
    → SameDocuments w out
    → SameDocuments w (settle w out)
settle-SameDocuments w (returned a, v) h = h
settle-SameDocuments w (failed e, v) h = refl

-- Chunking writes text_chunks only.
abbrev pub OnlyChunks : {A : Type 0} → Tables → Result A × Tables → Type 0
OnlyChunks w out =
    ((out.1).documents ≡ w.documents)
    × ((out.1).entities ≡ w.entities)
    × ((out.1).interview_units ≡ w.interview_units)

settle-OnlyChunks :
    {A : Type 0} (w : Tables) (out : Result A × Tables)
    → OnlyChunks w out
    → OnlyChunks w (settle w out)
settle-OnlyChunks w (returned a, v) h = h
settle-OnlyChunks w (failed e, v) h = (refl, refl, refl)

module _ (c : Config) where
  store-OnlyChunks :
      (s : Strategy) (d : Document) (r : Result (List Text)) (w : Tables)
      → OnlyChunks w (store_document_chunks c s d r w)
  unfolding store_document_chunks
  store-OnlyChunks s d (failed e) w = (refl, refl, refl)
  store-OnlyChunks s d (returned parts) w = (refl, refl, refl)

  found-OnlyChunks :
      (s : Strategy) (o : Option Document) (w : Tables)
      → OnlyChunks w (chunk_document_found c s o w)
  found-OnlyChunks s none w = (refl, refl, refl)
  found-OnlyChunks s (some d) w =
      let raw = strip (or_text d.raw_text []) in
      if_both (OnlyChunks w) (is_empty raw) (failed (codes "source_document_no_text"), w) _
        (refl, refl, refl)
        (if_both (OnlyChunks w) (ltb 0 (existing_chunks d.id w))
          (returned (existing_chunks d.id w), w) _ (refl, refl, refl)
          (store-OnlyChunks s d (parts_of_text c s raw) w))

  pub chunk_sync-OnlyChunks :
      (s : Strategy) (k : ℕ) (w : Tables) → OnlyChunks w (chunk_source_document_sync c s k w)
  unfolding chunk_source_document_sync
  chunk_sync-OnlyChunks s k w = found-OnlyChunks s (get_source_document k w.documents) w

  as_chunked-OnlyChunks :
      (s : Strategy) (w : Tables) (out : Result ℕ × Tables)
      → OnlyChunks w out
      → OnlyChunks w (as_chunked s out)
  as_chunked-OnlyChunks s w (returned n, v) h = h
  as_chunked-OnlyChunks s w (failed e, v) h = h

  body-OnlyChunks : (s : Strategy) (k : ℕ) (w : Tables) → OnlyChunks w (chunk_document_body c s k w)
  unfolding chunk_document_body
  body-OnlyChunks s k w =
      if_both (OnlyChunks w) (not (c.advisory_lock_free k)) (returned already_processing, w) _
        (refl, refl, refl)
        (if_both (OnlyChunks w) (ltb 0 (existing_chunks k w))
          (returned (noop_already_chunked (existing_chunks k w) s), w) _ (refl, refl, refl)
          (as_chunked-OnlyChunks s w (chunk_source_document_sync c s k w)
            (chunk_sync-OnlyChunks s k w)))

  pub chunk-OnlyChunks :
      (k : ℕ) (strategy : Text) (w : Tables) → OnlyChunks w (chunk_source_document c k strategy w)
  unfolding chunk_source_document
  chunk-OnlyChunks k strategy w =
      let s = strategy_of strategy in
      if_both (OnlyChunks w) (lacks_key c s) (returned openai_not_configured, w) _
        (refl, refl, refl)
        (settle-OnlyChunks w (chunk_document_body c s k w) (body-OnlyChunks s k w))

  pub chunk-RolledBack :
      (k : ℕ) (strategy : Text) (w : Tables) → RolledBack w (chunk_source_document c k strategy w)
  unfolding chunk_source_document
  chunk-RolledBack k strategy w =
      let s = strategy_of strategy in
      if_both (RolledBack w) (lacks_key c s) (returned openai_not_configured, w) _ tt
        (settle-RolledBack w (chunk_document_body c s k w))

add_total-documents :
    (n : ℕ) (w : Tables) (out : Result ℕ × Tables)
    → SameDocuments w out
    → SameDocuments w (add_total n out)
add_total-documents n w (returned m, v) h = h
add_total-documents n w (failed e, v) h = h

module _ (x : Extractor) where
  loop-documents :
      (f : Option Text) (cs : List Chunk) (w : Tables)
      → SameDocuments w (extract_for_chunks x f cs w)
  unfolding extract_for_chunks
  loop-documents f [] w = refl
  loop-documents f (c ∷ cs) w =
      go (x.extract_from_chunk c.text c.chunk_index f) (λ v. loop-documents f cs v)
    where
      go :
          (r : Result (List Candidate))
          → ((v : Tables) → SameDocuments v (extract_for_chunks x f cs v))
          → SameDocuments w (
              with_raw r w λ raw.
                let found = finalize_chunk_entities x c.text raw f in
                add_total (length found) (extract_for_chunks x f cs (add_entities c found w)))
      go (failed e) rec = refl
      go (returned raw) rec =
          let found = finalize_chunk_entities x c.text raw f in
          add_total-documents (length found) w (extract_for_chunks x f cs (add_entities c found w))
            (rec (add_entities c found w))

  chunks-documents : (d : Document) (w : Tables) → SameDocuments w (extract_document_chunks x d w)
  unfolding extract_again
  chunks-documents d w =
      loop-documents (some d.filename) (ordered_chunks (in_document d.id) w)
        (record w { entities = delete_where (of_document d.id) w.entities })

  after-documents :
      (d : Document) (w : Tables) (out : Result ℕ × Tables)
      → SameDocuments w out
      → SameDocuments w (after_chunking out (extract_document_chunks x d))
  after-documents d w (failed e, v) h = h
  after-documents d w (returned n, v) h = chunks-documents d v ∙ h

  sync-documents :
      (c : Config) (o : Option Document) (w : Tables)
      → SameDocuments w (extract_document_found c x o w)
  sync-documents c none w = refl
  sync-documents c (some d) w =
      if_both (SameDocuments w)
        (no_chunks (ordered_chunks (in_document d.id) w)
          && not (is_empty (strip (or_text d.raw_text []))))
        _ _
        (after-documents d w (chunk_source_document_sync c fixed d.id w)
          (chunk_sync-OnlyChunks c fixed d.id w).0)
        (chunks-documents d w)

reply-documents :
    (absent : Text) (w : Tables) (out : Result ℕ × Tables)
    → SameDocuments w out
    → SameDocuments w (reply_or absent out)
reply-documents absent w (returned n, v) h = h
reply-documents absent w (failed e, v) h =
    if_both (SameDocuments w) (text_eq e absent) (returned missing, v) (failed e, v) h h

pub extract-documents :
    (c : Config) (x : Extractor) (k : ℕ) (w : Tables)
    → SameDocuments w (extract_entities_for_document c x k w)
unfolding extract_entities_for_document extract_for_document_sync
extract-documents c x k w =
    let out = extract_document_found c x (get_source_document k w.documents) w in
    reply-documents (codes "source_document_not_found") w (settle w out)
      (settle-SameDocuments w out (sync-documents x c (get_source_document k w.documents) w))

-- Entities change only where a number of them is returned.
abbrev pub Kept : Tables → Result ExtractReply × Tables → Type 0
Kept w (returned (extracted n), v) = Unit {0}
Kept w (returned missing, v) = v ≡ w
Kept w (failed e, v) = v ≡ w

pub extract-Kept :
    (c : Config) (x : Extractor) (k : ℕ) (w : Tables)
    → Kept w (extract_entities_for_document c x k w)
unfolding extract_entities_for_document
extract-Kept c x k w =
    go (settle w (extract_for_document_sync c x k w))
      (settle-RolledBack w (extract_for_document_sync c x k w))
  where
    go :
        (out : Result ℕ × Tables)
        → RolledBack w out
        → Kept w (reply_or (codes "source_document_not_found") out)
    go (returned n, v) h = tt
    go (failed e, v) h =
        if_both (Kept w) (text_eq e (codes "source_document_not_found")) (returned missing, v)
          (failed e, v) h h

-- The synchronisation of the interviews writes interview_units only.
abbrev pub OnlyUnits : Tables → Tables → Type 0
OnlyUnits w v = (v.documents ≡ w.documents) × (v.chunks ≡ w.chunks) × (v.entities ≡ w.entities)

pub units-OnlyUnits : (s : Splitter) (k : ℕ) (w : Tables) → OnlyUnits w (sync_interview_units s k w)
unfolding sync_interview_units
units-OnlyUnits s k w = go (get_source_document k w.documents)
  where
    go : (o : Option Document) → OnlyUnits w (sync_found s o w)
    go none = (refl, refl, refl)
    go (some d) =
        if_both (OnlyUnits w) (is_empty (strip (or_text d.raw_text []))) w _ (refl, refl, refl)
          (refl, refl, refl)
