-- ===== src/Documents/Entities/Counts.antt =====
-- How many entities an extraction leaves.
use mathlib.Core.List.{append_assoc, append-nil}
use pr_killer.Prelude.{
  ℕ, suc, ◌+◌, ◌*◌, ◌≤◌, ◌≡◌, refl, ap, true, false, Option, some, List, [], ◌∷◌, ◌++◌, arith,
  length, length-append,
}
use pr_killer.Text.{Text, strip, is_empty}
use pr_killer.Queue.Pick.Sound.{All, All-append}
use pr_killer.Documents.World.{
  Document, Chunk, Candidate, Entity, Tables, returned, get_source_document, select_where,
  delete_where, in_document,
}
use pr_killer.Documents.Select.{select-append, delete-append, select-delete, delete-delete}
use pr_killer.Documents.Chunks.{Config}
use pr_killer.Documents.Extract.{Extractor, finalize_chunk_entities}
use pr_killer.Documents.Extract.Bounds.{IsShort, finalize_bounded}
use pr_killer.Documents.Entities.{
  persist, add_entities, extract_for_chunks, ordered_chunks, of_document, extract_again, no_chunks,
  extract_for_document_sync,
}

-- The provider returns candidates, whatever it is given.
abbrev pub Answers : Extractor → Type 0
Answers x =
    (t : Text) (i : ℕ) (f : Option Text)
    → (raw : List Candidate) × (x.extract_from_chunk t i f ≡ returned raw)

-- A chunk of document `k` whose text is not blank.
abbrev pub IsReady : ℕ → Chunk → Type 0
IsReady k c = (in_document k c ≡ true) × (is_empty (strip c.text) ≡ false)

-- An entity of document `k` with a content of at most 300 characters.
abbrev pub IsFound : ℕ → Entity → Type 0
IsFound k e = (of_document k e ≡ true) × IsShort e.candidate

persist-IsFound :
    (k : ℕ) (c : Chunk) (cs : List Candidate)
    → in_document k c ≡ true
    → All IsShort cs
    → All (IsFound k) (persist c cs)
unfolding persist
persist-IsFound k c [] h s = tt
persist-IsFound k c (x ∷ xs) h s = ((h, s.0), persist-IsFound k c xs h s.1)

length-persist : (c : Chunk) (cs : List Candidate) → length (persist c cs) ≡ length cs
unfolding persist
length-persist c [] = refl
length-persist c (x ∷ xs) = ap suc (length-persist c xs)

-- The loop adds `n` entities of the document, one to eight for each chunk.
abbrev pub Adds : ℕ → ℕ → ℕ → List Entity → Type 0
Adds k chunks n new = All (IsFound k) new × (length new ≡ n) × (chunks ≤ n) × (n ≤ 8 * chunks)

loop-Adds :
    (x : Extractor) (k : ℕ) (f : Option Text) (cs : List Chunk) (w : Tables)
    → Answers x
    → All (IsReady k) cs
    → (n : ℕ) × (new : List Entity) × (extract_for_chunks x f cs w
        ≡ (returned n, record w { entities = w.entities ++ new }))
      × Adds k (length cs) n new
unfolding extract_for_chunks
loop-Adds x k f [] w ans h =
    (0, [], rw (append-nil w.entities) refl, (tt, refl, omega arith, omega arith))
loop-Adds x k f (c ∷ cs) w ans h =
    let (raw, given) = ans c.text c.chunk_index f in
    let found = finalize_chunk_entities x c.text raw f in
    let b = finalize_bounded x c.text raw f h.0.1 in
    let w1 = add_entities c found w in
    let (n, new, run, adds) = loop-Adds x k f cs w1 ans h.1 in
    let new' = persist c found ++ new in
    let assoc : (w.entities ++ persist c found) ++ new ≡ w.entities ++ new' =
      append_assoc w.entities (persist c found) new in
    (
      length found + n,
      new',
      rw given (rw run (rw assoc refl)),
      (
        All-append (IsFound k) (persist c found) new (persist-IsFound k c found h.0.0 b.0) adds.0,
        omega (arith, adds.1, length-append {0} (persist c found) new, length-persist c found),
        omega (arith, adds.2, b.1),
        omega (arith, adds.2, b.1),
      ),
    )

select-IsFound :
    (k : ℕ) (es : List Entity) → All (IsFound k) es → select_where (of_document k) es ≡ es
unfolding select_where
select-IsFound k [] h = refl
select-IsFound k (e ∷ es) h = rw (h.0.0, select-IsFound k es h.1) refl

delete-IsFound :
    (k : ℕ) (es : List Entity) → All (IsFound k) es → delete_where (of_document k) es ≡ []
unfolding delete_where
delete-IsFound k [] h = refl
delete-IsFound k (e ∷ es) h = rw h.0.0 (delete-IsFound k es h.1)

-- Where a document has chunks, none of them is blank and the provider answers, the extraction
-- returns the number of entities that the document then has: at least one and at most eight for
-- each chunk, each with a stripped content of at most 300 characters. The older entities of the
-- document are gone, the entities of all other sources are as before, and so are the chunks.
pub extraction_replaces :
    (c : Config) (x : Extractor) (k : ℕ) (d : Document) (w : Tables)
    → Answers x
    → get_source_document k w.documents ≡ some d
    → no_chunks (ordered_chunks (in_document d.id) w) ≡ false
    → All (IsReady d.id) (ordered_chunks (in_document d.id) w)
    → let (r, w') = extract_for_document_sync c x k w in
      let mine = select_where (of_document d.id) w'.entities in
      let count = length (ordered_chunks (in_document d.id) w) in
      (n : ℕ) × (r ≡ returned n)
      × Adds d.id count n mine
      × (delete_where (of_document d.id) w'.entities ≡ delete_where (of_document d.id) w.entities)
      × (w'.chunks ≡ w.chunks)
unfolding extract_for_document_sync extract_again
extraction_replaces c x k d w ans found some_chunks ready =
    let cs = ordered_chunks (in_document d.id) w in
    let kept = delete_where (of_document d.id) w.entities in
    let w0 = record w { entities = kept } in
    let (n, new, run, adds) = loop-Adds x d.id (some d.filename) cs w0 ans ready in
    let mine : select_where (of_document d.id) (kept ++ new) ≡ new =
      rw
        (
          select-append (of_document d.id) kept new,
          select-delete (of_document d.id) w.entities,
          select-IsFound d.id new adds.0,
        )
        refl in
    let others : delete_where (of_document d.id) (kept ++ new) ≡ kept =
      rw
        (
          delete-append (of_document d.id) kept new,
          delete-delete (of_document d.id) w.entities,
          delete-IsFound d.id new adds.0,
        )
        (append-nil kept) in
    rw (found, some_chunks, run) (n, refl, rw mine adds, others, refl)
