-- ===== src/Documents/Chunks/Rows.antt =====
-- The rows of text_chunks that a document gets.
use mathlib.Core.Path.{subst}
use mathlib.Core.List.{append-nil}
use pr_killer.Prelude.{
  ℕ, zero, suc, ◌+◌, ◌<◌, ◌≡◌, refl, true, false, not, Option, none, some, List, [], ◌∷◌, ◌++◌, map,
  arith, ltb, ◌==◌, length, ==_refl, Bool-cases, inl, inr, if_both,
}
use pr_killer.Text.{Text, codes, strip, is_empty, or_text}
use pr_killer.Chunking.{chunk_text, new_chunker}
use pr_killer.Chunking.Loop.{chunk_text_total}
use pr_killer.Documents.Select.{select-append, delete-append, select-delete, delete-delete}
use pr_killer.Documents.World.{
  Strategy, fixed, Document, Chunk, Tables, Result, returned, failed, settle, get_source_document,
  select_where, delete_where, in_document,
}
use pr_killer.Documents.Chunks.{
  Config, parts_of_text, count_chunks, rows_from, store_document_chunks, existing_chunks,
  chunk_document_found, chunk_source_document_sync, ChunkReply, chunked, noop_already_chunked,
  strategy_of, lacks_key, as_chunked, chunk_document_body, chunk_source_document,
  openai_not_configured, already_processing,
}

pub get_source_document-id :
    (k : ℕ) (ds : List Document) (d : Document) → get_source_document k ds ≡ some d → d.id ≡ k
unfolding get_source_document
get_source_document-id k [] d h = absurd (cc)
get_source_document-id k (q ∷ ds) d h = elim (Bool-cases (q.id == k)) [
  | inl e ↦ (let h' : some q ≡ some d = rw e at h in grind arith)
  | inr e ↦ get_source_document-id k ds d (rw e at h)
]

-- `0, 1, ...` from `i` on, `n` of them.
abbrev pub count_up : ℕ → ℕ → List ℕ
count_up i zero = []
count_up i (suc n) = i ∷ count_up (i + 1) n

module _ (c : Config) (s : Strategy) (p k : ℕ) where
  abbrev rows : ℕ → ℕ → List Text → List Chunk
  rows i next ts = rows_from c s p (some k) none i next ts

  select_where-rows :
      (i next : ℕ) (ts : List Text) → select_where (in_document k) (rows i next ts) ≡ rows i next ts
  unfolding select_where rows_from
  select_where-rows i next [] = refl
  select_where-rows i next (t ∷ ts) =
      rw (==_refl k) (rw (select_where-rows (i + 1) (next + 1) ts) refl)

  delete_where-rows :
      (i next : ℕ) (ts : List Text) → delete_where (in_document k) (rows i next ts) ≡ []
  unfolding delete_where rows_from
  delete_where-rows i next [] = refl
  delete_where-rows i next (t ∷ ts) = rw (==_refl k) (delete_where-rows (i + 1) (next + 1) ts)

  rows-text : (i next : ℕ) (ts : List Text) → map (λ (r : Chunk). r.text) (rows i next ts) ≡ ts
  unfolding rows_from
  rows-text i next [] = refl
  rows-text i next (t ∷ ts) = rw (rows-text (i + 1) (next + 1) ts) refl

  rows-index :
      (i next : ℕ) (ts : List Text)
      → map (λ (r : Chunk). r.chunk_index) (rows i next ts) ≡ count_up i (length ts)
  unfolding rows_from
  rows-index i next [] = refl
  rows-index i next (t ∷ ts) = rw (rows-index (i + 1) (next + 1) ts) refl

  count-rows : (i next : ℕ) (ts : List Text) → count_chunks (rows i next ts) ≡ length ts
  unfolding rows_from
  count-rows i next [] = refl
  count-rows i next (t ∷ ts) = rw (count-rows (i + 1) (next + 1) ts) refl

-- The chunks of a document after they have been stored are the new rows.
stored_rows :
    (c : Config) (s : Strategy) (d : Document) (parts : List Text) (w : Tables)
    → select_where (in_document d.id) (
        delete_where (in_document d.id) w.chunks
        ++ rows_from c s d.project_id (some d.id) none 0 w.next_id parts)
      ≡ rows_from c s d.project_id (some d.id) none 0 w.next_id parts
stored_rows c s d parts w =
    rw
      (
        select-append (in_document d.id) (delete_where (in_document d.id) w.chunks)
            (rows_from c s d.project_id (some d.id) none 0 w.next_id parts),
        select-delete (in_document d.id) w.chunks,
        select_where-rows c s d.project_id d.id 0 w.next_id parts,
      )
      refl

other_rows :
    (c : Config) (s : Strategy) (d : Document) (parts : List Text) (w : Tables)
    → delete_where (in_document d.id) (
        delete_where (in_document d.id) w.chunks
        ++ rows_from c s d.project_id (some d.id) none 0 w.next_id parts)
      ≡ delete_where (in_document d.id) w.chunks
other_rows c s d parts w =
    rw
      (
        delete-append (in_document d.id) (delete_where (in_document d.id) w.chunks)
            (rows_from c s d.project_id (some d.id) none 0 w.next_id parts),
        delete-delete (in_document d.id) w.chunks,
        delete_where-rows c s d.project_id d.id 0 w.next_id parts,
      )
      (append-nil (delete_where (in_document d.id) w.chunks))

-- The number of rows is what the call returns.
abbrev Counted : ℕ → Result ℕ × Tables → Type 0
Counted k (returned n, w) = existing_chunks k w ≡ n
Counted k (failed e, w) = Unit {0}

store-Counted :
    (c : Config) (s : Strategy) (d : Document) (r : Result (List Text)) (w : Tables)
    → Counted d.id (store_document_chunks c s d r w)
unfolding store_document_chunks existing_chunks
store-Counted c s d (failed e) w = tt
store-Counted c s d (returned parts) w =
    rw (stored_rows c s d parts w) (count-rows c s d.project_id d.id 0 w.next_id parts)

found-Counted :
    (c : Config) (s : Strategy) (k : ℕ) (w : Tables) (o : Option Document)
    → get_source_document k w.documents ≡ o
    → Counted k (chunk_document_found c s o w)
found-Counted c s k w none h = tt
found-Counted c s k w (some d) h =
    let raw = strip (or_text d.raw_text []) in
    subst (λ (i : ℕ). Counted i (chunk_document_found c s (some d) w))
      (get_source_document-id k w.documents d h)
      (if_both (Counted d.id) (is_empty raw) (failed (codes "source_document_no_text"), w) _ tt
        (if_both (Counted d.id) (ltb 0 (existing_chunks d.id w))
          (returned (existing_chunks d.id w), w) _ refl
          (store-Counted c s d (parts_of_text c s raw) w)))

sync-Counted :
    (c : Config) (s : Strategy) (k : ℕ) (w : Tables)
    → Counted k (chunk_source_document_sync c s k w)
unfolding chunk_source_document_sync
sync-Counted c s k w = found-Counted c s k w (get_source_document k w.documents) refl

-- A document with a text and without chunks, under the strategy "fixed": the call returns, with the
-- number of parts that `chunk_text` gives for the stripped text; the document's rows have these
-- parts as their texts in order and the numbers from 0 on as their indexes; the rows of all other
-- sources are as before.
pub chunk_document_rows :
    (c : Config) (k : ℕ) (d : Document) (w : Tables)
    → get_source_document k w.documents ≡ some d
    → is_empty (strip (or_text d.raw_text [])) ≡ false
    → existing_chunks d.id w ≡ 0
    → let (r, w') = chunk_source_document_sync c fixed k w in
      let mine = select_where (in_document d.id) w'.chunks in
      (parts : List Text) × (chunk_text
          (new_chunker c.chunk_max_chars c.chunk_overlap_chars)
          (strip (or_text d.raw_text []))
        ≡ some parts)
      × (r ≡ returned (length parts))
      × (map (λ (x : Chunk). x.text) mine ≡ parts)
      × (map (λ (x : Chunk). x.chunk_index) mine ≡ count_up 0 (length parts))
      × (delete_where (in_document d.id) w'.chunks ≡ delete_where (in_document d.id) w.chunks)
unfolding chunk_source_document_sync store_document_chunks parts_of_text
chunk_document_rows c k d w found full fresh =
    let raw = strip (or_text d.raw_text []) in
    let (parts, total, all) = chunk_text_total c.chunk_max_chars c.chunk_overlap_chars raw in
    rw found (
      rw full (
        rw fresh (
          rw total (
            parts,
            refl,
            refl,
            rw (stored_rows c fixed d parts w)
                (rows-text c fixed d.project_id d.id 0 w.next_id parts),
            rw (stored_rows c fixed d parts w)
                (rows-index c fixed d.project_id d.id 0 w.next_id parts),
            other_rows c fixed d parts w,
          ))))

abbrev TaskCounted : ℕ → Result ChunkReply × Tables → Type 0
TaskCounted k (returned (chunked n s), w) = existing_chunks k w ≡ n
TaskCounted k (returned (noop_already_chunked n s), w) = existing_chunks k w ≡ n
TaskCounted k (returned reply, w) = Unit {0}
TaskCounted k (failed e, w) = Unit {0}

as_chunked-TaskCounted :
    (k : ℕ) (s : Strategy) (w : Tables) (out : Result ℕ × Tables)
    → Counted k out
    → TaskCounted k (settle w (as_chunked s out))
as_chunked-TaskCounted k s w (returned n, v) h = h
as_chunked-TaskCounted k s w (failed e, v) h = tt

task-TaskCounted :
    (c : Config) (k : ℕ) (strategy : Text) (w : Tables)
    → TaskCounted k (chunk_source_document c k strategy w)
unfolding chunk_source_document chunk_document_body
task-TaskCounted c k strategy w =
    let s = strategy_of strategy in
    if_both (TaskCounted k) (lacks_key c s) (returned openai_not_configured, w) _ tt
      (if_both (λ (o : Result ChunkReply × Tables). TaskCounted k (settle w o))
        (not (c.advisory_lock_free k)) (returned already_processing, w) _ tt
        (if_both (λ (o : Result ChunkReply × Tables). TaskCounted k (settle w o))
          (ltb 0 (existing_chunks k w)) (returned (noop_already_chunked (existing_chunks k w) s), w)
          _ refl
          (as_chunked-TaskCounted k s w (chunk_source_document_sync c s k w)
            (sync-Counted c s k w))))

-- Once the task has stored at least one chunk of a document, a second run of it, whatever its
-- strategy, finds those chunks and changes nothing: provided that its strategy is configured and the
-- advisory lock is free, it answers with their number and "noop_already_chunked".
pub chunk_document_again :
    (c : Config) (k : ℕ) (first second : Text) (n : ℕ) (s : Strategy) (w w' : Tables)
    → chunk_source_document c k first w ≡ (returned (chunked n s), w')
    → 0 < n
    → lacks_key c (strategy_of second) ≡ false
    → c.advisory_lock_free k ≡ true
    → chunk_source_document c k second w'
      ≡ (returned (noop_already_chunked n (strategy_of second)), w')
unfolding chunk_source_document chunk_document_body
chunk_document_again c k first second n s w w' run pos key lock =
    let count : existing_chunks k w' ≡ n =
      subst (TaskCounted k) run (task-TaskCounted c k first w) in
    let some_rows : ltb 0 n ≡ true = ground arith in rw (key, lock, count, some_rows) refl
