-- ===== src/Batch/Resolve.antt =====
-- `_resolve_document_batch_row` and `_resolve_audio_batch_row`: the row that a report is about.
use pr_killer.Prelude.{
  ℕ, ◌≡◌, refl, Bool, true, false, ◌&&◌, Option, none, some, List, [], ◌∷◌, arith, leb, ◌==◌,
  if◌then◌else◌, Bool-cases, inl, inr,
}
use pr_killer.Sort.{sort}
use pr_killer.Queue.Status.{Kind, document, audio, is_processing}
use pr_killer.Batch.World.{
  BatchRow, RawId, absent, malformed, uuid, BatchAnalysis, Metadata, get_row,
  merge_batch_analysis_metadata,
}

-- `if row is not None and row.batch_id == batch_id`
abbrev pub row_of_batch : ℕ → Option BatchRow → Option (BatchRow × ℕ)
row_of_batch b none = none
row_of_batch b (some r) = if r.batch_id == b then some (r, b) else none

abbrev pub by_ids : List BatchRow → RawId → RawId → Option (BatchRow × ℕ)
by_ids rs (uuid row) (uuid b) = row_of_batch b (get_row row rs)
by_ids rs _ _ = none

-- The row that the metadata names, if there is one.
unfoldable pub by_metadata : List BatchRow → Option BatchAnalysis → Option (BatchRow × ℕ)
unfolding get_row
by_metadata rs none = none
by_metadata rs (some a) = by_ids rs a.batch_source_row_id a.batch_id

abbrev pub is_key : Option ℕ → ℕ → Bool
is_key none k = false
is_key (some j) k = j == k

abbrev pub key_of : Kind → BatchRow → Option ℕ
key_of document r = r.source_document_id
key_of audio r = r.source_audio_id

unfoldable pub running_rows : Kind → ℕ → List BatchRow → List BatchRow
running_rows kind k [] = []
running_rows kind k (r ∷ rs) =
    let rest = running_rows kind k rs in
    if is_key (key_of kind r) k && is_processing r.processing_status then r ∷ rest else rest

abbrev pub newer : BatchRow → BatchRow → Bool
newer a b = leb b.created_at a.created_at

abbrev pub first_row : List BatchRow → Option (BatchRow × ℕ)
first_row [] = none
first_row (r ∷ rs) = some (r, r.batch_id)

-- `ORDER BY created_at DESC LIMIT 1`
unfoldable pub by_foreign_key : Kind → ℕ → List BatchRow → Option (BatchRow × ℕ)
unfolding running_rows
by_foreign_key kind k rs = first_row (sort newer (running_rows kind k rs))

abbrev pub or_else : Option (BatchRow × ℕ) → Option (BatchRow × ℕ) → Option (BatchRow × ℕ)
or_else none b = b
or_else (some a) b = some a

unfoldable pub resolve_batch_row : Kind → ℕ → Metadata → List BatchRow → Option (BatchRow × ℕ)
unfolding by_metadata by_foreign_key
resolve_batch_row kind k m rs = or_else (by_metadata rs m.batch_analysis) (by_foreign_key kind k rs)

-- A resolved row belongs to the batch that is named with it.
abbrev pub Belongs : Option (BatchRow × ℕ) → Type 0
Belongs none = Unit {0}
Belongs (some (r, b)) = r.batch_id ≡ b

by_ids-Belongs : (rs : List BatchRow) (row b : RawId) → Belongs (by_ids rs row b)
by_ids-Belongs rs absent b = tt
by_ids-Belongs rs malformed b = tt
by_ids-Belongs rs (uuid row) absent = tt
by_ids-Belongs rs (uuid row) malformed = tt
by_ids-Belongs rs (uuid row) (uuid b) = go (get_row row rs)
  where
    go : (o : Option BatchRow) → Belongs (row_of_batch b o)
    go none = tt
    go (some r) = elim (Bool-cases (r.batch_id == b)) [
      | inl e ↦ rw e (ground arith)
      | inr e ↦ rw e tt
    ]

-- Whatever the metadata says, the batch that is found with a row is the batch that the row is in.
pub resolve-Belongs :
    (kind : Kind) (k : ℕ) (m : Metadata) (rs : List BatchRow)
    → Belongs (resolve_batch_row kind k m rs)
unfolding resolve_batch_row by_metadata by_foreign_key
resolve-Belongs kind k m rs = go m.batch_analysis
  where
    first : (qs : List BatchRow) → Belongs (first_row qs)
    first [] = tt
    first (q ∷ qs) = refl

    else_first :
        (o : Option (BatchRow × ℕ))
        → Belongs o
        → Belongs (or_else o (first_row (sort newer (running_rows kind k rs))))
    else_first none h = first (sort newer (running_rows kind k rs))
    else_first (some (r, b)) h = h

    go :
        (a : Option BatchAnalysis)
        → Belongs (or_else (by_metadata rs a) (first_row (sort newer (running_rows kind k rs))))
    go none = first (sort newer (running_rows kind k rs))
    go (some a) =
        else_first (by_ids rs a.batch_source_row_id a.batch_id)
          (by_ids-Belongs rs a.batch_source_row_id a.batch_id)

-- What `merge_batch_analysis_metadata` writes is what a report finds: the row of that key, whatever
-- its status is, if the row is there and still is in that batch.
pub merge-resolve :
    (kind : Kind) (k batch row : ℕ) (multi : Bool) (m : Metadata) (rs : List BatchRow)
    (r : BatchRow)
    → get_row row rs ≡ some r
    → r.batch_id ≡ batch
    → resolve_batch_row kind k (merge_batch_analysis_metadata m batch row multi) rs
      ≡ some (r, batch)
unfolding resolve_batch_row merge_batch_analysis_metadata by_metadata
merge-resolve kind k batch row multi m rs r found inside =
    let same : r.batch_id == batch ≡ true = ground arith in rw found (rw same refl)
