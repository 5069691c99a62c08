-- ===== src/Chunking.antt =====
-- app/services/chunking_service.py: `ChunkingService` cuts a text into overlapping windows that end
-- at a space or a line break where one stands late enough in the window.
-- `iteration` is one round of `while start < n`; `chunk_loop` repeats it on fuel, `none` meaning that
-- the fuel ran out. The proofs are in the modules below.
pub mod Window
pub mod Loop
pub mod Kept
pub mod Covered
pub mod Inked
pub mod Tests
use pr_killer.Prelude.{
  ℕ, zero, suc, ◌+◌, ◌-◌, ◌*◌, ◌/◌, ◌≤◌, min, max, Bool, true, false, Option, none, some, List, [],
  ◌∷◌, ◌++◌, leb, ltb, ◌==◌, ◌||◌, length, drop, if◌then◌else◌,
}
use mathlib.Core.Option
use pr_killer.Text.{Text, is_empty, strip, slice, rfind, is_space}

pub record Chunker : Type 0 where
  pub max_chars : ℕ
  pub overlap_chars : ℕ

-- `__init__`; a negative argument is raised to 1 or 0 as 0 is.
unfoldable pub new_chunker : ℕ → ℕ → Chunker
new_chunker max_chars overlap =
    let m = max 1 max_chars in
    record { max_chars = m; overlap_chars = if leb m overlap then max 0 (m - 1) else overlap }

-- text[next_start] in " \n\t\r"
unfoldable pub is_blank : ℕ → Bool
is_blank c = c == 32 || c == 10 || c == 9 || c == 13

-- `max(lb, nl)`, where -1 is `none`.
abbrev pub latest : Option ℕ → Option ℕ → Option ℕ
latest none b = b
latest (some i) none = some i
latest (some i) (some j) = some (max i j)

abbrev pub min_break : Chunker → ℕ
min_break k = max 1 (k.max_chars * 4 / 10)

-- `if brk >= min_break: end = start + brk`
abbrev pub shortened : ℕ → ℕ → ℕ → Option ℕ → ℕ
shortened lo start end none = end
shortened lo start end (some brk) = if leb lo brk then start + brk else end

-- The end of the window that begins at `start`.
unfoldable pub window_end : Chunker → Text → ℕ → ℕ
window_end k text start =
    let n = length text in
    let end = min n (start + k.max_chars) in
    let segment = slice start end text in
    if ltb end n
    then shortened (min_break k) start end (latest (rfind 32 segment) (rfind 10 segment))
    else end

-- `while next_start < n and text[next_start] in " \n\t\r"`, over the text from `next_start` on.
unfoldable pub skip_blank : Text → ℕ → ℕ
skip_blank [] i = i
skip_blank (c ∷ rest) i = if is_blank c then skip_blank rest (i + 1) else i

-- `next_start` before the skip. `end - ov` is negative in the source where it is 0 here, and at most
-- `start` either way.
unfoldable pub resume_at : Chunker → ℕ → ℕ → ℕ
resume_at k start end =
    let back = end - k.overlap_chars in if leb back start then start + 1 else back

-- `next_start` after the skip.
unfoldable pub next_start : Chunker → Text → ℕ → ℕ → ℕ
next_start k text start end = let from = resume_at k start end in skip_blank (drop from text) from

-- What a round appends, and whether the loop goes on, and from where.
pub data Iteration : Type 0 where
  stop : List Text → Iteration
  go_on : List Text → ℕ → Iteration

-- From `if end >= n: break` on; `pieces` is what the round has appended.
unfoldable pub advance : Chunker → Text → ℕ → ℕ → List Text → Iteration
advance k text start end pieces =
    let n = length text in
    let next = next_start k text start end in
    if leb n end
    then stop pieces
    else if leb n next
    then stop pieces
    else if leb next start
    then go_on pieces (min n (start + k.max_chars))
    else go_on pieces next

unfoldable pub iteration : Chunker → Text → ℕ → Iteration
unfolding advance
iteration k text start =
    let n = length text in
    let end = window_end k text start in
    let piece = strip (slice start end text) in
    if leb n start
    then stop []
    else if is_empty piece
    then (if ltb end n then go_on [] (min n (start + k.max_chars)) else advance k text start end [])
    else advance k text start end (piece ∷ [])

abbrev pub resume : Iteration → (ℕ → Option (List Text)) → Option (List Text)
resume (stop pieces) rec = some pieces
resume (go_on pieces next) rec = Option.map (λ rest. pieces ++ rest) (rec next)

pub chunk_loop : ℕ → Chunker → Text → ℕ → Option (List Text)
chunk_loop zero k text start = none
chunk_loop (suc fuel) k text start =
    resume (iteration k text start) (λ next. chunk_loop fuel k text next)

-- `chunk_text`, with the early returns. One more round than the text has characters is enough.
unfoldable pub chunk_text : Chunker → Text → Option (List Text)
unfolding chunk_loop iteration window_end rfind next_start skip_blank resume_at is_blank strip
    is_space
chunk_text k raw =
    let text = strip raw in
    if is_empty text
    then some []
    else if leb (length text) k.max_chars
    then some (text ∷ [])
    else chunk_loop (suc (length text)) k text 0
