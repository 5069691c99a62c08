-- ===== src/Documents/Units.antt =====
-- app/services/interview_unit_split_service.py and app/services/interview_units_sync.py: a document
-- is split into interviews. The regular expressions for markers, headings and speakers, and the
-- language model, are parameters; the confidence of a language is left out.
pub mod Blocks
pub mod Synced
use pr_killer.Prelude.{
  ℕ, zero, suc, ◌+◌, ◌*◌, ◌/◌, max, Bool, true, false, not, ◌&&◌, ◌||◌, Option, none, some, List,
  [], ◌∷◌, ◌++◌, map, take, ltb, leb, ◌==◌, length, if◌then◌else◌,
}
use pr_killer.Text.{Text, codes, strip, is_empty, or_text}
use pr_killer.AudioMerge.{join_parts}
use pr_killer.Documents.World.{
  Document, UnitDraft, InterviewUnit, Tables, get_source_document, delete_where,
}

pub record Splitter : Type 0 where
  -- `_MARKER_SPLIT.split(text)` and the split at numbered headings
  pub marker_split : Text → List Text
  pub heading_split : Text → List Text
  -- the first group of the first line that names a speaker
  pub speaker_line : Text → Option Text
  -- whether there is an API key, and the texts of the interviews in the model's answer, an item that
  -- is no dictionary being an empty text
  pub has_key : Bool
  pub llm_interviews : Text → Option (List Text)

-- The letters that the three patterns of `_detect_language` match.
unfoldable pub is_cyrillic : ℕ → Bool
is_cyrillic c =
    (leb 0x410 c && leb c 0x44f)
    || c == 0x401
    || c == 0x451
    || c == 0x40e
    || c == 0x45e
    || c == 0x49a
    || c == 0x49b
    || c == 0x492
    || c == 0x493
    || c == 0x4b2
    || c == 0x4b3

unfoldable pub is_latin : ℕ → Bool
is_latin c = (leb 65 c && leb c 90) || (leb 97 c && leb c 122)

unfoldable pub is_apostrophe : ℕ → Bool
is_apostrophe c = c == 0x2bb || c == 0x2bc || c == 0x2018 || c == 39 || c == 96

unfoldable pub count_if : (ℕ → Bool) → Text → ℕ
count_if test [] = 0
count_if test (c ∷ s) = let n = count_if test s in if test c then suc n else n

-- The ratios are compared with cleared denominators.
unfoldable pub detect_language : Text → Text
unfolding count_if is_cyrillic is_latin is_apostrophe strip
detect_language t =
    let cyr = count_if is_cyrillic t in
    let lat = count_if is_latin t in
    let ogh = count_if is_apostrophe t in
    let total = max 1 (cyr + lat) in
    if is_empty (strip t)
    then codes "unknown"
    else if ltb (35 * total) (100 * cyr) && ltb (20 * total) (100 * lat)
    then codes "mixed"
    else if leb 3 ogh && ltb (25 * total) (100 * lat)
    then codes "uz"
    else if ltb (45 * total) (100 * cyr)
    then codes "ru"
    else if ltb (45 * total) (100 * lat)
    then codes "en"
    else codes "mixed"

abbrev pub speaker_of : Option Text → Option Text
speaker_of none = none
speaker_of (some s) = let t = take 512 (strip s) in if is_empty t then none else some t

-- `[p.strip() for p in parts if p.strip()]`
unfoldable pub strip_parts : List Text → List Text
unfolding strip
strip_parts [] = []
strip_parts (t ∷ ts) =
    let rest = strip_parts ts in if is_empty (strip t) then rest else strip t ∷ rest

abbrev pub at_least_two : List Text → Option (List Text)
at_least_two parts = if leb 2 (length parts) then some parts else none

unfoldable pub split_by_markers : Splitter → Text → Option (List Text)
unfolding strip_parts strip
split_by_markers x raw =
    let text = strip raw in
    if is_empty text then none else at_least_two (strip_parts (x.marker_split text))

abbrev pub all_longer : ℕ → List Text → Bool
all_longer n [] = true
all_longer n (t ∷ ts) = ltb n (length t) && all_longer n ts

unfoldable pub split_by_numbered_headings : Splitter → Text → Option (List Text)
unfolding strip_parts strip
split_by_numbered_headings x raw =
    let text = strip raw in
    let parts = strip_parts (x.heading_split text) in
    if is_empty text || ltb (length text) 1200
    then none
    else if leb 2 (length parts) && all_longer 200 (take 3 parts)
    then some parts
    else none

abbrev pub newlines : ℕ → Text
newlines zero = []
newlines (suc n) = 10 ∷ newlines n

-- `re.split(r"\n{2,}", text)`; `n` line feeds are pending behind `cur`.
unfoldable pub split_runs : ℕ → Text → Text → List Text
split_runs n cur [] = if leb 2 n then cur ∷ [] ∷ [] else (cur ++ newlines n) ∷ []
split_runs n cur (c ∷ s) =
    let breaks = not (c == 10) && leb 2 n in
    let rest =
      split_runs (if c == 10 then n + 1 else 0)
        (if c == 10 then cur else if breaks then c ∷ [] else cur ++ newlines n ++ c ∷ []) s in
    if breaks then cur ∷ rest else rest

unfoldable pub paragraphs : Text → List Text
unfolding split_runs strip_parts
paragraphs text = strip_parts (split_runs 0 [] text)

-- The variables of the loop of `_split_heuristic_blocks`.
pub record Buffer : Type 0 where
  pub blocks : List Text
  pub buf : List Text
  pub buf_len : ℕ

abbrev pub is_nil : List Text → Bool
is_nil [] = true
is_nil (t ∷ ts) = false

-- One paragraph, with min_block = 900 and max_block = 14000.
unfoldable pub add_paragraph : Text → Buffer → Buffer
add_paragraph p b =
    let ln = length p in
    let buf' = b.buf ++ p ∷ [] in
    let len' = b.buf_len + ln + 2 in
    if ltb 14000 (b.buf_len + ln) && not (is_nil b.buf)
    then record { blocks = b.blocks ++ join_parts b.buf ∷ []; buf = p ∷ []; buf_len = ln }
    else if leb 900 len' && leb 2 (length buf')
    then record { blocks = b.blocks ++ join_parts buf' ∷ []; buf = []; buf_len = 0 }
    else record { blocks = b.blocks; buf = buf'; buf_len = len' }

-- `blocks[-1] = blocks[-1] + "\n\n" + tail`
unfoldable pub extend_last : List Text → Text → List Text
extend_last [] tail = tail ∷ []
extend_last (b ∷ []) tail = (b ++ 10 ∷ 10 ∷ tail) ∷ []
extend_last (b ∷ c ∷ bs) tail = b ∷ extend_last (c ∷ bs) tail

unfoldable pub finish_blocks : Buffer → List Text
unfolding extend_last
finish_blocks b =
    let tail = join_parts b.buf in
    if is_nil b.buf
    then b.blocks
    else if not (is_nil b.blocks) && ltb (length tail) 450
    then extend_last b.blocks tail
    else b.blocks ++ tail ∷ []

unfoldable pub add_paragraphs : List Text → Buffer → Buffer
unfolding add_paragraph
add_paragraphs [] b = b
add_paragraphs (p ∷ ps) b = add_paragraphs ps (add_paragraph p b)

abbrev pub keep_not_blank : List Text → List Text
keep_not_blank [] = []
keep_not_blank (b ∷ bs) =
    let rest = keep_not_blank bs in if is_empty (strip b) then rest else b ∷ rest

abbrev pub no_buffer : Buffer
no_buffer = record { blocks = []; buf = []; buf_len = 0 }

abbrev pub blocks_of : Text → List Text → List Text
blocks_of text [] = text ∷ []
blocks_of text (p ∷ ps) = keep_not_blank (finish_blocks (add_paragraphs (p ∷ ps) no_buffer))

unfoldable pub split_heuristic_blocks : Text → List Text
unfolding paragraphs add_paragraphs finish_blocks strip
split_heuristic_blocks raw =
    let text = strip raw in if is_empty text then [] else blocks_of text (paragraphs text)

-- The model sees the first 24000 characters.
abbrev pub two_interviews : Option (List Text) → Option (List Text)
two_interviews none = none
two_interviews (some ts) = if leb 2 (length ts) then at_least_two (strip_parts ts) else none

unfoldable pub llm_split_interviews : Splitter → Text → Option (List Text)
unfolding strip_parts
llm_split_interviews x raw =
    if not x.has_key || ltb (length raw) 12000
    then none
    else two_interviews (x.llm_interviews (take 24000 raw))

-- The parts and the method that found them.
abbrev pub or_next : Option (List Text) → Text → List Text × Text → List Text × Text
or_next (some parts) method later = (parts, method)
or_next none method later = later

unfoldable pub find_parts : Splitter → Text → List Text × Text
unfolding split_by_markers split_by_numbered_headings llm_split_interviews split_heuristic_blocks
find_parts x text = or_next (split_by_markers x text) (codes "marker") (
    or_next (split_by_numbered_headings x text) (codes "numbered_heading") (
      or_next (llm_split_interviews x text) (codes "llm")
        (split_heuristic_blocks text, codes "heuristic")))

abbrev pub draft : Splitter → ℕ → Text → Text → Option ℕ → UnitDraft
draft x i method text rank = record {
  unit_index = i;
  speaker = speaker_of (x.speaker_line text);
  language = detect_language text;
  split_method = method;
  raw_text = text;
  marker_rank = rank;
}

-- `unit_index=len(drafts)`; `i` counts the parts.
unfoldable pub drafts_from : Splitter → Text → ℕ → ℕ → List Text → List UnitDraft
unfolding detect_language strip
drafts_from x method i made [] = []
drafts_from x method i made (t ∷ ts) =
    let b = strip t in
    let blank = is_empty b in
    let rest = drafts_from x method (i + 1) (if blank then made else made + 1) ts in
    if blank then rest else draft x made method b (some i) ∷ rest

abbrev pub drafts_of : Splitter → Text → List Text × Text → List UnitDraft
drafts_of x text (parts, method) =
    if ltb (length parts) 2
    then draft x 0 (codes "single") text none ∷ []
    else drafts_from x method 0 0 parts

unfoldable pub build_interview_unit_drafts : Splitter → Text → Bool → List UnitDraft
unfolding find_parts drafts_from detect_language strip
build_interview_unit_drafts x raw multi =
    let text = strip raw in
    if is_empty text
    then []
    else if not multi
    then draft x 0 (codes "collapsed") text none ∷ []
    else drafts_of x text (find_parts x text)

unfoldable pub drafts_to_rows : ℕ → ℕ → List UnitDraft → List InterviewUnit
drafts_to_rows p k [] = []
drafts_to_rows p k (d ∷ ds) =
    record { project_id = p; source_document_id = k; draft = d } ∷ drafts_to_rows p k ds

abbrev pub flag_or : Option Bool → Bool → Bool
flag_or none default = default
flag_or (some b) default = b

abbrev pub unit_of : ℕ → InterviewUnit → Bool
unit_of k u = u.source_document_id == k

abbrev pub sync_found : Splitter → Option Document → Tables → Tables
sync_found x none w = w
sync_found x (some d) w =
    let raw = strip (or_text d.raw_text []) in
    if is_empty raw then w else record w {
      interview_units =
          delete_where (unit_of d.id) w.interview_units
          ++ drafts_to_rows d.project_id d.id
              (build_interview_unit_drafts x raw (flag_or d.single_file_multi_interview_mode true));
    }

-- `sync_interview_units_for_document_sync`
unfoldable pub sync_interview_units : Splitter → ℕ → Tables → Tables
unfolding build_interview_unit_drafts drafts_to_rows delete_where get_source_document strip or_text
sync_interview_units x k w = sync_found x (get_source_document k w.documents) w
