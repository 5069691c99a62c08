-- ===== src/Documents/Semantic.antt =====
-- app/services/openai_semantic_chunking_service.py: a text is cut into windows, and a language model
-- cuts each window. The model's answer and the reading of its JSON are parameters.
pub mod Windows
use pr_killer.Prelude.{
  ℕ, zero, suc, ◌+◌, Option, none, some, List, [], ◌∷◌, ◌++◌, leb, length, if◌then◌else◌,
}
use pr_killer.Text.{Text, codes, strip, is_empty, slice, or_text}
use pr_killer.Documents.World.{Result, returned, failed}

-- `chat.completions.create`: an exception, or the content of the first choice.
pub data Completion : Type 0 where
  refused : Text → Completion
  content : Option Text → Completion

-- The content read as JSON and validated as `_SegmentsResponse`.
pub data Reading : Type 0 where
  bad_json bad_shape : Text → Reading
  segments : List Text → Reading

pub record Semantic : Type 0 where
  pub api_key : Option Text
  pub model : Text
  pub window : ℕ
  pub complete : Text → Completion
  pub read : Text → Reading

-- `[text[i : i + window] for i in range(0, len(text), window)]` from `i` on. One unit of fuel for each
-- character of the text is enough.
unfoldable pub window_loop : ℕ → ℕ → ℕ → Text → List Text
window_loop zero window i text = []
window_loop (suc fuel) window i text =
    let rest = window_loop fuel window (i + window) text in
    if leb (length text) i then [] else slice i (i + window) text ∷ rest

unfoldable pub windows : ℕ → Text → List Text
unfolding window_loop
windows window text =
    if leb (length text) window then text ∷ [] else window_loop (length text) window 0 text

-- `[s.text.strip() for s in parsed.segments if s.text.strip()]`
unfoldable pub stripped_texts : List Text → List Text
unfolding strip
stripped_texts [] = []
stripped_texts (t ∷ ts) =
    let rest = stripped_texts ts in if is_empty (strip t) then rest else strip t ∷ rest

unfoldable pub parse_segments : Reading → Result (List Text)
unfolding stripped_texts
parse_segments (bad_json e) = failed (codes "openai_semantic_invalid_json: " ++ e)
parse_segments (bad_shape e) = failed (codes "openai_semantic_invalid_shape: " ++ e)
parse_segments (segments ts) = returned (stripped_texts ts)

abbrev pub some_segments : Result (List Text) → Result (List Text)
some_segments (failed e) = failed e
some_segments (returned []) = failed (codes "openai_semantic_no_segments")
some_segments (returned (t ∷ ts)) = returned (t ∷ ts)

abbrev pub read_content : Semantic → Text → Result (List Text)
read_content s raw =
    if is_empty raw
    then failed (codes "openai_semantic_empty_response")
    else some_segments (parse_segments (s.read raw))

unfoldable pub split_completion : Semantic → Completion → Result (List Text)
unfolding parse_segments or_text
split_completion s (refused e) = failed e
split_completion s (content raw) = read_content s (or_text raw [])

-- The comparison of the joined segments with the window is only logged.
unfoldable pub split_window : Semantic → Text → Result (List Text)
unfolding split_completion
split_window s text = split_completion s (s.complete text)

-- The first failure ends the loop.
abbrev pub append_parts : Result (List Text) → Result (List Text) → Result (List Text)
append_parts (failed e) rest = failed e
append_parts (returned ps) (failed e) = failed e
append_parts (returned ps) (returned qs) = returned (ps ++ qs)

unfoldable pub split_windows : Semantic → List Text → Result (List Text)
unfolding split_window
split_windows s [] = returned []
split_windows s (t ∷ ts) = append_parts (split_window s t) (split_windows s ts)

unfoldable pub chunk_full_text : Semantic → Text → Result (List Text)
unfolding split_windows windows strip
chunk_full_text s raw =
    let text = strip raw in
    if is_empty text then returned [] else split_windows s (windows s.window text)

-- `OpenAISemanticChunkingService(settings).chunk_full_text(text)`, the constructor's check included.
unfoldable pub semantic_chunks : Semantic → Text → Result (List Text)
unfolding chunk_full_text
semantic_chunks s text =
    if is_empty (strip (or_text s.api_key []))
    then failed (codes "openai_api_key_missing")
    else chunk_full_text s text
