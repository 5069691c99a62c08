-- ===== src/Documents/Samples.antt =====
-- A small document, and services that answer with nothing, for the tests.
use pr_killer.Prelude.{true, false, none, some, [], ◌∷◌, refl}
use pr_killer.Text.{codes}
use pr_killer.Documents.World.{Document, AudioFile, Tables, returned, failed}
use pr_killer.Documents.Semantic.{Semantic, content, segments}
use pr_killer.Documents.Chunks.{Config}
use pr_killer.Documents.Extract.{Extractor}
use pr_killer.Documents.Entities.Counts.{Answers}
use pr_killer.Documents.Units.{Splitter}
use pr_killer.Documents.Pipeline.{Worker}

abbrev pub no_model : Semantic
no_model = record {
  api_key = none;
  model = codes "gpt-4o-mini";
  window = 4000;
  complete = λ t. content none;
  read = λ t. segments [];
}

abbrev pub small : Config
small = record {
  chunk_max_chars = 10;
  chunk_overlap_chars = 2;
  semantic = no_model;
  file_bytes = λ p. none;
  transcribe = λ b t a. failed (codes "no service");
  advisory_lock_free = λ k. true;
}

-- A provider that finds nothing, and no sentence pattern that matches.
abbrev pub silent : Extractor
silent = record { extract_from_chunk = λ t i f. returned []; sentence_spans = λ t. [] }

pub silent-Answers : Answers silent
silent-Answers t i f = ([], refl)

abbrev pub no_markers : Splitter
no_markers = record {
  marker_split = λ t. t ∷ [];
  heading_split = λ t. t ∷ [];
  speaker_line = λ t. none;
  has_key = false;
  llm_interviews = λ t. none;
}

abbrev pub worker : Worker
worker = record {
  config = small;
  extractor = silent;
  splitter = no_markers;
  now = codes "now";
  repr = λ t. t;
}

abbrev pub report : Document
report = record {
  id = 7;
  project_id = 1;
  filename = codes "a.txt";
  raw_text = some (codes " one two three  four ");
  pipeline_state_json = record {
    phase = none;
    progress_percent = none;
    updated_at = none;
    extraction = none;
    last_error = none;
  };
  single_file_multi_interview_mode = none;
}

abbrev pub talk : AudioFile
talk = record {
  id = 3;
  project_id = 1;
  filename = codes "a.mp3";
  original_path = none;
  mime_type = none;
  language = none;
}

abbrev pub one_document : Tables
one_document = record {
  documents = report ∷ [];
  audios = talk ∷ [];
  transcripts = [];
  transcript_segments = [];
  chunks = [];
  entities = [];
  interview_units = [];
  next_id = 100;
}
