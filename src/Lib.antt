-- ===== src/Lib.antt =====
-- A model of the research service's processing core, with the theorems that make it correct.
--
-- The program takes uploaded documents and recordings of a project, cuts texts into chunks, and
-- works through the project's sources with Celery tasks. The queue's state is a status column in
-- each row of `source_documents` and `source_audios`; a Redis lock per project keeps two runs of
-- the queue's task apart; the pipelines report back when a source is done, and each report asks for
-- another run.
--
-- Prelude and Sort hold what the components share: comparisons, lists over the native numbers, and
-- a stable insertion sort for Python's `sort` and for ORDER BY. Text is Python's `str` as code
-- points.
--
-- Chunking models app/services/chunking_service.py. `iteration` is one round of the loop of
-- `chunk_text`, and `chunk_text` runs it on one unit of fuel more than the text has characters;
-- Chunking/Loop proves that this is enough for every text. Chunking/Window, Chunking/Kept and
-- Chunking/Covered hold the proofs about a single window, the loop and the whole text.
--
-- Queue models app/services/project_queue_service.py and
-- app/workers/tasks/project_processing_queue.py. Queue/Status and Queue/Rows are the columns of
-- app/models/source_document.py and app/models/source_audio.py; Queue/World is the database, the
-- messages that were sent and the environment of a call; Queue/Summary counts the rows by status;
-- Queue/Lock is the Redis lock; Queue/Pick puts sources into the queue and takes the next ones out;
-- Queue/Finalize is what happens when a pipeline is done; Queue/Process is the task itself.
-- Queue/Callbacks takes the pipelines' reports in any order, and Queue/Invariant takes whole
-- histories of reports, runs and requests. A function keeps the source's name without its leading
-- underscore and its _sync or _async.
--
-- Batch models the older queue of a batch, app/services/batch_queue_service.py and
-- app/workers/tasks/batch_processing_queue.py, over the rows of
-- app/models/research_batch_source.py. Batch/Resolve finds the row that a report is about,
-- Batch/Finalize is the reports, Batch/Pick and Batch/Worker the task, Batch/Summary the counts,
-- Batch/Keeps and Batch/Invariant histories of reports and runs, Batch/Advances what a report touches,
-- and Batch/Reopen a late report.
-- The lock is the project queue's, under other keys.
--
-- AudioSplit models app/services/audio_segment_split_service.py: `plan_loop` is the loop over the
-- windows, on one unit of fuel more than the recording has milliseconds, and `attempts` the twelve
-- tries with shorter and shorter windows. AudioSplit/Ends proves that the fuel is enough;
-- AudioSplit/Covered is about what a plan covers. The settings have no field for three of the names
-- that the split reads, so that it raises before the first try, see AudioSplit/Raises.
--
-- AudioMerge models `_try_merge_audio` of app/workers/tasks/audio_segment_pipeline.py, which turns
-- the finished segments of a recording into its transcript; AudioMerge/Once is about a second
-- attempt, AudioMerge/Stored about the transcripts, when no call raises. AudioTasks models the other
-- tasks of the same file on the same tables: `transcribe_audio_segment` in AudioTasks, the fast path
-- in AudioTasks/FastPath and the split in AudioTasks/Split, which takes its plan from AudioSplit. There
-- the calls may raise, by a parameter, and a session in which one does is rolled back
-- (AudioTasks/Committed). AudioTasks/Settled, AudioTasks/Whole, AudioTasks/Deferred and
-- AudioTasks/Failures are about the tables and the calls that the tasks leave.
--
-- Documents models the pipeline of a document. Documents/World is its tables and the session of a
-- task, app/infrastructure/db_sync.py; Documents/Chunks is
-- app/services/processing_orchestrator_service.py and app/workers/tasks/research_processing.py, and
-- Documents/Semantic is app/services/openai_semantic_chunking_service.py; Documents/Extract and
-- Documents/Entities are app/services/research_extraction_service.py, with the helpers of
-- app/services/extraction/mock_provider.py that it calls, and
-- app/workers/tasks/research_extraction.py; Documents/Units is
-- app/services/interview_unit_split_service.py and app/services/interview_units_sync.py;
-- Documents/Pipeline is app/workers/tasks/research_source_full_pipeline.py and
-- app/services/research_document_pipeline_sync.py, whose payload goes to the finalizers of Queue and
-- Batch; Documents/Transcribe is the part for recordings, and Documents/Recovery is
-- app/services/batch_document_pipeline_recovery_service.py. A step takes the tables and gives a
-- result or the text of an exception; an exception rolls the session back. The fuel of `window_loop`
-- is one unit for each character, which Documents/Semantic/Windows proves to be enough.
--
-- Analysis joins them: the run of the pipeline over a document, and the report of its payload to both
-- queues. The three tables share the identifiers of the documents.
--
-- EntityDedup models app/services/entity_deduplication.py. Its groups are a list in the order of the
-- keys, and the assignments to the rows a list of pairs; EntityDedup/Refine compares the result with
-- the rule that a row is linked to the oldest one with its fingerprint.
--
-- AudioProgress models app/services/audio_pipeline_progress_service.py: percentages, stages and the
-- counters of a batch.
--
-- Parameters: Redis is a record of operations with the documented behaviour of SET NX, GET and DEL;
-- the broker is a function that takes or refuses each message; rows that other transactions have
-- locked are a function of the environment; ffprobe and ffmpeg are functions that give a duration
-- and a file size; the answers of language models, of the transcription service and of the
-- extraction provider are functions, and so are the regular expressions for sentences, interviews,
-- headings and speakers. A failing database call, other than by these, is not modelled, and neither are
-- logging, the texts of the log, and the time at which Redis lets a key expire, which may be any.
-- Identifiers and times are numbers; a token stands for a text that no other worker has. Sort
-- orders are numbers from 0 on, as the code gives them out.
--
-- Not modelled: dashboards, reports, the HTTP API, the providers of transcription, extraction and
-- language models, the confidence of an entity and of a language (a hash and floating-point
-- numbers), database migrations and the web client.
pub mod Analysis
pub mod AudioMerge
pub mod AudioProgress
pub mod AudioSplit
pub mod AudioTasks
pub mod Batch
pub mod Chunking
pub mod Documents
pub mod EntityDedup
pub mod Prelude
pub mod Queue
pub mod Sort
pub mod Text
