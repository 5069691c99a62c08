-- ===== src/Queue.antt =====
-- The project queue: app/services/project_queue_service.py and
-- app/workers/tasks/project_processing_queue.py, over the rows of app/models/source_document.py and
-- app/models/source_audio.py.
pub mod Status
pub mod Rows
pub mod Summary
pub mod Lock
pub mod Pick
pub mod World
pub mod Finalize
pub mod Process
pub mod Callbacks
pub mod Invariant
mod Tests
