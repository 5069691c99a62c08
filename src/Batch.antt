-- ===== src/Batch.antt =====
-- The batch queue: app/services/batch_queue_service.py and app/workers/tasks/batch_processing_queue.py.
-- A batch's rows carry their own status; a pipeline's report finds its row by the `_batch_analysis`
-- entry in the metadata of the document or recording, or else by the foreign key.
pub mod World
pub mod Advances
pub mod Resolve
pub mod Finalize
pub mod Pick
pub mod Worker
pub mod Keeps
pub mod Invariant
pub mod Reopen
pub mod Summary
mod Tests
