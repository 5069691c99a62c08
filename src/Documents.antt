-- ===== src/Documents.antt =====
-- The pipeline of a document: app/services/processing_orchestrator_service.py,
-- app/services/research_extraction_service.py and the tasks that call them.
pub mod World
pub mod Select
pub mod Semantic
pub mod Chunks
pub mod Extract
pub mod Entities
pub mod Units
pub mod Transcribe
pub mod Pipeline
pub mod Recovery
pub mod Samples
mod Tests
