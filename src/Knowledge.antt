-- ===== src/Knowledge.antt =====
-- The knowledge base: the review of documents, and who may review them.
pub mod Review
pub mod Reviewers
pub mod Chunking
pub mod Tagging
pub mod Lifecycle
pub mod Chunks
