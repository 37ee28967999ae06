-- ===== src/TextArchive.antt =====
-- The import of text batches, scripts/text_archive: the attempt records of attempts.py and the drain
-- loop of importer.py.
pub mod Attempts
pub mod Drain
mod Tests
