-- ===== src/Jobs.antt =====
-- hostagent/jobs.py, hostagent/journal.py, hostagent/journalread.py and platformlib/storeimpl/jobs.py:
-- the one job at a time of the agent and its durable records.
pub mod Rows
pub mod Journal
pub mod Durable
pub mod Restarts
pub mod Paging
pub mod Pages
pub mod Reading
pub mod Kinds
pub mod Manager
pub mod Lease
pub mod Workers
pub mod Samples
