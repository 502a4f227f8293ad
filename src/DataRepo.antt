-- ===== src/DataRepo.antt =====
-- fvdb/utils/_data_repo.py: snapshots of GitHub repositories, cached on disk.
pub mod Text
pub mod Names
pub mod Tree
pub mod Snapshot
pub mod Fetch
