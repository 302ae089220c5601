-- ===== src/Filesets.antt =====
-- internal/filesets/index.go: the index of a fileset and the difference of two indexes.
pub mod Index
pub mod Diff
pub mod Local
mod Tests
