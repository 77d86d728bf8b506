-- ===== src/Tests.antt =====
-- The theorems at concrete inputs.
mod Locks
mod Managers
mod Cells
mod Incremental
mod Queries
mod Tiles
mod Directories
mod Descriptions
mod Columns
