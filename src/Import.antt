-- ===== src/Import.antt =====
-- Importing members: internal/features/admin/member_import.
pub mod Documents
pub mod Batch
pub mod Counting
pub mod Totals
pub mod Variants
mod Examples
