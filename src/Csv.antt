-- ===== src/Csv.antt =====
-- The CSV front end of systemrdl_api.cpp: `CSVRow` and the class `CSVParser`, by stages.
pub mod Clean
pub mod Scan
pub mod Header
pub mod Row
pub mod Validate
pub mod Content
