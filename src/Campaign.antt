-- ===== src/Campaign.antt =====
-- The campaigns over the importer: scripts that plant one defect at a time, and require that the tests
-- named for it go red while their companions stay green.
pub mod Suite
pub mod Runner
pub mod Uploads
pub mod LinearDates
pub mod JiraAdf
pub mod JiraResolution
pub mod RunnerShutdown
pub mod JobsUpload
pub mod Restored
pub mod Verdicts
pub mod Sweeps
pub mod Caught
